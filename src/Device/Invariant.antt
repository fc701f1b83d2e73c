-- ===== src/Device/Invariant.antt =====
-- The invariant of a device whose lines are all registered (server/device.cpp), and the operations
-- that counters and the sampling thread call.
use pmlib.Prelude.{
  ℕ, ◌<◌, ◌≤◌, ◌≡◌, refl, ◌∙◌, true, false, Option, none, some, List, [], ◌∷◌, arith, All, All-map,
  ◌==◌, ==_iff, if◌then◌else◌, Bool-cases, Option-cases, ◌⊎◌, inl, inr, length, get_elem?,
  get_elem?-some, length-append,
}
use pmlib.Map.{Map, nat_key, find, adjust, insert_or_assign, erase, find-insert, find-erase}
use pmlib.Outcome.{ok}
use pmlib.Device.{
  Line, Attached, Device, on_lines, enable, activate, deactivate, release_line, is_active,
  push_back, push_lines, push_back_data, register_counter, deregister_counter, start_counter,
  stop_counter, with_lines,
}
use pmlib.Device.Lines.{
  contains, IsRising, IsLine, adjust_all, IsLine-adjust_all, on_lines-adjust_all, find-adjust_all,
}
use pmlib.Device.Holders.{
  holders, IsUnique, IsUnique-insert, IsUnique-erase, holders-insert, holders-erase, holders_pos,
}

-- Lines as `set_lines` makes them: rising, and all of them the device's.
abbrev pub IsSelection : ℕ → List ℕ → Type 0
IsSelection n ls = IsRising 0 ls × All (λ l. l < n) ls

abbrev pub stored : {R : Type 0} → Option (Line R) → ℕ
stored none = 0
stored (some x) = length x.samples

-- How many samples a line has.
abbrev pub size_of : {R : Type 0} → ℕ → Map ℕ (Line R) → ℕ
size_of l m = stored (find l m)

pub record IsWired {R : Type 0} (d : Device R) : Type 0 where
  pub present : (l : ℕ) → l < d.n_lines → IsLine d.lines l
  pub within : All (λ e. e.0 < d.n_lines) d.lines
  pub unique : IsUnique d.counter_map
  pub fast : 0 < d.max_frequency
  pub counted :
      (l : ℕ) (x : Line R)
      → l < d.n_lines
      → find l d.lines ≡ some x
      → x.enabled ≡ holders l d.counter_map

module _ {R : Type 0} where
  within-adjust_all :
      (n : ℕ) (ls : List ℕ) (f : Line R → Line R) (m : Map ℕ (Line R))
      → All (λ e. e.0 < n) m
      → All (λ e. e.0 < n) (adjust_all ls f m)
  within-adjust_all n [] f m h = h
  within-adjust_all n (l ∷ ls) f m h = within-adjust_all n ls f (adjust l f m) (one l m h)
    where
      one : (l : ℕ) (m : Map ℕ (Line R)) → All (λ e. e.0 < n) m → All (λ e. e.0 < n) (adjust l f m)
      one l [] h = tt
      one l ((i, x) ∷ m) h = ground (arith, one l m h.1)

  module _ (d : Device R) (w : IsWired d) (ls : List ℕ) (sel : IsSelection d.n_lines ls) where
    pub on_lines_lem : (f : Line R → Line R) → on_lines f ls d.lines ≡ ok (adjust_all ls f d.lines)
    on_lines_lem f =
        on_lines-adjust_all f ls d.lines (All-map _ (IsLine d.lines) w.present ls sel.1)

    -- A loop over the lines that leaves `enabled` alone.
    pub IsWired-adjust_all :
        (f : Line R → Line R)
        → ((x : Line R) → (f x).enabled ≡ x.enabled)
        → IsWired (with_lines d (adjust_all ls f d.lines))
    IsWired-adjust_all f keep = record {
      present = λ l h. IsLine-adjust_all ls l f d.lines (w.present l h);
      within = within-adjust_all d.n_lines ls f d.lines w.within;
      unique = w.unique;
      fast = w.fast;
      counted = λ l y h e.
          let (x, p) = w.present l h in
          ground (arith, keep x, w.counted l x h p, find-adjust_all 0 ls l f d.lines x sel.0 p);
    }

    size_of-adjust_all :
        (f : Line R → Line R) (l : ℕ)
        → ((x : Line R) → (f x).samples ≡ x.samples)
        → l < d.n_lines
        → size_of l (adjust_all ls f d.lines) ≡ size_of l d.lines
    size_of-adjust_all f l keep h =
        let (x, p) = w.present l h in
        ground (arith, keep x, find-adjust_all 0 ls l f d.lines x sel.0 p)

-- What a counter `own` relies on while other threads use the device: the invariant stands, `own` is
-- still registered, and its lines have lost no sample.
pub record Evolves {R : Type 0} (own : Attached) (d d' : Device R) : Type 0 where
  pub wired : IsWired d'
  pub same_lines : d'.n_lines ≡ d.n_lines
  pub registered : find own.id d'.counter_map ≡ some own
  pub grows :
      (l : ℕ) → l < d.n_lines → contains own.lines l ≡ true → size_of l d.lines ≤ size_of l d'.lines

-- What `register_counter` makes of a device.
abbrev pub with_counter : {R : Type 0} → Attached → Device R → Device R
with_counter c d = record d {
  lines = adjust_all c.lines enable d.lines;
  counter_map = insert_or_assign c.id c d.counter_map;
}

module _ {R : Type 0} (d : Device R) (w : IsWired d) (c : Attached)
    (sel : IsSelection d.n_lines c.lines) (fresh : find c.id d.counter_map ≡ none) where
  pub register_counter-IsWired : IsWired (with_counter c d)
  register_counter-IsWired = record {
    present = λ l h. IsLine-adjust_all c.lines l enable d.lines (w.present l h);
    within = within-adjust_all d.n_lines c.lines enable d.lines w.within;
    unique = IsUnique-insert c.id c d.counter_map fresh w.unique;
    fast = w.fast;
    counted = λ l y h e.
        let (x, p) = w.present l h in
        ground (
          arith,
          w.counted l x h p,
          find-adjust_all 0 c.lines l enable d.lines x sel.0 p,
          holders-insert l c.id c d.counter_map fresh,
        );
  }

  pub register_counter-with_counter : register_counter c d ≡ ok (with_counter c d)
  unfolding register_counter
  register_counter-with_counter = rw (on_lines_lem d w c.lines sel enable) refl

-- What `deregister_counter` leaves of a device.
abbrev pub without : {R : Type 0} → Attached → Device R → Device R
without c d = record d {
  lines = adjust_all c.lines release_line d.lines;
  counter_map = erase c.id d.counter_map;
}

module _ {R : Type 0} (d : Device R) (w : IsWired d) (c : Attached)
    (sel : IsSelection d.n_lines c.lines) (e : find c.id d.counter_map ≡ some c) where
  pub deregister_counter-IsWired : IsWired (without c d)
  deregister_counter-IsWired = record {
    present = λ l h. IsLine-adjust_all c.lines l release_line d.lines (w.present l h);
    within = within-adjust_all d.n_lines c.lines release_line d.lines w.within;
    unique = IsUnique-erase c.id d.counter_map w.unique;
    fast = w.fast;
    counted = λ l y h p'.
        let (x, p) = w.present l h in
        ground (
          arith,
          w.counted l x h p,
          find-adjust_all 0 c.lines l release_line d.lines x sel.0 p,
          holders-erase l c.id c d.counter_map w.unique e,
        );
  }

  pub deregister_counter-without : deregister_counter c d ≡ ok (without c d)
  unfolding deregister_counter
  deregister_counter-without = rw e (rw (on_lines_lem d w c.lines sel release_line) refl)

module _ {R : Type 0} (own : Attached) (d : Device R) (w : IsWired d)
    (reg : find own.id d.counter_map ≡ some own) where
  module _ (ls : List ℕ) (sel : IsSelection d.n_lines ls) where
    pub start_counter-Evolves :
        (d' : Device R) × (start_counter ls d ≡ ok d')
        × Evolves own d d'
        × (d' ≡ with_lines d (adjust_all ls activate d.lines))
    unfolding start_counter
    start_counter-Evolves = (
      with_lines d (adjust_all ls activate d.lines),
      rw (on_lines_lem d w ls sel activate),
      record {
        wired = IsWired-adjust_all d w ls sel activate (λ x. refl);
        same_lines = refl;
        registered = reg;
        grows = λ l h _. omega (arith, size_of-adjust_all d w ls sel activate l (λ x. refl) h);
      },
      refl,
    )

    pub stop_counter-Evolves :
        (d' : Device R) × (stop_counter ls d ≡ ok d')
        × Evolves own d d'
        × (d' ≡ with_lines d (adjust_all ls deactivate d.lines))
    unfolding stop_counter
    stop_counter-Evolves = (
      with_lines d (adjust_all ls deactivate d.lines),
      rw (on_lines_lem d w ls sel deactivate),
      record {
        wired = IsWired-adjust_all d w ls sel deactivate (λ x. ground arith);
        same_lines = refl;
        registered = reg;
        grows = λ l h _.
            omega (arith, size_of-adjust_all d w ls sel deactivate l (λ x. ground arith) h);
      },
      refl,
    )

  module _ (c : Attached) (sel : IsSelection d.n_lines c.lines) where
    pub register_counter-Evolves :
        find c.id d.counter_map ≡ none
        → (d' : Device R) × (register_counter c d ≡ ok d') × Evolves own d d'
    unfolding register_counter
    register_counter-Evolves fresh = (
      record d {
        lines = adjust_all c.lines enable d.lines;
        counter_map = insert_or_assign c.id c d.counter_map;
      },
      rw (on_lines_lem d w c.lines sel enable),
      record {
        wired = register_counter-IsWired d w c sel fresh;
        same_lines = refl;
        registered = find-insert own.id c.id c d.counter_map ∙ ground (arith, ==_iff c.id own.id);
        grows = λ l h _. omega (arith, size_of-adjust_all d w c.lines sel enable l (λ x. refl) h);
      },
    )

  module _ (c : Attached) (sel : IsSelection d.n_lines c.lines) where
    pub released_grows :
        (l : ℕ)
        → l < d.n_lines
        → contains own.lines l ≡ true
        → find c.id d.counter_map ≡ some c
        → (c.id == own.id) ≡ false
        → size_of l d.lines ≤ size_of l (adjust_all c.lines release_line d.lines)
    released_grows l h held e other =
        let (x, p) = w.present l h in
        ground (
          arith,
          w.counted l x h p,
          find-adjust_all 0 c.lines l release_line d.lines x sel.0 p,
          holders-erase l c.id c d.counter_map w.unique e,
          holders_pos l own.id own (erase c.id d.counter_map)
              (find-erase own.id c.id d.counter_map ∙ rw other reg) held,
        )

    -- Another counter leaves.
    pub deregister_counter-Evolves :
        (find c.id d.counter_map ≡ none) ⊎ (find c.id d.counter_map ≡ some c)
        → (c.id == own.id) ≡ false
        → (d' : Device R) × (deregister_counter c d ≡ ok d') × Evolves own d d'
    unfolding deregister_counter
    deregister_counter-Evolves (inl e) other = (
      d,
      rw e,
      record { wired = w; same_lines = refl; registered = reg; grows = λ l h _. omega arith },
    )
    deregister_counter-Evolves (inr e) other = (
      record d {
        lines = adjust_all c.lines release_line d.lines;
        counter_map = erase c.id d.counter_map;
      },
      rw e (rw (on_lines_lem d w c.lines sel release_line)),
      record {
        wired = deregister_counter-IsWired d w c sel e;
        same_lines = refl;
        registered = find-erase own.id c.id d.counter_map ∙ rw other reg;
        grows = λ l h held. released_grows l h held e other;
      },
    )

-- What one sample does to one line.
abbrev pub pushed : {R : Type 0} → List R → ℕ → Line R → Line R
pushed sample l x =
    if is_active x then elim (get_elem? sample l) [ none ↦ x | some r ↦ push_back r x ] else x

abbrev pub push_all : {R : Type 0} → List R → Map ℕ (Line R) → Map ℕ (Line R)
push_all sample [] = []
push_all sample ((l, x) ∷ m) = (l, pushed sample l x) ∷ push_all sample m

module _ {R : Type 0} (sample : List R) where
  pub push_lines-push_all :
      (m : Map ℕ (Line R))
      → All (λ e. e.0 < length sample) m
      → push_lines sample m ≡ ok (push_all sample m)
  unfolding push_lines
  push_lines-push_all [] h = refl
  push_lines-push_all ((l, x) ∷ m) h =
      ground (arith, push_lines-push_all m h.1, get_elem?-some sample l h.0)

  pub find-push_all :
      (l : ℕ) (m : Map ℕ (Line R)) (x : Line R)
      → find l m ≡ some x
      → find l (push_all sample m) ≡ some (pushed sample l x)
  find-push_all l [] x e = cc
  find-push_all l ((i, y) ∷ m) x e = elim (Bool-cases (i == l)) [
    | inl h ↦ rw h (ground (arith, ==_iff i l))
    | inr h ↦ rw h (find-push_all l m x (ground arith))
  ]

  pub within-push_all :
      (n : ℕ) (m : Map ℕ (Line R)) → All (λ e. e.0 < n) m → All (λ e. e.0 < n) (push_all sample m)
  within-push_all n [] h = h
  within-push_all n ((i, y) ∷ m) h = (h.0, within-push_all n m h.1)

  length-pushed : (l : ℕ) (x : Line R) → length x.samples ≤ length (pushed sample l x).samples
  length-pushed l x = elim (Option-cases (get_elem? sample l)) [
    | inl e ↦ rw e (ground arith)
    | inr (r, e) ↦ rw e (ground (arith, length-append x.samples (r ∷ [])))
  ]

  pub push_all-IsWired :
      (d : Device R) → IsWired d → IsWired (with_lines d (push_all sample d.lines))
  push_all-IsWired d w = record {
    present =
        λ l h. (pushed sample l (w.present l h).0, find-push_all l d.lines _ (w.present l h).1);
    within = within-push_all d.n_lines d.lines w.within;
    unique = w.unique;
    fast = w.fast;
    counted = λ l y h p'.
        let (x, p) = w.present l h in
        ground (arith, w.counted l x h p, find-push_all l d.lines x p);
  }

module _ {R : Type 0} (own : Attached) (d : Device R) (w : IsWired d)
    (reg : find own.id d.counter_map ≡ some own) where
  -- A sample with a value for each line arrives: no line of `own` loses a sample.
  pub push_back_data-Evolves :
      (sample : List R)
      → length sample ≡ d.n_lines
      → (d' : Device R) × (push_back_data sample d ≡ ok d') × Evolves own d d'
  unfolding push_back_data
  push_back_data-Evolves sample e = (
    with_lines d (push_all sample d.lines),
    rw (push_lines-push_all sample d.lines (rw e w.within)),
    record {
      wired = push_all-IsWired sample d w;
      same_lines = refl;
      registered = reg;
      grows = λ l h held.
          let (x, p) = w.present l h in
          rw (p, find-push_all sample l d.lines x p) (length-pushed sample l x);
    },
  )
