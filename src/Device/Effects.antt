-- ===== src/Device/Effects.antt =====
-- What the operations of server/device.cpp do to a sound device and what they leave alone: a counter
-- that leaves, and a sample that arrives.
use pmlib.Prelude.{
  ℕ, ◌<◌, ◌≡◌, refl, ◌∙◌, ap, true, false, none, some, List, [], ◌∷◌, arith, All, ◌==◌, ==_iff,
  if◌then◌else◌, Bool-cases, ◌⊎◌, inl, inr, length, get_elem?, get_elem?-some,
}
use pmlib.Map.{Map, nat_key, find, erase, find-erase}
use pmlib.Outcome.{ok}
use pmlib.Device.{
  Line, Attached, Device, with_lines, release_line, is_active, push_back, push_back_data,
  deregister_counter,
}
use pmlib.Device.Lines.{contains, find-adjust_all}
use pmlib.Device.Holders.{holders_pos, holders-erase}
use pmlib.Device.Invariant.{
  IsWired, IsSelection, without, deregister_counter-IsWired, deregister_counter-without, pushed,
  push_all, push_lines-push_all, find-push_all, push_all-IsWired,
}

find-within :
    {V : Type 0} (n l : ℕ) (m : Map ℕ V) (x : V) → All (λ e. e.0 < n) m → find l m ≡ some x → l < n
find-within n l [] x h e = absurd (ground arith)
find-within n l ((i, y) ∷ m) x h e = elim (Bool-cases (i == l)) [
  | inl q ↦ let same : i ≡ l = (==_iff i l).0 q in omega (arith, same, h.0)
  | inr q ↦ find-within n l m x h.1 (ground arith)
]

module _ {R : Type 0} where
  -- Another counter that was registered still is, and its lines have the samples that they had.
  abbrev pub KeepsOthers : Device R → Attached → Device R → Type 0
  KeepsOthers d c d' =
      (own : Attached)
      → find own.id d.counter_map ≡ some own
      → (c.id == own.id) ≡ false
      → (find own.id d'.counter_map ≡ some own)
        × ((l : ℕ) (x : Line R)
            → contains own.lines l ≡ true
            → find l d.lines ≡ some x
            → (y : Line R) × (find l d'.lines ≡ some y) × (y.samples ≡ x.samples))

module _ {R : Type 0} (d : Device R) (w : IsWired d) where
  -- What a line has left of its samples when a counter leaves that is not its only holder.
  kept_samples :
      (c own : Attached) (l : ℕ) (x : Line R)
      → IsSelection d.n_lines c.lines
      → find c.id d.counter_map ≡ some c
      → find own.id d.counter_map ≡ some own
      → (c.id == own.id) ≡ false
      → contains own.lines l ≡ true
      → find l d.lines ≡ some x
      → (if contains c.lines l then release_line x else x).samples ≡ x.samples
  kept_samples c own l x sel e reg other held p = ground (
    arith,
    w.counted l x (find-within d.n_lines l d.lines x w.within p) p,
    holders-erase l c.id c d.counter_map w.unique e,
    holders_pos l own.id own (erase c.id d.counter_map)
        (find-erase own.id c.id d.counter_map ∙ rw other reg) held,
  )

  -- When a counter leaves a sound device, registered or not, the operation succeeds and the
  -- invariant stays, the counter is not registered any more, and nothing but the lines and the
  -- registered counters has changed. Every other registered counter stays so, and each line that it
  -- holds has the samples that it had.
  pub deregister_counter_lem :
      (c : Attached)
      → IsSelection d.n_lines c.lines
      → (find c.id d.counter_map ≡ none) ⊎ (find c.id d.counter_map ≡ some c)
      → (d' : Device R) × (deregister_counter c d ≡ ok d')
        × IsWired d'
        × (find c.id d'.counter_map ≡ none)
        × (d' ≡ record d { lines = d'.lines; counter_map = d'.counter_map })
        × KeepsOthers d c d'
  unfolding deregister_counter
  deregister_counter_lem c sel (inl e) =
      (d, rw e refl, w, e, refl, λ own reg other. (reg, λ l x held p. (x, p, refl)))
  deregister_counter_lem c sel (inr e) = (
    without c d,
    deregister_counter-without d w c sel e,
    deregister_counter-IsWired d w c sel e,
    find-erase c.id c.id d.counter_map ∙ ground (arith, ==_iff c.id c.id),
    refl,
    λ own reg other. (
      find-erase own.id c.id d.counter_map ∙ rw other reg,
      λ l x held p. (
        (if contains c.lines l then release_line x else x),
        find-adjust_all 0 c.lines l release_line d.lines x sel.0 p,
        kept_samples c own l x sel e reg other held p,
      ),
    ),
  )

  find-push_all-none :
      (sample : List R) (l : ℕ) (m : Map ℕ (Line R))
      → find l m ≡ none
      → find l (push_all sample m) ≡ none
  find-push_all-none sample l [] e = refl
  find-push_all-none sample l ((i, y) ∷ m) e = elim (Bool-cases (i == l)) [
    | inl h ↦ absurd (ground arith)
    | inr h ↦ rw h (find-push_all-none sample l m (ground arith))
  ]

  pushed_value :
      (sample : List R) (l : ℕ) (x : Line R) (r : R)
      → get_elem? sample l ≡ some r
      → pushed sample l x ≡ (if is_active x then push_back r x else x)
  pushed_value sample l x r e = rw e (ground arith)

  -- A sample with a value for each line of a sound device is taken without undefined behaviour, and
  -- the invariant stays. Each line that is active has the value at its number behind the samples
  -- that it had; the other lines, and all else in the device, are as they were, and there are no
  -- new lines.
  pub push_back_data_lem :
      (sample : List R)
      → length sample ≡ d.n_lines
      → (d' : Device R) × (push_back_data sample d ≡ ok d')
        × IsWired d'
        × (d' ≡ with_lines d d'.lines)
        × ((l : ℕ) → find l d.lines ≡ none → find l d'.lines ≡ none)
        × ((l : ℕ) (x : Line R)
            → find l d.lines ≡ some x
            → (r : R) × (get_elem? sample l ≡ some r)
              × (find l d'.lines ≡ some (if is_active x then push_back r x else x)))
  unfolding push_back_data
  push_back_data_lem sample e = (
    with_lines d (push_all sample d.lines),
    rw (push_lines-push_all sample d.lines (rw e w.within)) refl,
    push_all-IsWired sample d w,
    refl,
    λ l p. find-push_all-none sample l d.lines p,
    λ l x p.
        let lt = find-within d.n_lines l d.lines x w.within p in
        let (r, at) = get_elem?-some sample l (omega (arith, e)) in
        (r, at, find-push_all sample l d.lines x p ∙ ap some (pushed_value sample l x r at)),
  )
