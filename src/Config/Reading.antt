-- ===== src/Config/Reading.antt =====
-- Reading the lines of a device in `Server::parse_configfile` of server/server.cpp.
use pmlib.Prelude.{
  ℕ, suc, ◌+◌, ◌<◌, ◌≡◌, refl, sym, ◌∙◌, ap, Bool, true, false, not, ◌&&◌, Option, none, some, List,
  [], ◌∷◌, length, get_or, set, ◌==◌, ==_iff, codes, if◌then◌else◌, arith, All, Bool-cases, ◌⊎◌,
  inl, inr, length-set,
}
use pmlib.Map.{Map, Name, name_key, nat_key, find, insert_or_assign, find-insert, find-insert_cases}
use pmlib.Outcome.{M, ◌>>=◌, pure, Post, after-Post, after}
use pmlib.Floating.{Floating}
use pmlib.Device.{Device, Line, Computer, is_some, register_line}
use pmlib.Device.Lines.{IsLine}
use pmlib.Device.Invariant.{IsWired}
use pmlib.Drivers.{unknown_computer}
use pmlib.Config.{
  Json, Parsing, Lines, json, index, value_or, get_as, string_at, computer_named, found_computer,
  computer_of, parse_line, parse_lines,
}
use pmlib.Config.Numbers.{seen, all_seen, seen-set, get_or-set, check_number-cases}

module _ {R : Type 0} where
  -- A sound device that no counter uses.
  pub record IsIdle (d : Device R) : Type 0 where
    pub wired : IsWired d
    pub unused : d.counter_map ≡ []
    pub unheld : (l : ℕ) (x : Line R) → find l d.lines ≡ some x → x.enabled ≡ 0

  abbrev pub DevicesWired : Map Name (Device R) → Type 0
  DevicesWired m = (name : Name) (d : Device R) → find name m ≡ some d → IsIdle d

  abbrev pub IsGood : Parsing R → Type 0
  IsGood p = DevicesWired p.devices

  -- A step that leaves the devices sound, whether it returns or throws.
  abbrev pub IsCalm {ℓ} : {A : Type ℓ} → M (Parsing R) A → Type 0
  IsCalm m = (p : Parsing R) → IsGood p → Post (λ _. IsGood) IsGood (m p)

  pub calm-after {ℓ κ} :
      {A : Type ℓ} {B : Type κ} (P : B → Parsing R → Type 0) (m : M (Parsing R) A)
      (f : A → M (Parsing R) B) (p : Parsing R)
      → IsCalm m
      → IsGood p
      → ((a : A) (p' : Parsing R) → IsGood p' → Post P IsGood (f a p'))
      → Post P IsGood (after (m p) f)
  calm-after P m f p c g h = after-Post (λ _. IsGood) P IsGood (m p) f (c p g) h

  if-IsCalm {ℓ} :
      {A : Type ℓ} (t : Bool) (m n : M (Parsing R) A)
      → IsCalm m
      → IsCalm n
      → IsCalm (if t then m else n)
  if-IsCalm true m n a b = a
  if-IsCalm false m n a b = b

  -- What the loop over the lines of a device with `n` lines keeps, with `k` lines to come.
  pub record IsReading (n k : ℕ) (s : Lines R) : Type 0 where
    pub size : s.dev.n_lines ≡ n
    pub boxes : length s.check ≡ n
    pub rest : seen s.check + k ≡ n
    pub there : (l : ℕ) → get_or s.check l false ≡ true → IsLine s.dev.lines l
    pub within : All (λ e. e.0 < n) s.dev.lines
    pub unheld : (l : ℕ) (x : Line R) → find l s.dev.lines ≡ some x → x.enabled ≡ 0
    pub unused : s.dev.counter_map ≡ []
    pub fast : 0 < s.dev.max_frequency

  within-insert :
      (n k : ℕ) (x : Line R) (m : Map ℕ (Line R))
      → k < n
      → All (λ e. e.0 < n) m
      → All (λ e. e.0 < n) (insert_or_assign k x m)
  within-insert n k x [] h a = (h, tt)
  within-insert n k x ((j, y) ∷ m) h a = ground (arith, within-insert n k x m h a.1)

  IsLine-insert :
      (k l : ℕ) (x : Line R) (m : Map ℕ (Line R))
      → (k ≡ l) ⊎ IsLine m l
      → IsLine (insert_or_assign k x m) l
  IsLine-insert k l x m (inl e) = (x, find-insert l k x m ∙ rw e (ground (arith, ==_iff l l)))
  IsLine-insert k l x m (inr (y, e)) = elim (Bool-cases (k == l)) [
    | inl h ↦ (x, find-insert l k x m ∙ rw h refl)
    | inr h ↦ (y, find-insert l k x m ∙ rw (h, e) refl)
  ]

  -- All lines are there in the end.
  IsReading-IsWired : (n : ℕ) (s : Lines R) → IsReading n 0 s → IsWired s.dev
  IsReading-IsWired n s h = record {
    present = λ l lt.
        h.there l (all_seen s.check l (omega (arith, h.rest, h.boxes)) (rw (h.boxes, ← h.size) lt));
    within = rw h.size h.within;
    unique = rw h.unused tt;
    fast = h.fast;
    counted = λ l x lt e. rw h.unused (h.unheld l x e);
  }

  pub IsReading-IsIdle : (n : ℕ) (s : Lines R) → IsReading n 0 s → IsIdle s.dev
  IsReading-IsIdle n s h = record {
    wired = IsReading-IsWired n s h;
    unused = h.unused;
    unheld = h.unheld;
  }

  -- A line with a number that is new.
  register_line-IsReading :
      (n k number : ℕ) (s : Lines R) (name description metric : Name) (c : Computer)
      (volts offset slope : R)
      → IsReading n (suc k) s
      → number < length s.check
      → get_or s.check number false ≡ false
      → IsReading n k (record {
        check = set s.check number true;
        dev = register_line name description metric number c volts offset slope s.dev;
      })
  unfolding register_line
  register_line-IsReading n k number s name description metric c volts offset slope h lt new =
      record {
        size = h.size;
        boxes = length-set s.check number true ∙ h.boxes;
        rest = omega (arith, seen-set s.check number lt new, h.rest);
        there = λ l e.
            IsLine-insert number l _ s.dev.lines (there_cases l (get_or-set s.check number l e));
        within = within-insert n number _ s.dev.lines (omega (arith, h.boxes)) h.within;
        unheld = λ l x e. unheld_cases l x (find-insert_cases l number _ x s.dev.lines e) refl;
        unused = h.unused;
        fast = h.fast;
      }
    where
      there_cases :
          (l : ℕ)
          → (number ≡ l) ⊎ (get_or s.check l false ≡ true)
          → (number ≡ l) ⊎ IsLine s.dev.lines l
      there_cases l (inl e) = inl e
      there_cases l (inr e) = inr (h.there l e)

      unheld_cases :
          (l : ℕ) {y : Line R} (x : Line R)
          → (y ≡ x) ⊎ (find l s.dev.lines ≡ some x)
          → y.enabled ≡ 0
          → x.enabled ≡ 0
      unheld_cases l x (inl e) z = ap (λ (t : Line R). t.enabled) (sym e) ∙ z
      unheld_cases l x (inr e) z = h.unheld l x e

module _ {V R : Type 0} (j : Json V R) where
  pub json-IsCalm {ℓ} : {A : Type ℓ} (r : Option A) → IsCalm {R = R} (json j r)
  json-IsCalm none p g = g
  json-IsCalm (some a) p g = g

  pub index-IsCalm : (v : V) (k : Name) → IsCalm {R = R} (index j v k)
  index-IsCalm v k p g =
      calm-after (λ _. IsGood) (json j (j.member v k)) _ p (json-IsCalm (j.member v k)) g
        (λ _ p' g'. g')

  value_or-IsCalm {ℓ} :
      {A : Type ℓ} (read : V → Option A) (d : A) (o : Option V)
      → IsCalm {R = R} (value_or j read d o)
  value_or-IsCalm read d none p g = g
  value_or-IsCalm read d (some v) p g = json-IsCalm (read v) p g

  pub get_as-IsCalm {ℓ} :
      {A : Type ℓ} (read : V → Option A) (v : V) (k : Name) (d : A)
      → IsCalm {R = R} (get_as j read v k d)
  get_as-IsCalm read v k d p g =
      calm-after (λ _. IsGood) (json j (j.member v k)) _ p (json-IsCalm (j.member v k)) g
        (λ m. value_or-IsCalm read d m)

  pub string_at-IsCalm : (v : V) (k : Name) → IsCalm {R = R} (string_at j v k)
  string_at-IsCalm v k p g =
      calm-after (λ _. IsGood) (index j v k) _ p (index-IsCalm v k) g
        (λ w. json-IsCalm (j.as_string w))

  computer_named-IsCalm : (name : Name) → IsCalm {R = R} (computer_named j name)
  unfolding computer_named
  computer_named-IsCalm name p g = g

  found_computer-IsCalm : (t : Bool) (name : Name) → IsCalm {R = R} (found_computer j t name)
  found_computer-IsCalm t name p g =
      elim (Bool-cases (t && not (is_some (find name p.computers)))) [
        | inl h ↦ rw h g
        | inr h ↦ rw h (computer_named-IsCalm name p g)
      ]

  pub computer_of-IsCalm : (t : Bool) (v : V) → IsCalm {R = R} (computer_of j t v)
  unfolding computer_of
  computer_of-IsCalm t v p g =
      calm-after (λ _. IsGood) (index j v (codes "computer")) _ p (index-IsCalm v _) g
        λ c p' g'.
          if-IsCalm (t && j.is_null c) (pure unknown_computer) _ (λ p g. g)
            (λ p g.
              calm-after (λ _. IsGood) (json j (j.as_string c)) _ p (json-IsCalm (j.as_string c)) g
                λ name. found_computer-IsCalm t name)
            p' g'

  module _ ⦃f : Floating R⦄ where
    abbrev pub IsRead : ℕ → ℕ → Lines R → Parsing R → Type 0
    IsRead n k s p = IsReading n k s × IsGood p

    -- The rest of `parse_line`, once the line's number has passed.
    abbrev line_with : ℕ → List Bool → Lines R → Name → V → M (Parsing R) (Lines R)
    line_with number check s ln l = do
      c ← computer_of j s.dev.pdu l
      description ← string_at j l (codes "description")
      metric ← get_as j j.as_string l (codes "metric") (codes "default")
      voltage ← index j l (codes "voltage")
      volts ← json j (j.as_float voltage)
      offset ← get_as j j.as_float l (codes "offset") (f.of_ℕ 0)
      slope ← get_as j j.as_float l (codes "slope") (f.of_ℕ 0)
      pure (record {
        check = check;
        dev = register_line ln description metric number c volts offset slope s.dev;
      })

    line_with-IsReading :
        (n k number : ℕ) (s : Lines R) (ln : Name) (l : V) (p : Parsing R)
        → IsReading n (suc k) s
        → IsGood p
        → number < length s.check
        → get_or s.check number false ≡ false
        → Post (IsRead n k) IsGood (line_with number (set s.check number true) s ln l p)
    line_with-IsReading n k number s ln l p h g lt new =
        let P = IsRead n k in
        calm-after P (computer_of j s.dev.pdu l) _ p (computer_of-IsCalm s.dev.pdu l) g λ c p g.
          calm-after P (string_at j l (codes "description")) _ p (string_at-IsCalm l _) g
            λ description p g.
              calm-after P (get_as j j.as_string l (codes "metric") (codes "default")) _ p
                (get_as-IsCalm j.as_string l _ _) g
                λ metric p g.
                  calm-after P (index j l (codes "voltage")) _ p (index-IsCalm l _) g λ voltage p g.
                    calm-after P (json j (j.as_float voltage)) _ p
                      (json-IsCalm (j.as_float voltage)) g
                      λ volts p g.
                        calm-after P (get_as j j.as_float l (codes "offset") (f.of_ℕ 0)) _ p
                          (get_as-IsCalm j.as_float l _ _) g
                          λ offset p g.
                            calm-after P (get_as j j.as_float l (codes "slope") (f.of_ℕ 0)) _ p
                              (get_as-IsCalm j.as_float l _ _) g
                              λ slope p g. (
                                register_line-IsReading n k number s ln description metric c volts
                                    offset slope h lt new,
                                g,
                              )

    parse_line-IsReading :
        (n k : ℕ) (lines : V) (s : Lines R) (ln : Name) (p : Parsing R)
        → IsReading n (suc k) s
        → IsGood p
        → Post (IsRead n k) IsGood (parse_line j lines s ln p)
    unfolding parse_line
    parse_line-IsReading n k lines s ln p h g =
        let P = IsRead n k in
        calm-after P (index j lines ln) _ p (index-IsCalm lines ln) g λ l p g.
          calm-after P (index j l (codes "number")) _ p (index-IsCalm l _) g λ w p g.
            calm-after P (json j (j.as_int w)) _ p (json-IsCalm (j.as_int w)) g λ z p g.
              elim (check_number-cases z s.check) [
                | inl (e, q) ↦ rw q g
                | inr (number, q, lt, new) ↦
                    rw q (line_with-IsReading n k number s ln l p h g lt new)
              ]

    pub parse_lines-IsReading :
        (n : ℕ) (lines : V) (names : List Name) (s : Lines R) (p : Parsing R)
        → IsReading n (length names) s
        → IsGood p
        → Post (IsRead n 0) IsGood (parse_lines j lines s names p)
    unfolding parse_lines
    parse_lines-IsReading n lines [] s p h g = (h, g)
    parse_lines-IsReading n lines (ln ∷ names) s p h g =
        after-Post (IsRead n (length names)) (IsRead n 0) IsGood (parse_line j lines s ln p) _
          (parse_line-IsReading n (length names) lines s ln p h g)
          λ s' p' (h', g'). parse_lines-IsReading n lines names s' p' h' g'
