-- ===== src/Counter/Resample.antt =====
-- `Counter::get` (server/counter.cpp) on closed sets and a positive interval: the samples that it
-- reads, and the shortest resampled line of a set.
use pmlib.Prelude.{
  ℕ, suc, ◌+◌, ◌-◌, ◌*◌, ◌/◌, ◌<◌, ◌≤◌, ◌≡◌, refl, ◌∙◌, ap, some, List, [], ◌∷◌, ◌++◌, arith, All,
  ◌==◌, if◌then◌else◌, Bool-cases, inl, inr, length, min, get_elem?-some, take, drop, le→leb,
}
use pmlib.Prelude.Int.{ℤ, pos, min_ℤ, quot-pos, -ℤ-pos, +ℤ-pos}
use pmlib.Map.{Map, nat_key, find}
use pmlib.Outcome.{ok}
use pmlib.Floating.{Floating}
use pmlib.Device.{Line, Device, get_line_data}
use pmlib.Device.Lines.{IsRising, IsLine}
use pmlib.Device.Invariant.{size_of}
use pmlib.Counter.Reply.{
  Recording, offset, end_of, resampled, min_len_from, min_len_of, stop_of, line_samples,
  set_samples, keep_every, range, add_line, add_lines,
}

-- The samples that a closed set has of a line at stride `suc k`.
abbrev pub quota : ℕ → Map ℕ ℕ → Map ℕ ℕ → ℕ → ℕ
quota k b e l = (offset e l - offset b l) / suc k

-- The shortest line's quota: what `min_len` is meant to be. A set without lines has none.
unfoldable pub shortest : ℕ → Map ℕ ℕ → Map ℕ ℕ → List ℕ → ℕ
shortest k b e [] = 0
shortest k b e (l ∷ []) = quota k b e l
shortest k b e (l ∷ j ∷ ls) = min (quota k b e l) (shortest k b e (j ∷ ls))

pub shortest-le :
    (k : ℕ) (b e : Map ℕ ℕ) (ls : List ℕ) → All (λ l. shortest k b e ls ≤ quota k b e l) ls
unfolding shortest
shortest-le k b e [] = tt
shortest-le k b e (l ∷ []) = (omega arith, tt)
shortest-le k b e (l ∷ j ∷ ls) = (omega arith, lower (j ∷ ls) (shortest-le k b e (j ∷ ls)))
  where
    lower :
        (ks : List ℕ)
        → All (λ i. shortest k b e (j ∷ ls) ≤ quota k b e i) ks
        → All (λ i. min (quota k b e l) (shortest k b e (j ∷ ls)) ≤ quota k b e i) ks
    lower [] h = tt
    lower (i ∷ is) h = (omega arith, lower is h.1)

min_step :
    (front l q a : ℕ)
    → front < l
    → (if l == front then pos q else min_ℤ (pos q) (pos a)) ≡ pos (min q a)
min_step front l q a h = ground arith

first_step : (l : ℕ) (q : ℤ) → (if l == l then q else min_ℤ q (pos 0)) ≡ q
first_step l q = ground arith

module _ (k : ℕ) (se : Recording) (e : Map ℕ ℕ) (closed : se.second ≡ some e) where
  pub end_of_lem : (l : ℕ) → end_of se l ≡ ok (offset e l)
  unfolding end_of
  end_of_lem l = rw closed

  resampled_lem :
      (l : ℕ)
      → offset se.first l ≤ offset e l
      → resampled (pos (suc k)) se l ≡ ok (pos (quota k se.first e l))
  unfolding resampled
  resampled_lem l h = rw (end_of_lem l) (
      rw (-ℤ-pos (offset e l) (offset se.first l) h)
        (rw (quot-pos (offset e l - offset se.first l) k)))

  -- `min_len` with the shortest line so far.
  lower_to : ℕ → List ℕ → ℕ
  lower_to a [] = a
  lower_to a (l ∷ ls) = lower_to (min (quota k se.first e l) a) ls

  min_len_from_lem :
      (front n a : ℕ) (ls : List ℕ)
      → front < n
      → IsRising n ls
      → All (λ l. offset se.first l ≤ offset e l) ls
      → min_len_from front (pos (suc k)) se ls (pos a) ≡ ok (pos (lower_to a ls))
  unfolding min_len_from lower_to
  min_len_from_lem front n a [] f r h = refl
  min_len_from_lem front n a (l ∷ ls) f r h = rw (resampled_lem l h.0) (
      ap (min_len_from front (pos (suc k)) se ls)
        (min_step front l (quota k se.first e l) a (omega arith))
      ∙ min_len_from_lem front (suc l) (min (quota k se.first e l) a) ls (omega arith) r.1 h.1)

  lower_to_lem :
      (a l : ℕ) (ls : List ℕ) → lower_to a (l ∷ ls) ≡ min a (shortest k se.first e (l ∷ ls))
  unfolding lower_to shortest
  lower_to_lem a l [] = omega arith
  lower_to_lem a l (j ∷ ls) = lower_to_lem (min (quota k se.first e l) a) j ls ∙ omega arith

  lower_to-shortest :
      (l : ℕ) (ls : List ℕ) → lower_to (quota k se.first e l) ls ≡ shortest k se.first e (l ∷ ls)
  unfolding lower_to shortest
  lower_to-shortest l [] = refl
  lower_to-shortest l (j ∷ ls) = lower_to_lem (quota k se.first e l) j ls

  -- The first loop of `get` finds the shortest line of a closed set.
  pub min_len_of-shortest :
      (ls : List ℕ)
      → IsRising 0 ls
      → All (λ l. offset se.first l ≤ offset e l) ls
      → min_len_of (pos (suc k)) ls se ≡ ok (pos (shortest k se.first e ls))
  unfolding min_len_of min_len_from shortest
  min_len_of-shortest [] r h = refl
  min_len_of-shortest (l ∷ ls) r h = rw (resampled_lem l h.0) (
      ap (min_len_from l (pos (suc k)) se ls) (first_step l (pos (quota k se.first e l)))
      ∙ min_len_from_lem l (suc l) (quota k se.first e l) ls (omega arith) r.1 h.1
      ∙ ap (λ n. ok (pos n)) (lower_to-shortest l ls))

mul_quota : (n a k : ℕ) → n ≤ a / suc k → n * suc k ≤ a
mul_quota n a k h = grind arith

-- Where a line is long enough, its loop ends `n` samples behind its beginning.
pub stop_of_lem :
    (k n b e size : ℕ)
    → n ≤ (e - b) / suc k
    → b ≤ e
    → e ≤ size
    → stop_of e (pos n) b size ≡ pos (b + n)
unfolding stop_of
stop_of_lem k n b e size h p q =
    let big : n ≤ n * suc k = grind arith in
    let fits : n * suc k ≤ e - b = mul_quota n (e - b) k h in rw (+ℤ-pos b n) (ground arith)

module _ {R : Type 0} where
  range_lem : (b n : ℕ) (xs : List R) → range b (pos (b + n)) xs ≡ ok (take n (drop b xs))
  range_lem b n xs =
      let same : b + n - b ≡ n = omega arith in rw (le→leb b (b + n) (omega arith), same)

  -- The part of a line that `copy_if` runs over.
  pub line_samples_lem :
      (k : ℕ) (d : Device R) (se : Recording) (e : Map ℕ ℕ) (n l : ℕ) (x : Line R)
      → se.second ≡ some e
      → find l d.lines ≡ some x
      → n ≤ quota k se.first e l
      → offset se.first l ≤ offset e l
      → offset e l ≤ length x.samples
      → line_samples (pos (suc k)) d se (pos n) l
        ≡ ok (keep_every (suc k) 0 (take n (drop (offset se.first l) x.samples)))
  unfolding line_samples get_line_data
  line_samples_lem k d se e n l x c p h q r = rw p (
      rw (end_of_lem k se e c l) (
        rw (stop_of_lem k n (offset se.first l) (offset e l) (length x.samples) h q r)
          (rw (range_lem (offset se.first l) n x.samples))))

  module _ ⦃f : Floating R⦄ where
    pub add_line-ok :
        (k stop at : ℕ) (xs ss : List R)
        → at + length ss * suc k ≤ length xs
        → (ss' : List R) × (add_line (pos (suc k)) (pos stop) xs (pos at) ss ≡ ok ss')
          × (length ss' ≡ length ss)
    unfolding add_line
    add_line-ok k stop at xs [] h = ([], refl, refl)
    add_line-ok k stop at xs (s ∷ ss) h = elim (Bool-cases (at + 0 == stop + 0)) [
      | inl e ↦ (s ∷ ss, rw e, refl)
      | inr e ↦
          let (x, g) = get_elem?-some xs at (omega arith) in
          let (ss', p, q) = add_line-ok k stop (at + suc k) xs ss (omega arith) in
          (f.add s x ∷ ss', rw (e, g, +ℤ-pos at (suc k), p), ap suc q)
    ]

module _ {R : Type 0} (k : ℕ) (d : Device R) (se : Recording) (e : Map ℕ ℕ)
    (closed : se.second ≡ some e) (n : ℕ) where
  -- What the loops over a set's lines need of each line.
  abbrev pub IsReadable : ℕ → Type 0
  IsReadable l =
      IsLine d.lines l
      × (offset se.first l ≤ offset e l)
      × (offset e l ≤ size_of l d.lines)
      × (n ≤ quota k se.first e l)

  pub set_samples-ok :
      (ls : List ℕ)
      → All IsReadable ls
      → (ys : List R) × (set_samples (pos (suc k)) d se (pos n) ls ≡ ok ys)
  unfolding set_samples
  set_samples-ok [] h = ([], refl)
  set_samples-ok (l ∷ ls) (((x, p), b, s, q), h) =
      let (zs, r) = set_samples-ok ls h in
      (
        keep_every (suc k) 0 (take n (drop (offset se.first l) x.samples)) ++ zs,
        rw (line_samples_lem k d se e n l x closed p q b (rw p at s)) (rw r),
      )

  module _ ⦃f : Floating R⦄ where
    pub add_lines_step :
        (l : ℕ) (ls : List ℕ) (sum ss : List R) (x : Line R)
        → find l d.lines ≡ some x
        → offset se.first l ≤ offset e l
        → offset e l ≤ length x.samples
        → n ≤ quota k se.first e l
        → add_line
            (pos (suc k))
            (pos (offset se.first l + n))
            x.samples
            (pos (offset se.first l))
            sum
          ≡ ok ss
        → add_lines (pos (suc k)) d se (pos n) (l ∷ ls) sum
          ≡ add_lines (pos (suc k)) d se (pos n) ls ss
    unfolding add_lines get_line_data
    add_lines_step l ls sum ss x p b s q r = rw p (
        rw (end_of_lem k se e closed l)
          (rw (stop_of_lem k n (offset se.first l) (offset e l) (length x.samples) q b s) (rw r)))

    -- One line adds up without leaving its samples.
    line_fits :
        (l : ℕ) (sum : List R) (x : Line R)
        → length sum ≡ n
        → offset se.first l ≤ offset e l
        → offset e l ≤ length x.samples
        → n ≤ quota k se.first e l
        → offset se.first l + length sum * suc k ≤ length x.samples
    line_fits l sum x len b s q =
        let fits : n * suc k ≤ offset e l - offset se.first l =
          mul_quota n (offset e l - offset se.first l) k q in
        rw len (omega arith)

    pub add_lines-ok :
        (ls : List ℕ) (sum : List R)
        → length sum ≡ n
        → All IsReadable ls
        → (ys : List R) × (add_lines (pos (suc k)) d se (pos n) ls sum ≡ ok ys) × (length ys ≡ n)
    unfolding add_lines
    add_lines-ok [] sum len h = (sum, refl, len)
    add_lines-ok (l ∷ ls) sum len (((x, p), b, s, q), h) =
        let size : offset e l ≤ length x.samples = rw p at s in
        let (ss, r, len') =
          add_line-ok k (offset se.first l + n) (offset se.first l) x.samples sum
            (line_fits l sum x len b size q) in
        let (ys, t, len'') = add_lines-ok ls ss (len' ∙ len) h in
        (ys, add_lines_step l ls sum ss x p b size q r ∙ t, len'')
