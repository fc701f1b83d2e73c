-- ===== src/Counter/Exact.antt =====
-- What `Counter::get` of server/counter.cpp sends for one closed set, at the interval 1 and at
-- larger ones.
use pmlib.Prelude.{
  ℕ, zero, suc, ◌+◌, ◌-◌, ◌*◌, ◌/◌, ◌%◌, ◌<◌, ◌≤◌, ◌≡◌, refl, sym, ◌∙◌, ap, false, Option, none,
  some, List, [], ◌∷◌, ◌++◌, arith, All, length, length-append, take, drop, length-take,
  length-drop, get_elem?, get_elem?-some, Bool-cases, inl, inr, ◌≢◌, ◌==◌, ==_iff,
}
use native.Mathlib.Nat.{div-eq_of_lt}
use pmlib.Prelude.Int.{pos, +ℤ-pos}
use pmlib.Map.{Map, nat_key, find}
use pmlib.Outcome.{ok}
use pmlib.Floating.{Floating}
use pmlib.Device.{Line, Device}
use pmlib.Counter.Reply.{
  Recording, offset, keep_every, line_samples, set_samples, add_line, add_lines,
}
use pmlib.Counter.Resample.{IsReadable, line_samples_lem, add_lines_step}

div_unique : (a q r k : ℕ) → a ≡ q * suc k + r → r < suc k → a / suc k ≡ q
div_unique a q r k e h = grind arith

ceil_hit : (i k : ℕ) → i % suc k ≡ 0 → (i + 1 + k) / suc k ≡ suc ((i + k) / suc k)
ceil_hit i k h = grind arith

ceil_miss : (i k : ℕ) → i % suc k ≢ 0 → (i + 1 + k) / suc k ≡ (i + k) / suc k
ceil_miss i k h =
    let q = i / suc k in
    let r = i % suc k in
    div_unique (i + 1 + k) (q + 1) r k (grind arith) (omega arith)
    ∙ sym (div_unique (i + k) (q + 1) (r - 1) k (grind arith) (omega arith))

div_mono : (a n k : ℕ) → a / suc k ≤ (a + n) / suc k
div_mono a n k = grind arith

quota_le : (a k : ℕ) → a / suc k ≤ a
quota_le a k = grind arith

div_less : (n k : ℕ) → (0 + n + k) / suc k - (0 + k) / suc k ≡ (n + k) / suc k
div_less n k =
    let whole : 0 + n + k ≡ n + k = omega arith in
    let none_left : 0 + k ≡ k = omega arith in
    rw (whole, none_left, div-eq_of_lt {n = k} {m = suc k} (omega arith)) (omega arith)

module _ {R : Type 0} where
  abbrev samples_at : Option (Line R) → List R
  samples_at none = []
  samples_at (some x) = x.samples

  -- The first `n` samples of a line from the beginning of a set.
  abbrev pub slice : Device R → Recording → ℕ → ℕ → List R
  slice d se n l = take n (drop (offset se.first l) (samples_at (find l d.lines)))

  abbrev pub slices : Device R → Recording → ℕ → List ℕ → List R
  slices d se n [] = []
  slices d se n (l ∷ ls) = slice d se n l ++ slices d se n ls

  keep_every_one : (i : ℕ) (xs : List R) → keep_every 1 i xs ≡ xs
  unfolding keep_every
  keep_every_one i [] = refl
  keep_every_one i (x ∷ xs) =
      let all : i % 1 ≡ 0 = omega arith in rw (keep_every_one (i + 1) xs, all) refl

  -- How many of the indices from `i` on, `n` of them, are multiples of the interval.
  length-keep_every :
      (k i : ℕ) (xs : List R)
      → length (keep_every (suc k) i xs) ≡ (i + length xs + k) / suc k - (i + k) / suc k
  unfolding keep_every
  length-keep_every k i [] =
      let none_left : i + 0 + k ≡ i + k = omega arith in rw none_left (omega arith)
  length-keep_every k i (x ∷ xs) =
      let n = length xs in
      let shift : i + suc n + k ≡ i + 1 + k + n = omega arith in
      let shift' : i + 1 + n + k ≡ i + 1 + k + n = omega arith in
      let later = div_mono (i + 1 + k) n k in
      let ih = length-keep_every k (i + 1) xs ∙ ap (λ t. t / suc k - (i + 1 + k) / suc k) shift' in
      elim (Bool-cases (i % suc k == 0)) [
        | inl h ↦
            rw (h, shift)
              (omega (arith, ih, ceil_hit i k (ground (arith, ==_iff (i % suc k) 0)), later))
        | inr h ↦
            rw (h, shift)
              (omega (arith, ih, ceil_miss i k (ground (arith, ==_iff (i % suc k) 0)), later))
      ]

module _ {R : Type 0} ⦃f : Floating R⦄ where
  abbrev pub added : List R → List R → List R
  added [] ys = []
  added (s ∷ ss) [] = s ∷ ss
  added (s ∷ ss) (y ∷ ys) = f.add s y ∷ added ss ys

  -- The lines of a set added up, sample by sample.
  abbrev pub sums : Device R → Recording → ℕ → List ℕ → List R → List R
  sums d se n [] acc = acc
  sums d se n (l ∷ ls) acc = sums d se n ls (added acc (slice d se n l))

module _ {R : Type 0} (k : ℕ) (d : Device R) (se : Recording) (e : Map ℕ ℕ)
    (closed : se.second ≡ some e) (n : ℕ) where
  pub line_samples-slice :
      (l : ℕ)
      → IsReadable k d se e closed n l
      → line_samples (pos (suc k)) d se (pos n) l ≡ ok (keep_every (suc k) 0 (slice d se n l))
  line_samples-slice l ((x, p), b, s, q) =
      line_samples_lem k d se e n l x closed p q b (rw p at s) ∙ rw p refl

  length-slice : (l : ℕ) → IsReadable k d se e closed n l → length (slice d se n l) ≡ n
  length-slice l ((x, p), b, s, q) =
      let size : offset e l ≤ length x.samples = rw p at s in
      let fits = quota_le (offset e l - offset se.first l) k in
      rw p (
        length-take n (drop (offset se.first l) x.samples)
        ∙ ground (arith, length-drop (offset se.first l) x.samples))

  -- With an interval of `k + 1` each line has one sample in `k + 1` of its first `n`.
  pub length-set_samples :
      (ls : List ℕ)
      → All (IsReadable k d se e closed n) ls
      → (ys : List R) × (set_samples (pos (suc k)) d se (pos n) ls ≡ ok ys)
        × (length ys ≡ length ls * ((n + k) / suc k))
  unfolding set_samples
  length-set_samples [] h = ([], refl, omega arith)
  length-set_samples (l ∷ ls) (r, h) =
      let (zs, p, len) = length-set_samples ls h in
      let ys = keep_every (suc k) 0 (slice d se n l) in
      let one : length ys ≡ (n + k) / suc k =
        length-keep_every k 0 (slice d se n l) ∙ rw (length-slice l r) (div_less n k) in
      (
        ys ++ zs,
        rw (line_samples-slice l r) (rw p refl),
        length-append ys zs ∙ rw (one, len) (grind arith),
      )

module _ {R : Type 0} (d : Device R) (se : Recording) (e : Map ℕ ℕ) (closed : se.second ≡ some e)
    (n : ℕ) where
  -- At the interval 1: the samples of the set, line by line.
  pub set_samples-slices :
      (ls : List ℕ)
      → All (IsReadable 0 d se e closed n) ls
      → set_samples (pos 1) d se (pos n) ls ≡ ok (slices d se n ls)
  unfolding set_samples
  set_samples-slices [] h = refl
  set_samples-slices (l ∷ ls) (r, h) =
      rw (line_samples-slice 0 d se e closed n l r)
        (rw (set_samples-slices ls h) (ap (λ ys. ok (ys ++ slices d se n ls)) (keep_every_one 0 _)))

  module _ ⦃f : Floating R⦄ where
    length-added : (ss ys : List R) → length (added ss ys) ≡ length ss
    length-added [] ys = refl
    length-added (s ∷ ss) [] = refl
    length-added (s ∷ ss) (y ∷ ys) = ap suc (length-added ss ys)

    drop-get_elem? :
        (xs : List R) (i : ℕ) (x : R) → get_elem? xs i ≡ some x → drop i xs ≡ x ∷ drop (suc i) xs
    drop-get_elem? [] i x h = absurd (ground arith)
    drop-get_elem? (y ∷ xs) zero x h = ap (λ t. t ∷ xs) (ground arith)
    drop-get_elem? (y ∷ xs) (suc i) x h = drop-get_elem? xs i x h

    add_line-added :
        (at stop : ℕ) (xs ss : List R)
        → at + length ss ≡ stop
        → stop ≤ length xs
        → add_line (pos 1) (pos stop) xs (pos at) ss ≡ ok (added ss (take (length ss) (drop at xs)))
    unfolding add_line
    add_line-added at stop xs [] e h = refl
    add_line-added at stop xs (s ∷ ss) e h =
        let (x, g) = get_elem?-some xs at (omega arith) in
        let next : at + 1 ≡ suc at = omega arith in
        let going : (at + 0 == stop + 0) ≡ false = ground arith in
        rw
          (
            going,
            g,
            +ℤ-pos at 1,
            next,
            add_line-added (suc at) stop xs ss (omega arith) h,
            drop-get_elem? xs at x g,
          )
          refl

    -- At the interval 1: the samples of the set, added up line by line.
    pub add_lines-sums :
        (ls : List ℕ) (acc : List R)
        → length acc ≡ n
        → All (IsReadable 0 d se e closed n) ls
        → add_lines (pos 1) d se (pos n) ls acc ≡ ok (sums d se n ls acc)
    unfolding add_lines
    add_lines-sums [] acc len h = refl
    add_lines-sums (l ∷ ls) acc len (((x, p), b, s, q), h) =
        let size : offset e l ≤ length x.samples = rw p at s in
        let fits = quota_le (offset e l - offset se.first l) 0 in
        let slice_lem : take n (drop (offset se.first l) x.samples) ≡ slice d se n l = rw p refl in
        let one =
          add_line-added (offset se.first l) (offset se.first l + n) x.samples acc (rw len refl)
            (omega arith)
          ∙ ap (λ t. ok (added acc t))
              (ap (λ i. take i (drop (offset se.first l) x.samples)) len ∙ slice_lem) in
        add_lines_step 0 d se e closed n l ls acc (added acc (slice d se n l)) x p b size q one
        ∙ add_lines-sums ls (added acc (slice d se n l)) (length-added acc (slice d se n l) ∙ len) h
