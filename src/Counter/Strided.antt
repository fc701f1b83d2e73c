-- ===== src/Counter/Strided.antt =====
-- Which samples `Counter::get` of server/counter.cpp sends at an interval above 1.
use pmlib.Prelude.{
  some, ℕ, zero, suc, ◌+◌, ◌%◌, ◌≤◌, ◌≡◌, ◌≢◌, refl, ◌∙◌, ap, false, true, List, [], ◌∷◌, ◌++◌,
  arith, All, ◌==◌, ==_iff, length, subst,
}
use pmlib.Prelude.Int.{pos}
use pmlib.Map.{Map}
use pmlib.Outcome.{ok}
use pmlib.Floating.{Floating}
use pmlib.Device.{Device}
use pmlib.Device.Lines.{IsRising, IsLine}
use pmlib.Counter.Reply.{Recording, keep_every, set_samples, all_watts, samples_of, running_sums}
use pmlib.Counter.Sets.{IsClosed}
use pmlib.Counter.Resample.{IsReadable}
use pmlib.Counter.Get.{set_length, set_lengths, to_ints, min_lens-set_lengths, All-IsReadable}
use pmlib.Counter.Exact.{slice, line_samples-slice}
use pmlib.Counter.Samples.{kept, length-samples_of}

hit : (i k : ℕ) → (i + 0) % suc k ≡ 0 → (i + 1 + k) % suc k ≡ 0
hit i k h = grind arith

now : (i k : ℕ) → (i + 0) % suc k ≡ 0 → (i % suc k == 0) ≡ true
now i k h = ground (arith, ==_iff (i % suc k) 0)

later : (i j k : ℕ) → (i + suc j) % suc k ≡ 0 → suc j ≤ k → i % suc k ≢ 0
later i j k h le e = grind arith

module _ {R : Type 0} where
  -- Every sample that follows `k` others, when `j` are still to be skipped.
  abbrev pub strided : ℕ → ℕ → List R → List R
  strided k j [] = []
  strided k zero (x ∷ xs) = x ∷ strided k k xs
  strided k (suc j) (x ∷ xs) = strided k j xs

  keep_every-strided :
      (k i j : ℕ) (xs : List R)
      → (i + j) % suc k ≡ 0
      → j ≤ k
      → keep_every (suc k) i xs ≡ strided k j xs
  unfolding keep_every
  keep_every-strided k i j [] h le = refl
  keep_every-strided k i zero (x ∷ xs) h le =
      rw (now i k h) (ap (◌∷◌ x) (keep_every-strided k (i + 1) k xs (hit i k h) (omega arith)))
  keep_every-strided k i (suc j) (x ∷ xs) h le =
      let skip : (i % suc k == 0) ≡ false =
        ground (arith, ==_iff (i % suc k) 0, later i j k h le) in
      rw skip (
        keep_every-strided k (i + 1) j xs (subst (λ n. n % suc k ≡ 0) (omega arith) h)
          (omega arith))

  -- What is sent of a set, of whose lines the first `n` samples count.
  abbrev pub strided_slices : ℕ → Device R → Recording → ℕ → List ℕ → List R
  strided_slices k d se n [] = []
  strided_slices k d se n (l ∷ ls) = strided k 0 (slice d se n l) ++ strided_slices k d se n ls

  abbrev pub all_strided : ℕ → Device R → List ℕ → List Recording → List R
  all_strided k d ls [] = []
  all_strided k d ls (se ∷ sets) =
      strided_slices k d se (set_length k ls se) ls ++ all_strided k d ls sets

  set_samples-strided_slices :
      (k : ℕ) (d : Device R) (se : Recording) (e : Map ℕ ℕ) (closed : se.second ≡ some e) (n : ℕ)
      (ls : List ℕ)
      → All (IsReadable k d se e closed n) ls
      → set_samples (pos (suc k)) d se (pos n) ls ≡ ok (strided_slices k d se n ls)
  unfolding set_samples
  set_samples-strided_slices k d se e closed n [] h = refl
  set_samples-strided_slices k d se e closed n (l ∷ ls) (r, h) =
      let zero_hit : (0 + 0) % suc k ≡ 0 = omega arith in
      rw
        (
          line_samples-slice k d se e closed n l r,
          set_samples-strided_slices k d se e closed n ls h,
          keep_every-strided k 0 0 (slice d se n l) zero_hit (omega arith),
        )
        refl

module _ {R : Type 0} ⦃f : Floating R⦄ (d : Device R) (ls : List ℕ) (rising : IsRising 0 ls)
    (lines : All (IsLine d.lines) ls) where
  all_watts-all_strided :
      (k : ℕ) (sets : List Recording)
      → All (IsClosed d.lines ls) sets
      → all_watts false (pos (suc k)) d ls sets (to_ints (set_lengths k ls sets))
        ≡ ok (all_strided k d ls sets)
  unfolding all_watts
  all_watts-all_strided k [] h = refl
  all_watts-all_strided k (se ∷ sets) ((e, p, c), h) =
      rw
        (
          set_samples-strided_slices k d se e p (set_length k ls se) ls
              (All-IsReadable k d ls rising lines se e p c),
          all_watts-all_strided k sets h,
        )
        refl

  -- With the interval k + 1 and no aggregation, on closed sets of lines that the device has, get
  -- sends these samples: set after set and line after line, the first one and then every one behind
  -- k others, of only the first n samples of the line from the beginning of the set, where n is the
  -- length that it announces for the set. So each line has n / (k + 1) samples, rounded up.
  pub samples_of-all_strided :
      (k : ℕ) (sets : List Recording)
      → All (IsClosed d.lines ls) sets
      → (samples_of false (pos (suc k)) d ls sets
          ≡ ok (
            all_strided k d ls sets,
            pos 0 ∷ running_sums (pos 0) (to_ints (set_lengths k ls sets)),
          ))
        × (length (all_strided k d ls sets) ≡ kept ls k sets)
  unfolding samples_of
  samples_of-all_strided k sets h =
      let sent : samples_of false (pos (suc k)) d ls sets
          ≡ ok (
            all_strided k d ls sets,
            pos 0 ∷ running_sums (pos 0) (to_ints (set_lengths k ls sets)),
          ) =
        rw (min_lens-set_lengths k d ls rising lines sets h, all_watts-all_strided k sets h) refl in
      let (watts, same, len) = length-samples_of d ls rising lines k sets h in
      let equal : all_strided k d ls sets ≡ watts = cc in (sent, ap length equal ∙ len)
