-- ===== src/Counter/Samples.antt =====
-- The whole reply of `Counter::get` (server/counter.cpp) against what a client expects of it.
use pmlib.Prelude.{
  ℕ, suc, ◌+◌, ◌*◌, ◌/◌, ◌≡◌, refl, ◌∙◌, Bool, true, false, List, [], ◌∷◌, ◌++◌, All, length,
  length-append, replicate, length-replicate,
}
use pmlib.Prelude.Int.{pos}
use pmlib.Outcome.{ok}
use pmlib.Floating.{Floating}
use pmlib.Device.{Device}
use pmlib.Device.Lines.{IsRising, IsLine}
use pmlib.Counter.Reply.{Recording, all_watts, set_sums, samples_of, running_sums}
use pmlib.Counter.Sets.{IsClosed}
use pmlib.Counter.Get.{set_length, set_lengths, to_ints, min_lens-set_lengths, All-IsReadable}
use pmlib.Counter.Exact.{slices, sums, set_samples-slices, add_lines-sums, length-set_samples}

-- What a larger interval leaves of the sets.
abbrev pub kept : List ℕ → ℕ → List Recording → ℕ
kept ls k [] = 0
kept ls k (se ∷ sets) = length ls * ((set_length k ls se + k) / suc k) + kept ls k sets

module _ {R : Type 0} ⦃f : Floating R⦄ (d : Device R) (ls : List ℕ) where
  -- What a client expects of one set at the interval 1: the samples of each line, or of all lines
  -- added up, as far as the shortest line goes.
  abbrev pub expected : Bool → Recording → List R
  expected false se = slices d se (set_length 0 ls se) ls
  expected true se = sums d se (set_length 0 ls se) ls (replicate (set_length 0 ls se) (f.of_ℕ 0))

  abbrev pub all_expected : Bool → List Recording → List R
  all_expected aggregate [] = []
  all_expected aggregate (se ∷ sets) = expected aggregate se ++ all_expected aggregate sets

  module _ (rising : IsRising 0 ls) (lines : All (IsLine d.lines) ls) where
    all_watts-expected :
        (aggregate : Bool) (sets : List Recording)
        → All (IsClosed d.lines ls) sets
        → all_watts aggregate (pos 1) d ls sets (to_ints (set_lengths 0 ls sets))
          ≡ ok (all_expected aggregate sets)
    unfolding all_watts set_sums
    all_watts-expected aggregate [] h = refl
    all_watts-expected true (se ∷ sets) ((e, p, c), h) =
        let n = set_length 0 ls se in
        rw
          (add_lines-sums d se e p n ls (replicate n (f.of_ℕ 0)) (length-replicate n _)
            (All-IsReadable 0 d ls rising lines se e p c))
          (rw (all_watts-expected true sets h) refl)
    all_watts-expected false (se ∷ sets) ((e, p, c), h) =
        rw
          (set_samples-slices d se e p (set_length 0 ls se) ls
            (All-IsReadable 0 d ls rising lines se e p c))
          (rw (all_watts-expected false sets h) refl)

    -- At the interval 1, on closed sets of lines that the device has, get sends just what a client
    -- expects: for each set the samples between its ends as far as the shortest line goes, line by
    -- line or added up over the lines, and where each set begins.
    pub samples_of-expected :
        (aggregate : Bool) (sets : List Recording)
        → All (IsClosed d.lines ls) sets
        → samples_of aggregate (pos 1) d ls sets
          ≡ ok (
            all_expected aggregate sets,
            pos 0 ∷ running_sums (pos 0) (to_ints (set_lengths 0 ls sets)),
          )
    unfolding samples_of
    samples_of-expected aggregate sets h =
        rw (min_lens-set_lengths 0 d ls rising lines sets h)
          (rw (all_watts-expected aggregate sets h) refl)

    length-all_watts :
        (k : ℕ) (sets : List Recording)
        → All (IsClosed d.lines ls) sets
        → (watts : List R) × (all_watts false
              (pos (suc k))
              d
              ls
              sets
              (to_ints (set_lengths k ls sets))
            ≡ ok watts)
          × (length watts ≡ kept ls k sets)
    unfolding all_watts
    length-all_watts k [] h = ([], refl, refl)
    length-all_watts k (se ∷ sets) ((e, p, c), h) =
        let (ys, q, len) =
          length-set_samples k d se e p (set_length k ls se) ls
            (All-IsReadable k d ls rising lines se e p c) in
        let (zs, r, len') = length-all_watts k sets h in
        (ys ++ zs, rw q (rw r refl), length-append ys zs ∙ rw (len, len') refl)

    -- How many samples get sends at the interval k + 1.
    pub length-samples_of :
        (k : ℕ) (sets : List Recording)
        → All (IsClosed d.lines ls) sets
        → (watts : List R) × (samples_of false (pos (suc k)) d ls sets
            ≡ ok (watts, pos 0 ∷ running_sums (pos 0) (to_ints (set_lengths k ls sets))))
          × (length watts ≡ kept ls k sets)
    unfolding samples_of
    length-samples_of k sets h =
        let (watts, p, len) = length-all_watts k sets h in
        (watts, rw (min_lens-set_lengths k d ls rising lines sets h) (rw p refl), len)
