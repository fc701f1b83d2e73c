-- ===== src/Tests/Replies.antt =====
-- Examples of replies: one set on two lines, of which each has samples from before and after it.
use pmlib.Prelude.{ℕ, ◌≡◌, refl, true, false, some, [], ◌∷◌, arith, length}
use pmlib.Prelude.Int.{pos}
use pmlib.Outcome.{ok}
use pmlib.Device.{Device}
use pmlib.Counter.Reply.{Recording, samples_of, running_sums}
use pmlib.Counter.Get.{set_lengths, to_ints}
use pmlib.Counter.Samples.{all_expected, kept, samples_of-expected}
use pmlib.Counter.Strided.{all_strided, samples_of-all_strided}
use pmlib.Tests.{meter, line, nat_floating}

abbrev history : Device ℕ
history = record meter {
  lines = (0, line 0 1 0 (1 ∷ 2 ∷ 3 ∷ 4 ∷ 5 ∷ [])) ∷ (1, line 1 1 0 (10 ∷ 20 ∷ 30 ∷ 40 ∷ [])) ∷ [];
}

abbrev taken : Recording
taken = record { first = (0, 1) ∷ (1, 0) ∷ []; second = some ((0, 4) ∷ (1, 3) ∷ []) }

both_watts : all_expected history (0 ∷ 1 ∷ []) true (taken ∷ []) ≡ 12 ∷ 23 ∷ 34 ∷ []
unfolding pmlib.Counter.Resample.shortest
both_watts = refl

samples_of-expected_example :
    samples_of true (pos 1) history (0 ∷ 1 ∷ []) (taken ∷ [])
    ≡ ok (
      all_expected history (0 ∷ 1 ∷ []) true (taken ∷ []),
      pos 0 ∷ running_sums (pos 0) (to_ints (set_lengths 0 (0 ∷ 1 ∷ []) (taken ∷ []))),
    )
samples_of-expected_example =
    samples_of-expected history (0 ∷ 1 ∷ []) (omega arith) ((_, refl), ((_, refl), tt)) true
      (taken ∷ []) ((_, refl, omega arith), tt)

half_watts : all_strided 1 history (0 ∷ 1 ∷ []) (taken ∷ []) ≡ 2 ∷ 10 ∷ []
unfolding pmlib.Counter.Resample.shortest
half_watts = refl

samples_of-all_strided_example :
    (samples_of false (pos 2) history (0 ∷ 1 ∷ []) (taken ∷ [])
      ≡ ok (
        all_strided 1 history (0 ∷ 1 ∷ []) (taken ∷ []),
        pos 0 ∷ running_sums (pos 0) (to_ints (set_lengths 1 (0 ∷ 1 ∷ []) (taken ∷ []))),
      ))
    × (length (all_strided 1 history (0 ∷ 1 ∷ []) (taken ∷ [])) ≡ kept (0 ∷ 1 ∷ []) 1 (taken ∷ []))
samples_of-all_strided_example =
    samples_of-all_strided history (0 ∷ 1 ∷ []) (omega arith) ((_, refl), ((_, refl), tt)) 1
      (taken ∷ []) ((_, refl, omega arith), tt)
