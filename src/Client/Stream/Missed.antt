-- ===== src/Client/Stream/Missed.antt =====
-- Which samples client/pm_get_and_print_data_paraver.c prints of those that it receives.
use pmlib.Prelude.{
  ℕ, suc, ◌+◌, ◌≡◌, refl, ap, ◌∙◌, subst, true, false, List, [], ◌∷◌, ◌++◌, map, ltb, lt→ltb, leb,
  le→leb, arith, length, length-append, All, some,
}
use pmlib.Prelude.Int.{pos, negsuc, ◌-ℤ◌}
use pmlib.Outcome.{ok}
use pmlib.Floating.{Floating}
use pmlib.Client.{Link}
use pmlib.Client.Arrivals.{Arrives, expect_lem}
use pmlib.Client.Requests.{CounterT}
use pmlib.Client.Print.{zero_real}
use pmlib.Client.Print.Plan.{Difference, set_at, sets_to_print}
use pmlib.Client.Print.Rows.{minus_one}
use pmlib.Client.Stream.{read_samples, stream_aggregate}
use pmlib.Client.Trace.{sum_code}
use pmlib.Client.Trace.Whole.{sample_events}

module _ {R : Type 0} ⦃f : Floating R⦄ ⦃g : Difference R⦄ (double_of : List ℕ → R) where
  read_samples_missed :
      (inc : R) (bs : List (List ℕ)) (last : List ℕ) (fin read : ℕ) (tm : R) (k : Link)
      → All (λ b. length b ≡ 8) (bs ++ last ∷ [])
      → Arrives (bs ++ last ∷ []) [] k.arrivals
      → fin ≡ read + length (bs ++ last ∷ [])
      → (k' : Link) × (read_samples double_of
            (some sum_code)
            inc
            (pos 0)
            (pos fin)
            (length (bs ++ last ∷ []))
            read
            tm
            k
          ≡ (ok (sample_events inc tm (map double_of bs)), k'))
  unfolding read_samples
  read_samples_missed inc [] last fin read tm k sizes arrive e =
      let (ps, got, later) = expect_lem 8 last [] [] k (omega (arith, sizes.0)) sizes.0 arrive in
      let end' : ltb (read + 1) fin ≡ false = ground arith in
      let begun : leb 0 (read + 1) ≡ true = le→leb 0 (read + 1) (omega arith) in
      (record k { arrivals = ps }, rw (got, end', begun) refl)
  read_samples_missed inc (b ∷ bs) last fin read tm k sizes arrive e =
      let (ps, got, later) =
        expect_lem 8 b (bs ++ last ∷ []) [] k (omega (arith, sizes.0)) sizes.0 arrive in
      let more : ltb (read + 1) fin ≡ true =
        lt→ltb (read + 1) fin (omega (arith, length-append bs (last ∷ []))) in
      let (k', rest) =
        read_samples_missed inc bs last fin (read + 1) (f.add tm inc) (record k { arrivals = ps })
          sizes.1 later (omega arith) in
      let begun : leb 0 (read + 1) ≡ true = le→leb 0 (read + 1) (omega arith) in
      (k', rw (got, more, begun, rest) refl)

  every_set :
      (c : CounterT R) (n : ℕ)
      → c.energy.watts_sets_size ≡ pos (suc n)
      → sets_to_print c (negsuc 0) ≡ ok (0, n)
  unfolding sets_to_print
  every_set c n size =
      let size' : c.energy.watts_sets_size -ℤ pos 1 ≡ pos n =
        ap (λ z. z -ℤ pos 1) size ∙ minus_one n in
      rw size' (ground arith)

  -- Let a reply's sets, one or more, begin at 0 and end behind the last sample, and let its
  -- samples, of which there is at least one, arrive in eight bytes each. Then
  -- pm_get_and_print_data_paraver, when it reads the samples of an aggregating counter and is asked
  -- for all sets, prints an event for each of them at evenly spaced times, except for the last one,
  -- which it does not print.
  pub stream_aggregate_missed :
      (c : CounterT R) (inc : R) (n : ℕ) (bs : List (List ℕ)) (last : List ℕ) (k : Link)
      → c.energy.watts_sets_size ≡ pos (suc n)
      → c.energy.watts_size ≡ length (bs ++ last ∷ [])
      → set_at c (pos 0) ≡ ok (pos 0)
      → set_at c (pos n) ≡ ok (pos (length (bs ++ last ∷ [])))
      → All (λ b. length b ≡ 8) (bs ++ last ∷ [])
      → Arrives (bs ++ last ∷ []) [] k.arrivals
      → (stream_aggregate double_of c (negsuc 0) inc k).0
        ≡ ok (sample_events inc zero_real (map double_of bs))
  unfolding stream_aggregate
  stream_aggregate_missed c inc n bs last k size many first end' sizes arrive =
      let range = every_set c n size in
      let (k', run) =
        read_samples_missed inc bs last (length (bs ++ last ∷ [])) 0 zero_real k sizes arrive
          (omega arith) in
      let behind : set_at c (pos (0 + n)) ≡ ok (pos (length (bs ++ last ∷ []))) =
        subst (λ i. set_at c (pos i) ≡ ok (pos (length (bs ++ last ∷ [])))) (omega arith) end' in
      rw (range, first, behind, many, run) refl
