-- ===== src/Client/Print/Range.antt =====
-- Sets beyond the reply in client/pm_print_data_csv.c.
use pmlib.Prelude.{ℕ, suc, ◌+◌, ◌≡◌, refl, ap, ◌∙◌, true, false, List, [], ◌∷◌, arith, length, ◌||◌}
use pmlib.Prelude.Int.{pos, negsuc, ◌-ℤ◌, ltb_ℤ}
use pmlib.Outcome.{ok, throw, crash, invalid_argument, out_of_range}
use pmlib.Floating.{Floating}
use pmlib.Counter.Reply.{sample_at}
use pmlib.Client.Lines.{LineT}
use pmlib.Client.Lines.Laws.{IsLineT}
use pmlib.Client.Requests.{CounterT}
use pmlib.Client.Print.Plan.{Difference, set_at, sets_to_print, set_bounds}
use pmlib.Client.Print.Selection.{HasLines, lines_to_print_lem}
use pmlib.Client.Print.Layout.{Block, boundaries}
use pmlib.Client.Print.Rows.{minus_one}
use pmlib.Client.Print.Table.{Holds, last_boundary, whole_interval_lem}
use pmlib.Client.Print.{print_lines, line_sets, pm_print_data_csv, aggregates}

module _ {R : Type 0} where
  beyond_boundary :
      (a : ℕ) (bs : List (Block R))
      → sample_at (boundaries a bs) (pos (length bs + 1)) ≡ crash out_of_range
  beyond_boundary a [] = refl
  beyond_boundary a (b ∷ bs) =
      let next : suc (length bs) + 1 ≡ suc (length bs + 1) = omega arith in
      rw next (beyond_boundary (a + b.size) bs)

  last_set :
      (c : CounterT R) (n : ℕ)
      → c.energy.watts_sets_size ≡ pos (suc n)
      → c.energy.watts_sets_size -ℤ pos 1 ≡ pos n
  last_set c n h = ap (λ z. z -ℤ pos 1) h ∙ minus_one n

module _ {R : Type 0} ⦃f : Floating R⦄ ⦃g : Difference R⦄ where
  set_bounds-end :
      (c : CounterT R) (bs : List (Block R))
      → Holds c bs
      → set_bounds c (length bs) ≡ crash out_of_range
  unfolding set_bounds
  set_bounds-end c bs held =
      let (e, at) = last_boundary 0 bs in
      let here : set_at c (pos (length bs)) ≡ ok e =
        ap (λ ss. sample_at ss (pos (length bs))) held.2 ∙ at in
      let next : set_at c (pos (length bs + 1)) ≡ crash out_of_range =
        ap (λ ss. sample_at ss (pos (length bs + 1))) held.2 ∙ beyond_boundary 0 bs in
      rw (here, next) refl

  ranges :
      (c : CounterT R) (m n : ℕ)
      → c.energy.watts_sets_size ≡ pos (suc m)
      → (sets_to_print c (pos m) ≡ ok (m, 1))
        × (sets_to_print c (pos (m + suc n)) ≡ throw invalid_argument)
        × (sets_to_print c (negsuc (suc n)) ≡ throw invalid_argument)
  unfolding sets_to_print
  ranges c m n h =
      let size = last_set c m h in
      let inside : (ltb_ℤ (pos m) (pos m) || ltb_ℤ (pos m) (negsuc 0)) ≡ false = ground arith in
      let later : ltb_ℤ (pos m) (pos 0) ≡ false = ground arith in
      let above : ltb_ℤ (pos m) (pos (m + suc n)) ≡ true = ground arith in
      let below : (ltb_ℤ (pos m) (negsuc (suc n)) || ltb_ℤ (negsuc (suc n)) (negsuc 0)) ≡ true =
        ground arith in
      (rw (size, inside, later) refl, rw (size, above) refl, rw (size, below) refl)

  -- Let a counter that does not aggregate hold a reply with n sets. Asked for set n, the first one
  -- that the reply does not have, pm_print_data_csv reads past the end of the array of sets; asked
  -- for a later one or for a set below -1, it returns -1.
  pub pm_print_data_csv-beyond :
      (c : CounterT R) (lines : LineT) (bs : List (Block R)) (n : ℕ)
      → IsLineT lines
      → IsLineT c.lines
      → HasLines c
      → Holds c bs
      → (pm_print_data_csv c lines (pos (length bs)) ≡ crash out_of_range)
        × (pm_print_data_csv c lines (pos (length bs + suc n)) ≡ throw invalid_argument)
        × (pm_print_data_csv c lines (negsuc (suc n)) ≡ throw invalid_argument)
  unfolding pm_print_data_csv print_lines line_sets
  pm_print_data_csv-beyond c lines bs n ok' ok'' len held =
      let (here, above, below) = ranges c (length bs) n held.3 in
      let (chosen, _) = lines_to_print_lem c lines ok' ok'' len in
      let (w, whole) = whole_interval_lem c bs held in
      let plain : aggregates c ≡ false = ap (λ z. ltb_ℤ z (pos 0) || ltb_ℤ (pos 0) z) held.0 in
      (
        rw (plain, here, chosen, whole, set_bounds-end c bs held) refl,
        rw (plain, above) refl,
        rw (plain, below) refl,
      )
