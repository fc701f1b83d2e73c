-- ===== src/Client/Trace.antt =====
-- Trace files in Paraver's format: client/pm_print_data_paraver.c. What the functions print on the standard output besides is
-- left out; the date is an argument.
pub mod Whole
pub mod States
pub mod Shares
pub mod Timeline
use pmlib.Prelude.{
  ℕ, zero, suc, ◌+◌, ◌-◌, ◌*◌, ◌/◌, ◌%◌, ◌^◌, Bool, ◌||◌, List, [], ◌∷◌, ◌++◌, codes, ltb, ◌==◌,
  if◌then◌else◌,
}
use pmlib.Prelude.Int.{ℤ, pos, negsuc, ◌+ℤ◌, ◌-ℤ◌, ltb_ℤ, pos_part}
use pmlib.Map.{Name, name_eqb}
use pmlib.Outcome.{Outcome, ok, throw, crash, ◌and_then◌, invalid_argument, out_of_range}
use pmlib.Floating.{Floating}
use pmlib.Counter.Reply.{sample_at, ℤ_eqb}
use pmlib.Client.Lines.{LineT}
use pmlib.Client.Requests.{CounterT}
use pmlib.Client.Print.Plan.{
  Difference, Piece, text, int_field, real_field, lines_to_print, sets_to_print, set_at, timing_at,
}
use pmlib.Client.Print.{scale, whole_interval, aggregates, zero_real, values, total}

-- The event of a sum or of an aggregated value.
abbrev pub sum_code : ℤ
sum_code = pos 500000009

module _ {R : Type 0} ⦃f : Floating R⦄ ⦃g : Difference R⦄ where
  -- `timing[(i*2)+1] - timing[i*2]`
  abbrev pub elapsed : CounterT R → ℕ → Outcome R
  elapsed c i = timing_at c (i * 2 + 1) and_then λ stop.
      timing_at c (i * 2) and_then λ start. ok (g.subtract stop start)

  -- `for (i = 0; i < n; i++) tm += timing[(i*2)+1] - timing[i*2]`, from `i` on.
  unfoldable pub add_elapsed : CounterT R → ℕ → ℕ → R → Outcome R
  add_elapsed c i zero tm = ok tm
  add_elapsed c i (suc n) tm = elapsed c i and_then λ t. add_elapsed c (i + 1) n (f.add tm t)

  -- A negative set is before the beginning of the arrays.
  abbrev pub set_extent : CounterT R → ℤ → Outcome (R × ℤ)
  set_extent c (pos s) = elapsed c s and_then λ t.
      set_at c (pos (s + 1)) and_then λ fin. set_at c (pos s) and_then λ ini. ok (t, fin -ℤ ini)
  set_extent c (negsuc s) = crash out_of_range

  -- `tot_time` and `watts_size`; `all_sets` is the set that stands for all of them.
  unfoldable pub extent : ℤ → CounterT R → ℤ → ℤ → Outcome (R × ℤ)
  extent all_sets c set one =
      if ℤ_eqb set all_sets
      then (add_elapsed c 0 c.next_timing zero_real and_then λ t.
          whole_interval c and_then λ n. ok (t, n))
      else set_extent c one

  unfoldable pub in_unit : Name → R → R
  in_unit unit t =
      if name_eqb unit [] || name_eqb unit (codes "ns")
      then f.multiply t (f.of_ℕ (10 ^ 9))
      else if name_eqb unit (codes "us")
      then f.multiply t (f.of_ℕ (10 ^ 6))
      else if name_eqb unit (codes "ms")
      then f.multiply t (f.of_ℕ (10 ^ 3))
      else t

  abbrev pub paraver_header : Name → Name → R → List ℕ → List (Piece R)
  paraver_header date unit t tail =
      text (codes "#Paraver (" ++ date ++ codes "):")
      ∷ real_field t
      ∷ text (codes "_" ++ unit ++ tail)
      ∷ []

  -- `inc_time`
  abbrev pub step_time : R → ℤ → R
  step_time t n = f.divide t (g.of_ℤ (n -ℤ pos 1))

  abbrev pub event : ℤ → R → ℤ → R → List (Piece R)
  event cpu tm code v =
      text (codes "2:0:1:1:")
      ∷ int_field cpu
      ∷ text (codes ":")
      ∷ real_field tm
      ∷ text (codes ":")
      ∷ int_field code
      ∷ text (codes ":")
      ∷ real_field v
      ∷ text (codes "\n")
      ∷ []

  -- What is printed, and the time behind it; what follows begins at that time.
  abbrev pub then_at :
      {A : Type 0} → Outcome (List A × R) → (R → Outcome (List A × R)) → Outcome (List A × R)
  then_at r next = r and_then λ (xs, tm). next tm and_then λ (ys, tm'). ok (xs ++ ys, tm')

  -- The samples of a set: what `events` prints of sample `i` at its time, for `n` of them.
  unfoldable pub trace_rows :
      {A : Type 0} → (ℤ → R → Outcome (List A)) → R → ℕ → ℤ → R → Outcome (List A × R)
  trace_rows events inc zero i tm = ok ([], tm)
  trace_rows events inc (suc n) i tm =
      then_at (events i tm and_then λ xs. ok (xs, f.add tm inc))
        (trace_rows events inc n (i +ℤ pos 1))

  -- The loop over the sets.
  unfoldable pub trace_sets :
      {A : Type 0} → (ℤ → R → Outcome (List A)) → R → CounterT R → ℕ → ℕ → R → Outcome (List A × R)
  trace_sets events inc c s zero tm = ok ([], tm)
  trace_sets events inc c s (suc n) tm = set_at c (pos s) and_then λ ini.
      set_at c (pos (s + 1)) and_then λ fin.
      then_at (trace_rows events inc (pos_part (fin -ℤ ini)) ini tm)
        (trace_sets events inc c (s + 1) n)

  abbrev pub aggregate_event : List R → ℤ → R → Outcome (List (Piece R))
  aggregate_event watts i tm = sample_at watts i and_then λ v. ok (event (pos 1) tm sum_code v)

  abbrev pub line_events : R → List (ℕ × ℕ) → List R → List (Piece R)
  line_events tm ((p, l) ∷ sel) (v ∷ vs) =
      event (pos 1) tm (pos (500000010 + l)) v ++ line_events tm sel vs
  line_events tm _ _ = []

  -- The lines of sample `i` and their sum.
  abbrev pub row_events : List R → ℤ → List (ℕ × ℕ) → ℤ → R → Outcome (List (Piece R))
  row_events watts interval sel i tm = values watts (λ p. i +ℤ scale p interval) sel and_then λ vs.
      ok (line_events tm sel vs ++ event (pos 1) tm sum_code (total zero_real vs))

  -- `tm` where the first set that is printed begins: a loop to `set*2`, unless all sets are.
  abbrev pub start_time : CounterT R → ℤ → Outcome R
  start_time c (pos s) = add_elapsed c 0 (s * 2) zero_real
  start_time c (negsuc s) = ok zero_real

  abbrev pub trace :
      {A : Type 0} → (ℤ → R → Outcome (List A)) → R → CounterT R → ℕ × ℕ → R → Outcome (List A)
  trace events inc c (init, n) tm =
      trace_sets events inc c init n tm and_then λ (printed, tm'). ok printed

  unfoldable pub trace_aggregate : R → CounterT R → ℤ → Outcome (List (Piece R))
  trace_aggregate inc c set = sets_to_print c set and_then λ range.
      start_time c set and_then λ tm. trace (aggregate_event c.energy.watts) inc c range tm

  unfoldable pub trace_lines : R → CounterT R → LineT → ℤ → Outcome (List (Piece R))
  trace_lines inc c lines set = sets_to_print c set and_then λ range.
      lines_to_print c lines and_then λ sel. whole_interval c and_then λ interval.
      start_time c set and_then λ tm. trace (row_events c.energy.watts interval sel) inc c range tm

  abbrev pub headed : List (Piece R) → Outcome (List (Piece R)) → Outcome (List (Piece R))
  headed xs r = r and_then λ ys. ok (xs ++ ys)

  unfoldable pub pm_print_data_paraver :
      Name → CounterT R → LineT → ℤ → Name → Outcome (List (Piece R))
  pm_print_data_paraver date c lines set unit = extent (negsuc 0) c set set and_then λ (t, n).
      headed (paraver_header date unit (in_unit unit t) (codes ":1(1):1:1:(1:1)\n")) (
        if aggregates c
        then trace_aggregate (step_time (in_unit unit t) n) c set
        else trace_lines (step_time (in_unit unit t) n) c lines set)
