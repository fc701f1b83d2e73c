-- ===== src/Client/Otf.antt =====
-- Trace files in the Open Trace Format: client/pm_print_data_otf.c, as the calls of the OTF library that
-- write one.
use pmlib.Prelude.{ℕ, ◌+◌, ◌^◌, List, [], ◌∷◌, ◌++◌, if◌then◌else◌}
use pmlib.Prelude.Int.{ℤ, negsuc, ◌+ℤ◌}
use pmlib.Outcome.{Outcome, ok, ◌and_then◌}
use pmlib.Floating.{Floating}
use pmlib.Counter.Reply.{sample_at}
use pmlib.Client.Lines.{LineT}
use pmlib.Client.Requests.{CounterT}
use pmlib.Client.Print.Plan.{Difference, lines_to_print, sets_to_print}
use pmlib.Client.Print.{scale, whole_interval, aggregates, zero_real, values, total}
use pmlib.Client.Trace.{extent, start_time, step_time, trace}

-- The calls of `OTF_Writer`. Times and values are the `double`s that are converted to integers for a
-- call; a counter is defined with the number of a line in its name, or is that of the sum.
pub data Call (R : Type 0) : Type 0 where
  write_enter : Call R
  write_counter : R → ℕ → R → Call R
  write_leave : R → Call R
  def_timer_resolution def_process def_counter_group : Call R
  def_sum : Call R
  def_line : ℕ → ℕ → Call R

module _ {R : Type 0} where
  -- The loop over the counters, behind that of the sum, from counter `j` on.
  unfoldable pub define_lines : ℕ → List (ℕ × ℕ) → List (Call R)
  define_lines j [] = []
  define_lines j ((p, l) ∷ sel) = def_line j l ∷ define_lines (j + 1) sel

module _ {R : Type 0} ⦃f : Floating R⦄ ⦃g : Difference R⦄ where
  -- `tm * 1e6`, and `watts * 1e3`.
  abbrev micro : R → R
  micro tm = f.multiply tm (f.of_ℕ (10 ^ 6))

  abbrev milli : R → R
  milli v = f.multiply v (f.of_ℕ (10 ^ 3))

  abbrev pub sum_call : List R → ℤ → R → Outcome (List (Call R))
  sum_call watts i tm =
      sample_at watts i and_then λ v. ok (write_counter (micro tm) 0 (milli v) ∷ [])

  unfoldable pub line_calls : R → ℕ → List R → List (Call R)
  line_calls tm j [] = []
  line_calls tm j (v ∷ vs) = write_counter (micro tm) (j + 1) (milli v) ∷ line_calls tm (j + 1) vs

  abbrev pub row_calls : List R → ℤ → List (ℕ × ℕ) → ℤ → R → Outcome (List (Call R))
  row_calls watts interval sel i tm = values watts (λ p. i +ℤ scale p interval) sel and_then λ vs.
      ok (line_calls tm 0 vs ++ write_counter (micro tm) 0 (milli (total zero_real vs)) ∷ [])

  -- The samples, and the lines that counters are defined for.
  abbrev pub otf_aggregate : R → CounterT R → ℤ → Outcome (List (Call R) × List (ℕ × ℕ))
  otf_aggregate inc c set = sets_to_print c set and_then λ range. start_time c set and_then λ tm.
      trace (sum_call c.energy.watts) inc c range tm and_then λ calls. ok (calls, [])

  abbrev pub otf_lines : R → CounterT R → LineT → ℤ → Outcome (List (Call R) × List (ℕ × ℕ))
  otf_lines inc c lines set = sets_to_print c set and_then λ range.
      lines_to_print c lines and_then λ sel. whole_interval c and_then λ interval.
      start_time c set and_then λ tm.
      trace (row_calls c.energy.watts interval sel) inc c range tm and_then λ calls. ok (calls, sel)

  abbrev pub finish : R → List (Call R) × List (ℕ × ℕ) → List (Call R)
  finish t (calls, sel) =
      write_enter ∷ calls
      ++ write_leave (micro t)
        ∷ def_timer_resolution
        ∷ def_process
        ∷ def_counter_group
        ∷ def_sum
        ∷ define_lines 1 sel

  -- The return value is 0.
  unfoldable pub pm_print_data_otf : CounterT R → LineT → ℤ → Outcome (List (Call R))
  pm_print_data_otf c lines set = extent (negsuc 0) c set set and_then λ (t, n).
      (if aggregates c
        then otf_aggregate (step_time t n) c set
        else otf_lines (step_time t n) c lines set)
      and_then λ r. ok (finish t r)
