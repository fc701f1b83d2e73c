-- ===== src/Tests/States.antt =====
-- Examples of the times that are added up for processors.
use pmlib.Prelude.{◌≡◌, refl, ℕ, suc, zero, [], ◌∷◌, ◌++◌, false, codes, arith, length, ◌==◌}
use pmlib.Prelude.Int.{pos}
use pmlib.Outcome.{ok, crash, out_of_range}
use pmlib.Client.Lines.{LineT, line_isset}
use pmlib.Client.Requests.{CounterT}
use pmlib.Client.Print.Plan.{HasTimes, nlinebits}
use pmlib.Client.Print.Selection.{HasLines, asked, set_lines, places}
use pmlib.Client.Print.Layout.{Block, flat, IsFull}
use pmlib.Client.Trace.Shares.{Fits, timeline, all_readings}
use pmlib.Client.Trace.{step_time}
use pmlib.Client.Trace.States.{pm_print_data_paraver_cstates}
use pmlib.Client.Trace.Timeline.{
  rows_from, set_time, states_header, pm_print_data_paraver_cstates-timeline,
  pm_print_data_paraver_cstates_beyond,
}
use pmlib.Tests.{nat_floating}
use pmlib.Tests.Clients.{nat_difference, empty_counter, starting, stopping}

-- Lines 1 and 5, and line 32 besides.
abbrev low_lines : LineT
low_lines = 34 ∷ 0 ∷ 0 ∷ 0 ∷ 0 ∷ 0 ∷ 0 ∷ 0 ∷ 0 ∷ 0 ∷ 0 ∷ 0 ∷ 0 ∷ 0 ∷ 0 ∷ 0 ∷ []

abbrev high_lines : LineT
high_lines = 34 ∷ 0 ∷ 0 ∷ 0 ∷ 1 ∷ 0 ∷ 0 ∷ 0 ∷ 0 ∷ 0 ∷ 0 ∷ 0 ∷ 0 ∷ 0 ∷ 0 ∷ 0 ∷ []

abbrev states : Block ℕ
states = record { size = 2; samples = (50 ∷ 0 ∷ []) ∷ (25 ∷ 75 ∷ []) ∷ (10 ∷ 0 ∷ []) ∷ [] }

abbrev counted : CounterT ℕ
counted = record empty_counter {
  lines = high_lines;
  next_timing = 1;
  timing = (0, 100) ∷ (1, 104) ∷ [];
  energy = record {
    watts_size = 6;
    watts_sets_size = pos 2;
    watts_sets = pos 0 ∷ pos 2 ∷ [];
    watts = flat states.samples;
    lines_len = pos 3;
  };
}

counted_times : HasTimes counted 1 starting stopping
counted_times zero h = (refl, refl)
counted_times (suc s) h = absurd (omega arith)

counted_lines : HasLines counted
unfolding set_lines line_isset
counted_lines = refl

states-IsFull : IsFull (length (set_lines high_lines 0 nlinebits)) states
unfolding set_lines line_isset
states-IsFull = (refl, (refl, (refl, (refl, tt))))

low-Fits : Fits 8 (asked counted low_lines)
unfolding set_lines line_isset places
low-Fits = (omega arith, (omega arith, tt))

all_asked : asked counted high_lines ≡ (0, 1) ∷ (1, 5) ∷ (2, 32) ∷ []
unfolding set_lines line_isset places
all_asked = refl

pm_print_data_paraver_cstates-timeline_example :
    pm_print_data_paraver_cstates
      (λ v. v == 0)
      (codes "today")
      counted
      low_lines
      (pos 0)
      (codes "us")
      false
    ≡ ok (
        states_header (codes "today") (codes "us") (set_time (codes "us") starting stopping)
        ++ timeline
            (λ v. v == 0)
            (step_time (set_time (codes "us") starting stopping) (pos 2))
            []
            (all_readings
              (asked counted low_lines)
              (rows_from states (asked counted low_lines) 0 2)))
pm_print_data_paraver_cstates-timeline_example =
    pm_print_data_paraver_cstates-timeline (λ v. v == 0) (codes "today") (codes "us") counted
      low_lines states starting stopping refl refl counted_lines (refl, refl, refl, refl)
      counted_times states-IsFull low-Fits

pm_print_data_paraver_cstates_beyond_example :
    pm_print_data_paraver_cstates
      (λ v. v == 0)
      (codes "today")
      counted
      high_lines
      (pos 0)
      (codes "us")
      false
    ≡ crash out_of_range
pm_print_data_paraver_cstates_beyond_example =
    pm_print_data_paraver_cstates_beyond (λ v. v == 0) (codes "today") (codes "us") counted
      high_lines states starting stopping refl refl counted_lines (refl, refl, refl, refl)
      counted_times ((0, 1) ∷ (1, 5) ∷ []) [] 2 32 states-IsFull all_asked
      (omega arith, (omega arith, tt)) (omega arith) (omega arith) refl
