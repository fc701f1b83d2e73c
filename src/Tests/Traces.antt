-- ===== src/Tests/Traces.antt =====
-- Examples of a client that measures and of what it prints.
use pmlib.Prelude.{
  ℕ, zero, suc, ◌*◌, ◌≡◌, refl, List, [], ◌∷◌, ◌++◌, codes, arith, length, replicate, true, false,
  map,
}
use pmlib.Prelude.Int.{pos, negsuc}
use pmlib.Outcome.{ok, throw, crash, invalid_argument, out_of_range}
use pmlib.Wire.{int_bytes}
use pmlib.Counter.{serve, start_session, restart, stop_session, finalize_session}
use pmlib.Client.{Link}
use pmlib.Client.Requests.{
  CounterT, pm_start_counter, pm_continue_counter, pm_stop_counter, pm_finalize_counter,
}
use pmlib.Client.Arrivals.{Arrives}
use pmlib.Client.Session.{measure, measure-HasTimes, measure_beyond}
use pmlib.Client.Exchange.Commands.{waiting, serve-commands}
use pmlib.Client.Server.{pm_set_server, c_string, pm_set_server_lem}
use pmlib.Client.Print.{pm_print_data_csv}
use pmlib.Client.Print.Plan.{HasTimes}
use pmlib.Client.Print.Range.{pm_print_data_csv-beyond}
use pmlib.Client.Print.Layout.{flat}
use pmlib.Client.Trace.{in_unit, paraver_header, step_time, pm_print_data_paraver}
use pmlib.Client.Trace.Whole.{
  bounds, whole_time, sample_events, pm_print_data_paraver-sample_events,
}
use pmlib.Client.Stream.{stream_aggregate}
use pmlib.Client.Stream.Missed.{stream_aggregate_missed}
use pmlib.Tests.{session, nat_floating}
use pmlib.Tests.Clients.{
  some_lines, empty_counter, measured, starting, stopping, two_sets, nat_difference, measured_lines,
}

-- A server that answers each request with success, in a piece of its own.
abbrev successes : ℕ → List (List ℕ)
successes n = [] ∷ replicate n (int_bytes (pos 0))

successes_in_pieces : (n : ℕ) → Arrives (replicate n (int_bytes (pos 0))) [] (successes n)
unfolding int_bytes
successes_in_pieces zero = refl
successes_in_pieces (suc n) = ([], replicate n (int_bytes (pos 0)), refl, successes_in_pieces n)

abbrev busy_link : ℕ → Link
busy_link n = record {
  reachable = true;
  arrivals = successes n;
  sent = [];
  writable = n;
  closed = true;
}

measure-HasTimes_example :
    (c' : CounterT ℕ) × ((measure starting stopping 2 empty_counter (busy_link (suc 2 * 2))).0
      ≡ ok c')
    × (c'.next_timing ≡ 3)
    × HasTimes c' 3 starting stopping
measure-HasTimes_example =
    measure-HasTimes starting stopping 2 empty_counter (busy_link (suc 2 * 2)) (omega arith)
      (successes_in_pieces (suc 2 * 2), omega arith)

measure_beyond_example :
    (measure starting stopping 5000 empty_counter (busy_link (suc 5000 * 2))).0 ≡ crash out_of_range
measure_beyond_example =
    measure_beyond starting stopping 5000 empty_counter (busy_link (suc 5000 * 2)) (omega arith)
      (successes_in_pieces (suc 5000 * 2), omega arith)

pm_print_data_csv-beyond_example :
    (pm_print_data_csv measured some_lines (pos 2) ≡ crash out_of_range)
    × (pm_print_data_csv measured some_lines (pos 3) ≡ throw invalid_argument)
    × (pm_print_data_csv measured some_lines (negsuc 1) ≡ throw invalid_argument)
pm_print_data_csv-beyond_example =
    pm_print_data_csv-beyond measured some_lines two_sets 0 refl refl measured_lines
      (refl, refl, refl, refl)

abbrev sums : List (List ℕ)
sums = (5 ∷ 6 ∷ []) ∷ (9 ∷ []) ∷ []

abbrev summed : CounterT ℕ
summed = record measured {
  aggregate = pos 1;
  energy = record {
    watts_size = 3;
    watts_sets_size = pos 3;
    watts_sets = bounds 0 sums;
    watts = flat sums;
    lines_len = pos 1;
  };
}

summed_times : HasTimes summed 2 starting stopping
summed_times zero h = (refl, refl)
summed_times (suc zero) h = (refl, refl)
summed_times (suc (suc s)) h = absurd (omega arith)

pm_print_data_paraver-sample_events_example :
    pm_print_data_paraver (codes "today") summed some_lines (negsuc 0) (codes "us")
    ≡ ok (
        paraver_header
          (codes "today")
          (codes "us")
          (in_unit (codes "us") (whole_time starting stopping 0 2 0))
          (codes ":1(1):1:1:(1:1)\n")
        ++ sample_events
            (step_time (in_unit (codes "us") (whole_time starting stopping 0 2 0)) (pos 3))
            0
            (flat sums))
pm_print_data_paraver-sample_events_example =
    pm_print_data_paraver-sample_events (codes "today") (codes "us") summed some_lines sums starting
      stopping (refl, refl, refl, refl, refl) summed_times

serve-commands_example :
    ((pm_start_counter 7 empty_counter (busy_link 1)).1.sent ≡ int_bytes (pos 1))
    × (serve (waiting (int_bytes (pos 1) ++ []) session) ≡ start_session (waiting [] session))
    × ((pm_continue_counter 7 empty_counter (busy_link 1)).1.sent ≡ int_bytes (pos 2))
    × (serve (waiting (int_bytes (pos 2) ++ []) session) ≡ restart (waiting [] session))
    × ((pm_stop_counter 7 empty_counter (busy_link 1)).1.sent ≡ int_bytes (pos 3))
    × (serve (waiting (int_bytes (pos 3) ++ []) session) ≡ stop_session (waiting [] session))
    × ((pm_finalize_counter (busy_link 1)).1.sent ≡ int_bytes (pos 5))
    × (serve (waiting (int_bytes (pos 5) ++ []) session) ≡ finalize_session (waiting [] session))
serve-commands_example =
    serve-commands 7 empty_counter (busy_link 1) [] session (successes_in_pieces 1, omega arith)
      (omega arith)

pm_set_server_lem_example :
    (length (pm_set_server (codes "10.0.0.1") (pos 6526)).server_ip ≡ 16)
    × (c_string (pm_set_server (codes "10.0.0.1") (pos 6526)).server_ip ≡ codes "10.0.0.1")
pm_set_server_lem_example = pm_set_server_lem (codes "10.0.0.1") (pos 6526) (omega arith)

-- Three samples, of eight bytes each, as a server sends them.
abbrev three_samples : List (List ℕ)
three_samples = map (λ n. n ∷ 0 ∷ 0 ∷ 0 ∷ 0 ∷ 0 ∷ 0 ∷ 0 ∷ []) (5 ∷ 6 ∷ 9 ∷ [])

abbrev lowest : List ℕ → ℕ
lowest [] = 0
lowest (b ∷ bs) = b

samples_in_pieces : Arrives three_samples [] three_samples
samples_in_pieces = ([], _, refl, ([], _, refl, ([], _, refl, refl)))

abbrev sampling_link : Link
sampling_link = record {
  reachable = true;
  arrivals = three_samples;
  sent = [];
  writable = 1;
  closed = false;
}

stream_aggregate_missed_example :
    (stream_aggregate lowest summed (negsuc 0) 10 sampling_link).0
    ≡ ok (sample_events 10 0 (5 ∷ 6 ∷ []))
stream_aggregate_missed_example =
    stream_aggregate_missed lowest summed 10 2
      ((5 ∷ 0 ∷ 0 ∷ 0 ∷ 0 ∷ 0 ∷ 0 ∷ 0 ∷ []) ∷ (6 ∷ 0 ∷ 0 ∷ 0 ∷ 0 ∷ 0 ∷ 0 ∷ 0 ∷ []) ∷ [])
      (9 ∷ 0 ∷ 0 ∷ 0 ∷ 0 ∷ 0 ∷ 0 ∷ 0 ∷ []) sampling_link refl refl refl refl
      (refl, (refl, (refl, tt))) samples_in_pieces
