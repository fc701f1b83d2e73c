-- ===== src/Client/Trace/States.antt =====
-- Paraver's traces of the states of processors: client/pm_print_data_paraver_pstates.c and
-- client/pm_print_data_paraver_cstates.c. Line `l` of the counter is state `l % 4` of processor `l / 4`.
use pmlib.Prelude.{
  ℕ, zero, suc, ◌+◌, ◌*◌, ◌/◌, ◌%◌, Bool, ◌||◌, List, [], ◌∷◌, ◌++◌, codes, if◌then◌else◌, Option,
  none, some, get_elem?, set, replicate,
}
use pmlib.Prelude.Int.{ℤ, pos, negsuc, ◌+ℤ◌, ◌-ℤ◌, ltb_ℤ, pos_part}
use pmlib.Map.{Name}
use pmlib.Outcome.{Outcome, ok, throw, crash, ◌and_then◌, invalid_argument, out_of_range}
use pmlib.Floating.{Floating}
use pmlib.Counter.Reply.{sample_at}
use pmlib.Client.Lines.{LineT}
use pmlib.Client.Requests.{CounterT}
use pmlib.Client.Print.Plan.{
  Difference, Piece, text, int_field, real_field, lines_to_print, set_at, timing_at,
}
use pmlib.Client.Print.{scale, whole_interval, zero_real, values}
use pmlib.Client.Trace.{extent, in_unit, paraver_header, step_time, event, trace, headed}

module _ {R : Type 0} ⦃f : Floating R⦄ ⦃g : Difference R⦄ where
  -- `base` is the number of the first state's event.
  abbrev pub state_events : ℕ → R → List (ℕ × ℕ) → List R → List (Piece R)
  state_events base tm ((p, l) ∷ sel) (v ∷ vs) =
      event (pos (l / 4 + 1)) tm (pos (base + l % 4)) v ++ state_events base tm sel vs
  state_events base tm _ _ = []

  abbrev pub state_row : ℕ → List R → ℤ → List (ℕ × ℕ) → ℤ → R → Outcome (List (Piece R))
  state_row base watts interval sel i tm =
      values watts (λ p. i +ℤ scale p interval) sel and_then λ vs. ok (state_events base tm sel vs)

  -- Here set 0 stands for all sets, and the time and the size are those of the set before the one that
  -- is printed.
  abbrev pub states_range : CounterT R → ℤ → Outcome ((ℕ × ℕ) × R)
  states_range c (pos zero) = ok ((0, pos_part (c.energy.watts_sets_size -ℤ pos 1)), zero_real)
  states_range c (pos (suc s)) = timing_at c (suc s * 2) and_then λ tm. ok ((suc s, 1), tm)
  states_range c (negsuc s) = crash out_of_range

  unfoldable pub pm_print_data_paraver_pstates :
      Name → CounterT R → LineT → ℤ → Name → Outcome (List (Piece R))
  pm_print_data_paraver_pstates date c lines set unit =
      extent (pos 0) c set (set -ℤ pos 1) and_then λ (t, n).
      headed (paraver_header date unit (in_unit unit t) (codes ":0:1:1(8:0)\n")) (
        if ltb_ℤ (c.energy.watts_sets_size -ℤ pos 1) set || ltb_ℤ set (negsuc 0)
        then throw invalid_argument
        else (lines_to_print c lines and_then λ sel. whole_interval c and_then λ interval.
            states_range c set and_then λ (range, tm).
            trace (state_row 800000010 c.energy.watts interval sel) (step_time (in_unit unit t) n) c
              range tm))

  -- One sample of a line, where it is not zero: its share of the time is added to that of its processor,
  -- of which there are eight.
  abbrev pub add_state : R → ℕ → R → List R → Option R → Outcome (List (Piece R) × List R)
  add_state inc l v value_ant none = crash out_of_range
  add_state inc l v value_ant (some before) =
      let now = f.add before (f.divide (f.multiply inc v) (f.of_ℕ 100)) in
      ok (
        text (codes "2:0:1:1:")
            ∷ int_field (pos (l / 4 + 1))
            ∷ text (codes ":")
            ∷ real_field now
            ∷ text (codes ":90000000:")
            ∷ int_field (pos (l % 4))
            ∷ text (codes "\n")
            ∷ [],
        set value_ant (l / 4) now,
      )

  module _ (is_zero : R → Bool) where
    -- What is printed, and `value_ant`.
    unfoldable pub add_states :
        R → List R → (ℕ → ℤ) → List (ℕ × ℕ) → List R → Outcome (List (Piece R) × List R)
    add_states inc watts place [] value_ant = ok ([], value_ant)
    add_states inc watts place ((p, l) ∷ sel) value_ant = sample_at watts (place p) and_then λ v.
        (if is_zero v
          then ok ([], value_ant)
          else add_state inc l v value_ant (get_elem? value_ant (l / 4)))
        and_then λ (xs, value_ant').
            add_states inc watts place sel value_ant' and_then λ (ys, rest). ok (xs ++ ys, rest)

    unfoldable pub state_rows :
        R → List R → ℤ → List (ℕ × ℕ) → ℕ → ℤ → List R → Outcome (List (Piece R) × List R)
    state_rows inc watts interval sel zero i value_ant = ok ([], value_ant)
    state_rows inc watts interval sel (suc n) i value_ant =
        add_states inc watts (λ p. i +ℤ scale p interval) sel value_ant and_then λ (xs, value_ant').
        state_rows inc watts interval sel n (i +ℤ pos 1) value_ant' and_then λ (ys, rest).
        ok (xs ++ ys, rest)

    unfoldable pub state_sets :
        R → CounterT R → ℤ → List (ℕ × ℕ) → ℕ → ℕ → List R → Outcome (List (Piece R))
    state_sets inc c interval sel s zero value_ant = ok []
    state_sets inc c interval sel s (suc n) value_ant = set_at c (pos s) and_then λ ini.
        set_at c (pos (s + 1)) and_then λ fin.
        state_rows inc c.energy.watts interval sel (pos_part (fin -ℤ ini)) ini value_ant
        and_then λ (xs, value_ant'). headed xs (state_sets inc c interval sel (s + 1) n value_ant')

    unfoldable pub pm_print_data_paraver_cstates :
        Name → CounterT R → LineT → ℤ → Name → Bool → Outcome (List (Piece R))
    pm_print_data_paraver_cstates date c lines set' unit separate =
        extent (pos 0) c set' (set' -ℤ pos 1) and_then λ (t, n).
        let inc = step_time (in_unit unit t) n in
        headed (paraver_header date unit (in_unit unit t) (codes ":0:1:1(8:0)\n")) (
          if ltb_ℤ (c.energy.watts_sets_size -ℤ pos 1) set' || ltb_ℤ set' (negsuc 0)
          then throw invalid_argument
          else (lines_to_print c lines and_then λ sel. whole_interval c and_then λ interval.
              states_range c set' and_then λ (range, tm).
              if separate
              then trace (state_row 900000010 c.energy.watts interval sel) inc c range tm
              else state_sets inc c interval sel range.0 range.1 (replicate 8 zero_real)))
