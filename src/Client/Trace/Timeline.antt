-- ===== src/Client/Trace/Timeline.antt =====
-- What `pm_print_data_paraver_cstates` of client/pm_print_data_paraver_cstates.c prints of a whole reply
-- when it adds the states of the processors up.
use pmlib.Prelude.{
  ℕ, zero, suc, ◌+◌, ◌*◌, ◌≤◌, ◌<◌, ◌≡◌, refl, sym, ap, ◌∙◌, subst, Bool, false, List, [], ◌∷◌,
  ◌++◌, append-nil, codes, arith, length, replicate, get_elem?, some,
}
use pmlib.Prelude.Int.{ℤ, pos, ◌+ℤ◌, ◌-ℤ◌, +ℤ-pos, -ℤ-pos}
use pmlib.Map.{Name}
use pmlib.Outcome.{Outcome, ok, throw, crash, ◌and_then◌, out_of_range}
use pmlib.Floating.{Floating}
use pmlib.Counter.Reply.{sample_at}
use pmlib.Client.Lines.{LineT}
use pmlib.Client.Lines.Laws.{IsLineT}
use pmlib.Client.Requests.{CounterT}
use pmlib.Client.Print.Plan.{HasTimes, Difference, Piece, set_at, nlinebits}
use pmlib.Client.Print.Selection.{set_lines, HasLines, asked, lines_to_print_lem}
use pmlib.Client.Print.Layout.{Block, flat, IsFull, sample_at-flat, sample}
use pmlib.Client.Print.Rows.{AreBelow, places-AreBelow, row, minus_one}
use pmlib.Client.Print.{zero_real, whole_interval, scale}
use pmlib.Client.Trace.{headed, extent, add_elapsed, in_unit, paraver_header, step_time}
use pmlib.Client.Trace.Shares.{
  Fits, Reads, ReadsRows, timeline, all_readings, state_rows-timeline, add_states_beyond,
}
use pmlib.Client.Trace.States.{add_states, state_sets, state_rows, pm_print_data_paraver_cstates}

AreBelow-parts :
    (m : ℕ) (sel : List (ℕ × ℕ)) (p l : ℕ) (rest : List (ℕ × ℕ))
    → AreBelow m (sel ++ ((p, l) ∷ rest))
    → AreBelow m sel × (p < m)
AreBelow-parts m [] p l rest h = (tt, h.0)
AreBelow-parts m (x ∷ sel) p l rest h =
    let (below, here) = AreBelow-parts m sel p l rest h.1 in ((h.0, below), here)

module _ {R : Type 0} ⦃f : Floating R⦄ ⦃g : Difference R⦄ where
  -- The samples of the lines that are printed, from sample `i` on.
  abbrev pub rows_from : Block R → List (ℕ × ℕ) → ℕ → ℕ → List (List R)
  rows_from b sel i zero = []
  rows_from b sel i (suc n) = row b i sel ∷ rows_from b sel (i + 1) n

  length-rows_from : (b : Block R) (sel : List (ℕ × ℕ)) (i n : ℕ) → length (rows_from b sel i n) ≡ n
  length-rows_from b sel i zero = refl
  length-rows_from b sel i (suc n) = ap suc (length-rows_from b sel (i + 1) n)

  row-Reads :
      (b : Block R) (m i : ℕ) (sel : List (ℕ × ℕ))
      → IsFull m b
      → AreBelow m sel
      → i < b.size
      → Reads (flat b.samples ++ []) (λ p. pos i +ℤ scale p (pos b.size)) sel (row b i sel)
  row-Reads b m i [] full below h = tt
  row-Reads b m i ((p, l) ∷ sel) full below h =
      let at = sample_at-flat zero_real b [] [] m p i full below.0 h in
      let place : pos i +ℤ scale p (pos b.size) ≡ pos (0 + (i + b.size * p)) =
        +ℤ-pos i (b.size * p) ∙ ap pos (omega arith) in
      (ap (sample_at (flat b.samples ++ [])) place ∙ at, row-Reads b m i sel full below.1 h)

  rows_from-ReadsRows :
      (b : Block R) (m i n : ℕ) (sel : List (ℕ × ℕ))
      → IsFull m b
      → AreBelow m sel
      → i + n ≤ b.size
      → ReadsRows (flat b.samples ++ []) (pos b.size) sel (pos i) (rows_from b sel i n)
  rows_from-ReadsRows b m i zero sel full below h = tt
  rows_from-ReadsRows b m i (suc n) sel full below h =
      let rest = rows_from-ReadsRows b m (i + 1) n sel full below (omega arith) in
      (
        row-Reads b m i sel full below (omega arith),
        subst (λ z. ReadsRows (flat b.samples ++ []) (pos b.size) sel z (rows_from b sel (i + 1) n))
            (sym (+ℤ-pos i 1)) rest,
      )

  -- Nothing has been added to the times yet.
  fresh : (n : ℕ) (k : ℕ) → k < n → get_elem? (replicate n (zero_real {R = R})) k ≡ some zero_real
  fresh zero k h = absurd (omega arith)
  fresh (suc n) zero h = refl
  fresh (suc n) (suc k) h = fresh n k (omega arith)

  -- A reply with one set.
  abbrev pub HoldsOne : CounterT R → Block R → Type 0
  HoldsOne c b =
      (c.energy.watts ≡ flat b.samples)
      × (c.energy.watts_sets ≡ pos 0 ∷ pos b.size ∷ [])
      × (c.energy.watts_sets_size ≡ pos 2)
      × (c.next_timing ≡ 1)

  -- The time of the set, in the unit that is asked for.
  abbrev pub set_time : Name → (ℕ → R) → (ℕ → R) → R
  set_time unit starts stops = in_unit unit (f.add zero_real (g.subtract (stops 0) (starts 0)))

  abbrev pub states_header : Name → Name → R → List (Piece R)
  states_header date unit t = paraver_header date unit t (codes ":0:1:1(8:0)\n")

  one_size :
      (c : CounterT R) (b : Block R) → HoldsOne c b → c.energy.watts_sets_size -ℤ pos 1 ≡ pos 1
  one_size c b held = ap (λ z. z -ℤ pos 1) held.2 ∙ minus_one 1

  interval_lem : (c : CounterT R) (b : Block R) → HoldsOne c b → whole_interval c ≡ ok (pos b.size)
  interval_lem c b held =
      let last : set_at c (c.energy.watts_sets_size -ℤ pos 1) ≡ ok (pos b.size) =
        ap (λ z. set_at c z) (one_size c b held) ∙ ap (λ ss. sample_at ss (pos 1)) held.1 in
      let first : set_at c (pos 0) ≡ ok (pos 0) = ap (λ ss. sample_at ss (pos 0)) held.1 in
      rw (last, first) (ap ok (-ℤ-pos b.size 0 (omega arith) ∙ ap pos (omega arith)))

  extent_lem :
      (c : CounterT R) (b : Block R) (starts stops : ℕ → R) (m : ℤ)
      → HoldsOne c b
      → HasTimes c 1 starts stops
      → extent (pos 0) c (pos 0) m
        ≡ ok (f.add zero_real (g.subtract (stops 0) (starts 0)), pos b.size)
  unfolding extent add_elapsed
  extent_lem c b starts stops m held times =
      let (start, stop) = times 0 (omega arith) in
      rw (held.3, stop, start, interval_lem c b held) refl

  -- A fault in the first row ends the loop over the rows.
  state_rows_crash :
      (is_zero : R → Bool) (inc : R) (watts : List R) (interval : ℤ) (sel : List (ℕ × ℕ)) (n : ℕ)
      (i : ℤ) (value_ant : List R)
      → 0 < n
      → add_states is_zero inc watts (λ p. i +ℤ scale p interval) sel value_ant ≡ crash out_of_range
      → state_rows is_zero inc watts interval sel n i value_ant ≡ crash out_of_range
  unfolding state_rows
  state_rows_crash is_zero inc watts interval sel zero i value_ant h fault = absurd (omega arith)
  state_rows_crash is_zero inc watts interval sel (suc n) i value_ant h fault = rw fault refl

  one_set :
      (header : List (Piece R)) (r : Outcome (List (Piece R) × List R))
      → headed header (r and_then λ (xs, rest). headed xs (ok []))
        ≡ (r and_then λ (xs, rest). ok (header ++ xs))
  one_set header (ok (xs, rest)) = rw (append-nil xs) refl
  one_set header (throw e) = refl
  one_set header (crash e) = refl

  module _ (is_zero : R → Bool) (date unit : Name) (c : CounterT R) (lines : LineT) (b : Block R)
      (starts stops : ℕ → R) (ok' : IsLineT lines) (ok'' : IsLineT c.lines) (len : HasLines c)
      (held : HoldsOne c b) (times : HasTimes c 1 starts stops) where
    abbrev pub step : R
    step = step_time (set_time unit starts stops) (pos b.size)

    rows_printed : pm_print_data_paraver_cstates is_zero date c lines (pos 0) unit false ≡ (
        state_rows is_zero step
          (flat b.samples ++ [])
          (pos b.size)
          (asked c lines)
          b.size
          (pos 0)
          (replicate 8 zero_real)
        and_then λ (xs, rest). ok (states_header date unit (set_time unit starts stops) ++ xs))
    unfolding pm_print_data_paraver_cstates state_sets
    rows_printed =
        let (chosen, _) = lines_to_print_lem c lines ok' ok'' len in
        let first : set_at c (pos 0) ≡ ok (pos 0) = ap (λ ss. sample_at ss (pos 0)) held.1 in
        let next : set_at c (pos 1) ≡ ok (pos b.size) = ap (λ ss. sample_at ss (pos 1)) held.1 in
        let long : pos b.size -ℤ pos 0 ≡ pos b.size =
          -ℤ-pos b.size 0 (omega arith) ∙ ap pos (omega arith) in
        let watts : c.energy.watts ≡ flat b.samples ++ [] =
          held.0 ∙ sym (append-nil (flat b.samples)) in
        rw
          (
            extent_lem c b starts stops (pos 0 -ℤ pos 1) held times,
            interval_lem c b held,
            one_size c b held,
            chosen,
            first,
            next,
            long,
            watts,
          )
          (one_set (states_header date unit (set_time unit starts stops)) _)

    -- Let a counter hold a reply with one set, both ends of which have been taken down, with as
    -- many samples for each line of the counter's bit map, and let the lines that are asked for be
    -- those of the first eight processors, four to each. Then pm_print_data_paraver_cstates, asked
    -- for all sets and for the states together, prints the header and, for each sample other than
    -- zero, sample after sample and in each line after line, the state, the processor and the time
    -- that all states of that processor have taken so far; no access is out of range.
    pub pm_print_data_paraver_cstates-timeline :
        IsFull (length (set_lines c.lines 0 nlinebits)) b
        → Fits 8 (asked c lines)
        → pm_print_data_paraver_cstates is_zero date c lines (pos 0) unit false
          ≡ ok (
              states_header date unit (set_time unit starts stops)
              ++ timeline is_zero step []
                  (all_readings (asked c lines) (rows_from b (asked c lines) 0 b.size)))
    pm_print_data_paraver_cstates-timeline full fit =
        let ls = set_lines c.lines 0 nlinebits in
        let below = places-AreBelow lines 0 (length ls) ls (omega arith) in
        let samples = rows_from b (asked c lines) 0 b.size in
        let (after, run) =
          state_rows-timeline is_zero 8 step (flat b.samples ++ []) (pos b.size) (asked c lines)
            (pos 0) samples [] (replicate 8 zero_real)
            (rows_from-ReadsRows b (length ls) 0 b.size (asked c lines) full below (omega arith))
            fit (refl, fresh 8) in
        let run' =
          subst
            (λ n.
              state_rows is_zero step (flat b.samples ++ []) (pos b.size) (asked c lines) n (pos 0)
                (replicate 8 zero_real)
              ≡ ok (timeline is_zero step [] (all_readings (asked c lines) samples), after))
            (length-rows_from b (asked c lines) 0 b.size) run in
        rows_printed ∙ rw run' refl

    -- Let a counter hold a reply with one set, both ends of which have been taken down, with as
    -- many samples for each line of the counter's bit map. Let the lines that are asked for begin
    -- with lines of the first eight processors, four to each, and let the next one be of another
    -- processor, its first sample other than zero. Then pm_print_data_paraver_cstates, asked for
    -- all sets and for the states together, reads past the end of the array of the processors'
    -- times.
    pub pm_print_data_paraver_cstates_beyond :
        (sel rest : List (ℕ × ℕ)) (p l : ℕ)
        → IsFull (length (set_lines c.lines 0 nlinebits)) b
        → asked c lines ≡ sel ++ ((p, l) ∷ rest)
        → Fits 8 sel
        → 32 ≤ l
        → 0 < b.size
        → is_zero (sample zero_real b p 0) ≡ false
        → pm_print_data_paraver_cstates is_zero date c lines (pos 0) unit false ≡ crash out_of_range
    pm_print_data_paraver_cstates_beyond sel rest p l full chosen fit far some' nonzero =
        let ls = set_lines c.lines 0 nlinebits in
        let m = length ls in
        let below : AreBelow m (asked c lines) = places-AreBelow lines 0 m ls (omega arith) in
        let (below', here) = AreBelow-parts m sel p l rest (subst (AreBelow m) chosen below) in
        let place = λ (q : ℕ). pos 0 +ℤ scale q (pos b.size) in
        let at : sample_at (flat b.samples ++ []) (place p) ≡ ok (sample zero_real b p 0) =
          (row-Reads b m 0 ((p, l) ∷ []) full (here, tt) some').0 in
        let fault =
          add_states_beyond is_zero 8 step (flat b.samples ++ []) place sel (row b 0 sel) p l
            (sample zero_real b p 0) rest [] (replicate 8 zero_real)
            (row-Reads b m 0 sel full below' some') fit (refl, fresh 8) at nonzero (omega arith) in
        let run =
          state_rows_crash is_zero step (flat b.samples ++ []) (pos b.size) (asked c lines) b.size
            (pos 0) (replicate 8 zero_real) some'
            (ap
                (λ s.
                  add_states is_zero step (flat b.samples ++ []) place s (replicate 8 zero_real))
                chosen
              ∙ fault) in
        rows_printed ∙ rw run refl
