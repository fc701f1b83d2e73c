-- ===== src/Client/Trace/Whole.antt =====
-- What `pm_print_data_paraver` of client/pm_print_data_paraver.c prints of all sets of an aggregating
-- counter.
use pmlib.Prelude.{
  ℕ, zero, suc, ◌+◌, ◌≤◌, ◌≡◌, refl, sym, ap, ◌∙◌, subst, true, ◌||◌, List, [], ◌∷◌, ◌++◌, arith,
  length, codes, length-append, append_assoc,
}
use pmlib.Prelude.Int.{ℤ, pos, negsuc, ◌+ℤ◌, ◌-ℤ◌, +ℤ-pos, -ℤ-pos, ltb_ℤ}
use pmlib.Map.{Name}
use pmlib.Outcome.{ok, or_crash, out_of_range}
use pmlib.Floating.{Floating}
use pmlib.Counter.Reply.{sample_at}
use pmlib.Client.Lines.{LineT}
use pmlib.Client.Requests.{CounterT}
use pmlib.Client.Print.Plan.{Difference, Piece, set_at, sets_to_print, HasTimes}
use pmlib.Client.Print.Layout.{flat, get_elem?-append_right}
use pmlib.Client.Print.Rows.{minus_one}
use pmlib.Client.Print.{zero_real, whole_interval, aggregates}
use pmlib.Client.Trace.{
  add_elapsed, extent, in_unit, paraver_header, step_time, event, trace_rows, trace_sets, sum_code,
  aggregate_event, trace_aggregate, pm_print_data_paraver,
}

-- Where the sets begin from `a` on, and where the last one ends.
abbrev pub bounds : {R : Type 0} → ℕ → List (List R) → List ℤ
bounds a [] = pos a ∷ []
bounds a (xs ∷ sets) = pos a ∷ bounds (a + length xs) sets

module _ {R : Type 0} ⦃f : Floating R⦄ ⦃g : Difference R⦄ where
  -- The time `n` samples after `tm`.
  abbrev advance : R → ℕ → R → R
  advance inc zero tm = tm
  advance inc (suc n) tm = advance inc n (f.add tm inc)

  -- One event for each sample.
  abbrev pub sample_events : R → R → List R → List (Piece R)
  sample_events inc tm [] = []
  sample_events inc tm (x ∷ xs) = event (pos 1) tm sum_code x ++ sample_events inc (f.add tm inc) xs

  sample_events-append :
      (inc tm : R) (xs ys : List R)
      → sample_events inc tm (xs ++ ys)
        ≡ sample_events inc tm xs ++ sample_events inc (advance inc (length xs) tm) ys
  sample_events-append inc tm [] ys = refl
  sample_events-append inc tm (x ∷ xs) ys =
      ap (λ zs. event (pos 1) tm sum_code x ++ zs) (sample_events-append inc (f.add tm inc) xs ys)

  trace_rows_lem :
      (inc tm : R) (pre xs post : List R)
      → trace_rows (aggregate_event (pre ++ (xs ++ post))) inc (length xs) (pos (length pre)) tm
        ≡ ok (sample_events inc tm xs, advance inc (length xs) tm)
  unfolding trace_rows
  trace_rows_lem inc tm pre [] post = refl
  trace_rows_lem inc tm pre (x ∷ xs) post =
      let here : sample_at (pre ++ (x ∷ (xs ++ post))) (pos (length pre)) ≡ ok x =
        subst (λ n. sample_at (pre ++ (x ∷ (xs ++ post))) (pos n) ≡ ok x) (omega arith)
          (ap (λ o. or_crash o out_of_range) (get_elem?-append_right pre (x ∷ (xs ++ post)) 0)) in
      let next : pos (length pre) +ℤ pos 1 ≡ pos (length (pre ++ x ∷ [])) =
        +ℤ-pos (length pre) 1 ∙ ap pos (sym (length-append pre (x ∷ []))) in
      let text : pre ++ (x ∷ (xs ++ post)) ≡ (pre ++ x ∷ []) ++ (xs ++ post) =
        sym (append_assoc pre (x ∷ []) (xs ++ post)) in
      let rest =
        subst
          (λ w.
            trace_rows (aggregate_event w) inc (length xs) (pos (length (pre ++ x ∷ [])))
              (f.add tm inc)
            ≡ ok (sample_events inc (f.add tm inc) xs, advance inc (length xs) (f.add tm inc)))
          (sym text) (trace_rows_lem inc (f.add tm inc) (pre ++ x ∷ []) xs post) in
      rw (here, next, rest) refl

  abbrev HasBounds : CounterT R → ℕ → ℕ → List (List R) → Type 0
  HasBounds c s a sets = (k : ℕ) → set_at c (pos (s + k)) ≡ sample_at (bounds a sets) (pos k)

  first_bound : (a : ℕ) (sets : List (List R)) → sample_at (bounds a sets) (pos 0) ≡ ok (pos a)
  first_bound a [] = refl
  first_bound a (xs ∷ sets) = refl

  trace_sets_lem :
      (c : CounterT R) (inc tm : R) (s : ℕ) (pre : List R) (sets : List (List R))
      → c.energy.watts ≡ pre ++ flat sets
      → HasBounds c s (length pre) sets
      → (t : R) × (trace_sets (aggregate_event c.energy.watts) inc c s (length sets) tm
          ≡ ok (sample_events inc tm (flat sets), t))
  unfolding trace_sets
  trace_sets_lem c inc tm s pre [] watts at = (tm, refl)
  trace_sets_lem c inc tm s pre (xs ∷ sets) watts at =
      let a = length pre in
      let here : set_at c (pos s) ≡ ok (pos a) =
        subst (λ n. set_at c (pos n) ≡ ok (pos a)) (omega arith) (at 0) in
      let next = at 1 ∙ first_bound (a + length xs) sets in
      let long : pos (a + length xs) -ℤ pos a ≡ pos (length xs) =
        -ℤ-pos (a + length xs) a (omega arith) ∙ ap pos (omega arith) in
      let behind = length-append pre xs in
      let later : HasBounds c (s + 1) (length (pre ++ xs)) sets = λ k. rw behind (
        subst (λ n. set_at c (pos n) ≡ sample_at (bounds (a + length xs) sets) (pos k))
          (omega arith) (at (suc k))) in
      let (t, rest) =
        trace_sets_lem c inc (advance inc (length xs) tm) (s + 1) (pre ++ xs) sets
          (watts ∙ sym (append_assoc pre xs (flat sets))) later in
      let rows : trace_rows (aggregate_event c.energy.watts) inc (length xs) (pos a) tm
          ≡ ok (sample_events inc tm xs, advance inc (length xs) tm) =
        subst
          (λ w.
            trace_rows (aggregate_event w) inc (length xs) (pos a) tm
            ≡ ok (sample_events inc tm xs, advance inc (length xs) tm))
          (sym watts) (trace_rows_lem inc tm pre xs (flat sets)) in
      (t, rw (here, next, long, rows, rest, sample_events-append inc tm xs (flat sets)) refl)

  -- The sum of the times of the rounds, from round `i` on.
  abbrev pub whole_time : (ℕ → R) → (ℕ → R) → ℕ → ℕ → R → R
  whole_time starts stops i zero t = t
  whole_time starts stops i (suc n) t =
      whole_time starts stops (i + 1) n (f.add t (g.subtract (stops i) (starts i)))

  add_elapsed-whole_time :
      (c : CounterT R) (starts stops : ℕ → R) (m i n : ℕ) (t : R)
      → HasTimes c m starts stops
      → i + n ≤ m
      → add_elapsed c i n t ≡ ok (whole_time starts stops i n t)
  unfolding add_elapsed
  add_elapsed-whole_time c starts stops m i zero t times h = refl
  add_elapsed-whole_time c starts stops m i (suc n) t times h =
      let (start, stop) = times i (omega arith) in
      rw (stop, start) (add_elapsed-whole_time c starts stops m (i + 1) n _ times (omega arith))

  -- The reply to an aggregating counter: the arrays hold these sets.
  abbrev pub HoldsSums : CounterT R → List (List R) → Type 0
  HoldsSums c sets =
      (c.aggregate ≡ pos 1)
      × (c.energy.watts ≡ flat sets)
      × (c.energy.watts_sets ≡ bounds 0 sets)
      × (c.energy.watts_sets_size ≡ pos (suc (length sets)))
      × (c.next_timing ≡ length sets)

  last_bound :
      (a : ℕ) (sets : List (List R))
      → sample_at (bounds a sets) (pos (length sets)) ≡ ok (pos (a + length (flat sets)))
  last_bound a [] = ap (λ n. ok (pos n)) (omega arith)
  last_bound a (xs ∷ sets) =
      last_bound (a + length xs) sets
      ∙ ap (λ n. ok (pos n)) (omega (arith, length-append xs (flat sets)))

  whole_interval-flat :
      (c : CounterT R) (sets : List (List R))
      → HoldsSums c sets
      → whole_interval c ≡ ok (pos (length (flat sets)))
  whole_interval-flat c sets held =
      let size = ap (λ z. z -ℤ pos 1) held.3 ∙ minus_one (length sets) in
      let last : set_at c (c.energy.watts_sets_size -ℤ pos 1) ≡ ok (pos (0 + length (flat sets))) =
        ap (λ z. set_at c z) size
        ∙ ap (λ ss. sample_at ss (pos (length sets))) held.2
        ∙ last_bound 0 sets in
      let first : set_at c (pos 0) ≡ ok (pos 0) =
        ap (λ ss. sample_at ss (pos 0)) held.2 ∙ first_bound 0 sets in
      rw (last, first)
        (ap ok (-ℤ-pos (0 + length (flat sets)) 0 (omega arith) ∙ ap pos (omega arith)))

  from_zero : (c : CounterT R) (sets : List (List R)) → HoldsSums c sets → HasBounds c 0 0 sets
  from_zero c sets held k =
      subst (λ n. set_at c (pos n) ≡ sample_at (bounds 0 sets) (pos k)) (omega arith)
        (ap (λ ss. sample_at ss (pos k)) held.2)

  every_set :
      (c : CounterT R) (sets : List (List R))
      → HoldsSums c sets
      → sets_to_print c (negsuc 0) ≡ ok (0, length sets)
  unfolding sets_to_print
  every_set c sets held =
      let size : c.energy.watts_sets_size -ℤ pos 1 ≡ pos (length sets) =
        ap (λ z. z -ℤ pos 1) held.3 ∙ minus_one (length sets) in
      rw size (ground arith)

  -- Let an aggregating counter hold a reply with a number of sets, and let both ends of each set
  -- have been taken down. Then pm_print_data_paraver, asked for all sets, prints a header with the
  -- sum of the times of the sets in the unit that is asked for, and one event for each sample of
  -- the reply in its order, at times that run on evenly from one set to the next.
  pub pm_print_data_paraver-sample_events :
      (date unit : Name) (c : CounterT R) (lines : LineT) (sets : List (List R))
      (starts stops : ℕ → R)
      → HoldsSums c sets
      → HasTimes c (length sets) starts stops
      → let t = in_unit unit (whole_time starts stops 0 (length sets) zero_real) in
        pm_print_data_paraver date c lines (negsuc 0) unit
        ≡ ok (
            paraver_header date unit t (codes ":1(1):1:1:(1:1)\n")
            ++ sample_events (step_time t (pos (length (flat sets)))) zero_real (flat sets))
  unfolding pm_print_data_paraver trace_aggregate extent
  pm_print_data_paraver-sample_events date unit c lines sets starts stops held times =
      let t = in_unit unit (whole_time starts stops 0 (length sets) zero_real) in
      let time =
        ap (λ n. add_elapsed c 0 n zero_real) held.4
        ∙ add_elapsed-whole_time c starts stops (length sets) 0 (length sets) zero_real times
            (omega arith) in
      let all : aggregates c ≡ true = ap (λ z. ltb_ℤ z (pos 0) || ltb_ℤ (pos 0) z) held.0 in
      let (_, printed) =
        trace_sets_lem c (step_time t (pos (length (flat sets)))) zero_real 0 [] sets held.1
          (from_zero c sets held) in
      rw (time, whole_interval-flat c sets held, all, every_set c sets held, printed) refl
