-- ===== src/Client/Print.antt =====
-- Printing a counter's samples: client/pm_print_data_csv.c, client/pm_print_data_stdout.c and
-- client/pm_print_data_text.c. A call either returns -1, or returns 1 with what it has printed; files
-- open and take what is written.
pub mod Plan
pub mod Selection
pub mod Layout
pub mod Rows
pub mod Table
pub mod Range
use pmlib.Prelude.{
  ℕ, zero, suc, ◌+◌, ◌-◌, ◌*◌, Bool, true, false, ◌&&◌, ◌||◌, not, List, [], ◌∷◌, ◌++◌, codes,
  length, get_elem?, ltb, leb, ◌==◌, if◌then◌else◌,
}
use pmlib.Prelude.Int.{ℤ, pos, negsuc, ◌+ℤ◌, ◌-ℤ◌, ltb_ℤ, pos_part}
use pmlib.Map.{nat_key, find}
use pmlib.Outcome.{
  Outcome, ok, throw, crash, ◌and_then◌, or_crash, invalid_argument, out_of_range, uninitialised,
}
use pmlib.Floating.{Floating}
use pmlib.Counter.Reply.{sample_at}
use pmlib.Client.Lines.{LineT, line_isset, line_and}
use pmlib.Client.Requests.{CounterT, timelen}
use pmlib.Client.Print.Plan.{
  Difference, Piece, text, int_field, real_field, lines_to_print, counter_lines, set_at,
  sets_to_print, set_bounds, append_to,
}

abbrev semicolon : List ℕ
semicolon = codes ";"

abbrev pub tab : List ℕ
tab = codes "\t"

abbrev pub scale : ℕ → ℤ → ℤ
scale p (pos n) = pos (n * p)
scale zero (negsuc n) = pos 0
scale (suc p) (negsuc n) = negsuc (suc n * suc p - 1)

module _ {R : Type 0} where
  -- `for (j = 0; j < n_lines_print; j++)`, where sample `i` of the line in place `p` is `watts[place p i]`.
  unfoldable pub values : List R → (ℕ → ℤ) → List (ℕ × ℕ) → Outcome (List R)
  values watts place [] = ok []
  values watts place ((p, l) ∷ sel) =
      sample_at watts (place p) and_then λ v. append_to (v ∷ []) (values watts place sel)

  abbrev pub fields : List ℕ → List R → List (Piece R)
  fields sep [] = []
  fields sep (v ∷ vs) = real_field v ∷ text sep ∷ fields sep vs

  abbrev pub headings : List ℕ → List (ℕ × ℕ) → List (Piece R)
  headings sep [] = []
  headings sep ((p, l) ∷ sel) =
      text (codes "Line ") ∷ int_field (pos l) ∷ text sep ∷ headings sep sel

  abbrev pub total : ⦃f : Floating R⦄ → R → List R → R
  total sum [] = sum
  total ⦃f⦄ sum (v ∷ vs) = total (f.add sum v) vs

  abbrev pub aggregates : CounterT R → Bool
  aggregates c = ltb_ℤ c.aggregate (pos 0) || ltb_ℤ (pos 0) c.aggregate

  -- The whole length of the sets.
  abbrev pub whole_interval : CounterT R → Outcome ℤ
  whole_interval c = set_at c (c.energy.watts_sets_size -ℤ pos 1) and_then λ last.
      set_at c (pos 0) and_then λ first. ok (last -ℤ first)

  module _ ⦃f : Floating R⦄ ⦃g : Difference R⦄ where
    abbrev pub zero_real : R
    zero_real = f.of_ℕ 0

    -- `time / (fin - ini - 1)`
    abbrev pub increment : ℤ → ℤ → R → R
    increment ini fin time = f.divide time (g.of_ℤ (fin -ℤ ini -ℤ pos 1))

    -- The rows of a set, `n` of them from `i` on, when the values are added up.
    unfoldable pub aggregate_rows : List ℕ → List R → ℕ → R → ℕ → ℤ → R → Outcome (List (Piece R))
    aggregate_rows sep watts s inc zero i t = ok []
    aggregate_rows sep watts s inc (suc n) i t = sample_at watts i and_then λ v.
        append_to
          (int_field (pos s)
            ∷ text sep
            ∷ real_field t
            ∷ text sep
            ∷ real_field v
            ∷ text (codes "\n")
            ∷ [])
          (aggregate_rows sep watts s inc n (i +ℤ pos 1) (f.add t inc))

    unfoldable pub line_rows :
        List ℕ → List R → (ℤ → ℕ → ℤ) → List (ℕ × ℕ) → ℕ → R → ℕ → ℤ → R → Outcome (List (Piece R))
    line_rows sep watts place sel s inc zero i t = ok []
    line_rows sep watts place sel s inc (suc n) i t = values watts (place i) sel and_then λ vs.
        append_to
          (int_field (pos s) ∷ text sep ∷ real_field t ∷ text sep ∷ fields sep vs
            ++ real_field (total zero_real vs) ∷ text (codes "\n") ∷ [])
          (line_rows sep watts place sel s inc n (i +ℤ pos 1) (f.add t inc))

    -- The loop over the sets of an aggregating counter.
    unfoldable pub aggregate_sets : List ℕ → CounterT R → ℕ → ℕ → Outcome (List (Piece R))
    aggregate_sets sep c s zero = ok []
    aggregate_sets sep c s (suc n) = set_bounds c s and_then λ (ini, fin, time).
        aggregate_rows sep c.energy.watts s (increment ini fin time) (pos_part (fin -ℤ ini)) ini
          zero_real
        and_then λ rows. append_to rows (aggregate_sets sep c (s + 1) n)

    unfoldable pub print_aggregate : List ℕ → CounterT R → ℤ → Outcome (List (Piece R))
    print_aggregate sep c set = sets_to_print c set and_then λ (init, n).
        append_to
          (text (codes "Set_id" ++ sep ++ codes "Time" ++ sep ++ codes "Value_aggregate\n") ∷ [])
          (aggregate_sets sep c init n)

    abbrev pub line_header : List ℕ → List (ℕ × ℕ) → List (Piece R)
    line_header sep sel =
        text (codes "Set_id" ++ sep ++ codes "Time" ++ sep) ∷ headings sep sel
        ++ text (codes "Sum\n") ∷ []

    -- The loop over the sets in pm_print_data_csv.c and pm_print_data_stdout.c: `watts[i+interval*p]`.
    unfoldable pub line_sets :
        List ℕ → CounterT R → ℤ → List (ℕ × ℕ) → ℕ → ℕ → Outcome (List (Piece R))
    line_sets sep c interval sel s zero = ok []
    line_sets sep c interval sel s (suc n) = set_bounds c s and_then λ (ini, fin, time).
        line_rows sep c.energy.watts (λ i p. i +ℤ scale p interval) sel s (increment ini fin time)
          (pos_part (fin -ℤ ini)) ini zero_real
        and_then λ rows. append_to rows (line_sets sep c interval sel (s + 1) n)

    unfoldable pub print_lines : List ℕ → CounterT R → LineT → ℤ → Outcome (List (Piece R))
    print_lines sep c lines set = sets_to_print c set and_then λ (init, n).
        lines_to_print c lines and_then λ sel. whole_interval c and_then λ interval.
        append_to (line_header sep sel) (line_sets sep c interval sel init n)

    -- The loop over the sets in pm_print_data_text.c: the samples of a set begin at `offset`.
    unfoldable pub text_sets :
        List ℕ → CounterT R → ℕ → List (ℕ × ℕ) → ℤ → ℕ → ℕ → Outcome (List (Piece R))
    text_sets sep c n_lines sel offset s zero = ok []
    text_sets sep c n_lines sel offset s (suc n) = set_bounds c s and_then λ (ini, fin, time).
        line_rows sep c.energy.watts (λ i p. offset +ℤ (i +ℤ scale p (fin -ℤ ini))) sel s
          (increment ini fin time) (pos_part (fin -ℤ ini)) (pos 0) zero_real
        and_then λ rows.
            append_to rows
              (text_sets sep c n_lines sel (offset +ℤ scale n_lines (fin -ℤ ini)) (s + 1) n)

    -- The whole length of the sets is read here, too, before each set's own.
    unfoldable pub print_text_lines : List ℕ → CounterT R → LineT → ℤ → Outcome (List (Piece R))
    print_text_lines sep c lines set = sets_to_print c set and_then λ (init, n).
        lines_to_print c lines and_then λ sel. whole_interval c and_then λ interval.
        append_to (line_header sep sel) (text_sets sep c (counter_lines c lines) sel (pos 0) init n)

    unfoldable pub pm_print_data_csv : CounterT R → LineT → ℤ → Outcome (List (Piece R))
    pm_print_data_csv c lines set =
        if aggregates c then print_aggregate semicolon c set else print_lines semicolon c lines set

    unfoldable pub pm_print_data_stdout : CounterT R → LineT → ℤ → Outcome (List (Piece R))
    pm_print_data_stdout c lines set =
        if aggregates c then print_aggregate tab c set else print_lines tab c lines set

    unfoldable pub pm_print_data_text : CounterT R → LineT → ℤ → Outcome (List (Piece R))
    pm_print_data_text c lines set =
        if aggregates c then print_aggregate tab c set else print_text_lines tab c lines set
