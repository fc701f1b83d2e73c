-- ===== src/Client/Energy.antt =====
-- `pm_calculate_energy` of client/pm_calculate_energy.c and `pm_fprint_counter_info` of
-- client/pm_fprint_counter_info.c.
use pmlib.Prelude.{ℕ, zero, suc, ◌+◌, List, [], ◌∷◌, ◌++◌, codes, if◌then◌else◌}
use pmlib.Prelude.Int.{ℤ, pos, ◌+ℤ◌, ◌-ℤ◌, pos_part}
use pmlib.Outcome.{Outcome, ok, crash, ◌and_then◌, out_of_range, uninitialised}
use pmlib.Floating.{Floating}
use pmlib.Counter.Reply.{sample_at}
use pmlib.Client.Lines.{LineT, line_isset}
use pmlib.Client.Requests.{CounterT}
use pmlib.Client.Print.Plan.{
  Difference, Piece, text, int_field, real_field, lines_to_print, sets_to_print, set_bounds,
  append_to,
}
use pmlib.Client.Print.{whole_interval, headings, tab, aggregates, zero_real}

module _ {R : Type 0} where
  -- The loop over the lines of the device, from line `i` on.
  unfoldable pub active_lines : LineT → ℕ → ℕ → List (Piece R)
  active_lines lines i zero = []
  active_lines lines i (suc k) =
      let rest = active_lines lines (i + 1) k in
      if line_isset i lines then int_field (pos (i + 1)) ∷ text (codes "\t") ∷ rest else rest

  -- What follows the socket's number, which the model has not.
  unfoldable pub pm_fprint_counter_info : CounterT R → List (Piece R)
  pm_fprint_counter_info c =
      text (codes " aggregate: ")
        ∷ int_field c.aggregate
        ∷ text (codes "\n numero de lineas del dispositivo: ")
        ∷ int_field (pos c.num_lines)
        ∷ text (codes "\n lineas activadas: ")
        ∷ active_lines c.lines 0 c.num_lines
      ++ text (codes " intervalo de muestreo: ") ∷ int_field c.interval ∷ text (codes "\n") ∷ []

  module _ ⦃f : Floating R⦄ ⦃g : Difference R⦄ where
    -- `for (i = ini; i < fin; i++) sum += watts[i]`, with `n` rounds to go.
    unfoldable pub add_watts : List R → ℕ → ℤ → R → Outcome R
    add_watts watts zero i sum = ok sum
    add_watts watts (suc n) i sum =
        sample_at watts i and_then λ v. add_watts watts n (i +ℤ pos 1) (f.add sum v)

    -- The loop over the sets: `sum` goes from a set to the next one.
    unfoldable pub average_sets : CounterT R → ℕ → ℕ → R → R → Outcome (R × R)
    average_sets c s zero time sum = ok (time, sum)
    average_sets c s (suc n) time sum = set_bounds c s and_then λ (ini, fin, elapsed).
        add_watts c.energy.watts (pos_part (fin -ℤ ini)) ini sum and_then λ sum'.
        average_sets c (s + 1) n elapsed (f.divide sum' (g.of_ℤ (fin -ℤ ini)))

    abbrev one_line : R × R → List (Piece R)
    one_line (time, sum) =
        real_field time
        ∷ text tab
        ∷ real_field sum
        ∷ text tab
        ∷ real_field (f.multiply time sum)
        ∷ text (codes "\n")
        ∷ []

    -- `time` has no value where there is no set.
    abbrev averages : CounterT R → ℕ × ℕ → Outcome (R × R)
    averages c (init, zero) = crash uninitialised
    averages c (init, suc n) = average_sets c init (suc n) zero_real zero_real

    unfoldable pub aggregate_energy : CounterT R → ℤ → Outcome (List (Piece R))
    aggregate_energy c set =
        sets_to_print c set and_then λ range. averages c range and_then λ r. ok (one_line r)

    abbrev sum_lines : R → List (Piece R)
    sum_lines time =
        text (codes "Line:       Sum\nTime:       ")
        ∷ real_field time
        ∷ text (codes " s\nEnergy:     ")
        ∷ real_field (f.multiply zero_real time)
        ∷ text (codes " Ws\n")
        ∷ []

    -- One set: `energy` has been allocated with no element at all.
    abbrev set_energy : List (ℕ × ℕ) → R → Outcome (List (Piece R))
    set_energy [] time = ok (sum_lines time)
    set_energy (l ∷ sel) time = crash out_of_range

    unfoldable pub energy_sets : CounterT R → List (ℕ × ℕ) → ℕ → ℕ → Outcome (List (Piece R))
    energy_sets c sel s zero = ok []
    energy_sets c sel s (suc n) = set_bounds c s and_then λ (ini, fin, time).
        set_energy sel time and_then λ printed. append_to printed (energy_sets c sel (s + 1) n)

    unfoldable pub line_energy : CounterT R → LineT → ℤ → Outcome (List (Piece R))
    line_energy c lines set = sets_to_print c set and_then λ (init, n).
        lines_to_print c lines and_then λ sel. whole_interval c and_then λ interval.
        append_to (text (codes "Set_id\tTime\t") ∷ headings tab sel ++ text (codes "Sum\n") ∷ [])
          (energy_sets c sel init n)

    unfoldable pub pm_calculate_energy : CounterT R → LineT → ℤ → Outcome (List (Piece R))
    pm_calculate_energy c lines set =
        if aggregates c then aggregate_energy c set else line_energy c lines set
