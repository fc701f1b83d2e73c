-- ===== src/Tests/Samplings.antt =====
-- Examples of a driver and its device's thread.
use pmlib.Prelude.{ℕ, ◌≡◌, refl, List, [], ◌∷◌, arith, codes, replicate}
use pmlib.Outcome.{ok}
use pmlib.Device.{Device}
use pmlib.Sampling.{Tick, produced, consumed, run_ticks}
use pmlib.Sampling.Order.{store_each, products, total, run_ticks-total, run_ticks-drained}
use pmlib.Lifecycle.{Life, start_devices}
use pmlib.Lifecycle.Started.{survives, all_up, AreWorking, start_devices_lem}
use pmlib.Tests.{meter, line}

-- The meter while its first line is being measured.
abbrev measuring : Device ℕ
measuring = record meter {
  lines = (0, line 0 1 1 (4 ∷ [])) ∷ (1, line 1 1 0 (7 ∷ [])) ∷ [];
  data_queue = (1 ∷ 2 ∷ []) ∷ [];
}

abbrev schedule : List (Tick ℕ)
schedule = produced (3 ∷ 4 ∷ []) ∷ consumed ∷ produced (5 ∷ 6 ∷ []) ∷ []

run_ticks-total_example :
    (d' : Device ℕ) × (run_ticks schedule measuring ≡ ok d')
    × (total d' ≡ store_each (products schedule) (total measuring))
run_ticks-total_example =
    run_ticks-total schedule measuring (omega arith) (omega arith) (omega arith)

run_ticks-drained_example :
    (d' : Device ℕ) × (run_ticks (replicate 3 consumed) measuring ≡ ok d')
    × (d'.data_queue ≡ [])
    × (d'.lines ≡ total measuring)
run_ticks-drained_example = run_ticks-drained 3 measuring (omega arith) refl (omega arith)

-- The meter comes up: a sample is consumed before the wait is over.
start_devices_lem_example :
    (l : Life ℕ) × (start_devices (λ _. schedule) ((codes "meter", measuring) ∷ []) ≡ ok l)
    × (survives (λ _. schedule) l ≡ all_up (λ _. schedule) ((codes "meter", measuring) ∷ []))
    × AreWorking (λ _. schedule) ((codes "meter", measuring) ∷ []) l
start_devices_lem_example =
    start_devices_lem (λ _. schedule) ((codes "meter", measuring) ∷ [])
      ((omega arith, omega arith, omega arith), tt)
