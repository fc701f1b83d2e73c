-- ===== src/Tests/Devices.antt =====
-- Examples of devices and of requests.
use pmlib.Prelude.{
  ℕ, zero, suc, ◌<◌, ◌≤◌, ◌≡◌, refl, [], ◌∷◌, arith, none, some, inr, codes, get_elem?,
  if◌then◌else◌,
}
use pmlib.Prelude.Int.{pos, negsuc, sub_ℕ}
use pmlib.Map.{find, nat_key}
use pmlib.Outcome.{ok, throw, frequency_too_high, ◌and_then◌}
use pmlib.Device.{
  Attached, Line, Device, start_counter, stop_counter, register_counter, deregister_counter,
  push_back_data, with_lines, is_active, push_back,
}
use pmlib.Device.Invariant.{IsWired}
use pmlib.Device.Effects.{KeepsOthers, deregister_counter_lem, push_back_data_lem}
use pmlib.Device.Undo.{released, stop_counter-start_counter, deregister_counter-register_counter}
use pmlib.Counter.{set_frequency}
use pmlib.Counter.Rate.{IsNearest, set_frequency_lem}
use pmlib.Counter.Selection.{names, lines_of_mask_lem}
use pmlib.Counter.Mask.{lines_of_mask}
use pmlib.Device.Invariant.{IsSelection}
use pmlib.Device.Lines.{contains, IsLine}
use pmlib.Device.Holders.{holders}
use pmlib.Tests.{meter, owner, line}
use pmlib.Tests.Sessions.{meter-IsWired}

abbrev guest : Attached
guest = record { id = 2; client_ip = codes "10.0.0.3"; lines = 0 ∷ 1 ∷ [] }

stop_counter-start_counter_example :
    (start_counter (0 ∷ 1 ∷ []) meter and_then stop_counter (0 ∷ 1 ∷ [])) ≡ ok meter
stop_counter-start_counter_example =
    stop_counter-start_counter meter meter-IsWired (0 ∷ 1 ∷ []) (omega arith)

deregister_counter-register_counter_example :
    (d' : Device ℕ) × ((register_counter guest meter and_then deregister_counter guest) ≡ ok d')
    × (d' ≡ with_lines meter d'.lines)
    × ((l : ℕ) → find l meter.lines ≡ none → find l d'.lines ≡ none)
    × ((l : ℕ) (x : Line ℕ)
        → find l meter.lines ≡ some x
        → find l d'.lines ≡ some (released (0 ∷ 1 ∷ []) l x))
deregister_counter-register_counter_example =
    deregister_counter-register_counter meter meter-IsWired guest (omega arith) refl

-- The meter when the guest is there too.
abbrev shared_meter : Device ℕ
shared_meter = record meter {
  lines = (0, line 0 1 1 (4 ∷ [])) ∷ (1, line 1 2 1 (7 ∷ [])) ∷ [];
  counter_map = (1, owner) ∷ (2, guest) ∷ [];
}

shared_present : (l : ℕ) → l < 2 → IsLine shared_meter.lines l
shared_present zero h = (_, refl)
shared_present (suc zero) h = (_, refl)
shared_present (suc (suc l)) h = absurd (omega arith)

shared_counted :
    (l : ℕ) (x : Line ℕ)
    → l < 2
    → find l shared_meter.lines ≡ some x
    → x.enabled ≡ holders l shared_meter.counter_map
shared_counted zero x h e = ground arith
shared_counted (suc zero) x h e = ground arith
shared_counted (suc (suc l)) x h e = absurd (omega arith)

shared_meter-IsWired : IsWired shared_meter
shared_meter-IsWired = record {
  present = shared_present;
  within = omega arith;
  unique = (refl, (refl, tt));
  fast = omega arith;
  counted = shared_counted;
}

deregister_counter_lem_example :
    (d' : Device ℕ) × (deregister_counter guest shared_meter ≡ ok d')
    × IsWired d'
    × (find 2 d'.counter_map ≡ none)
    × (d' ≡ record shared_meter { lines = d'.lines; counter_map = d'.counter_map })
    × KeepsOthers shared_meter guest d'
deregister_counter_lem_example =
    deregister_counter_lem shared_meter shared_meter-IsWired guest (omega arith) (inr refl)

push_back_data_lem_example :
    (d' : Device ℕ) × (push_back_data (5 ∷ 6 ∷ []) shared_meter ≡ ok d')
    × IsWired d'
    × (d' ≡ with_lines shared_meter d'.lines)
    × ((l : ℕ) → find l shared_meter.lines ≡ none → find l d'.lines ≡ none)
    × ((l : ℕ) (x : Line ℕ)
        → find l shared_meter.lines ≡ some x
        → (r : ℕ) × (get_elem? (5 ∷ 6 ∷ []) l ≡ some r)
          × (find l d'.lines ≡ some (if is_active x then push_back r x else x)))
push_back_data_lem_example = push_back_data_lem shared_meter shared_meter-IsWired (5 ∷ 6 ∷ []) refl

set_frequency_lem_example :
    (set_frequency (pos 0) 10 ≡ ok (pos 1))
    × ((f : ℕ)
        → 0 < f
        → f ≤ 10
        → (k : ℕ) × (set_frequency (pos f) 10 ≡ ok (pos k)) × IsNearest 10 f k)
    × ((f : ℕ) → 10 < f → set_frequency (pos f) 10 ≡ throw frequency_too_high)
    × ((f : ℕ) → (k : ℕ) × (set_frequency (negsuc f) 10 ≡ ok (sub_ℕ 0 k)))
set_frequency_lem_example = set_frequency_lem 10 (omega arith)

lines_of_mask_lem_example :
    IsSelection 16 (lines_of_mask 16 (5 ∷ 2 ∷ []))
    × ((l : ℕ) → contains (lines_of_mask 16 (5 ∷ 2 ∷ [])) l ≡ names 16 (5 ∷ 2 ∷ []) l)
lines_of_mask_lem_example = lines_of_mask_lem 16 (5 ∷ 2 ∷ [])
