-- ===== src/Sampling.antt =====
-- `Device::run` and `Device::yield` of server/device.cpp and server/device.hpp: the driver's thread puts
-- samples into a bounded queue, from which the device's thread stores them.
pub mod Order
use pmlib.Prelude.{ℕ, ◌≡◌, Bool, true, false, List, [], ◌∷◌, ◌++◌, length, ltb, if◌then◌else◌}
use pmlib.Outcome.{Outcome, ok, ◌and_then◌}
use pmlib.Device.{Device, push_back_data}

-- `spsc_queue<vector<double>, capacity<10000>>`.
abbrev pub capacity : ℕ
capacity = 10000

-- What the two threads do, and `Device::stop`.
pub data Tick (R : Type 0) : Type 0 where
  produced : List R → Tick R
  consumed halted : Tick R

module _ {R : Type 0} where
  -- `push` on a full queue fails, and its result is ignored.
  unfoldable pub yield_sample : List R → Device R → Device R
  yield_sample s d =
      if ltb (length d.data_queue) capacity
      then record d { data_queue = d.data_queue ++ s ∷ [] }
      else d

  -- A round of the inner loop; the first sample sets `_working`.
  unfoldable pub store_front : List (List R) → Device R → Outcome (Device R)
  store_front [] d = ok d
  store_front (s ∷ q) d = push_back_data s (record d { data_queue = q }) and_then λ d'.
      ok (record d' { working = true })

  unfoldable pub consume : Device R → Outcome (Device R)
  consume d = if d.running then store_front d.data_queue d else ok d

  abbrev pub tick : Tick R → Device R → Outcome (Device R)
  tick (produced s) d = ok (yield_sample s d)
  tick consumed d = consume d
  tick halted d = ok (record d { running = false })

  unfoldable pub run_ticks : List (Tick R) → Device R → Outcome (Device R)
  run_ticks [] d = ok d
  run_ticks (t ∷ ts) d = tick t d and_then run_ticks ts

  -- A device with too few lines is not started.
  unfoldable pub run_device : List (Tick R) → Device R → Outcome (Device R)
  run_device ts d = if ltb (length d.lines) d.n_lines then ok d else run_ticks ts d
