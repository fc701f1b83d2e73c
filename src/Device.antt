-- ===== src/Device.antt =====
-- server/device.hpp and server/device.cpp: the lines of a device, their reference counts and their
-- sample history, and the operations that counters and the sampling thread call.
pub mod Lines
pub mod Holders
pub mod Invariant
pub mod Undo
pub mod Effects
use pmlib.Prelude.{
  ℕ, suc, ◌+◌, ◌-◌, ◌<◌, ◌≡◌, refl, Bool, true, false, Option, none, some, List, [], ◌∷◌, ◌++◌,
  length, get_elem?, ltb, codes, if◌then◌else◌,
}
use pmlib.Map.{Map, Name, nat_key, name_key, find, get_default, insert_or_assign, erase, adjust}
use pmlib.Outcome.{Outcome, ok, crash, null_pointer, out_of_range, ◌and_then◌, or_crash}

pub record Computer : Type 0 where
  pub name : Name
  pub ip : Name

-- The quantity that a line reports; `default` is the source's `def`.
pub data Metric : Type 0 where
  voltage shunt_voltage current power temperature default : Metric

-- `enabled` counts the counters that hold the line, `active` those that are measuring it. Both are
-- `atomic<int>`s that never fall below zero.
pub record Line (R : Type 0) : Type 0 where
  pub name : Name
  pub description : Name
  pub id : ℕ
  pub metric : Metric
  pub volts : R
  pub offset : R
  pub slope : R
  pub enabled : ℕ
  pub active : ℕ
  pub computer : Computer
  pub samples : List R

-- Whether `counter_map.find` finds an entry.
abbrev pub is_some {ℓ} : {A : Type ℓ} → Option A → Bool
is_some none = false
is_some (some _) = true

-- What a device keeps of a counter: `register_counter` stores a copy, of which the status report reads
-- the number, the client's address and the lines.
pub record Attached : Type 0 where
  pub id : ℕ
  pub client_ip : Name
  pub lines : List ℕ

pub record Device (R : Type 0) : Type 0 where
  pub name : Name
  pub url : Name
  pub max_frequency : ℕ
  pub n_lines : ℕ
  pub pdu : Bool
  pub working : Bool
  pub running : Bool
  pub lines : Map ℕ (Line R)
  pub counter_map : Map ℕ Attached
  -- the sample that the driver is filling, and those that wait for the consumer, oldest first
  pub sample : List R
  pub data_queue : List (List R)
  pub computer : Computer

-- The table `avail_metrics` of `register_line`, and its fallback for an unknown word.
unfoldable pub metric_of : Name → Metric
metric_of w = get_default w default (
    (codes "voltage", voltage)
    ∷ (codes "shunt_voltage", shunt_voltage)
    ∷ (codes "current", current)
    ∷ (codes "power", power)
    ∷ (codes "temperature", temperature)
    ∷ (codes "default", default)
    ∷ [])

module _ {R : Type 0} where
  abbrev pub enable : Line R → Line R
  enable x = record x { enabled = x.enabled + 1 }

  abbrev pub disable : Line R → Line R
  disable x =
      if ltb 0 x.enabled then record x { enabled = x.enabled - 1 } else record x { enabled = 0 }

  abbrev pub is_enabled : Line R → Bool
  is_enabled x = ltb 0 x.enabled

  abbrev pub activate : Line R → Line R
  activate x = record x { active = x.active + 1 }

  abbrev pub deactivate : Line R → Line R
  deactivate x =
      if ltb 0 x.active then record x { active = x.active - 1 } else record x { active = 0 }

  abbrev pub is_active : Line R → Bool
  is_active x = ltb 0 x.active

  abbrev pub clear_data : Line R → Line R
  clear_data x = record x { samples = [] }

  abbrev pub push_back : R → Line R → Line R
  push_back r x = record x { samples = x.samples ++ r ∷ [] }

  abbrev pub get_size : Line R → ℕ
  get_size x = length x.samples

  -- What `deregister_counter` does to each of the counter's lines.
  abbrev pub release_line : Line R → Line R
  release_line x = let y = disable x in if is_enabled y then y else clear_data y

  -- `lines[l]->f()`: `operator[]` makes a null pointer where the key is absent.
  abbrev pub on_line : (Line R → Line R) → ℕ → Map ℕ (Line R) → Outcome (Map ℕ (Line R))
  on_line f l m = or_crash (find l m) null_pointer and_then λ _. ok (adjust l f m)

  -- `for (auto &l : ls) lines[l]->f()`.
  unfoldable pub on_lines : (Line R → Line R) → List ℕ → Map ℕ (Line R) → Outcome (Map ℕ (Line R))
  on_lines f [] m = ok m
  on_lines f (l ∷ ls) m = on_line f l m and_then on_lines f ls

  abbrev pub with_lines : Device R → Map ℕ (Line R) → Device R
  with_lines d m = record d { lines = m }

  unfoldable pub register_counter : Attached → Device R → Outcome (Device R)
  register_counter c d = on_lines enable c.lines d.lines and_then λ m.
      ok (record d { lines = m; counter_map = insert_or_assign c.id c d.counter_map })

  unfoldable pub deregister_counter : Attached → Device R → Outcome (Device R)
  deregister_counter c d =
      if is_some (find c.id d.counter_map)
      then (on_lines release_line c.lines d.lines and_then λ m.
          ok (record d { lines = m; counter_map = erase c.id d.counter_map }))
      else ok d

  unfoldable pub start_counter : List ℕ → Device R → Outcome (Device R)
  start_counter ls d = on_lines activate ls d.lines and_then λ m. ok (with_lines d m)

  unfoldable pub stop_counter : List ℕ → Device R → Outcome (Device R)
  stop_counter ls d = on_lines deactivate ls d.lines and_then λ m. ok (with_lines d m)

  unfoldable pub register_line : Name → Name → Name → ℕ → Computer → R → R → R → Device R → Device R
  register_line name description metric number c volts offset slope d = with_lines d (
      insert_or_assign number
        (record {
          name = name;
          description = description;
          id = number;
          metric = metric_of metric;
          volts = volts;
          offset = offset;
          slope = slope;
          enabled = 0;
          active = 0;
          computer = c;
          samples = [];
        })
        d.lines)

  -- The loop of `push_back_data`; `sample[l]` past the end of the sample is undefined.
  unfoldable pub push_lines : List R → Map ℕ (Line R) → Outcome (Map ℕ (Line R))
  push_lines sample [] = ok []
  push_lines sample ((l, x) ∷ m) =
      let rest = push_lines sample m in
      if is_active x
      then (or_crash (get_elem? sample l) out_of_range and_then λ r.
          rest and_then λ m'. ok ((l, push_back r x) ∷ m'))
      else (rest and_then λ m'. ok ((l, x) ∷ m'))

  unfoldable pub push_back_data : List R → Device R → Outcome (Device R)
  push_back_data sample d = push_lines sample d.lines and_then λ m. ok (with_lines d m)

  -- The loop of `get_lines_sizes`. A `set_t` holds an offset into each line's samples.
  unfoldable pub add_sizes : List ℕ → Map ℕ (Line R) → Map ℕ ℕ → Outcome (Map ℕ ℕ)
  add_sizes [] m sizes = ok sizes
  add_sizes (l ∷ ls) m sizes = or_crash (find l m) null_pointer and_then λ x.
      add_sizes ls m (insert_or_assign l (get_size x) sizes)

  unfoldable pub get_lines_sizes : List ℕ → Device R → Outcome (Map ℕ ℕ)
  get_lines_sizes ls d = add_sizes ls d.lines []

  unfoldable pub get_line_data : ℕ → Device R → Outcome (List R)
  get_line_data l d = or_crash (find l d.lines) null_pointer and_then λ x. ok x.samples
