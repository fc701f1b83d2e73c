-- ===== src/Drivers.antt =====
-- The device types that `RegisterDevice` registers (server/devices/*.hpp) and `Device::create_device`
-- (server/device.cpp): a new device of a type, with no lines registered and nothing sampled.
pub mod Rounds
pub mod WattsUp
use pmlib.Prelude.{
  ℕ, Bool, true, false, Option, none, some, [], ◌∷◌, ◌++◌, replicate, codes, if◌then◌else◌,
}
use pmlib.Map.{Map, Name, name_key, find}
use pmlib.Floating.{Floating}
use pmlib.Device.{Device, Computer}

-- The template arguments of a driver class.
pub record Driver : Type 0 where
  pub n_lines : ℕ
  pub max_frequency : ℕ
  pub pdu : Bool

abbrev driver : ℕ → ℕ → Bool → Driver
driver n f p = record { n_lines = n; max_frequency = f; pdu = p }

-- `Computer()`.
abbrev pub unknown_computer : Computer
unknown_computer = record { name = codes "Unknown"; ip = codes "0.0.0.0" }

-- The registry that `get_map()` returns once the drivers have registered themselves; `apcape` is the
-- build option USE_DEVICE_APCAPE.
unfoldable pub drivers : Bool → Map Name Driver
drivers apcape =
    (if apcape then (codes "APCape-8L", driver 8 1200 false) ∷ [] else [])
    ++ (codes "ArduPower", driver 16 1000 false)
      ∷ (codes "Dummy", driver 24 1 true)
      ∷ (codes "LMG450", driver 4 20 true)
      ∷ (codes "LMG500", driver 8 20 true)
      ∷ (codes "WattsUp", driver 1 1 false)
      ∷ []

module _ {R : Type 0} ⦃f : Floating R⦄ where
  -- The constructor `Device::Device`, with the arguments that each driver passes on.
  unfoldable pub new_device : Name → Name → Driver → Device R
  new_device name url k = record {
    name = name;
    url = url;
    max_frequency = k.max_frequency;
    n_lines = k.n_lines;
    pdu = k.pdu;
    working = false;
    running = true;
    lines = [];
    counter_map = [];
    sample = replicate k.n_lines (f.of_ℕ 0);
    data_queue = [];
    computer = unknown_computer;
  }

  abbrev pub made_of : Name → Name → Option Driver → Option (Device R)
  made_of name url none = none
  made_of name url (some k) = some (new_device name url k)

  unfoldable pub create_device : Bool → Name → Name → Name → Option (Device R)
  create_device apcape type name url = made_of name url (find type (drivers apcape))
