-- ===== src/Tests.antt =====
-- Test data for the other test modules: a device with two lines, of which a counter holds one.
pub mod Wires
pub mod Sessions
pub mod Monitors
pub mod Devices
pub mod Drivers
pub mod Samplings
pub mod Replies
pub mod Clients
pub mod Traces
pub mod States
pub mod Configs
pub mod Connections
use pmlib.Prelude.{ℕ, ◌+◌, ◌*◌, ◌/◌, ◌≡◌, refl, true, false, some, none, List, [], ◌∷◌, codes}
use pmlib.Prelude.Int.{pos}
use pmlib.Map.{Map}
use pmlib.Wire.{Socket, bytes_of_word}
use pmlib.Floating.{Floating}
use pmlib.Device.{Computer, Line, Attached, Device, power}
use pmlib.Counter.{Counter, Session, Event, inactive, sampled}

-- Whole numbers in the place of floating-point ones.
instance abbrev pub nat_floating : Floating ℕ
nat_floating = record {
  of_ℕ = λ n. n;
  add = λ a b. a + b;
  multiply = λ a b. a * b;
  divide = λ a b. a / b;
  ratio = λ a b. a / b;
  float_bytes = bytes_of_word;
  double_bytes = λ n. n ∷ 0 ∷ 0 ∷ 0 ∷ 0 ∷ 0 ∷ 0 ∷ 0 ∷ [];
  length-float_bytes = λ n. refl;
  length-double_bytes = λ n. refl;
}

abbrev pub host : Computer
host = record { name = codes "node"; ip = codes "10.0.0.1" }

abbrev pub line : ℕ → ℕ → ℕ → List ℕ → Line ℕ
line id enabled active samples = record {
  name = codes "outlet";
  description = codes "rack";
  id = id;
  metric = power;
  volts = 230;
  offset = 0;
  slope = 0;
  enabled = enabled;
  active = active;
  computer = host;
  samples = samples;
}

abbrev pub owner : Attached
owner = record { id = 1; client_ip = codes "10.0.0.2"; lines = 1 ∷ [] }

abbrev pub meter : Device ℕ
meter = record {
  name = codes "meter";
  url = codes "tty0";
  max_frequency = 10;
  n_lines = 2;
  pdu = false;
  working = true;
  running = true;
  lines = (0, line 0 0 0 []) ∷ (1, line 1 1 0 (7 ∷ [])) ∷ [];
  counter_map = (1, owner) ∷ [];
  sample = 5 ∷ 6 ∷ [];
  data_queue = [];
  computer = host;
}

abbrev pub counter : Counter
counter = record {
  id = 1;
  running = true;
  aggregate = true;
  interval = pos 1;
  status = inactive;
  lines = 1 ∷ [];
  sets = [];
  sizes = [];
  registered = true;
}

-- The requests start, stop, get and finalize; a sample arrives between the first two.
abbrev pub session : Session ℕ
session = record {
  counter = counter;
  dev = meter;
  sock = record {
    inbox = 1 ∷ 0 ∷ 0 ∷ 0 ∷ 3 ∷ 0 ∷ 0 ∷ 0 ∷ 4 ∷ 0 ∷ 0 ∷ 0 ∷ 5 ∷ 0 ∷ 0 ∷ 0 ∷ [];
    outbox = [];
    writable = 20;
    peer = codes "10.0.0.2";
  };
  others = [] ∷ (sampled (5 ∷ 6 ∷ []) ∷ []) ∷ [];
}
