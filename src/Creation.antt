-- ===== src/Creation.antt =====
-- The life of a counter in server/counter.cpp: the constructor, which reads the request, registers the
-- counter and runs the session, and the destructor, which a throw out of the constructor skips.
pub mod Lifetime
pub mod Ending
use pmlib.Prelude.{ℕ, ◌+◌, Bool, true, Option, none, some, List, []}
use pmlib.Prelude.Int.{ℤ}
use pmlib.Map.{Name, name_key, find}
use pmlib.Outcome.{
  Outcome, ok, throw, crash, M, ◌>>=◌, ◌>>◌, done, lift, or_throw, or_crash, device_not_found,
  null_pointer, ◌and_then◌,
}
use pmlib.Wire.{send_int, receive_int, receive_bool, receive_string}
use pmlib.Floating.{Floating}
use pmlib.Device.{Device, Attached, register_counter, deregister_counter}
use pmlib.Counter.Mask.{lines_of_mask}
use pmlib.Counter.{Counter, Session, Event, inactive, success, error, set_frequency, run}
use pmlib.Registry.{Conn, Made, put_device, talk}

-- The counter behind a copy that a device keeps.
abbrev pub attached : Counter → Name → Attached
attached c peer = record { id = c.id; client_ip = peer; lines = c.lines }

abbrev pub new_counter : ℕ → Bool → ℤ → List ℕ → Counter
new_counter id aggregate interval lines = record {
  id = id;
  running = true;
  aggregate = aggregate;
  interval = interval;
  status = inactive;
  lines = lines;
  sets = [];
  sizes = [];
  registered = true;
}

module _ {R : Type 0} where
  -- `id = ++nextid`.
  abbrev pub take_id : M (Conn R) ℕ
  take_id c =
      let n = c.server.next_id + 1 in (ok n, record c { server = record c.server { next_id = n } })

  -- `server->device_map.at(device_name)`, where `find` has found it.
  abbrev pub device_at : Name → M (Conn R) (Device R)
  device_at name c = (or_throw (find name c.server.device_map) device_not_found, c)

  abbrev keep : Name → Counter → Conn R → Outcome (Device R) → Outcome (Unit {0}) × Conn R
  keep name k c (ok d) = (
    ok tt,
    record c {
      server = put_device name d c.server;
      made = some (record { counter = k; device = name });
    },
  )
  keep name k c (throw e) = (throw e, c)
  keep name k c (crash f) = (crash f, c)

  -- `dev->register_counter(*this); registered = true`.
  abbrev pub register : Name → Counter → Device R → M (Conn R) (Unit {0})
  register name k d c = keep name k c (register_counter (attached k c.sock.peer) d)

  -- The `try` block of the constructor.
  unfoldable pub create : M (Conn R) (Unit {0})
  create = do
    id ← take_id
    device_name ← talk receive_string
    frequency ← talk receive_int
    -- the other three bytes end up in the padding and the first byte of `interval`, which is set below
    aggregate ← talk receive_bool
    lines_mask ← talk receive_string
    d ← device_at device_name
    interval ← lift (set_frequency frequency d.max_frequency)
    register device_name (new_counter id aggregate.0 interval (lines_of_mask d.n_lines lines_mask))
        d
    talk (send_int success)

  abbrev drop_counter : Conn R → Made → Outcome (Device R) → Outcome (Unit {0}) × Conn R
  drop_counter c m (ok d) =
      (ok tt, record c { server = put_device m.device d c.server; made = none })
  drop_counter c m (throw e) = (throw e, c)
  drop_counter c m (crash f) = (crash f, c)

  -- `if ( registered ) dev->deregister_counter(*this)`.
  abbrev pub destroy_made : Option Made → M (Conn R) (Unit {0})
  destroy_made none c = done c
  destroy_made (some m) c = drop_counter c m (
      or_crash (find m.device c.server.device_map) null_pointer
      and_then deregister_counter (attached m.counter c.sock.peer))

  unfoldable pub destroy : M (Conn R) (Unit {0})
  destroy c = destroy_made c.made c

  module _ ⦃f : Floating R⦄ (others : List (List (Event R))) where
    abbrev pub session_of : Conn R → Made → Device R → Session R
    session_of c m d = record { counter = m.counter; dev = d; sock = c.sock; others = others }

    -- A session's effects on its device and its connection.
    abbrev pub close_session :
        Conn R → Made → Outcome (Unit {0}) × Session R → Outcome (Unit {0}) × Conn R
    close_session c m (r, s) = (
      r,
      record c {
        server = put_device m.device s.dev c.server;
        sock = s.sock;
        made = some (record m { counter = s.counter });
      },
    )

    abbrev run_on : Conn R → Made → Option (Device R) → Outcome (Unit {0}) × Conn R
    run_on c m none = (crash null_pointer, c)
    run_on c m (some d) = close_session c m (run (session_of c m d))

    abbrev pub run_made : Option Made → M (Conn R) (Unit {0})
    run_made none c = (crash null_pointer, c)
    run_made (some m) c = run_on c m (find m.device c.server.device_map)

    -- After the `try` block: `run()`, or the handler's answer and an early return.
    abbrev pub after_create : Outcome (Unit {0}) × Conn R → Outcome (Unit {0}) × Conn R
    after_create (ok a, c) = run_made c.made c
    after_create (throw e, c) = talk (send_int error) c
    after_create (crash e, c) = (crash e, c)

    -- `Counter(_sock, this);` as a statement: construction and, if that returns, destruction.
    unfoldable pub counter_session : M (Conn R) (Unit {0})
    counter_session = (λ c. after_create (create c)) >> destroy
