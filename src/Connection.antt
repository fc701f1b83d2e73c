-- ===== src/Connection.antt =====
-- `Server::connection` of server/server.cpp: the thread of one client.
pub mod Safety
use pmlib.Prelude.{ℕ, List}
use pmlib.Outcome.{M, ◌>>=◌, done, catch_with}
use pmlib.Wire.{send_int, receive_int}
use pmlib.Floating.{Floating}
use pmlib.Counter.{
  Operation, Event, operation_of, error, create, list_devices, info_device, cmd_status, read_device,
}
use pmlib.Registry.{Conn, talk}
use pmlib.Creation.{counter_session}
use pmlib.Info.{run_info}

module _ {R : Type 0} ⦃f : Floating R⦄ (samples : ℕ → List R) (others : List (List (Event R))) where
  abbrev pub handle : Operation → M (Conn R) (Unit {0})
  handle create = counter_session others
  handle list_devices = run_info samples list_devices
  handle info_device = run_info samples info_device
  handle cmd_status = run_info samples cmd_status
  handle read_device = run_info samples read_device
  handle _ = talk (send_int error)

  -- Every exception ends here.
  unfoldable pub connection : M (Conn R) (Unit {0})
  connection = catch_with (do op ← talk receive_int; handle (operation_of op)) (λ _. done)
