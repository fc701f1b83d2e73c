-- ===== src/Lifecycle.antt =====
-- `Server::start_devices`, `Server::stop_devices` and `Server::run` of server/server.cpp: the life of the
-- server. What the threads of a device do while the server waits for it, at most 15 s, is given.
pub mod Started
use pmlib.Prelude.{ℕ, Bool, true, false, List, [], ◌∷◌, if◌then◌else◌}
use pmlib.Map.{Map, Name}
use pmlib.Outcome.{Outcome, ok, ◌and_then◌}
use pmlib.Device.{Device}
use pmlib.Sampling.{Tick, run_device}

-- The process goes on with some devices, or calls `exit(0)`.
pub data Life (R : Type 0) : Type 0 where
  goes_on : Map Name (Device R) → Life R
  exited : Life R

module _ {R : Type 0} where
  -- `Device::stop`.
  abbrev pub stop_device : Device R → Device R
  stop_device d = record d { running = false }

  abbrev pub add_device : Name → Device R → Life R → Life R
  add_device name d (goes_on m) = goes_on ((name, d) ∷ m)
  add_device name d exited = exited

  -- A device that is not working after the wait ends the process.
  abbrev pub if_working : Name → Device R → Outcome (Life R) → Outcome (Life R)
  if_working name d rest =
      if d.working then (rest and_then λ l. ok (add_device name d l)) else ok exited

  -- `waited` is what happens on a device's threads during the wait for it.
  unfoldable pub start_devices : (Name → List (Tick R)) → Map Name (Device R) → Outcome (Life R)
  start_devices waited [] = ok (goes_on [])
  start_devices waited ((name, d) ∷ m) =
      run_device (waited name) d and_then λ d'. if_working name d' (start_devices waited m)

  -- The devices that are stopped, before `device_map.clear()`.
  unfoldable pub stop_devices : Map Name (Device R) → Map Name (Device R)
  stop_devices [] = []
  stop_devices ((name, d) ∷ m) = (name, (if d.working then stop_device d else d)) ∷ stop_devices m

  -- What is left of the map: nothing, and each device has been stopped by its destructor at the latest.
  abbrev pub shut_down : Life R → Life R
  shut_down (goes_on m) = goes_on []
  shut_down exited = exited

  abbrev pub serve_all :
      (Map Name (Device R) → Outcome (Map Name (Device R))) → Life R → Outcome (Life R)
  serve_all connections exited = ok exited
  serve_all connections (goes_on m) =
      connections m and_then λ m'. ok (shut_down (goes_on (stop_devices m')))

  -- `connections` is `start_connection`, until a signal comes: it serves clients on the devices.
  unfoldable pub run_server :
      (Name → List (Tick R))
      → (Map Name (Device R) → Outcome (Map Name (Device R)))
      → Map Name (Device R)
      → Outcome (Life R)
  run_server waited connections [] = ok (goes_on [])
  run_server waited connections (e ∷ m) =
      start_devices waited (e ∷ m) and_then serve_all connections
