-- ===== src/Counter.antt =====
-- server/counter.hpp and server/counter.cpp: one client's measurement session against a device. A
-- session is the counter, the device that it shares with other sessions, and its connection.
pub mod Mask
pub mod Selection
pub mod Rate
pub mod Reply
pub mod Sets
pub mod Resample
pub mod Get
pub mod Exact
pub mod Samples
pub mod Soundness
pub mod Waiting
pub mod Safety
pub mod Early
pub mod Strided
pub mod Termination
use pmlib.Prelude.{
  ℕ, zero, suc, ◌+◌, ◌*◌, ◌/◌, ◌%◌, ◌≡◌, refl, Bool, true, false, Option, none, some, List, [], ◌∷◌,
  ◌++◌, length, map, if◌then◌else◌, ◌==◌,
}
use pmlib.Prelude.Int.{ℤ, pos, negsuc, ltb_ℤ, sub_ℕ}
use pmlib.Map.{Map, Name, find}
use pmlib.Outcome.{
  Outcome, ok, throw, crash, M, ◌>>=◌, ◌>>◌, pure, done, lift, modify, catch_with, Error,
  frequency_too_high, out_of_range, out_of_fuel, ◌and_then◌,
}
use pmlib.Wire.{Socket, send_int, receive_int, write_vector, int_bytes}
use pmlib.Floating.{Floating}
use pmlib.Device.{
  Device, start_counter, stop_counter, get_lines_sizes, register_counter, deregister_counter,
  push_back_data, Attached,
}
use Reply.{Recording, samples_of}
use Mask.{lines_of_mask}

pub data State : Type 0 where
  inactive active : State

pub record Counter : Type 0 where
  pub id : ℕ
  pub running : Bool
  pub aggregate : Bool
  pub interval : ℤ
  pub status : State
  pub lines : List ℕ
  pub sets : List Recording
  pub sizes : Map ℕ ℕ
  pub registered : Bool

-- What other threads do to the device between two requests of this session: samples arrive, and
-- other counters register, start, stop and deregister.
pub data Event (R : Type 0) : Type 0 where
  sampled : List R → Event R
  joined left : Attached → Event R
  started stopped : List ℕ → Event R

pub record Session (R : Type 0) : Type 0 where
  pub counter : Counter
  pub dev : Device R
  pub sock : Socket
  -- the events before the first request, before the second one, and so on
  pub others : List (List (Event R))

-- The codes of `Retval` and of the operations that `run` knows.
abbrev pub success : ℤ
success = pos 0

abbrev pub error : ℤ
error = negsuc 0

pub data Operation : Type 0 where
  create start continue stop get finalize info_device list_devices cmd_status read_device :
      Operation
  unknown : ℤ → Operation

unfoldable pub operation_of : ℤ → Operation
operation_of (pos zero) = create
operation_of (pos (suc zero)) = start
operation_of (pos (suc (suc zero))) = continue
operation_of (pos (suc (suc (suc zero)))) = stop
operation_of (pos (suc (suc (suc (suc zero))))) = get
operation_of (pos (suc (suc (suc (suc (suc zero)))))) = finalize
operation_of (pos (suc (suc (suc (suc (suc (suc zero))))))) = info_device
operation_of (pos (suc (suc (suc (suc (suc (suc (suc zero)))))))) = list_devices
operation_of (pos (suc (suc (suc (suc (suc (suc (suc (suc zero))))))))) = cmd_status
operation_of (pos (suc (suc (suc (suc (suc (suc (suc (suc (suc zero)))))))))) = read_device
operation_of z = unknown z

-- `round((float) max_frequency / frequency)` for frequencies other than zero: to the nearest integer,
-- ties away from zero. Below 2 ^ 23 Hz the rounding of the quotient to a `float` does not show.
unfoldable pub round_ratio : ℕ → ℤ → Outcome ℤ
round_ratio m (pos zero) = crash out_of_range
round_ratio m (pos (suc k)) = ok (pos ((2 * m + suc k) / (2 * suc k)))
round_ratio m (negsuc k) = ok (sub_ℕ 0 ((2 * m + suc k) / (2 * suc k)))

unfoldable pub set_frequency : ℤ → ℕ → Outcome ℤ
set_frequency (pos zero) m = round_ratio m (pos m)
set_frequency f m = if ltb_ℤ (pos m) f then throw frequency_too_high else round_ratio m f

-- `sets.back().second = sizes`; there is no last set in an empty vector.
abbrev pub close_last : Map ℕ ℕ → List Recording → Outcome (List Recording)
close_last m [] = crash out_of_range
close_last m (s ∷ []) = ok (record s { second = some m } ∷ [])
close_last m (s ∷ t ∷ ts) = close_last m (t ∷ ts) and_then λ ts'. ok (s ∷ ts')

module _ {R : Type 0} where
  abbrev pub to_device : Session R → Outcome (Device R) → Outcome (Unit {0}) × Session R
  to_device s (ok d) = (ok tt, record s { dev = d })
  to_device s (throw e) = (throw e, s)
  to_device s (crash f) = (crash f, s)

  abbrev pub on_device : (Device R → Outcome (Device R)) → M (Session R) (Unit {0})
  on_device f s = to_device s (f s.dev)

  abbrev pub to_sock {ℓ} : {A : Type ℓ} → Session R → Outcome A × Socket → Outcome A × Session R
  to_sock s (r, k) = (r, record s { sock = k })

  abbrev pub on_sock {ℓ} : {A : Type ℓ} → M Socket A → M (Session R) A
  on_sock m s = to_sock s (m s.sock)

  abbrev pub update : (Counter → Counter) → M (Session R) (Unit {0})
  update f s = (ok tt, record s { counter = f s.counter })

  abbrev pub reply : ℤ → M (Session R) (Unit {0})
  reply z = on_sock (send_int z)

  -- `if ( status == State::INACTIVE ) { idle } else { busy }`.
  abbrev pub on_status :
      State → M (Session R) (Unit {0}) → M (Session R) (Unit {0}) → M (Session R) (Unit {0})
  on_status inactive idle busy = idle
  on_status active idle busy = busy

  -- `dev->get_lines_sizes(lines, sizes)`.
  abbrev pub keep_sizes : Session R → Outcome (Map ℕ ℕ) → Outcome (Unit {0}) × Session R
  keep_sizes s (ok m) = (ok tt, record s { counter = record s.counter { sizes = m } })
  keep_sizes s (throw e) = (throw e, s)
  keep_sizes s (crash f) = (crash f, s)

  abbrev pub measure_lines : M (Session R) (Unit {0})
  measure_lines s = keep_sizes s (get_lines_sizes s.counter.lines s.dev)

  -- What `start` and `restart` share; `kept` are the earlier sets.
  unfoldable pub begin_set : (List Recording → List Recording) → M (Session R) (Unit {0})
  begin_set kept s =
      (do
        on_device (start_counter s.counter.lines)
        update (λ c. record c { status = active; sizes = [] })
        measure_lines
        update
            λ c. record c { sets = kept c.sets ++ record { first = c.sizes; second = none } ∷ [] }
        reply success)
        s

  unfoldable pub start_session : M (Session R) (Unit {0})
  start_session s = on_status s.counter.status (begin_set (λ _. [])) (reply error) s

  unfoldable pub restart : M (Session R) (Unit {0})
  restart s = on_status s.counter.status (begin_set (λ sets. sets)) (reply error) s

  abbrev pub keep_sets : Session R → Outcome (List Recording) → Outcome (Unit {0}) × Session R
  keep_sets s (ok sets) = (ok tt, record s { counter = record s.counter { sets = sets } })
  keep_sets s (throw e) = (throw e, s)
  keep_sets s (crash f) = (crash f, s)

  unfoldable pub end_set : M (Session R) (Unit {0})
  end_set s =
      (do
        on_device (stop_counter s.counter.lines)
        update (λ c. record c { status = inactive; sizes = [] })
        measure_lines
        λ t. keep_sets t (close_last t.counter.sizes t.counter.sets)
        reply success)
        s

  unfoldable pub stop_session : M (Session R) (Unit {0})
  stop_session s = on_status s.counter.status (reply error) end_set s

  unfoldable pub finalize_session : M (Session R) (Unit {0})
  finalize_session s =
      on_status s.counter.status (do update (λ c. record c { running = false }); reply success)
        (reply error) s

  unfoldable pub apply_event : Event R → Device R → Outcome (Device R)
  apply_event (sampled xs) = push_back_data xs
  apply_event (joined c) = register_counter c
  apply_event (left c) = deregister_counter c
  apply_event (started ls) = start_counter ls
  apply_event (stopped ls) = stop_counter ls

  unfoldable pub apply_events : List (Event R) → Device R → Outcome (Device R)
  apply_events [] d = ok d
  apply_events (e ∷ es) d = apply_event e d and_then apply_events es

  abbrev pub take_events : List (List (Event R)) → M (Session R) (Unit {0})
  take_events [] s = done s
  take_events (es ∷ rest) s = to_device (record s { others = rest }) (apply_events es s.dev)

  -- The thread waits for a request while other threads go on.
  unfoldable pub wait : M (Session R) (Unit {0})
  wait s = take_events s.others s

  module _ ⦃f : Floating R⦄ where
    -- The messages of a reply, in their order.
    unfoldable pub send_reply : ℕ → List R × List ℤ → M (Session R) (Unit {0})
    send_reply n_lines (watts, watts_sets) = do
      reply (pos (length watts))
      reply (pos (length watts_sets))
      reply (pos n_lines)
      on_sock (write_vector int_bytes watts_sets)
      on_sock (write_vector f.double_bytes watts)

    unfoldable pub send_samples : M (Session R) (Unit {0})
    send_samples s =
        let c = s.counter in
        (do
          r ← lift (samples_of c.aggregate c.interval s.dev c.lines c.sets)
          send_reply (length c.lines) r)
          s

    unfoldable pub get_session : M (Session R) (Unit {0})
    get_session s = on_status s.counter.status send_samples (reply error) s

    unfoldable pub dispatch : Operation → M (Session R) (Unit {0})
    dispatch start = start_session
    dispatch continue = restart
    dispatch stop = stop_session
    dispatch get = get_session
    dispatch finalize = finalize_session
    dispatch _ = reply error

    -- One round of the loop of `run`.
    unfoldable pub serve : M (Session R) (Unit {0})
    serve = do wait; op ← on_sock receive_int; dispatch (operation_of op)

    -- The loop of `run`, with fuel: a round that does not end the session has read four bytes.
    unfoldable pub run_loop : ℕ → M (Session R) (Unit {0})
    run_loop zero s = (crash out_of_fuel, s)
    run_loop (suc k) s = if s.counter.running then (serve >> run_loop k) s else done s

    unfoldable pub run : M (Session R) (Unit {0})
    run s = catch_with (run_loop (suc (length s.sock.inbox))) (λ _. reply error) s
