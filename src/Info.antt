-- ===== src/Info.antt =====
-- server/info.hpp and server/info.cpp: the queries about the server's devices. Each answers one request
-- on a connection and changes nothing but that connection.
pub mod Safety
pub mod Streaming
use pmlib.Prelude.{
  ℕ, zero, suc, ◌+◌, Bool, Option, none, some, List, [], ◌∷◌, length, if◌then◌else◌,
}
use pmlib.Prelude.Int.{ℤ, pos, negsuc, ltb_ℤ}
use pmlib.Map.{values}
use pmlib.Outcome.{crash, M, ◌>>=◌, ◌>>◌, done, catch_with, out_of_fuel}
use pmlib.Wire.{
  Socket, write, send_int, send_string, send_vector, receive_int, receive_string, int_bytes,
}
use pmlib.Floating.{Floating}
use pmlib.Device.{Device, Line, Attached}
use pmlib.Counter.{Operation, success, error, list_devices, info_device, cmd_status, read_device}
use pmlib.Registry.{Conn, get_device, talk}

-- `Retval::ERRORF`, `Devtype::SINGLE` and `Devtype::MULTIPLE`.
abbrev pub errorf : ℤ
errorf = negsuc 1

abbrev pub single : ℤ
single = pos 0

abbrev pub multiple : ℤ
multiple = pos 1

-- `for (auto &x : xs) body`.
unfoldable pub for_each {ℓ κ} :
    {S : Type κ} {A : Type ℓ} → (A → M S (Unit {0})) → List A → M S (Unit {0})
for_each body [] = done
for_each body (x ∷ xs) = body x >> for_each body xs

unfoldable pub send_attached : Attached → M Socket (Unit {0})
send_attached c = do
  send_int (pos c.id)
  send_string c.client_ip
  send_vector (λ l. int_bytes (pos l)) c.lines

module _ {R : Type 0} where
  unfoldable pub send_devices : List (Device R) → M Socket (Unit {0})
  send_devices ds = do
    send_int (pos (length ds))
    for_each (λ (d : Device R). send_string d.name) ds

  unfoldable pub answer_list : M (Conn R) (Unit {0})
  answer_list c = talk (send_devices (values c.server.device_map)) c

  -- What `info_device` sends of a device that is there.
  unfoldable pub send_info : Option (Device R) → M Socket (Unit {0})
  send_info none = send_int error
  send_info (some d) = do
    send_int (pos d.max_frequency)
    send_int (pos d.n_lines)
    send_string d.name

  unfoldable pub answer_info : M (Conn R) (Unit {0})
  answer_info = do
    device_name ← talk receive_string
    λ c. talk (send_info (get_device device_name c.server)) c

  module _ ⦃f : Floating R⦄ where
    unfoldable pub send_line : Bool → Line R → M Socket (Unit {0})
    send_line pdu x = do
      send_int (pos x.id)
      send_string x.name
      write (f.float_bytes x.volts)
      send_string x.description
      if pdu then send_string x.computer.name else done

    unfoldable pub send_kind : Device R → M Socket (Unit {0})
    send_kind d =
        if d.pdu then send_int multiple else (do send_int single; send_string d.computer.name)

    unfoldable pub send_status : Device R → M Socket (Unit {0})
    send_status d = do
      send_string d.name
      send_int (pos d.max_frequency)
      send_int (pos d.n_lines)
      send_kind d
      for_each (send_line d.pdu) (values d.lines)
      send_int (pos (length d.counter_map))
      for_each send_attached (values d.counter_map)

    unfoldable pub send_statuses : List (Device R) → M Socket (Unit {0})
    send_statuses ds = do send_int (pos (length ds)); for_each send_status ds

    unfoldable pub answer_status : M (Conn R) (Unit {0})
    answer_status c = talk (send_statuses (values c.server.device_map)) c

    -- The endless loop of `read_device`, from its `i`-th sample on; the driver decides what each sample
    -- holds when it is read. Every round uses up two of the writes that the peer still accepts.
    unfoldable pub stream : ℕ → (ℕ → List R) → ℕ → M Socket (Unit {0})
    stream zero samples i k = (crash out_of_fuel, k)
    stream (suc n) samples i k =
        (send_vector f.double_bytes (samples i) >> stream n samples (i + 1)) k

    -- `try { while (true) ... } catch (exception& e) {}`.
    unfoldable pub stream_samples : (ℕ → List R) → M Socket (Unit {0})
    stream_samples samples k = catch_with (stream (suc k.writable) samples 0) (λ _. done) k

    unfoldable pub send_stream : ℤ → (ℕ → List R) → Option (Device R) → M Socket (Unit {0})
    send_stream frequency samples none = send_int error
    send_stream frequency samples (some d) =
        if ltb_ℤ (pos d.max_frequency) frequency
        then (do send_int errorf; send_int (pos d.max_frequency))
        else (do send_int success; stream_samples samples)

    unfoldable pub answer_stream : (ℕ → List R) → M (Conn R) (Unit {0})
    answer_stream samples = do
      device_name ← talk receive_string
      frequency ← talk receive_int
      λ c. talk (send_stream frequency samples (get_device device_name c.server)) c

    abbrev pub answer : (ℕ → List R) → Operation → M (Conn R) (Unit {0})
    answer samples list_devices = answer_list
    answer samples info_device = answer_info
    answer samples cmd_status = answer_status
    answer samples read_device = answer_stream samples
    answer samples _ = talk (send_int error)

    -- `Info::run`.
    unfoldable pub run_info : (ℕ → List R) → Operation → M (Conn R) (Unit {0})
    run_info samples op = catch_with (answer samples op) (λ _. talk (send_int error))
