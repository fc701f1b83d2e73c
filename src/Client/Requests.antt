-- ===== src/Client/Requests.antt =====
-- The commands that a client sends to its counter, in client/pm_start_counter.c, client/pm_stop_counter.c,
-- client/pm_continue_counter.c and client/pm_finalize_counter.c, and the queries and the creation of
-- a counter in client/pm_get_devices.c, client/pm_get_device_info.c and client/pm_create_counter.c.
use pmlib.Prelude.{ℕ, zero, suc, ◌+◌, ◌*◌, List, [], ◌∷◌, ◌++◌, length, leb, ltb, if◌then◌else◌}
use pmlib.Prelude.Int.{ℤ, pos, negsuc}
use pmlib.Map.{Map, Name, nat_key, insert_or_assign}
use pmlib.Outcome.{Outcome, ok, crash, M, ◌>>=◌, ◌>>◌, pure, lift, undefined, out_of_range}
use pmlib.Wire.{int_bytes}
use pmlib.Client.Lines.{LineT, line_setsize}
use pmlib.Client.{Link, connect, expect, expect_int, response, transmit, in_buffer, hang_up}

-- `pm_measures`: the arrays are those that the reply of the server fills.
pub record Energy (R : Type 0) : Type 0 where
  pub watts_size : ℕ
  pub watts_sets_size : ℤ
  pub watts_sets : List ℤ
  pub watts : List R
  pub lines_len : ℤ

-- `counter_t` and the `pm_measures_wt` that it points to. `timing` has the elements of the array that
-- have been written.
pub record CounterT (R : Type 0) : Type 0 where
  pub aggregate : ℤ
  pub lines : LineT
  pub num_lines : ℕ
  pub interval : ℤ
  pub next_timing : ℕ
  pub timing : Map ℕ R
  pub energy : Energy R

-- `TIMELEN`
abbrev pub timelen : ℕ
timelen = 10000

-- A message that is nothing but its type, and the answer to it.
unfoldable pub command : ℤ → M Link ℕ
command type_mark = do transmit (int_bytes type_mark); response

module _ {R : Type 0} where
  -- `timing[i] = now`.
  abbrev pub set_timing : ℕ → R → CounterT R → Outcome (CounterT R)
  set_timing i now c =
      if ltb i timelen
      then ok (record c { timing = insert_or_assign i now c.timing })
      else crash out_of_range

  unfoldable pub pm_start_counter : R → CounterT R → M Link (ℕ × CounterT R)
  pm_start_counter now c = do
    server_response ← command (pos 1)
    c' ← lift (set_timing 0 now (record c { next_timing = 0 }))
    pure (server_response, c')

  abbrev pub next_timing : CounterT R → CounterT R
  next_timing c = record c { next_timing = c.next_timing + 1 }

  unfoldable pub pm_stop_counter : R → CounterT R → M Link (ℕ × CounterT R)
  pm_stop_counter now c = do
    c' ← lift (set_timing (c.next_timing * 2 + 1) now c)
    server_response ← command (pos 3)
    pure (server_response, next_timing c')

  unfoldable pub pm_continue_counter : R → CounterT R → M Link (ℕ × CounterT R)
  pm_continue_counter now c = do
    server_response ← command (pos 2)
    c' ← lift (set_timing (c.next_timing * 2) now c)
    pure (server_response, c')

-- The arrays of the counter are freed at the end.
unfoldable pub pm_finalize_counter : M Link ℕ
pm_finalize_counter = do command (pos 5); hang_up; pure 0

-- `recv(sock, buffer, n, 0)` into the `BUFFSIZE` bytes of `buffer`; a number that is negative is a huge
-- `size_t`.
abbrev pub expect_chars : ℤ → M Link Name
expect_chars (pos n) = if leb n 1024 then expect n else undefined out_of_range
expect_chars (negsuc n) = undefined out_of_range

-- The loop that receives the devices.
unfoldable pub receive_names : ℕ → M Link (List Name)
receive_names zero = pure []
receive_names (suc n) = do
  disp_size ← expect_int
  name ← expect_chars disp_size
  names ← receive_names n
  pure (name ∷ names)

unfoldable pub pm_get_devices : M Link (List Name)
pm_get_devices = do
  connect
  transmit (int_bytes (pos 7))
  num_devices ← response
  names ← receive_names num_devices
  hang_up
  pure names

-- `device_t`
pub record DeviceT : Type 0 where
  pub name : Name
  pub max_frecuency : ℕ
  pub n_lines : ℕ

abbrev pub device_t : ℕ → ℕ → Name → DeviceT
device_t max_frecuency n_lines name = record {
  name = name;
  max_frecuency = max_frecuency;
  n_lines = n_lines;
}

unfoldable pub info_request : Name → List ℕ
info_request pm_id = int_bytes (pos 6) ++ int_bytes (pos (length pm_id)) ++ pm_id

unfoldable pub pm_get_device_info : Name → M Link DeviceT
pm_get_device_info pm_id = do
  connect
  message ← lift (in_buffer (info_request pm_id))
  transmit message
  max_frecuency ← response
  n_lines ← response
  name_size ← response
  name ← expect_chars (pos name_size)
  hang_up
  pure (device_t max_frecuency n_lines name)

unfoldable pub create_request : Name → LineT → ℤ → ℤ → List ℕ
create_request pm_id lines aggregate interval =
    int_bytes (pos 0)
    ++ int_bytes (pos (length pm_id))
    ++ pm_id
    ++ int_bytes interval
    ++ int_bytes aggregate
    ++ int_bytes (pos line_setsize)
    ++ lines

-- The connections of `pm_create_counter`: the one that becomes the counter's, and that of
-- `pm_get_device_info`.
pub record Links : Type 0 where
  pub own : Link
  pub query : Link

abbrev with_own {ℓ} : {A : Type ℓ} → Links → Outcome A × Link → Outcome A × Links
with_own ks (r, k) = (r, record ks { own = k })

abbrev with_query {ℓ} : {A : Type ℓ} → Links → Outcome A × Link → Outcome A × Links
with_query ks (r, k) = (r, record ks { query = k })

abbrev pub on_own {ℓ} : {A : Type ℓ} → M Link A → M Links A
on_own m ks = with_own ks (m ks.own)

abbrev pub on_query {ℓ} : {A : Type ℓ} → M Link A → M Links A
on_query m ks = with_query ks (m ks.query)

module _ {R : Type 0} where
  abbrev pub no_energy : Energy R
  no_energy = record {
    watts_size = 0;
    watts_sets_size = pos 0;
    watts_sets = [];
    watts = [];
    lines_len = pos 0;
  }

  abbrev pub created : LineT → ℤ → ℤ → DeviceT → CounterT R
  created lines aggregate interval device = record {
    aggregate = aggregate;
    lines = lines;
    num_lines = device.n_lines;
    interval = interval;
    next_timing = 0;
    timing = [];
    energy = no_energy;
  }

  -- The server is asked about the device after it has answered the request.
  unfoldable pub pm_create_counter : Name → LineT → ℤ → ℤ → M Links (CounterT R)
  pm_create_counter pm_id lines aggregate interval = do
    on_own connect
    message ← lift (in_buffer (create_request pm_id lines aggregate interval))
    on_own (transmit message)
    server_response ← on_own response
    device ← on_query (pm_get_device_info pm_id)
    pure (created lines aggregate interval device)
