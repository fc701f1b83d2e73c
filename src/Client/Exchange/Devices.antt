-- ===== src/Client/Exchange/Devices.antt =====
-- The answers of server/info.cpp to the queries of client/pm_get_device_info.c and
-- client/pm_get_devices.c.
use pmlib.Prelude.{
  ℕ, suc, ◌+◌, ◌-◌, ◌^◌, ◌<◌, ◌≤◌, ◌≡◌, refl, ap, true, List, [], ◌∷◌, ◌++◌, arith, length, All,
  append_assoc, append-nil, le→leb, some, map,
}
use pmlib.Prelude.Int.{pos}
use pmlib.Map.{Name}
use pmlib.Outcome.{ok}
use pmlib.Wire.{Socket, int_bytes, send_string}
use pmlib.Wire.Roundtrip.{send_int_lem, send_string_lem}
use pmlib.Device.{Device}
use pmlib.Info.{send_info, send_devices, for_each}
use pmlib.Client.{Link}
use pmlib.Client.Requests.{
  device_t, info_request, expect_chars, receive_names, pm_get_device_info, pm_get_devices,
}
use pmlib.Client.Arrivals.{
  join, Arrives, expect_lem, expect_int_lem, response_lem, transmit_lem, connect_lem,
}

expect_chars_lem :
    (str : Name) (fs : List (List ℕ)) (rest : List ℕ) (k : Link)
    → 0 < length str
    → length str ≤ 1024
    → Arrives (str ∷ fs) rest k.arrivals
    → (ps : List (List ℕ)) × (expect_chars (pos (length str)) k
        ≡ (ok str, record k { arrivals = ps }))
      × Arrives fs rest ps
expect_chars_lem str fs rest k h fits a =
    let (ps, got, later) = expect_lem (length str) str fs rest k h refl a in
    (ps, rw (le→leb (length str) 1024 fits) got, later)

module _ {R : Type 0} where
  abbrev pub info_fields : Device R → List (List ℕ)
  info_fields d =
      int_bytes (pos d.max_frequency)
      ∷ int_bytes (pos d.n_lines)
      ∷ int_bytes (pos (length d.name))
      ∷ d.name
      ∷ []

  send_info_lem :
      (d : Device R) (s : Socket)
      → 4 ≤ s.writable
      → (send_info (some d) s).1.outbox ≡ s.outbox ++ join (info_fields d)
  unfolding send_info
  send_info_lem d s h =
      let s1 : Socket = record s {
        outbox = s.outbox ++ int_bytes (pos d.max_frequency);
        writable = s.writable - 1;
      } in
      let s2 : Socket = record s {
        outbox = s1.outbox ++ int_bytes (pos d.n_lines);
        writable = s.writable - 1 - 1;
      } in
      rw
        (
          send_int_lem (pos d.max_frequency) s (omega arith),
          send_int_lem (pos d.n_lines) s1 (omega arith),
          send_string_lem d.name s2 (omega arith),
        )
        (simp (append_assoc, append-nil))

  -- What a device's description must fit.
  abbrev pub IsSmall : Device R → Type 0
  IsSmall d =
      (d.max_frequency < 2 ^ 31)
      × (d.n_lines < 2 ^ 31)
      × (0 < length d.name)
      × (length d.name ≤ 1024)

  -- Let a device have a name of 1 to 1024 bytes and let the network split no field of the answer.
  -- Then pm_get_device_info takes the maximal frequency, the number of lines and the name from what
  -- the server sends of the device.
  pub pm_get_device_info-send_info :
      (d : Device R) (pm_id : Name) (s : Socket) (k : Link)
      → 4 ≤ s.writable
      → k.reachable ≡ true
      → 0 < k.writable
      → length (info_request pm_id) ≤ 1024
      → IsSmall d
      → Arrives (info_fields d) [] k.arrivals
      → ((send_info (some d) s).1.outbox ≡ s.outbox ++ join (info_fields d))
        × ((pm_get_device_info pm_id k).0 ≡ ok (device_t d.max_frequency d.n_lines d.name))
        × ((pm_get_device_info pm_id k).1.sent ≡ k.sent ++ info_request pm_id)
  unfolding pm_get_device_info
  pm_get_device_info-send_info d pm_id s k sw up kw fits (fm, fn, nz, nf) a =
      let request = info_request pm_id in
      let k0 : Link = record k { sent = k.sent ++ request; writable = k.writable - 1 } in
      let name : List (List ℕ) = int_bytes (pos (length d.name)) ∷ d.name ∷ [] in
      let (ps1, got1, a1) =
        response_lem d.max_frequency (int_bytes (pos d.n_lines) ∷ name) [] k0 fm a in
      let k1 : Link = record k0 { arrivals = ps1 } in
      let (ps2, got2, a2) = response_lem d.n_lines name [] k1 fn a1 in
      let k2 : Link = record k0 { arrivals = ps2 } in
      let (ps3, got3, a3) = response_lem (length d.name) (d.name ∷ []) [] k2 (omega arith) a2 in
      let k3 : Link = record k0 { arrivals = ps3 } in
      let (ps4, got4, a4) = expect_chars_lem d.name [] [] k3 nz nf a3 in
      let run : pm_get_device_info pm_id k ≡ (
        ok (device_t d.max_frequency d.n_lines d.name),
        record k0 { arrivals = ps4; closed = true },
      ) =
        rw
          (
            connect_lem k up,
            le→leb (length request) 1024 fits,
            transmit_lem request k kw,
            got1,
            got2,
            got3,
            got4,
          )
          refl in
      (send_info_lem d s sw, ap (λ r. r.0) run, ap (λ r. r.1.sent) run)

  abbrev pub name_fields : List (Device R) → List (List ℕ)
  name_fields [] = []
  name_fields (d ∷ ds) = int_bytes (pos (length d.name)) ∷ d.name ∷ name_fields ds

  abbrev HasName : Device R → Type 0
  HasName d = (0 < length d.name) × (length d.name ≤ 1024)

  send_names :
      (ds : List (Device R)) (s : Socket)
      → length ds + length ds ≤ s.writable
      → (for_each (λ (d : Device R). send_string d.name) ds s).1.outbox
        ≡ s.outbox ++ join (name_fields ds)
  unfolding for_each
  send_names [] s h = rw append-nil refl
  send_names (d ∷ ds) s h =
      let s1 : Socket = record s {
        outbox = s.outbox ++ int_bytes (pos (length d.name)) ++ d.name;
        writable = s.writable - 2;
      } in
      rw (send_string_lem d.name s (omega arith), send_names ds s1 (omega arith))
        (simp (append_assoc))

  send_devices_lem :
      (ds : List (Device R)) (s : Socket)
      → suc (length ds + length ds) ≤ s.writable
      → (send_devices ds s).1.outbox
        ≡ s.outbox ++ join (int_bytes (pos (length ds)) ∷ name_fields ds)
  unfolding send_devices
  send_devices_lem ds s h =
      let s1 : Socket = record s {
        outbox = s.outbox ++ int_bytes (pos (length ds));
        writable = s.writable - 1;
      } in
      rw (send_int_lem (pos (length ds)) s (omega arith), send_names ds s1 (omega arith))
        (simp (append_assoc))

  receive_names_lem :
      (ds : List (Device R)) (k : Link)
      → All HasName ds
      → Arrives (name_fields ds) [] k.arrivals
      → (ps : List (List ℕ)) × (receive_names (length ds) k
          ≡ (ok (map (λ (d : Device R). d.name) ds), record k { arrivals = ps }))
  unfolding receive_names
  receive_names_lem [] k h a = (k.arrivals, refl)
  receive_names_lem (d ∷ ds) k h a =
      let (ps1, got1, a1) =
        expect_int_lem (pos (length d.name)) (d.name ∷ name_fields ds) [] k (ground arith) a in
      let k1 : Link = record k { arrivals = ps1 } in
      let (ps2, got2, a2) = expect_chars_lem d.name (name_fields ds) [] k1 h.0.0 h.0.1 a1 in
      let k2 : Link = record k { arrivals = ps2 } in
      let (ps, rest) = receive_names_lem ds k2 h.1 a2 in (ps, rw (got1, got2, rest) refl)

  -- Let the devices have names of 1 to 1024 bytes and let the network split no field of the answer.
  -- Then pm_get_devices takes the names of all devices, in their order, from the list that the
  -- server sends.
  pub pm_get_devices-send_devices :
      (ds : List (Device R)) (s : Socket) (k : Link)
      → suc (length ds + length ds) ≤ s.writable
      → k.reachable ≡ true
      → 0 < k.writable
      → length ds < 2 ^ 31
      → All HasName ds
      → Arrives (int_bytes (pos (length ds)) ∷ name_fields ds) [] k.arrivals
      → ((send_devices ds s).1.outbox
          ≡ s.outbox ++ join (int_bytes (pos (length ds)) ∷ name_fields ds))
        × ((pm_get_devices k).0 ≡ ok (map (λ (d : Device R). d.name) ds))
  unfolding pm_get_devices
  pm_get_devices-send_devices ds s k sw up kw small named a =
      let request = int_bytes (pos 7) in
      let k0 : Link = record k { sent = k.sent ++ request; writable = k.writable - 1 } in
      let (ps1, got1, a1) = response_lem (length ds) (name_fields ds) [] k0 small a in
      let k1 : Link = record k0 { arrivals = ps1 } in
      let (ps2, got2) = receive_names_lem ds k1 named a1 in
      let run : pm_get_devices k
          ≡ (ok (map (λ (d : Device R). d.name) ds), record k0 { arrivals = ps2; closed = true }) =
        rw (connect_lem k up, transmit_lem request k kw, got1, got2) refl in
      (send_devices_lem ds s sw, ap (λ r. r.0) run)
