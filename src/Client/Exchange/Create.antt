-- ===== src/Client/Exchange/Create.antt =====
-- The request of client/pm_create_counter.c and the constructor `Counter::Counter` of server/counter.cpp.
use pmlib.Prelude.{
  ℕ, ◌+◌, ◌-◌, ◌^◌, ◌<◌, ◌≤◌, ◌≡◌, refl, ap, Bool, true, false, List, [], ◌∷◌, ◌++◌, arith, ltb,
  length, append_assoc, append-nil, length-append, le→leb, some, subst,
}
use pmlib.Prelude.Int.{ℤ, pos}
use pmlib.Map.{Name, name_key, find}
use pmlib.Outcome.{Outcome, ok, ◌>>◌, >>=-ok}
use pmlib.Wire.{Socket, int_bytes, receive_int, receive_bool, receive_string, send_int}
use pmlib.Wire.Roundtrip.{IsInt32, receive_int_lem, read_lem, read_chars_lem}
use pmlib.Device.{Device}
use pmlib.Device.Lines.{contains}
use pmlib.Counter.{set_frequency, success}
use pmlib.Counter.Mask.{lines_of_mask}
use pmlib.Registry.{Conn, talk}
use pmlib.Creation.{create, register, new_counter}
use pmlib.Client.Lines.{LineT, line_setsize, bit}
use pmlib.Client.Lines.Laws.{IsLineT}
use pmlib.Client.Lines.Refinement.{view, meet, lines_of_mask-view}
use pmlib.Client.{Link}
use pmlib.Client.Requests.{
  Links, device_t, create_request, info_request, created, pm_create_counter, pm_get_device_info,
}
use pmlib.Client.Arrivals.{Arrives, response_lem, transmit_lem, connect_lem}
use pmlib.Client.Exchange.Devices.{IsSmall, info_fields, pm_get_device_info-send_info}

receive_string_lem :
    (str rest : List ℕ) (s : Socket)
    → length str < 2 ^ 31
    → receive_string (record s { inbox = int_bytes (pos (length str)) ++ (str ++ rest) })
      ≡ (ok str, record s { inbox = rest })
unfolding receive_string
receive_string_lem str rest s h =
    >>=-ok receive_int _ (receive_int_lem (pos (length str)) (str ++ rest) s (ground arith))
      (read_chars_lem str rest s)

receive_bool_lem :
    (t : Bool) (rest : List ℕ) (s : Socket)
    → receive_bool (record s { inbox = int_bytes (pos (bit t)) ++ rest })
      ≡ (ok (t, 0 ∷ 0 ∷ 0 ∷ []), record s { inbox = rest })
unfolding receive_bool int_bytes
receive_bool_lem true rest s = rw (read_lem 4 (int_bytes (pos 1)) rest s refl) refl
receive_bool_lem false rest s = rw (read_lem 4 (int_bytes (pos 0)) rest s refl) refl

-- The fields of the request in front of each other.
request_fields :
    (pm_id : Name) (lines : LineT) (aggregate interval : ℤ)
    → create_request pm_id lines aggregate interval
      ≡ int_bytes (pos 0)
        ++ (int_bytes (pos (length pm_id))
            ++ (pm_id
                ++ (int_bytes interval
                    ++ (int_bytes aggregate ++ (int_bytes (pos line_setsize) ++ (lines ++ []))))))
unfolding create_request
request_fields pm_id lines aggregate interval = simp (append_assoc, append-nil)

pair-ok {ℓ κ} : {A : Type ℓ} {S : Type κ} (r : Outcome A × S) (a : A) → r.0 ≡ ok a → r ≡ (ok a, r.1)
pair-ok (o, s) a h = ap (λ p. (p, s)) h

short_name : (pm_id : Name) → length (info_request pm_id) ≤ 1024 → length pm_id < 2 ^ 31
unfolding info_request
short_name pm_id h =
    omega (arith, length-append (int_bytes (pos 6) ++ int_bytes (pos (length pm_id))) pm_id)

module _ {R : Type 0} where
  -- The connection when the constructor has read its request and taken a number.
  abbrev pub begun : Conn R → Conn R
  begun c = record c {
    server = record c.server { next_id = c.server.next_id + 1 };
    sock = record c.sock { inbox = [] };
  }

  abbrev pub asking : Name → LineT → Bool → ℤ → Conn R → Conn R
  asking pm_id lines t frequency c = record c {
    sock = record c.sock { inbox = create_request pm_id lines (pos (bit t)) frequency };
  }

  create-create_request :
      (pm_id : Name) (lines : LineT) (t : Bool) (frequency : ℤ) (interval : ℤ) (d : Device R)
      (c : Conn R)
      → IsLineT lines
      → length pm_id < 2 ^ 31
      → IsInt32 frequency
      → find pm_id c.server.device_map ≡ some d
      → set_frequency frequency d.max_frequency ≡ ok interval
      → (talk receive_int >> create) (asking pm_id lines t frequency c)
        ≡ (register pm_id
                (new_counter (c.server.next_id + 1) t interval (lines_of_mask d.n_lines lines))
                d
              >> talk (send_int success))
            (begun c)
  unfolding create
  create-create_request pm_id lines t frequency interval d c sized short int there rate =
      let mask_bytes = lines ++ [] in
      let sizes = int_bytes (pos line_setsize) ++ mask_bytes in
      let flags = int_bytes (pos (bit t)) ++ sizes in
      let rates = int_bytes frequency ++ flags in
      let mask : receive_string (record c.sock { inbox = sizes })
          ≡ (ok lines, record c.sock { inbox = [] }) =
        subst
          (λ n.
            receive_string (record c.sock { inbox = int_bytes (pos n) ++ mask_bytes })
            ≡ (ok lines, record c.sock { inbox = [] }))
          sized (receive_string_lem lines [] c.sock (omega arith)) in
      rw
        (
          request_fields pm_id lines (pos (bit t)) frequency,
          receive_int_lem (pos 0) (int_bytes (pos (length pm_id)) ++ (pm_id ++ rates)) c.sock
              (ground arith),
          receive_string_lem pm_id rates c.sock short,
          receive_int_lem frequency flags c.sock int,
          receive_bool_lem t sizes c.sock,
          mask,
          there,
          rate,
        )
        refl

  -- The client's side, with the answers that a server gives.
  pm_create_counter_lem :
      (pm_id : Name) (lines : LineT) (aggregate interval : ℤ) (d : Device R) (ks : Links)
      → length (create_request pm_id lines aggregate interval) ≤ 1024
      → length (info_request pm_id) ≤ 1024
      → (ks.own.reachable ≡ true) × (ks.query.reachable ≡ true)
      → (0 < ks.own.writable) × (0 < ks.query.writable)
      → IsSmall d
      → Arrives (int_bytes success ∷ []) [] ks.own.arrivals
      → Arrives (info_fields d) [] ks.query.arrivals
      → let r = pm_create_counter {R = R} pm_id lines aggregate interval ks in
        (r.0 ≡ ok (created lines aggregate interval (device_t d.max_frequency d.n_lines d.name)))
        × (r.1.own.sent ≡ ks.own.sent ++ create_request pm_id lines aggregate interval)
  unfolding pm_create_counter
  pm_create_counter_lem pm_id lines aggregate interval d ks fits fits' up room small a b =
      let request = create_request pm_id lines aggregate interval in
      let k0 : Link = record ks.own {
        sent = ks.own.sent ++ request;
        writable = ks.own.writable - 1;
      } in
      let (ps, got, _) = response_lem 0 [] [] k0 (omega arith) a in
      let s : Socket = record { inbox = []; outbox = []; writable = 4; peer = [] } in
      let (_, info, _) =
        pm_get_device_info-send_info d pm_id s ks.query (omega arith) up.1 room.1 fits' small b in
      let known = pair-ok (pm_get_device_info pm_id ks.query) _ info in
      let run : pm_create_counter {R = R} pm_id lines aggregate interval ks ≡ (
        ok (created lines aggregate interval (device_t d.max_frequency d.n_lines d.name)),
        record { own = record k0 { arrivals = ps }; query = (pm_get_device_info pm_id ks.query).1 },
      ) =
        rw
          (
            connect_lem ks.own up.0,
            le→leb (length request) 1024 fits,
            transmit_lem request ks.own room.0,
            got,
            known,
          )
          refl in
      (ap (λ r. r.0) run, ap (λ r. r.1.own.sent) run)

  -- Let the server answer with success and describe the device in answers that no field of is split
  -- by the network, and let the request fit its buffer. Then pm_create_counter sends the request
  -- and fills the counter from it and the description; and the server's constructor, on these
  -- bytes, goes on with the name, the frequency, the aggregation and the bit map that the client
  -- was given, so that the counter it registers has just the lines of the bit map that the device
  -- has.
  pub create-pm_create_counter :
      (pm_id : Name) (lines : LineT) (t : Bool) (frequency : ℤ) (interval : ℤ) (d : Device R)
      (ks : Links) (c : Conn R)
      → IsLineT lines
      → length (create_request pm_id lines (pos (bit t)) frequency) ≤ 1024
      → length (info_request pm_id) ≤ 1024
      → IsInt32 frequency
      → (ks.own.reachable ≡ true) × (ks.query.reachable ≡ true)
      → (0 < ks.own.writable) × (0 < ks.query.writable)
      → IsSmall d
      → Arrives (int_bytes success ∷ []) [] ks.own.arrivals
      → Arrives (info_fields d) [] ks.query.arrivals
      → find pm_id c.server.device_map ≡ some d
      → set_frequency frequency d.max_frequency ≡ ok interval
      → let r = pm_create_counter {R = R} pm_id lines (pos (bit t)) frequency ks in
        let named = lines_of_mask d.n_lines lines in
        (r.0
          ≡ ok (created lines (pos (bit t)) frequency (device_t d.max_frequency d.n_lines d.name)))
        × (r.1.own.sent ≡ ks.own.sent ++ create_request pm_id lines (pos (bit t)) frequency)
        × ((talk receive_int >> create) (asking pm_id lines t frequency c)
            ≡ (register pm_id (new_counter (c.server.next_id + 1) t interval named) d
                  >> talk (send_int success))
                (begun c))
        × (contains named ≡ meet (view lines) (λ l. ltb l d.n_lines))
  create-pm_create_counter pm_id lines t frequency interval d ks c sized fits fits' int up room
        small a b there rate =
      let (result, sent) =
        pm_create_counter_lem pm_id lines (pos (bit t)) frequency d ks fits fits' up room small a
          b in
      (
        result,
        sent,
        create-create_request pm_id lines t frequency interval d c sized (short_name pm_id fits')
            int there rate,
        lines_of_mask-view d.n_lines lines sized,
      )
