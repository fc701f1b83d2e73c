-- ===== src/Config.antt =====
-- `Server::parse_configfile` of server/server.cpp: the devices that a configuration declares. The JSON
-- library is a parameter; the file's text has been read and parsed, or that has thrown.
pub mod Numbers
pub mod Reading
pub mod Wired
use pmlib.Prelude.{
  ℕ, Bool, true, false, not, ◌&&◌, Option, none, some, List, [], ◌∷◌, length, get_or, set,
  replicate, ltb, ◌==◌, codes, if◌then◌else◌,
}
use pmlib.Prelude.Int.{ℤ, pos, negsuc}
use pmlib.Map.{Map, Name, name_key, find, insert_or_assign, get_default}
use pmlib.Outcome.{
  Outcome, ok, throw, M, ◌>>=◌, ◌>>◌, pure, done, fail, lift, modify, or_throw, handled, json_error,
  unsupported_type, no_lines, wrong_line_count, duplicate_line, line_out_of_range, no_devices,
}
use pmlib.Floating.{Floating}
use pmlib.Device.{Device, Computer, register_line, is_some}
use pmlib.Drivers.{create_device, unknown_computer}

-- What `parse_configfile` calls of the JSON library. `none` is an exception.
pub record Json (V R : Type 0) : Type 0 where
  pub null : V
  pub is_null : V → Bool
  -- the member of that name, if there is one; only an object or null has members
  pub member : V → Name → Option (Option V)
  pub member_names : V → Option (List Name)
  pub as_string : V → Option Name
  pub as_int : V → Option ℤ
  pub as_float : V → Option R

-- What the parser has gathered: the server's address, the computers and the finished devices.
pub record Parsing (R : Type 0) : Type 0 where
  pub ip : Name
  pub port : ℤ
  pub computers : Map Name Computer
  pub devices : Map Name (Device R)

-- `check_lines` and the device whose lines are being read.
pub record Lines (R : Type 0) : Type 0 where
  pub check : List Bool
  pub dev : Device R

-- The test of a line's number against `check_lines`.
unfoldable pub check_number : ℤ → List Bool → Outcome (ℕ × List Bool)
check_number (negsuc n) check = throw line_out_of_range
check_number (pos n) check =
    if ltb n (length check)
    then (if get_or check n false then throw duplicate_line else ok (n, set check n true))
    else throw line_out_of_range

module _ {V R : Type 0} (j : Json V R) where
  abbrev or_default : V → Option V → V
  or_default d none = d
  or_default d (some v) = v

  abbrev json {ℓ κ} : {S : Type κ} {A : Type ℓ} → Option A → M S A
  json r = lift (or_throw r json_error)

  -- `v[k]`.
  abbrev pub index {κ} : {S : Type κ} → V → Name → M S V
  index v k = do m ← json (j.member v k); pure (or_default j.null m)

  -- `v.get(k, d).asString()` and its kin, `d` being of the right type already.
  abbrev value_or {ℓ κ} : {S : Type κ} {A : Type ℓ} → (V → Option A) → A → Option V → M S A
  value_or read d none = pure d
  value_or read d (some v) = json (read v)

  abbrev pub get_as {ℓ κ} : {S : Type κ} {A : Type ℓ} → (V → Option A) → V → Name → A → M S A
  get_as read v k d = do m ← json (j.member v k); value_or read d m

  abbrev pub string_at {κ} : {S : Type κ} → V → Name → M S Name
  string_at v k = do w ← index v k; json (j.as_string w)

  -- `computers_map[name]`, which adds an absent name.
  unfoldable pub computer_named : Name → M (Parsing R) Computer
  computer_named name p =
      let c = get_default name unknown_computer p.computers in
      (ok c, record p { computers = insert_or_assign name c p.computers })

  abbrev found_computer : Bool → Name → M (Parsing R) Computer
  found_computer wanted name p =
      if wanted && not (is_some (find name p.computers))
      then (ok unknown_computer, p)
      else computer_named name p

  abbrev computer_or_unknown : Bool → V → M (Parsing R) Computer
  computer_or_unknown wanted c =
      if wanted && j.is_null c
      then pure unknown_computer
      else (do name ← json (j.as_string c); found_computer wanted name)

  -- `(wanted && (isNull() || not found)) ? Computer() : computers_map[...]`, for the member "computer"
  -- of a device or of a line.
  unfoldable pub computer_of : Bool → V → M (Parsing R) Computer
  computer_of wanted v = do c ← index v (codes "computer"); computer_or_unknown wanted c

  module _ ⦃f : Floating R⦄ where
    -- The body of the loop over a device's lines.
    unfoldable pub parse_line : V → Lines R → Name → M (Parsing R) (Lines R)
    parse_line lines s ln = do
      l ← index lines ln
      number ← index l (codes "number")
      z ← json (j.as_int number)
      (n, check) ← lift (check_number z s.check)
      c ← computer_of s.dev.pdu l
      description ← string_at l (codes "description")
      metric ← get_as j.as_string l (codes "metric") (codes "default")
      voltage ← index l (codes "voltage")
      volts ← json (j.as_float voltage)
      offset ← get_as j.as_float l (codes "offset") (f.of_ℕ 0)
      slope ← get_as j.as_float l (codes "slope") (f.of_ℕ 0)
      pure (record {
        check = check;
        dev = register_line ln description metric n c volts offset slope s.dev;
      })

    unfoldable pub parse_lines : V → Lines R → List Name → M (Parsing R) (Lines R)
    parse_lines lines s [] = pure s
    parse_lines lines s (ln ∷ names) = do s' ← parse_line lines s ln; parse_lines lines s' names

    abbrev right_count : Device R → List Name → M (Parsing R) (List Name)
    right_count dev names =
        if length names == dev.n_lines then pure names else fail wrong_line_count

    -- `lines.isNull()` and the number of lines.
    abbrev pub check_lines : V → Device R → M (Parsing R) (List Name)
    check_lines lines dev =
        if j.is_null lines
        then fail no_lines
        else (do names ← json (j.member_names lines); right_count dev names)

    abbrev pub blank : List Name → Computer → Device R → Lines R
    blank names c dev = record {
      check = replicate (length names) false;
      dev = record dev { computer = c };
    }

    unfoldable pub parse_device : Bool → V → Name → M (Parsing R) (Unit {0})
    parse_device apcape devices dn = do
      d ← index devices dn
      type ← string_at d (codes "type")
      url ← string_at d (codes "url")
      lines ← index d (codes "lines")
      dev ← lift (or_throw (create_device apcape type dn url) unsupported_type)
      names ← check_lines lines dev
      c ← computer_of (not dev.pdu) d
      s ← parse_lines lines (blank names c dev) names
      modify λ p. record p { devices = insert_or_assign dn s.dev p.devices }

    unfoldable pub parse_devices : Bool → V → List Name → M (Parsing R) (Unit {0})
    parse_devices apcape devices [] = done
    parse_devices apcape devices (dn ∷ names) =
        parse_device apcape devices dn >> parse_devices apcape devices names

    unfoldable pub parse_computers : V → List Name → M (Parsing R) (Unit {0})
    parse_computers computers [] = done
    parse_computers computers (c ∷ names) = do
      entry ← index computers c
      ip ← string_at entry (codes "ip")
      modify λ p. record p {
        computers = insert_or_assign c (record { name = c; ip = ip }) p.computers;
      }
      parse_computers computers names

    abbrev some_device : M (Parsing R) (Unit {0})
    some_device p = if length p.devices == 0 then (throw no_devices, p) else (ok tt, p)

    -- The `try` block: `none` for a document that could not be parsed.
    unfoldable pub parse_conf : Bool → Option V → M (Parsing R) (Unit {0})
    parse_conf apcape document = do
      conf ← json document
      ip ← get_as j.as_string conf (codes "server_ip") (codes "0.0.0.0")
      port ← get_as j.as_int conf (codes "server_port") (pos 6526)
      modify (λ p. record p { ip = ip; port = port })
      logfile ← get_as j.as_string conf (codes "server_logfile") (codes "pmlib_%N.log")
      computers ← index conf (codes "computers")
      computer_names ← json (j.member_names computers)
      parse_computers computers computer_names
      devices ← index conf (codes "devices")
      device_names ← json (j.member_names devices)
      parse_devices apcape devices device_names
      some_device

    -- An exception is printed and forgotten: the devices before it stay.
    unfoldable pub parse_configfile : Bool → Option V → Parsing R
    parse_configfile apcape document =
        (handled (λ _. done)
          (parse_conf apcape document
            (record { ip = []; port = pos 0; computers = []; devices = [] }))).1
