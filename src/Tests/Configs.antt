-- ===== src/Tests/Configs.antt =====
-- An example of a configuration: one WattsUp meter with its line.
use pmlib.Prelude.{
  ℕ, ◌≡◌, refl, Bool, true, false, Option, none, some, List, [], ◌∷◌, codes, if◌then◌else◌,
}
use pmlib.Prelude.Int.{ℤ, pos}
use pmlib.Map.{Name, name_eqb, keys}
use pmlib.Drivers.{create_device, drivers, new_device}
use pmlib.Config.{
  Json, parse_configfile, parse_conf, parse_computers, parse_devices, parse_device, computer_of,
  parse_lines, parse_line, check_number, computer_named,
}
use pmlib.Config.Reading.{DevicesWired}
use pmlib.Config.Wired.{parse_configfile-DevicesWired}
use pmlib.Tests.{nat_floating}

mutual
  data Value : Type 0 where
    null_value : Value
    text : Name → Value
    number : ℕ → Value
    object : Fields → Value

  data Fields : Type 0 where
    no_fields : Fields
    field : Name → Value → Fields → Fields

abbrev lookup : Fields → Name → Option Value
lookup no_fields k = none
lookup (field j v fs) k = if name_eqb j k then some v else lookup fs k

abbrev names : Fields → List Name
names no_fields = []
names (field j v fs) = j ∷ names fs

abbrev member : Value → Name → Option (Option Value)
member null_value k = some none
member (object fs) k = some (lookup fs k)
member v k = none

abbrev members : Value → Option (List Name)
members null_value = some []
members (object fs) = some (names fs)
members v = none

abbrev is_null : Value → Bool
is_null null_value = true
is_null v = false

abbrev as_text : Value → Option Name
as_text null_value = some []
as_text (text s) = some s
as_text v = none

abbrev as_number : Value → Option ℕ
as_number null_value = some 0
as_number (number n) = some n
as_number v = none

abbrev as_integer : Option ℕ → Option ℤ
as_integer none = none
as_integer (some n) = some (pos n)

abbrev values_json : Json Value ℕ
values_json = record {
  null = null_value;
  is_null = is_null;
  member = member;
  member_names = members;
  as_string = as_text;
  as_int = λ v. as_integer (as_number v);
  as_float = as_number;
}

abbrev socket_line : Value
socket_line = object (
    field (codes "number") (number 0) (
      field (codes "description") (text (codes "rack"))
        (field (codes "voltage") (number 230) no_fields)))

abbrev watts_up : Value
watts_up = object (
    field (codes "type") (text (codes "WattsUp")) (
      field (codes "url") (text (codes "tty0"))
        (field (codes "lines") (object (field (codes "outlet") socket_line no_fields)) no_fields)))

abbrev document : Value
document = object (
    field (codes "computers") (object no_fields)
      (field (codes "devices") (object (field (codes "meter") watts_up no_fields)) no_fields))

parse_configfile-DevicesWired_example :
    DevicesWired (parse_configfile values_json false (some document)).devices
parse_configfile-DevicesWired_example =
    parse_configfile-DevicesWired values_json false (some document)

one_device : keys (parse_configfile values_json false (some document)).devices ≡ codes "meter" ∷ []
unfolding parse_configfile parse_conf parse_computers parse_devices parse_device create_device
    drivers new_device computer_of parse_lines parse_line check_number computer_named
one_device = refl
