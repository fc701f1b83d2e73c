-- ===== src/Tests/Monitors.antt =====
-- Examples of INA219 readings.
use pmlib.Prelude.{◌≡◌, ◌<◌, ◌≤◌, arith, some}
use pmlib.Ina219.{
  shunt_voltage_raw, current_raw, power_raw, raw_unsigned, bus_voltage_raw, bus_voltage_lem,
}

raw_unsigned_example :
    (shunt_voltage_raw (some (0xff, 0xff)) ≡ 65535)
    × (current_raw (some (0xff, 0xff)) ≡ 65535)
    × (power_raw (some (0xff, 0xff)) ≡ 65535)
raw_unsigned_example = raw_unsigned 0xff 0xff (omega arith) (omega arith)

bus_voltage_lem_example :
    (0x80 < 128 → bus_voltage_raw (some (0x80, 0)) ≡ 16384)
    × (128 ≤ 0x80
        → (8 ≤ bus_voltage_raw (some (0x80, 0))) × (bus_voltage_raw (some (0x80, 0)) ≤ 15))
bus_voltage_lem_example = bus_voltage_lem 0x80 0 (omega arith) (omega arith)
