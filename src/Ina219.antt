-- ===== src/Ina219.antt =====
-- `class INA219` and the sampling of `class APCape` in server/devices/APCape.hpp: the readings of a
-- board's current monitors. A read of a register gives its two bytes, or fails.
use Prim.Native.Nat.{bit_or}
use pmlib.Prelude.{
  ℕ, ◌+◌, ◌-◌, ◌*◌, ◌/◌, ◌%◌, ◌^◌, ◌<◌, ◌≤◌, ◌≡◌, Option, none, some, List, [], ◌∷◌, arith, ◌==◌,
  if◌then◌else◌,
}
use pmlib.Prelude.Int.{ℤ, pos, negsuc, sub_ℕ}
use pmlib.Wire.{word32}
use pmlib.Floating.{Floating}
use pmlib.Device.{Metric, voltage, current, power}

-- The bytes of a 16-bit register, the high one first; `none` where the bus read returns -1.
abbrev pub Reading : Type 0
Reading = Option (ℕ × ℕ)

-- `val & (1 << len - 1)` tests the sign bit.
unfoldable pub twos_to_int : ℕ → ℕ → ℤ
twos_to_int val len = if val / 2 ^ (len - 1) % 2 == 1 then sub_ℕ val (2 ^ len) else pos val

-- An `int` assigned to an `unsigned short`.
abbrev pub word16 : ℤ → ℕ
word16 (pos n) = n % 2 ^ 16
word16 (negsuc n) = 2 ^ 16 - 1 - n % 2 ^ 16

-- `othernew >> 3 * 4` shifts by twelve. `(bytes[0] << 8) | bytes[1]` has no bit from both sides, so it
-- is a sum.
unfoldable pub bus_voltage_raw : Reading → ℕ
bus_voltage_raw none = 0
bus_voltage_raw (some (hi, lo)) =
    if hi / 2 ^ 7 == 1
    then word16 (twos_to_int ((hi * 256 + lo) % 2 ^ 16) 16) / 2 ^ (3 * 4)
    else (hi * 256 + lo) / 2 ^ 3 * 4 % 2 ^ 16

unfoldable pub shunt_voltage_raw : Reading → ℕ
shunt_voltage_raw none = 0
shunt_voltage_raw (some (hi, lo)) =
    if hi / 2 ^ 7 == 1
    then word16 (twos_to_int ((hi * 256 + lo) % 2 ^ 16) 16)
    else (hi * 256 + lo) % 2 ^ 16

unfoldable pub current_raw : Reading → ℕ
current_raw none = 0
current_raw (some (hi, lo)) =
    if hi / 2 ^ 7 == 1
    then word16 (twos_to_int ((hi * 256 + lo) % 2 ^ 16) 16)
    else (hi * 256 + lo) % 2 ^ 16

-- Here the two variables are `unsigned int`s, and the result is cut to 16 bits on return.
unfoldable pub power_raw : Reading → ℕ
power_raw none = 0
power_raw (some (hi, lo)) =
    if hi / 2 ^ 7 == 1
    then word32 (twos_to_int (hi * 256 + lo) 16) % 2 ^ 16
    else (hi * 256 + lo) % 2 ^ 16

-- The bytes that `setCalibration_32V_4_5A` writes to the calibration and configuration registers.
unfoldable pub calibration_bytes : List ℕ
calibration_bytes = 0x16DB / 2 ^ 8 % 256 ∷ 0x16DB % 256 ∷ []

unfoldable pub config_word : ℕ
config_word = bit_or (bit_or (bit_or (bit_or 0x2000 0x1800) 0x0400) 0x0018) 0x0007

unfoldable pub config_bytes : List ℕ
unfolding config_word
config_bytes = config_word / 2 ^ 8 % 256 ∷ config_word % 256 ∷ []

-- The registers of one monitor.
pub record Monitor : Type 0 where
  pub bus_register : Reading
  pub shunt_register : Reading
  pub current_register : Reading
  pub power_register : Reading

module _ {R : Type 0} ⦃f : Floating R⦄ where
  abbrev pub current_divider : R
  current_divider = f.ratio 7142857 1000000

  abbrev pub power_divider : R
  power_divider = f.ratio 357142 1000000

  unfoldable pub shunt_voltage_mv : Monitor → R
  shunt_voltage_mv m = f.multiply (f.of_ℕ (shunt_voltage_raw m.shunt_register)) (f.ratio 1 1000)

  unfoldable pub bus_voltage_v : Monitor → R
  bus_voltage_v m = f.multiply (f.of_ℕ (bus_voltage_raw m.bus_register)) (f.ratio 1 1000)

  unfoldable pub current_ma : Monitor → R
  current_ma m = f.divide (f.of_ℕ (current_raw m.current_register)) current_divider

  unfoldable pub power_mw : Monitor → R
  power_mw m = f.divide (f.of_ℕ (power_raw m.power_register)) power_divider

  -- The `switch` over a line's metric; `shunt_voltage` and `temperature` have no case of their own.
  unfoldable pub measure : Metric → Monitor → R
  measure power m = power_mw m
  measure voltage m = bus_voltage_v m
  measure current m = current_ma m
  measure _ m = power_mw m

  -- One round over the lines, each with its monitor.
  unfoldable pub measure_all : List (Metric × Monitor) → List R
  measure_all [] = []
  measure_all ((metric, m) ∷ lines) = measure metric m ∷ measure_all lines

-- The signed value of a register in two's complement.
pub twos_to_int_lem :
    (w : ℕ)
    → w < 2 ^ 16
    → (w < 2 ^ 15 → twos_to_int w 16 ≡ pos w)
      × (2 ^ 15 ≤ w → twos_to_int w 16 ≡ negsuc (2 ^ 16 - 1 - w))
unfolding twos_to_int
twos_to_int_lem w h = (λ k. ground arith, λ k. ground arith)

word16_twos : (w : ℕ) → w < 2 ^ 16 → word16 (twos_to_int w 16) ≡ w
unfolding twos_to_int
word16_twos w h = ground arith

word32_twos : (w : ℕ) → w < 2 ^ 16 → word32 (twos_to_int w 16) % 2 ^ 16 ≡ w
unfolding twos_to_int
word32_twos w h = ground arith

-- The readings of the shunt voltage, the current and the power are the sixteen bits of the register
-- taken as an unsigned number, whatever its sign: the conversion from two's complement is undone by
-- the return type.
pub raw_unsigned :
    (hi lo : ℕ)
    → hi < 256
    → lo < 256
    → (shunt_voltage_raw (some (hi, lo)) ≡ hi * 256 + lo)
      × (current_raw (some (hi, lo)) ≡ hi * 256 + lo)
      × (power_raw (some (hi, lo)) ≡ hi * 256 + lo)
unfolding shunt_voltage_raw current_raw power_raw
raw_unsigned hi lo h l =
    let w = hi * 256 + lo in
    let whole : w % 2 ^ 16 ≡ w = omega arith in
    rw whole (
      ground (arith, word16_twos w (omega arith)),
      ground (arith, word16_twos w (omega arith)),
      ground (arith, word32_twos w (omega arith)),
    )

-- Below 0x8000 the bus voltage is the upper thirteen bits of the register times four; from there on
-- it is a number from 8 to 15.
pub bus_voltage_lem :
    (hi lo : ℕ)
    → hi < 256
    → lo < 256
    → (hi < 128 → bus_voltage_raw (some (hi, lo)) ≡ (hi * 256 + lo) / 8 * 4)
      × (128 ≤ hi → (8 ≤ bus_voltage_raw (some (hi, lo))) × (bus_voltage_raw (some (hi, lo)) ≤ 15))
unfolding bus_voltage_raw
bus_voltage_lem hi lo h l =
    let w = hi * 256 + lo in
    let whole : w % 2 ^ 16 ≡ w = omega arith in
    rw whole (ground (arith, word16_twos w (omega arith)))
