-- ===== src/Client/Lines.antt =====
-- client/line.h: `line_t`, a bit map of `__LINE_SETSIZE` bytes, and the macros on it. Line `l` is bit
-- `l % 8` of byte `l / 8`.
pub mod Laws
pub mod Refinement
use pmlib.Prelude.{
  ℕ, zero, suc, ◌+◌, ◌-◌, ◌*◌, ◌/◌, ◌%◌, Bool, false, ◌&&◌, List, [], ◌∷◌, ltb, ◌==◌, if◌then◌else◌,
  get_or, set, replicate,
}
use pmlib.Counter.Mask.{bit_set}

abbrev pub LineT : Type 0
LineT = List ℕ

-- `__LINE_SETSIZE`, which is `sizeof(line_t)`.
abbrev pub line_setsize : ℕ
line_setsize = 16

-- `byte | 1 << b`.
unfoldable pub or_bit : ℕ → ℕ → ℕ
or_bit x zero = x + 1 - x % 2
or_bit x (suc b) = x % 2 + 2 * or_bit (x / 2) b

-- `byte & ~(1 << b)`.
unfoldable pub clear_bit : ℕ → ℕ → ℕ
clear_bit x zero = x - x % 2
clear_bit x (suc b) = x % 2 + 2 * clear_bit (x / 2) b

abbrev pub bit : Bool → ℕ
bit t = if t then 1 else 0

-- `x & y`, of `k` bits.
unfoldable pub and_bits : ℕ → ℕ → ℕ → ℕ
and_bits zero x y = 0
and_bits (suc k) x y = bit (x % 2 == 1 && y % 2 == 1) + 2 * and_bits k (x / 2) (y / 2)

unfoldable pub line_clr_all : LineT → LineT
line_clr_all s = replicate line_setsize 0

unfoldable pub line_set_all : LineT → LineT
line_set_all s = replicate line_setsize 255

unfoldable pub line_set : ℕ → LineT → LineT
line_set l s =
    if ltb l (8 * line_setsize) then set s (l / 8) (or_bit (get_or s (l / 8) 0) (l % 8)) else s

unfoldable pub line_clr : ℕ → LineT → LineT
line_clr l s =
    if ltb l (8 * line_setsize) then set s (l / 8) (clear_bit (get_or s (l / 8) 0) (l % 8)) else s

unfoldable pub line_isset : ℕ → LineT → Bool
line_isset l s = if ltb l (8 * line_setsize) then bit_set (get_or s (l / 8) 0) (l % 8) else false

-- The loop over the bytes; both bit maps have as many.
unfoldable pub line_and : LineT → LineT → LineT
line_and (x ∷ xs) (y ∷ ys) = and_bits 8 x y ∷ line_and xs ys
line_and _ _ = []
