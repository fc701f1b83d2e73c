-- ===== src/Counter/Mask.antt =====
-- `Counter::set_lines` of server/counter.cpp: the lines that a client's bit mask names.
use pmlib.Prelude.{
  ℕ, zero, suc, ◌+◌, ◌*◌, ◌/◌, ◌%◌, ◌^◌, Bool, ◌&&◌, List, [], ◌∷◌, ◌++◌, ltb, ◌==◌, if◌then◌else◌,
}

-- `byte & (1 << b)`.
abbrev pub bit_set : ℕ → ℕ → Bool
bit_set byte b = byte / 2 ^ b % 2 == 1

-- The loop over the bits of one byte, from bit `b` on with `k` to go; `base` is `i * 8`.
unfoldable pub lines_of_byte : ℕ → ℕ → ℕ → ℕ → ℕ → List ℕ
lines_of_byte n byte base b zero = []
lines_of_byte n byte base b (suc k) =
    let rest = lines_of_byte n byte base (b + 1) k in
    if bit_set byte b && ltb (base + b) n then (base + b) ∷ rest else rest

-- The loop over the bytes, from `lines_str[i]` on.
unfoldable pub lines_from : ℕ → ℕ → List ℕ → List ℕ
lines_from n i [] = []
lines_from n i (byte ∷ bytes) = lines_of_byte n byte (i * 8) 0 8 ++ lines_from n (i + 1) bytes

unfoldable pub lines_of_mask : ℕ → List ℕ → List ℕ
unfolding lines_from lines_of_byte
lines_of_mask n mask = lines_from n 0 mask
