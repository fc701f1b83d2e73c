-- ===== src/Tests/Drivers.antt =====
-- Examples of the drivers' rounds.
use pmlib.Prelude.{
  ℕ, ◌≡◌, refl, Option, some, List, [], ◌∷◌, ◌++◌, arith, length, ◌*◌, codes, get_or, ◌==◌,
  if◌then◌else◌, replicate,
}
use pmlib.Map.{Name}
use pmlib.Wire.{word_of_bytes, concat_map}
use pmlib.Drivers.Rounds.{lmg_round}
use pmlib.Drivers.Rounds.Frames.{lmg_round-frame}
use pmlib.Drivers.WattsUp.{watts_round, reading_of, skipped, trim_end}
use pmlib.Drivers.WattsUp.Line.{join, watts_round-line}
use pmlib.Tests.{nat_floating}

lmg_round-frame_example :
    lmg_round word_of_bytes 2
      (replicate 7 9 ++ concat_map nat_floating.float_bytes (230 ∷ 70000 ∷ []) ++ 13 ∷ [])
    ≡ 230 ∷ 70000 ∷ []
lmg_round-frame_example =
    lmg_round-frame word_of_bytes (replicate 7 9) (13 ∷ []) (230 ∷ 70000 ∷ []) (refl, (refl, tt))
      refl

-- The fourth of 21 fields has the watts, times ten.
abbrev status : List Name
status = codes "-" ∷ codes "18" ∷ codes "600" ∷ replicate 17 (codes "0")

-- A `stod` that counts digits.
abbrev size_of_field : Name → Option ℕ
size_of_field w = some (length w * 100)

watts_round-line_example :
    watts_round size_of_field (0 ∷ []) (codes " " ++ join (codes "#d" ∷ status) ++ codes ";") ≡ (
      if length (codes "#d" ∷ status) == 21
      then reading_of (0 ∷ []) (size_of_field (get_or (codes "#d" ∷ status) 3 []))
      else skipped)
unfolding trim_end
watts_round-line_example =
    watts_round-line size_of_field (0 ∷ []) (codes " ") (codes ";") (codes "#d") status 35 _
      (ground arith) refl (ground arith) (ground arith) refl refl
