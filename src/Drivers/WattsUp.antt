-- ===== src/Drivers/WattsUp.antt =====
-- One round of the sampling loop of server/devices/WattsUp.hpp: the watts in a status line.
pub mod Line
use pmlib.Prelude.{
  ℕ, zero, suc, Bool, true, false, ◌&&◌, ◌||◌, Option, none, some, List, [], ◌∷◌, length, get_or,
  set, ◌==◌, if◌then◌else◌,
}
use pmlib.Map.{Name}
use pmlib.Floating.{Floating}

-- `boost::is_any_of(" \t\r\n;")`.
abbrev pub trimmable : ℕ → Bool
trimmable c = c == 32 || c == 9 || c == 13 || c == 10 || c == 59

unfoldable pub trim_start : Name → Name
trim_start [] = []
trim_start (c ∷ cs) = if trimmable c then trim_start cs else c ∷ cs

abbrev pub end_with : ℕ → Name → Name
end_with c [] = if trimmable c then [] else c ∷ []
end_with c (d ∷ ds) = c ∷ d ∷ ds

unfoldable pub trim_end : Name → Name
trim_end [] = []
trim_end (c ∷ cs) = end_with c (trim_end cs)

-- `boost::trim_if`.
unfoldable pub trim : Name → Name
trim line = trim_end (trim_start line)

abbrev pub prepend : ℕ → List Name → List Name
prepend c [] = (c ∷ []) ∷ []
prepend c (w ∷ ws) = (c ∷ w) ∷ ws

-- `boost::split` at commas, which gives one field more than there are commas.
unfoldable pub split : Name → List Name
split [] = [] ∷ []
split (c ∷ cs) = let rest = split cs in if c == 44 then [] ∷ rest else prepend c rest

-- What a status line makes of the sample.
pub data Reading (R : Type 0) : Type 0 where
  skipped : Reading R
  yielded : List R → Reading R
  -- `stod` throws, which ends the driver's loop
  failed : Reading R

module _ {R : Type 0} ⦃f : Floating R⦄ where
  abbrev pub reading_of : List R → Option R → Reading R
  reading_of sample none = failed
  reading_of sample (some watts) = yielded (set sample 0 (f.multiply watts (f.ratio 1 10)))

  -- `stod` is the standard library's.
  unfoldable pub watts_round : (Name → Option R) → List R → Name → Reading R
  watts_round stod sample line =
      let fields = split (trim line) in
      if length fields == 21 then reading_of sample (stod (get_or fields 3 [])) else skipped
