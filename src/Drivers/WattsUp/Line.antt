-- ===== src/Drivers/WattsUp/Line.antt =====
-- The status lines of a WattsUp meter (server/devices/WattsUp.hpp), and how the meter puts a line
-- together.
use pmlib.Prelude.{
  ℕ, ◌≡◌, refl, sym, ◌∙◌, ap, true, false, Option, List, [], ◌∷◌, ◌++◌, All, length, get_or, ◌==◌,
  if◌then◌else◌, append_assoc,
}
use pmlib.Map.{Name}
use pmlib.Floating.{Floating}
use pmlib.Drivers.WattsUp.{
  trimmable, trim_start, end_with, trim_end, trim, split, skipped, reading_of, watts_round,
}

-- Fields with commas between them.
abbrev pub join : List Name → Name
join [] = []
join (w ∷ []) = w
join (w ∷ v ∷ ws) = w ++ 44 ∷ join (v ∷ ws)

abbrev pub IsField : Name → Type 0
IsField w = All (λ c. (c == 44) ≡ false) w

abbrev pub IsPadding : Name → Type 0
IsPadding w = All (λ c. trimmable c ≡ true) w

split-field : (w rest : Name) → IsField w → split (w ++ 44 ∷ rest) ≡ w ∷ split rest
unfolding split
split-field [] rest h = refl
split-field (c ∷ w) rest h = rw (h.0, split-field w rest h.1) refl

split-last : (w : Name) → IsField w → split w ≡ w ∷ []
unfolding split
split-last [] h = refl
split-last (c ∷ w) h = rw (h.0, split-last w h.1) refl

split-join : (w : Name) (ws : List Name) → All IsField (w ∷ ws) → split (join (w ∷ ws)) ≡ w ∷ ws
split-join w [] h = split-last w h.0
split-join w (v ∷ ws) h = split-field w (join (v ∷ ws)) h.0 ∙ ap (λ t. w ∷ t) (split-join v ws h.1)

trim_start-padding : (a s : Name) → IsPadding a → trim_start (a ++ s) ≡ trim_start s
unfolding trim_start
trim_start-padding [] s h = refl
trim_start-padding (c ∷ a) s h = rw h.0 (trim_start-padding a s h.1)

trim_end-only : (b : Name) → IsPadding b → trim_end b ≡ []
unfolding trim_end
trim_end-only [] h = refl
trim_end-only (c ∷ b) h = rw (trim_end-only b h.1, h.0) refl

trim_end-padding : (s b : Name) → IsPadding b → trim_end (s ++ b) ≡ trim_end s
unfolding trim_end
trim_end-padding [] b h = trim_end-only b h
trim_end-padding (c ∷ s) b h = ap (end_with c) (trim_end-padding s b h)

starts : (c : ℕ) (s : Name) → trimmable c ≡ false → trim_start (c ∷ s) ≡ c ∷ s
unfolding trim_start
starts c s e = rw e refl

-- A line whose ends are not trimmed away, between padding.
trim-padded :
    (a b : Name) (c : ℕ) (cs : Name)
    → IsPadding a
    → IsPadding b
    → trimmable c ≡ false
    → trim_end (c ∷ cs) ≡ c ∷ cs
    → trim (a ++ (c ∷ cs) ++ b) ≡ c ∷ cs
unfolding trim
trim-padded a b c cs h k e e' =
    rw (append_assoc a (c ∷ cs) b, trim_start-padding a ((c ∷ cs) ++ b) h)
      (ap trim_end (starts c (cs ++ b) e) ∙ trim_end-padding (c ∷ cs) b k ∙ e')

module _ {R : Type 0} ⦃f : Floating R⦄ where
  -- From fields without commas that the meter joins with commas, with blanks, line ends or
  -- semicolons around them and none at their ends, the WattsUp driver reads the fourth field if
  -- there are 21 of them, and skips the line otherwise.
  pub watts_round-line :
      (stod : Name → Option R) (sample : List R) (a b w : Name) (ws : List Name) (c : ℕ) (cs : Name)
      → All IsField (w ∷ ws)
      → join (w ∷ ws) ≡ c ∷ cs
      → IsPadding a
      → IsPadding b
      → trimmable c ≡ false
      → trim_end (c ∷ cs) ≡ c ∷ cs
      → watts_round stod sample (a ++ join (w ∷ ws) ++ b) ≡ (
          if length (w ∷ ws) == 21
          then reading_of sample (stod (get_or (w ∷ ws) 3 []))
          else skipped)
  unfolding watts_round
  watts_round-line stod sample a b w ws c cs fields j h k e e' =
      let trimmed : trim (a ++ join (w ∷ ws) ++ b) ≡ join (w ∷ ws) =
        ap (λ t. trim (a ++ t ++ b)) j ∙ trim-padded a b c cs h k e e' ∙ sym j in
      ap
        (λ (t : List Name).
          if length t == 21 then reading_of sample (stod (get_or t 3 [])) else skipped)
        (ap split trimmed ∙ split-join w ws fields)
