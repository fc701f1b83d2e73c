-- ===== src/Client/Parse/Items.antt =====
-- Texts of line numbers and ranges with commas between them, for `pm_set_lines` of client/pm_set_lines.c,
-- and its reading of a number.
use pmlib.Prelude.{
  ℕ, zero, suc, ◌+◌, ◌-◌, ◌*◌, ◌/◌, ◌%◌, ◌<◌, ◌≡◌, refl, Bool, true, false, List, [], ◌∷◌, ◌++◌,
  arith, ltb, if◌then◌else◌, Bool-cases, inl, inr,
}
use pmlib.Outcome.{ok}
use pmlib.Client.Parse.{comma, hyphen, is_separator, digit, two_digits, read_number}

-- One line, or the lines from the first number to the second.
pub data Item : Type 0 where
  one : ℕ → Item
  span : ℕ → ℕ → Item

abbrev pub render_number : ℕ → List ℕ
render_number m = if ltb m 10 then (b'0' + m) ∷ [] else (b'0' + m / 10) ∷ (b'0' + m % 10) ∷ []

abbrev pub render_item : Item → List ℕ
render_item (one m) = render_number m
render_item (span a b) = render_number a ++ hyphen ∷ render_number b

abbrev pub render : List Item → List ℕ
render [] = []
render (i ∷ []) = render_item i
render (i ∷ j ∷ is) = render_item i ++ comma ∷ render (j ∷ is)

-- The `n` numbers from `i` on.
abbrev pub count_from : ℕ → ℕ → List ℕ
count_from i zero = []
count_from i (suc n) = i ∷ count_from (i + 1) n

abbrev pub lines_of_item : Item → List ℕ
lines_of_item (one m) = m ∷ []
lines_of_item (span a b) = count_from a (b + 1 - a)

abbrev pub expand : List Item → List ℕ
expand [] = []
expand (i ∷ is) = lines_of_item i ++ expand is

abbrev pub IsShort : Item → Type 0
IsShort (one m) = m < 100
IsShort (span a b) = (a < 100) × (b < 100)

-- What may follow a number.
abbrev pub ends_number : List ℕ → Bool
ends_number [] = true
ends_number (c ∷ cs) = is_separator c

abbrev pub Reads : ℕ → List ℕ → List ℕ → Type 0
Reads m t text =
    (c : ℕ) × (cs : List ℕ) × (text ≡ c ∷ cs)
    × (is_separator c ≡ false)
    × (read_number c cs ≡ ok (m, t))

two_digits_lem :
    (c d : ℕ) (t : List ℕ)
    → ends_number t ≡ true
    → two_digits c d t ≡ ok (10 * digit c + digit d, t)
two_digits_lem c d [] h = refl
two_digits_lem c d (e ∷ es) h = rw h refl

read_one : (c : ℕ) (t : List ℕ) → ends_number t ≡ true → read_number c t ≡ ok (digit c, t)
read_one c [] h = refl
read_one c (e ∷ es) h = rw h refl

pub read_number_lem :
    (m : ℕ) (t : List ℕ) → m < 100 → ends_number t ≡ true → Reads m t (render_number m ++ t)
read_number_lem m t h e = elim (Bool-cases (ltb m 10)) [
  | inl low ↦
      let value : digit (b'0' + m) ≡ m = omega arith in
      (b'0' + m, t, rw low refl, ground arith, rw (read_one (b'0' + m) t e, value) refl)
  | inr high ↦
      let digits : is_separator (b'0' + m % 10) ≡ false = ground arith in
      let value : 10 * digit (b'0' + m / 10) + digit (b'0' + m % 10) ≡ m = omega arith in
      (
        b'0' + m / 10,
        (b'0' + m % 10) ∷ t,
        rw high refl,
        ground arith,
        rw (digits, two_digits_lem (b'0' + m / 10) (b'0' + m % 10) t e, value) refl,
      )
]
