-- ===== src/Client/Parse.antt =====
-- `pm_set_lines` of client/pm_set_lines.c: the bit map of the lines that a text such as "30-36,42" names.
pub mod Items
pub mod Rounds
pub mod Reading
pub mod Ending
use pmlib.Prelude.{
  ℕ, zero, suc, ◌+◌, ◌-◌, ◌*◌, Bool, ◌||◌, Option, none, some, List, [], ◌∷◌, ◌++◌, length, ltb,
  ◌==◌, if◌then◌else◌, true, ◌&&◌,
}
use pmlib.Outcome.{
  Outcome, ok, throw, crash, ◌and_then◌, or_crash, invalid_argument, out_of_range, uninitialised,
  out_of_fuel,
}
use pmlib.Client.Lines.{LineT, line_set, line_clr_all}

abbrev pub comma : ℕ
comma = b','

abbrev pub hyphen : ℕ
hyphen = b'-'

abbrev pub is_separator : ℕ → Bool
is_separator c = c == hyphen || c == comma

abbrev pub is_digit : ℕ → Bool
is_digit c = ltb 47 c && ltb c 58

-- The first loop: every character is a hyphen, a comma or a digit.
unfoldable pub is_allowed : List ℕ → Bool
is_allowed [] = true
is_allowed (c ∷ cs) = (is_separator c || is_digit c) && is_allowed cs

-- The local variables: what `p` points to, `l`, `sep`, and `lineas` up to `indice`.
pub record Cursor : Type 0 where
  pub rest : List ℕ
  pub line : Option ℕ
  pub sep : ℕ
  pub found : List ℕ

abbrev pub digit : ℕ → ℕ
digit c = c - b'0'

-- Past two digits: a third one is printed into `cad`, whose four bytes have no room for it, the line end
-- and the final zero.
abbrev pub two_digits : ℕ → ℕ → List ℕ → Outcome (ℕ × List ℕ)
two_digits c d [] = ok (10 * digit c + digit d, [])
two_digits c d (e ∷ es) =
    if is_separator e then ok (10 * digit c + digit d, e ∷ es) else crash out_of_range

-- The number at `p`, where a digit stands, and what is behind it.
abbrev pub read_number : ℕ → List ℕ → Outcome (ℕ × List ℕ)
read_number c [] = ok (digit c, [])
read_number c (d ∷ ds) = if is_separator d then ok (digit c, d ∷ ds) else two_digits c d ds

-- `lineas[indice] = i; indice++`.
abbrev pub push : ℕ → Cursor → Outcome Cursor
push i k =
    if ltb (length k.found) 128
    then ok (record k { found = k.found ++ i ∷ [] })
    else crash out_of_range

-- `for (i = l; i <= l1; i++)`, with `n` rounds to go.
unfoldable pub push_range : ℕ → ℕ → Cursor → Outcome Cursor
push_range zero i k = ok k
push_range (suc n) i k = push i k and_then push_range n (i + 1)

-- `l`, if it has been assigned.
abbrev pub line_of : Cursor → Outcome ℕ
line_of k = or_crash k.line uninitialised

abbrev pub push_last : ℕ → List ℕ → Cursor → Outcome Cursor
push_last v [] k = push v k
push_last v (c ∷ cs) k = ok k

abbrev pub number_step : ℕ → List ℕ → Cursor → Outcome Cursor
number_step c cs k = read_number c cs and_then λ (v, rest).
    push_last v rest (record k { rest = rest; line = some v })

abbrev pub range_step : List ℕ → Cursor → Outcome Cursor
range_step [] k = throw invalid_argument
range_step (c ∷ cs) k =
    if is_separator c
    then throw invalid_argument
    else (read_number c cs and_then λ (l1, rest).
        line_of k and_then λ l. push_range (l1 + 1 - l) l (record k { rest = rest; sep = hyphen }))

abbrev pub comma_step : List ℕ → Cursor → Outcome Cursor
comma_step cs k =
    if k.sep == hyphen
    then ok (record k { rest = cs; sep = comma })
    else (line_of k and_then λ l. push l (record k { rest = cs }))

-- One round of the second loop.
unfoldable pub step : ℕ → List ℕ → Cursor → Outcome Cursor
step c cs k =
    if is_separator c
    then (if c == hyphen then range_step cs k else comma_step cs k)
    else number_step c cs k

abbrev pub scan_with : (Cursor → Outcome (List ℕ)) → List ℕ → Cursor → Outcome (List ℕ)
scan_with again [] k = ok k.found
scan_with again (c ∷ cs) k = step c cs k and_then again

unfoldable pub scan : ℕ → Cursor → Outcome (List ℕ)
scan zero k = crash out_of_fuel
scan (suc n) k = scan_with (scan n) k.rest k

-- `LINE_SET` of each element of `lineas`.
unfoldable pub set_each : List ℕ → LineT → LineT
set_each [] s = s
set_each (l ∷ ls) s = set_each ls (line_set l s)

-- A throw is the return value -1. Every round uses up a character.
unfoldable pub pm_set_lines : List ℕ → LineT → Outcome LineT
pm_set_lines text lines =
    if is_allowed text
    then (scan (suc (length text)) (record { rest = text; line = none; sep = comma; found = [] })
        and_then λ found. ok (set_each found (line_clr_all lines)))
    else throw invalid_argument
