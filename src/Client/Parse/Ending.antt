-- ===== src/Client/Parse/Ending.antt =====
-- How `pm_set_lines` of client/pm_set_lines.c ends, on any text.
use pmlib.Prelude.{
  ℕ, zero, suc, ◌+◌, ◌-◌, ◌<◌, ◌≤◌, ◌≡◌, refl, Bool, true, false, Option, none, some, List, [], ◌∷◌,
  arith, ltb, ◌==◌, if◌then◌else◌, length, Bool-cases, inl, inr,
}
use pmlib.Outcome.{
  Outcome, ok, throw, crash, ◌and_then◌, or_crash, invalid_argument, out_of_range, uninitialised,
  Fault,
}
use pmlib.Client.Lines.{LineT, line_clr_all}
use pmlib.Client.Lines.Laws.{IsLineT}
use pmlib.Client.Parse.{
  Cursor, hyphen, is_separator, is_allowed, two_digits, read_number, push, push_range, push_last,
  number_step, range_step, comma_step, step, scan, scan_with, pm_set_lines, line_of,
}
use pmlib.Client.Parse.Reading.{set_each_lem, clear-IsLineT}

-- A write past `lineas` or `cad`, and a use of `l` before it has a value.
abbrev pub IsBufferFault : Fault → Type 0
IsBufferFault out_of_range = Unit {0}
IsBufferFault uninitialised = Unit {0}
IsBufferFault _ = ⊥

-- A value with `P`, the return value -1, or one of the faults above.
abbrev pub Ends {ℓ} : {A : Type ℓ} → (A → Type 0) → Outcome A → Type 0
Ends P (ok a) = P a
Ends P (throw e) = e ≡ invalid_argument
Ends P (crash f) = IsBufferFault f

module _ {ℓ κ} {A : Type ℓ} {B : Type κ} where
  and_then-Ends :
      (P : A → Type 0) (Q : B → Type 0) (r : Outcome A) (f : A → Outcome B)
      → Ends P r
      → ((a : A) → P a → Ends Q (f a))
      → Ends Q (r and_then f)
  and_then-Ends P Q (ok a) f h g = g a h
  and_then-Ends P Q (throw e) f h g = h
  and_then-Ends P Q (crash e) f h g = h

if-Ends {ℓ} :
    {A : Type ℓ} (P : A → Type 0) (t : Bool) (x y : Outcome A)
    → Ends P x
    → Ends P y
    → Ends P (if t then x else y)
if-Ends P true x y h g = h
if-Ends P false x y h g = g

IsRest : ℕ → ℕ × List ℕ → Type 0
IsRest n r = length r.1 ≤ n

two_digits-Ends : (n c d : ℕ) (cs : List ℕ) → length cs ≤ n → Ends (IsRest n) (two_digits c d cs)
unfolding IsRest
two_digits-Ends n c d [] h = omega arith
two_digits-Ends n c d (e ∷ es) h =
    if-Ends (IsRest n) (is_separator e) _ (crash out_of_range) (omega arith) tt

read_number-Ends : (c : ℕ) (cs : List ℕ) → Ends (IsRest (length cs)) (read_number c cs)
unfolding IsRest
read_number-Ends c [] = omega arith
read_number-Ends c (d ∷ ds) =
    let n = suc (length ds) in
    if-Ends (IsRest n) (is_separator d) _ _ (omega arith) (two_digits-Ends n c d ds (omega arith))

-- What a step leaves of the text.
Leaves : ℕ → Cursor → Type 0
Leaves n k = length k.rest ≤ n

push-Ends : (n i : ℕ) (k : Cursor) → Leaves n k → Ends (Leaves n) (push i k)
unfolding Leaves
push-Ends n i k h = if-Ends (Leaves n) (ltb (length k.found) 128) _ (crash out_of_range) h tt

push_range-Ends : (n m i : ℕ) (k : Cursor) → Leaves n k → Ends (Leaves n) (push_range m i k)
unfolding push_range
push_range-Ends n zero i k h = h
push_range-Ends n (suc m) i k h =
    and_then-Ends (Leaves n) (Leaves n) (push i k) (push_range m (i + 1)) (push-Ends n i k h)
      (λ k' h'. push_range-Ends n m (i + 1) k' h')

push_last-Ends :
    (n v : ℕ) (cs : List ℕ) (k : Cursor) → Leaves n k → Ends (Leaves n) (push_last v cs k)
push_last-Ends n v [] k h = push-Ends n v k h
push_last-Ends n v (c ∷ cs) k h = h

or_crash-Ends : (o : Option ℕ) → Ends (λ l. Unit {0}) (or_crash o uninitialised)
or_crash-Ends none = tt
or_crash-Ends (some l) = tt

line_of-Ends : (k : Cursor) → Ends (λ l. Unit {0}) (line_of k)
line_of-Ends k = or_crash-Ends k.line

number_step-Ends :
    (c : ℕ) (cs : List ℕ) (k : Cursor) → Ends (Leaves (length cs)) (number_step c cs k)
unfolding Leaves IsRest
number_step-Ends c cs k =
    and_then-Ends (IsRest (length cs)) (Leaves (length cs)) (read_number c cs) _
      (read_number-Ends c cs) (λ (v, rest) h. push_last-Ends (length cs) v rest _ h)

range_step-Ends : (cs : List ℕ) (k : Cursor) → Ends (Leaves (length cs)) (range_step cs k)
unfolding Leaves IsRest
range_step-Ends [] k = refl
range_step-Ends (c ∷ cs) k =
    if-Ends (Leaves (suc (length cs))) (is_separator c) (throw invalid_argument) _ refl (
      and_then-Ends (IsRest (length cs)) (Leaves (suc (length cs))) (read_number c cs) _
        (read_number-Ends c cs)
        (λ (l1, rest) h.
          and_then-Ends (λ l. Unit {0}) (Leaves (suc (length cs))) (line_of k) _ (line_of-Ends k)
            (λ l _. push_range-Ends (suc (length cs)) (l1 + 1 - l) l _ (omega arith))))

comma_step-Ends : (cs : List ℕ) (k : Cursor) → Ends (Leaves (length cs)) (comma_step cs k)
unfolding Leaves
comma_step-Ends cs k = if-Ends (Leaves (length cs)) (k.sep == hyphen) _ _ (omega arith) (
    and_then-Ends (λ l. Unit {0}) (Leaves (length cs)) (line_of k) _ (line_of-Ends k)
      (λ l _. push-Ends (length cs) l _ (omega arith)))

step-Ends : (c : ℕ) (cs : List ℕ) (k : Cursor) → Ends (Leaves (length cs)) (step c cs k)
unfolding step
step-Ends c cs k =
    if-Ends (Leaves (length cs)) (is_separator c) _ _
      (if-Ends (Leaves (length cs)) (c == hyphen) _ _ (range_step-Ends cs k) (comma_step-Ends cs k))
      (number_step-Ends c cs k)

scan_with-Ends :
    (again : Cursor → Outcome (List ℕ)) (k : Cursor) (cs : List ℕ)
    → ((k' : Cursor) → length k'.rest < length cs → Ends (λ ls. Unit {0}) (again k'))
    → Ends (λ ls. Unit {0}) (scan_with again cs k)
unfolding Leaves
scan_with-Ends again k [] h = tt
scan_with-Ends again k (c ∷ cs) h =
    and_then-Ends (Leaves (length cs)) (λ ls. Unit {0}) (step c cs k) again (step-Ends c cs k)
      (λ k' h'. h k' (omega arith))

scan-Ends : (n : ℕ) (k : Cursor) → length k.rest < n → Ends (λ ls. Unit {0}) (scan n k)
unfolding scan
scan-Ends zero k h = absurd (omega arith)
scan-Ends (suc n) k h = scan_with-Ends (scan n) k k.rest (λ k' h'. scan-Ends n k' (omega arith))

-- On any text pm_set_lines terminates: it either returns -1, or has written past one of its buffers
-- or used a number that it has not read yet, or returns a bit map of the right size, and then the
-- text has nothing but digits, hyphens and commas.
pub pm_set_lines-Ends :
    (text : List ℕ) (lines : LineT)
    → Ends (λ mask. IsLineT mask × (is_allowed text ≡ true)) (pm_set_lines text lines)
unfolding pm_set_lines
pm_set_lines-Ends text lines = elim (Bool-cases (is_allowed text)) [
  | inl e ↦ rw e (
      and_then-Ends (λ ls. Unit {0}) (λ mask. IsLineT mask × (true ≡ true)) (scan _ _) _
        (scan-Ends (suc (length text)) _ (omega arith))
        (λ ls _. ((set_each_lem ls (line_clr_all lines) (clear-IsLineT lines)).0, refl)))
  | inr e ↦ rw e refl
]
