-- ===== src/Client/Print/Rows.antt =====
-- The rows of a set in client/pm_print_data_text.c, against the samples that a reply holds.
use pmlib.Prelude.{
  ℕ, zero, suc, ◌+◌, ◌*◌, ◌<◌, ◌≤◌, ◌≡◌, refl, ap, ◌∙◌, List, [], ◌∷◌, ◌++◌, arith, length, All,
  codes, Bool-cases, inl, inr,
}
use pmlib.Prelude.Int.{pos, ◌+ℤ◌, ◌-ℤ◌, +ℤ-pos, -ℤ-pos}
use pmlib.Map.{nat_key}
use pmlib.Outcome.{ok}
use pmlib.Floating.{Floating}
use pmlib.Client.Lines.{LineT, line_isset}
use pmlib.Client.Print.Plan.{Difference, Piece, text, int_field, real_field}
use pmlib.Client.Print.Selection.{places}
use pmlib.Client.Print.Layout.{Block, flat, IsFull, sample, sample_at-flat}
use pmlib.Client.Print.{scale, tab, values, fields, total, zero_real, line_rows}

-- Every place is below `m`.
abbrev pub AreBelow : ℕ → List (ℕ × ℕ) → Type 0
AreBelow m sel = All (λ q. q.0 < m) sel

pub places-AreBelow :
    (lines : LineT) (j m : ℕ) (ls : List ℕ) → j + length ls ≤ m → AreBelow m (places lines j ls)
unfolding places
places-AreBelow lines j m [] h = tt
places-AreBelow lines j m (l ∷ ls) h =
    let rest = places-AreBelow lines (j + 1) m ls (omega arith) in
    elim (Bool-cases (line_isset l lines)) [ inl e ↦ rw e (omega arith, rest) | inr e ↦ rw e rest ]

pub minus_one : (n : ℕ) → pos (suc n) -ℤ pos 1 ≡ pos n
minus_one n = -ℤ-pos (suc n) 1 (omega arith) ∙ ap pos (omega arith)

module _ {R : Type 0} ⦃f : Floating R⦄ ⦃g : Difference R⦄ where
  -- Sample `i` of each line that is printed.
  abbrev pub row : Block R → ℕ → List (ℕ × ℕ) → List R
  row b i [] = []
  row b i ((p, l) ∷ sel) = sample zero_real b p i ∷ row b i sel

  -- The `n` rows of set `s` from sample `i` on.
  abbrev pub rows : Block R → List (ℕ × ℕ) → ℕ → R → ℕ → ℕ → R → List (Piece R)
  rows b sel s inc zero i t = []
  rows b sel s inc (suc n) i t =
      (int_field (pos s) ∷ text tab ∷ real_field t ∷ text tab ∷ fields tab (row b i sel)
        ++ real_field (total zero_real (row b i sel)) ∷ text (codes "\n") ∷ [])
      ++ rows b sel s inc n (i + 1) (f.add t inc)

  -- `times s` is how long set `s` took.
  abbrev pub table : List (ℕ × ℕ) → (ℕ → R) → ℕ → List (Block R) → List (Piece R)
  table sel times s [] = []
  table sel times s (b ∷ bs) =
      rows b sel s (f.divide (times s) (g.of_ℤ (pos b.size -ℤ pos 1))) b.size 0 zero_real
      ++ table sel times (s + 1) bs

  values_lem :
      (b : Block R) (pre post : List R) (m i : ℕ) (sel : List (ℕ × ℕ))
      → IsFull m b
      → AreBelow m sel
      → i < b.size
      → values
          (pre ++ (flat b.samples ++ post))
          (λ p. pos (length pre) +ℤ (pos i +ℤ scale p (pos b.size)))
          sel
        ≡ ok (row b i sel)
  unfolding values
  values_lem b pre post m i [] full below h = refl
  values_lem b pre post m i ((p, l) ∷ sel) full below h =
      rw
        (
          +ℤ-pos i (b.size * p),
          +ℤ-pos (length pre) (i + b.size * p),
          sample_at-flat zero_real b pre post m p i full below.0 h,
          values_lem b pre post m i sel full below.1 h,
        )
        refl

  pub line_rows_lem :
      (b : Block R) (pre post : List R) (m s : ℕ) (sel : List (ℕ × ℕ)) (inc : R) (n i : ℕ) (t : R)
      → IsFull m b
      → AreBelow m sel
      → i + n ≤ b.size
      → line_rows tab
          (pre ++ (flat b.samples ++ post))
          (λ i p. pos (length pre) +ℤ (i +ℤ scale p (pos b.size)))
          sel
          s
          inc
          n
          (pos i)
          t
        ≡ ok (rows b sel s inc n i t)
  unfolding line_rows
  line_rows_lem b pre post m s sel inc zero i t full below h = refl
  line_rows_lem b pre post m s sel inc (suc n) i t full below h =
      rw
        (
          values_lem b pre post m i sel full below (omega arith),
          +ℤ-pos i 1,
          line_rows_lem b pre post m s sel inc n (i + 1) (f.add t inc) full below (omega arith),
        )
        refl
