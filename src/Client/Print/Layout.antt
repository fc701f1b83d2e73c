-- ===== src/Client/Print/Layout.antt =====
-- The samples of a reply as client/pm_print_data_text.c takes them: set after set, and in each set line
-- after line, every line with as many samples as the set is long.
use pmlib.Prelude.{
  ℕ, zero, suc, ◌+◌, ◌*◌, ◌<◌, ◌≡◌, refl, ap, ◌∙◌, some, List, [], ◌∷◌, ◌++◌, arith, length,
  get_elem?, get_or, All, length-append, get_elem?-append_left, get_elem?-get_or, append_assoc,
}
use pmlib.Prelude.Int.{ℤ, pos}
use pmlib.Outcome.{ok}
use pmlib.Counter.Reply.{sample_at}

-- A set: its length, and the samples of each line.
pub record Block (R : Type 0) : Type 0 where
  pub size : ℕ
  pub samples : List (List R)

-- The beginnings of the sets from `a` on, and the end of the last one.
abbrev pub boundaries : {R : Type 0} → ℕ → List (Block R) → List ℤ
boundaries a [] = pos a ∷ []
boundaries a (b ∷ bs) = pos a ∷ boundaries (a + b.size) bs

module _ {R : Type 0} where
  abbrev pub flat : List (List R) → List R
  flat [] = []
  flat (xs ∷ xss) = xs ++ flat xss

  abbrev pub watts_of : List (Block R) → List R
  watts_of [] = []
  watts_of (b ∷ bs) = flat b.samples ++ watts_of bs

  -- A set of `m` lines.
  abbrev pub IsFull : ℕ → Block R → Type 0
  IsFull m b = (length b.samples ≡ m) × All (λ xs. length xs ≡ b.size) b.samples

  -- Sample `i` of the line in place `p`.
  abbrev pub sample : R → Block R → ℕ → ℕ → R
  sample z b p i = get_or (get_or b.samples p []) i z

  pub length-flat :
      (n : ℕ) (xss : List (List R))
      → All (λ xs. length xs ≡ n) xss
      → length (flat xss) ≡ length xss * n
  length-flat n [] h = omega arith
  length-flat n (xs ∷ xss) h = grind (arith, length-append xs (flat xss), length-flat n xss h.1)

  pub get_elem?-append_right :
      (xs ys : List R) (i : ℕ) → get_elem? (xs ++ ys) (length xs + i) ≡ get_elem? ys i
  get_elem?-append_right [] ys i = ap (get_elem? ys) (omega arith)
  get_elem?-append_right (x ∷ xs) ys i =
      let next : suc (length xs) + i ≡ suc (length xs + i) = omega arith in
      rw next (get_elem?-append_right xs ys i)

  get_elem?-flat :
      (z : R) (n : ℕ) (xss : List (List R)) (post : List R) (p i : ℕ)
      → All (λ xs. length xs ≡ n) xss
      → p < length xss
      → i < n
      → get_elem? (flat xss ++ post) (i + n * p) ≡ some (get_or (get_or xss p []) i z)
  get_elem?-flat z n [] post p i h hp hi = absurd (omega arith)
  get_elem?-flat z n (xs ∷ xss) post zero i h hp hi =
      let here : i + n * 0 ≡ i = omega arith in
      rw (here, append_assoc xs (flat xss) post)
        (get_elem?-append_left xs (flat xss ++ post) i (omega arith)
          ∙ get_elem?-get_or xs i z (omega arith))
  get_elem?-flat z n (xs ∷ xss) post (suc p) i h hp hi =
      let later : i + n * suc p ≡ length xs + (i + n * p) = grind (arith, h.0) in
      rw (later, append_assoc xs (flat xss) post)
        (get_elem?-append_right xs (flat xss ++ post) (i + n * p)
          ∙ get_elem?-flat z n xss post p i h.1 (omega arith) hi)

  -- A sample of a set that begins behind `pre`.
  pub sample_at-flat :
      (z : R) (b : Block R) (pre post : List R) (m p i : ℕ)
      → IsFull m b
      → p < m
      → i < b.size
      → sample_at (pre ++ (flat b.samples ++ post)) (pos (length pre + (i + b.size * p)))
        ≡ ok (sample z b p i)
  sample_at-flat z b pre post m p i (h, full) hp hi =
      let at =
        get_elem?-append_right pre (flat b.samples ++ post) (i + b.size * p)
        ∙ get_elem?-flat z b.size b.samples post p i full (omega arith) hi in
      rw at refl
