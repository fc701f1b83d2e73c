-- ===== src/Device/Lines.antt =====
-- The loops of server/device.cpp over a counter's lines. On lines that the device has, `on_lines` is
-- the total function `adjust_all`, of which everything else is proved.
use pmlib.Prelude.{
  ℕ, suc, ◌<◌, ◌≤◌, ◌≡◌, refl, ◌∙◌, ap, ◌≢◌, Bool, false, ◌||◌, some, List, [], ◌∷◌, arith, All,
  ◌==◌, if◌then◌else◌, Bool-cases, inl, inr,
}
use pmlib.Map.{Map, nat_key, find, adjust, find-adjust}
use pmlib.Outcome.{ok}
use pmlib.Device.{Line, on_lines}

abbrev pub contains : List ℕ → ℕ → Bool
contains [] a = false
contains (x ∷ xs) a = x == a || contains xs a

-- Rising from a bound on, as `Counter::set_lines` makes the lines of a counter.
abbrev pub IsRising : ℕ → List ℕ → Type 0
IsRising n [] = Unit {0}
IsRising n (l ∷ ls) = (n ≤ l) × IsRising (suc l) ls

pub contains-IsRising : (n a : ℕ) (ls : List ℕ) → IsRising n ls → a < n → contains ls a ≡ false
contains-IsRising n a [] r h = refl
contains-IsRising n a (l ∷ ls) r h = ground (arith, contains-IsRising (suc l) a ls r.1)

module _ {R : Type 0} where
  abbrev pub IsLine : Map ℕ (Line R) → ℕ → Type 0
  IsLine m l = (x : Line R) × (find l m ≡ some x)

  abbrev pub adjust_all : List ℕ → (Line R → Line R) → Map ℕ (Line R) → Map ℕ (Line R)
  adjust_all [] f m = m
  adjust_all (l ∷ ls) f m = adjust_all ls f (adjust l f m)

  pub IsLine-adjust :
      (k l : ℕ) (f : Line R → Line R) (m : Map ℕ (Line R)) → IsLine m l → IsLine (adjust k f m) l
  IsLine-adjust k l f m (x, e) = elim (Bool-cases (k == l)) [
    | inl h ↦ (f x, find-adjust l k f m ∙ rw (h, e))
    | inr h ↦ (x, find-adjust l k f m ∙ rw (h, e))
  ]

  All-IsLine-adjust :
      (k : ℕ) (f : Line R → Line R) (m : Map ℕ (Line R)) (ls : List ℕ)
      → All (IsLine m) ls
      → All (IsLine (adjust k f m)) ls
  All-IsLine-adjust k f m [] h = tt
  All-IsLine-adjust k f m (l ∷ ls) h = (IsLine-adjust k l f m h.0, All-IsLine-adjust k f m ls h.1)

  pub IsLine-adjust_all :
      (ls : List ℕ) (l : ℕ) (f : Line R → Line R) (m : Map ℕ (Line R))
      → IsLine m l
      → IsLine (adjust_all ls f m) l
  IsLine-adjust_all [] l f m h = h
  IsLine-adjust_all (k ∷ ls) l f m h =
      IsLine-adjust_all ls l f (adjust k f m) (IsLine-adjust k l f m h)

  pub on_lines-adjust_all :
      (f : Line R → Line R) (ls : List ℕ) (m : Map ℕ (Line R))
      → All (IsLine m) ls
      → on_lines f ls m ≡ ok (adjust_all ls f m)
  unfolding on_lines
  on_lines-adjust_all f [] m h = refl
  on_lines-adjust_all f (l ∷ ls) m ((x, e), h) =
      rw e (on_lines-adjust_all f ls (adjust l f m) (All-IsLine-adjust l f m ls h))

  pub find-adjust_all :
      (n : ℕ) (ls : List ℕ) (j : ℕ) (f : Line R → Line R) (m : Map ℕ (Line R)) (x : Line R)
      → IsRising n ls
      → find j m ≡ some x
      → find j (adjust_all ls f m) ≡ some (if contains ls j then f x else x)
  find-adjust_all n [] j f m x r e = e
  find-adjust_all n (l ∷ ls) j f m x r e = elim (Bool-cases (l == j)) [
    | inl h ↦
        find-adjust_all (suc l) ls j f (adjust l f m) (f x) r.1 (find-adjust j l f m ∙ rw (h, e))
        ∙ ground (arith, contains-IsRising (suc l) j ls r.1)
    | inr h ↦
        find-adjust_all (suc l) ls j f (adjust l f m) x r.1 (find-adjust j l f m ∙ rw (h, e))
        ∙ ground arith
  ]

  adjust_comm :
      (j k : ℕ) (f g : Line R → Line R) (m : Map ℕ (Line R))
      → j ≢ k
      → adjust j f (adjust k g m) ≡ adjust k g (adjust j f m)
  adjust_comm j k f g [] h = refl
  adjust_comm j k f g ((i, x) ∷ m) h = ground (arith, adjust_comm j k f g m h)

  adjust-adjust :
      (k : ℕ) (f g : Line R → Line R) (m : Map ℕ (Line R))
      → ((x : Line R) → f (g x) ≡ x)
      → adjust k f (adjust k g m) ≡ m
  adjust-adjust k f g [] h = refl
  adjust-adjust k f g ((i, x) ∷ m) h = ground (arith, h x, adjust-adjust k f g m h)

  adjust-adjust_all :
      (n : ℕ) (ls : List ℕ) (k : ℕ) (f g : Line R → Line R) (m : Map ℕ (Line R))
      → IsRising n ls
      → k < n
      → adjust k f (adjust_all ls g m) ≡ adjust_all ls g (adjust k f m)
  adjust-adjust_all n [] k f g m r h = refl
  adjust-adjust_all n (l ∷ ls) k f g m r h =
      adjust-adjust_all (suc l) ls k f g (adjust l g m) r.1 (omega arith)
      ∙ ap (adjust_all ls g) (adjust_comm k l f g m (λ e. omega arith))

  -- Undoing line by line undoes the whole loop.
  pub adjust_all-adjust_all :
      (n : ℕ) (ls : List ℕ) (f g : Line R → Line R) (m : Map ℕ (Line R))
      → IsRising n ls
      → ((x : Line R) → f (g x) ≡ x)
      → adjust_all ls f (adjust_all ls g m) ≡ m
  adjust_all-adjust_all n [] f g m r h = refl
  adjust_all-adjust_all n (l ∷ ls) f g m r h =
      ap (adjust_all ls f) (adjust-adjust_all (suc l) ls l f g (adjust l g m) r.1 (omega arith))
      ∙ ap (λ t. adjust_all ls f (adjust_all ls g t)) (adjust-adjust l f g m h)
      ∙ adjust_all-adjust_all (suc l) ls f g m r.1 h
