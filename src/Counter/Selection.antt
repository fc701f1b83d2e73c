-- ===== src/Counter/Selection.antt =====
-- `Counter::set_lines` of server/counter.cpp against the meaning of a mask: bit `l % 8` of byte `l / 8`
-- stands for line `l`.
use pmlib.Prelude.{
  ℕ, zero, suc, ◌+◌, ◌*◌, ◌/◌, ◌%◌, ◌<◌, ◌≤◌, ◌≡◌, refl, ◌∙◌, Bool, true, false, ◌&&◌, ◌||◌, List,
  [], ◌∷◌, ◌++◌, arith, ltb, ◌-◌, ◌==◌, ==_iff, if◌then◌else◌, get_or, All, ◌⊎◌, inl, inr,
}
use pmlib.Device.Lines.{contains, IsRising}
use pmlib.Device.Invariant.{IsSelection}
use pmlib.Counter.Mask.{bit_set, lines_of_byte, lines_from, lines_of_mask}

-- Whether a mask names a line of a device with `n` lines.
abbrev pub names : ℕ → List ℕ → ℕ → Bool
names n mask l = bit_set (get_or mask (l / 8) 0) (l % 8) && ltb l n

-- Rising numbers from `a` on, all of them below `z` and below `n`.
abbrev IsBetween : ℕ → ℕ → ℕ → List ℕ → Type 0
IsBetween n a z [] = a ≤ z
IsBetween n a z (l ∷ ls) = (a ≤ l) × (l < n) × (l < z) × IsBetween n (suc l) z ls

le_cases : (a b : ℕ) → a ≤ b → (a ≡ b) ⊎ (suc a ≤ b)
le_cases a b h = ground arith

IsBetween-weaken : (n a b z : ℕ) (ls : List ℕ) → b ≤ a → IsBetween n a z ls → IsBetween n b z ls
IsBetween-weaken n a b z [] h r = omega arith
IsBetween-weaken n a b z (l ∷ ls) h (r, ln, lz, rs) = (omega arith, ln, lz, rs)

IsBetween-append :
    (n a b z : ℕ) (xs ys : List ℕ)
    → IsBetween n a b xs
    → IsBetween n b z ys
    → b ≤ z
    → IsBetween n a z (xs ++ ys)
IsBetween-append n a b z [] ys r q h = IsBetween-weaken n b a z ys r q
IsBetween-append n a b z (l ∷ xs) ys (r, ln, lb, rs) q h =
    (r, ln, omega arith, IsBetween-append n (suc l) b z xs ys rs q h)

IsBetween-if :
    (n a z : ℕ) (t : Bool) (rest : List ℕ)
    → (t ≡ true → a < n)
    → a < z
    → IsBetween n (a + 1) z rest
    → IsBetween n a z (if t then a ∷ rest else rest)
IsBetween-if n a z true rest h lt r =
    (omega arith, h refl, lt, IsBetween-weaken n (a + 1) (suc a) z rest (omega arith) r)
IsBetween-if n a z false rest h lt r = IsBetween-weaken n (a + 1) a z rest (omega arith) r

contains-if :
    (a l : ℕ) (t : Bool) (rest : List ℕ)
    → contains (if t then a ∷ rest else rest) l ≡ (t && (a == l) || contains rest l)
contains-if a l true rest = refl
contains-if a l false rest = refl

-- The bits of one byte, from bit `b` on; `a` is the line of that bit.
lines_of_byte-IsBetween :
    (n byte base b k a z : ℕ)
    → base + b ≡ a
    → a + k ≡ z
    → IsBetween n a z (lines_of_byte n byte base b k)
unfolding lines_of_byte
lines_of_byte-IsBetween n byte base b zero a z p q = omega arith
lines_of_byte-IsBetween n byte base b (suc k) a z p q = rw p (
    IsBetween-if n a z (bit_set byte b && ltb a n) _ (λ e. ground arith) (omega arith)
      (lines_of_byte-IsBetween n byte base (b + 1) k (a + 1) z (omega arith) (omega arith)))

lines_from-IsBetween :
    (n i : ℕ) (mask : List ℕ) → (z : ℕ) × IsBetween n (i * 8) z (lines_from n i mask) × (i * 8 ≤ z)
unfolding lines_from
lines_from-IsBetween n i [] = (i * 8, omega arith, omega arith)
lines_from-IsBetween n i (byte ∷ mask) =
    let (z, h, le) = lines_from-IsBetween n (i + 1) mask in
    (
      z,
      IsBetween-append n (i * 8) (i * 8 + 8) z (lines_of_byte n byte (i * 8) 0 8)
          (lines_from n (i + 1) mask)
          (lines_of_byte-IsBetween n byte (i * 8) 0 8 (i * 8) (i * 8 + 8) (omega arith) refl)
          (IsBetween-weaken n ((i + 1) * 8) (i * 8 + 8) z _ (omega arith) h) (omega arith),
      omega arith,
    )

IsBetween-IsSelection :
    (n a z : ℕ) (ls : List ℕ) → IsBetween n a z ls → IsRising a ls × All (λ l. l < n) ls
IsBetween-IsSelection n a z [] h = (tt, tt)
IsBetween-IsSelection n a z (l ∷ ls) (al, ln, lz, h) =
    let (r, b) = IsBetween-IsSelection n (suc l) z ls h in ((al, r), (ln, b))

contains-append :
    (xs ys : List ℕ) (l : ℕ) → contains (xs ++ ys) l ≡ (contains xs l || contains ys l)
contains-append [] ys l = refl
contains-append (x ∷ xs) ys l = ground (arith, contains-append xs ys l)

contains-outside :
    (n a z l : ℕ) (ls : List ℕ) → IsBetween n a z ls → (l < a) ⊎ (z ≤ l) → contains ls l ≡ false
contains-outside n a z l [] r h = refl
contains-outside n a z l (k ∷ ls) (ak, kn, kz, r) (inl h) =
    ground (arith, contains-outside n (suc k) z l ls r (inl (omega arith)))
contains-outside n a z l (k ∷ ls) (ak, kn, kz, r) (inr h) =
    ground (arith, contains-outside n (suc k) z l ls r (inr h))

contains-lines_of_byte :
    (n byte base b k l : ℕ)
    → base + b ≤ l
    → l < base + b + k
    → contains (lines_of_byte n byte base b k) l ≡ (bit_set byte (l - base) && ltb l n)
unfolding lines_of_byte
contains-lines_of_byte n byte base b zero l h lt = absurd (omega arith)
contains-lines_of_byte n byte base b (suc k) l h lt =
    let rest = lines_of_byte n byte base (b + 1) k in
    contains-if (base + b) l (bit_set byte b && ltb (base + b) n) rest
    ∙ elim (le_cases (base + b) l h) [
      | inl e ↦
          let here : l - base ≡ b = omega arith in
          let out : contains rest l ≡ false =
            contains-outside n (base + b + 1) (base + b + 1 + k) l rest
              (lines_of_byte-IsBetween n byte base (b + 1) k _ _ (omega arith) refl)
              (inl (omega arith)) in
          rw (here, out, ← e) (ground (arith, ==_iff (base + b) (base + b)))
      | inr e ↦
          rw (contains-lines_of_byte n byte base (b + 1) k l (omega arith) (omega arith))
            (ground (arith, ==_iff (base + b) l))
    ]

empty_byte : (b : ℕ) → bit_set 0 b ≡ false
empty_byte b = ground arith

-- The lines from byte `i` on.
contains-lines_from :
    (n i : ℕ) (mask : List ℕ) (l : ℕ)
    → i * 8 ≤ l
    → contains (lines_from n i mask) l ≡ (bit_set (get_or mask (l / 8 - i) 0) (l % 8) && ltb l n)
unfolding lines_from
contains-lines_from n i [] l h = rw (empty_byte (l % 8)) refl
contains-lines_from n i (byte ∷ mask) l h =
    let here = lines_of_byte n byte (i * 8) 0 8 in
    let rest = lines_from n (i + 1) mask in
    let (z, later, _) = lines_from-IsBetween n (i + 1) mask in
    contains-append here rest l ∙ elim (le_cases i (l / 8) (omega arith)) [
      | inl e ↦
          let at : l / 8 - i ≡ 0 = omega arith in
          let bit : l - i * 8 ≡ l % 8 = omega arith in
          rw
            (
              at,
              contains-lines_of_byte n byte (i * 8) 0 8 l (omega arith) (omega arith),
              contains-outside n ((i + 1) * 8) z l rest later (inl (omega arith)),
              bit,
            )
            (ground arith)
      | inr e ↦
          let at : l / 8 - i ≡ suc (l / 8 - (i + 1)) = omega arith in
          rw
            (
              at,
              contains-outside n (i * 8) (i * 8 + 8) l here
                  (lines_of_byte-IsBetween n byte (i * 8) 0 8 _ _ (omega arith) refl)
                  (inr (omega arith)),
            )
            (contains-lines_from n (i + 1) mask l (omega arith))
    ]

-- The lines that a mask selects are those of the device whose bit is set, each once and in rising
-- order.
pub lines_of_mask_lem :
    (n : ℕ) (mask : List ℕ)
    → IsSelection n (lines_of_mask n mask)
      × ((l : ℕ) → contains (lines_of_mask n mask) l ≡ names n mask l)
unfolding lines_of_mask
lines_of_mask_lem n mask =
    let (z, h, _) = lines_from-IsBetween n 0 mask in
    (
      IsBetween-IsSelection n 0 z (lines_from n 0 mask) h,
      λ l.
          let first : l / 8 - 0 ≡ l / 8 = omega arith in
          rw (contains-lines_from n 0 mask l (omega arith), first) refl,
    )
