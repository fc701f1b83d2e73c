-- ===== src/Client/Lines/Laws.antt =====
-- client/line.h: the bit maps as sets of lines.
use native.Mathlib.Nat.{div-div-eq-div-mul}
use pmlib.Prelude.{
  ℕ, zero, suc, ◌+◌, ◌-◌, ◌*◌, ◌/◌, ◌%◌, ◌^◌, ◌<◌, ◌≡◌, refl, ◌∙◌, Bool, true, false, not, ◌&&◌,
  ◌||◌, List, [], ◌∷◌, arith, ltb, ◌==◌, if◌then◌else◌, get_or, set, length, length-set, replicate,
  ==_iff, Bool-cases, inl, inr,
}
use pmlib.Counter.Mask.{bit_set}
use pmlib.Client.Lines.{
  LineT, line_setsize, or_bit, clear_bit, bit, and_bits, line_clr_all, line_set_all, line_set,
  line_clr, line_isset, line_and,
}

bit_set-zero : (x : ℕ) → bit_set x 0 ≡ (x % 2 == 1)
bit_set-zero x = ground arith

power-suc : (b : ℕ) → 2 ^ suc b ≡ 2 * 2 ^ b
power-suc b = omega arith

bit_set-suc : (x b : ℕ) → bit_set x (suc b) ≡ bit_set (x / 2) b
bit_set-suc x b = rw (power-suc b, ← div-div-eq-div-mul x 2 (2 ^ b)) refl

-- A number is its last bit and its half.
bit_set-double : (x y b : ℕ) → bit_set (x % 2 + 2 * y) (suc b) ≡ bit_set y b
bit_set-double x y b =
    let half : (x % 2 + 2 * y) / 2 ≡ y = omega arith in rw (bit_set-suc _ b, half) refl

bit_set-last : (x y : ℕ) → bit_set (x % 2 + 2 * y) 0 ≡ bit_set x 0
bit_set-last x y = ground arith

suc_== : (a b : ℕ) → (suc a == suc b) ≡ (a == b)
suc_== a b = ground arith

pub bit_set-or_bit : (x b c : ℕ) → bit_set (or_bit x b) c ≡ ((b == c) || bit_set x c)
unfolding or_bit
bit_set-or_bit x zero zero = ground arith
bit_set-or_bit x zero (suc c) =
    let half : (x + 1 - x % 2) / 2 ≡ x / 2 = omega arith in
    rw (bit_set-suc _ c, half, bit_set-suc x c) (ground arith)
bit_set-or_bit x (suc b) zero = ground (arith, bit_set-last x (or_bit (x / 2) b))
bit_set-or_bit x (suc b) (suc c) =
    rw (bit_set-double x (or_bit (x / 2) b) c, bit_set-suc x c, suc_== b c)
      (bit_set-or_bit (x / 2) b c)

pub bit_set-clear_bit : (x b c : ℕ) → bit_set (clear_bit x b) c ≡ (not (b == c) && bit_set x c)
unfolding clear_bit
bit_set-clear_bit x zero zero = ground arith
bit_set-clear_bit x zero (suc c) =
    let half : (x - x % 2) / 2 ≡ x / 2 = omega arith in
    rw (bit_set-suc _ c, half, bit_set-suc x c) (ground arith)
bit_set-clear_bit x (suc b) zero = ground (arith, bit_set-last x (clear_bit (x / 2) b))
bit_set-clear_bit x (suc b) (suc c) =
    rw (bit_set-double x (clear_bit (x / 2) b) c, bit_set-suc x c, suc_== b c)
      (bit_set-clear_bit (x / 2) b c)

pub bit_set-and_bits :
    (k x y c : ℕ) → c < k → bit_set (and_bits k x y) c ≡ (bit_set x c && bit_set y c)
unfolding and_bits
bit_set-and_bits zero x y c h = absurd (omega arith)
bit_set-and_bits (suc k) x y zero h = ground arith
bit_set-and_bits (suc k) x y (suc c) h =
    let rest = and_bits k (x / 2) (y / 2) in
    let half : (bit (x % 2 == 1 && y % 2 == 1) + 2 * rest) / 2 ≡ rest = ground arith in
    rw (bit_set-suc _ c, half, bit_set-suc x c, bit_set-suc y c)
      (bit_set-and_bits k (x / 2) (y / 2) c (omega arith))

get_or-set :
    (xs : List ℕ) (i j v : ℕ)
    → i < length xs
    → get_or (set xs i v) j 0 ≡ (if i == j then v else get_or xs j 0)
get_or-set [] i j v h = absurd (omega arith)
get_or-set (x ∷ xs) zero zero v h = refl
get_or-set (x ∷ xs) zero (suc j) v h = ground arith
get_or-set (x ∷ xs) (suc i) zero v h = ground arith
get_or-set (x ∷ xs) (suc i) (suc j) v h = get_or-set xs i j v (omega arith) ∙ rw (suc_== i j) refl

abbrev pub IsLineT : LineT → Type 0
IsLineT s = length s ≡ line_setsize

-- Changing one bit of the byte of line `i`, where `f` says what becomes of each bit of that byte.
isset-set :
    (change : ℕ → ℕ → ℕ) (f : Bool → Bool → Bool)
    → ((x b c : ℕ) → bit_set (change x b) c ≡ f (b == c) (bit_set x c))
    → ((t : Bool) → f false t ≡ t)
    → (i l : ℕ) (s : LineT) → IsLineT s
    → i < 8 * line_setsize
    → l < 8 * line_setsize
    → bit_set (get_or (set s (i / 8) (change (get_or s (i / 8) 0) (i % 8))) (l / 8) 0) (l % 8)
      ≡ f (i == l) (bit_set (get_or s (l / 8) 0) (l % 8))
isset-set change f law same i l s ok ih lh =
    let v = change (get_or s (i / 8) 0) (i % 8) in
    let at : get_or (set s (i / 8) v) (l / 8) 0
        ≡ (if i / 8 == l / 8 then v else get_or s (l / 8) 0) =
      get_or-set s (i / 8) (l / 8) v (omega arith) in
    elim (Bool-cases (i / 8 == l / 8)) [
      | inl e ↦
          let byte : i / 8 ≡ l / 8 = (==_iff (i / 8) (l / 8)).0 e in
          let both : (i % 8 == l % 8) ≡ (i == l) = ground arith in
          rw (at, e, byte, law (get_or s (l / 8) 0) (i % 8) (l % 8), both) refl
      | inr e ↦
          let other : (i == l) ≡ false = ground arith in
          rw (at, e, other, same (bit_set (get_or s (l / 8) 0) (l % 8))) refl
    ]

pub line_isset-line_set :
    (i l : ℕ) (s : LineT)
    → IsLineT s
    → line_isset l (line_set i s) ≡ (ltb i 128 && (i == l) || line_isset l s)
unfolding line_isset line_set
line_isset-line_set i l s ok =
    ground (arith, isset-set or_bit (λ e t. e || t) bit_set-or_bit (λ t. refl) i l s ok)

pub line_isset-line_clr :
    (i l : ℕ) (s : LineT)
    → IsLineT s
    → line_isset l (line_clr i s) ≡ (not (i == l) && line_isset l s)
unfolding line_isset line_clr
line_isset-line_clr i l s ok =
    ground (arith, isset-set clear_bit (λ e t. not e && t) bit_set-clear_bit (λ t. refl) i l s ok)

get_or-line_and :
    (xs ys : LineT) (j : ℕ)
    → length xs ≡ length ys
    → get_or (line_and xs ys) j 0 ≡ and_bits 8 (get_or xs j 0) (get_or ys j 0)
unfolding line_and and_bits
get_or-line_and [] [] j h = refl
get_or-line_and [] (y ∷ ys) j h = absurd (omega arith)
get_or-line_and (x ∷ xs) [] j h = absurd (omega arith)
get_or-line_and (x ∷ xs) (y ∷ ys) zero h = refl
get_or-line_and (x ∷ xs) (y ∷ ys) (suc j) h = get_or-line_and xs ys j (omega arith)

pub line_isset-line_and :
    (l : ℕ) (s t : LineT)
    → IsLineT s
    → IsLineT t
    → line_isset l (line_and s t) ≡ (line_isset l s && line_isset l t)
unfolding line_isset
line_isset-line_and l s t ok ok' =
    let byte = bit_set-and_bits 8 (get_or s (l / 8) 0) (get_or t (l / 8) 0) (l % 8) (omega arith) in
    rw (get_or-line_and s t (l / 8) (omega arith), byte) (ground arith)

get_or-replicate : (n v j : ℕ) → get_or (replicate n v) j 0 ≡ (if ltb j n then v else 0)
get_or-replicate zero v j = ground arith
get_or-replicate (suc n) v zero = ground arith
get_or-replicate (suc n) v (suc j) = ground (arith, get_or-replicate n v j)

pub bit_set-none : (b : ℕ) → bit_set 0 b ≡ false
bit_set-none b = ground arith

power-positive : (k : ℕ) → 0 < 2 ^ k
power-positive zero = omega arith
power-positive (suc k) = omega (arith, power-suc k, power-positive k)

bit_set-ones : (k b : ℕ) → b < k → bit_set (2 ^ k - 1) b ≡ true
bit_set-ones zero b h = absurd (omega arith)
bit_set-ones (suc k) zero h = ground (arith, power-suc k, power-positive k)
bit_set-ones (suc k) (suc b) h =
    let half : (2 ^ suc k - 1) / 2 ≡ 2 ^ k - 1 = omega (arith, power-suc k, power-positive k) in
    rw (bit_set-suc _ b, half) (bit_set-ones k b (omega arith))

bit_set-full : (b : ℕ) → b < 8 → bit_set 255 b ≡ true
bit_set-full b h = bit_set-ones 8 b h

pub line_isset-line_clr_all : (l : ℕ) (s : LineT) → line_isset l (line_clr_all s) ≡ false
unfolding line_isset line_clr_all
line_isset-line_clr_all l s =
    rw (get_or-replicate 16 0 (l / 8)) (ground (arith, bit_set-none (l % 8)))

pub line_isset-line_set_all : (l : ℕ) (s : LineT) → line_isset l (line_set_all s) ≡ ltb l 128
unfolding line_isset line_set_all
line_isset-line_set_all l s = ground (arith, get_or-replicate 16 255 (l / 8), bit_set-full (l % 8))

pub length-line_and : (s t : LineT) → length s ≡ length t → length (line_and s t) ≡ length s
unfolding line_and
length-line_and [] [] h = refl
length-line_and [] (y ∷ ys) h = refl
length-line_and (x ∷ xs) [] h = absurd (omega arith)
length-line_and (x ∷ xs) (y ∷ ys) h = omega (arith, length-line_and xs ys (omega arith))

pub line_set-IsLineT : (i : ℕ) (s : LineT) → IsLineT s → IsLineT (line_set i s)
unfolding line_set
line_set-IsLineT i s ok = ground (arith, length-set s (i / 8) (or_bit (get_or s (i / 8) 0) (i % 8)))
