-- ===== src/Config/Numbers.antt =====
-- The line numbers of a device and `check_lines` in `Server::parse_configfile` of
-- server/server.cpp.
use pmlib.Prelude.{
  ℕ, zero, suc, ◌<◌, ◌≤◌, ◌≡◌, refl, ap, subst, Bool, true, false, some, List, [], ◌∷◌, length,
  get_or, set, replicate, ltb, if◌then◌else◌, arith, All, Bool-cases, ◌⊎◌, inl, inr,
}
use pmlib.Prelude.Int.{ℤ, pos, negsuc}
use pmlib.Map.{Map, Name, name_key, nat_key, name_eqb, find}
use pmlib.Outcome.{ok, throw, Error, duplicate_line, line_out_of_range}
use pmlib.Drivers.{drivers}
use pmlib.Config.{check_number}

-- How many numbers have been seen.
abbrev pub seen : List Bool → ℕ
seen [] = 0
seen (b ∷ bs) = if b then suc (seen bs) else seen bs

seen_le : (bs : List Bool) → seen bs ≤ length bs
seen_le [] = omega arith
seen_le (true ∷ bs) = omega (arith, seen_le bs)
seen_le (false ∷ bs) = omega (arith, seen_le bs)

-- All numbers have been seen once there are as many as there can be.
pub all_seen :
    (bs : List Bool) (i : ℕ) → seen bs ≡ length bs → i < length bs → get_or bs i false ≡ true
all_seen [] i e h = absurd (omega arith)
all_seen (true ∷ bs) zero e h = refl
all_seen (true ∷ bs) (suc i) e h = all_seen bs i (omega arith) (omega arith)
all_seen (false ∷ bs) i e h = absurd (omega (arith, seen_le bs))

pub seen-set :
    (bs : List Bool) (i : ℕ)
    → i < length bs
    → get_or bs i false ≡ false
    → seen (set bs i true) ≡ suc (seen bs)
seen-set [] i h e = absurd (omega arith)
seen-set (false ∷ bs) zero h e = refl
seen-set (true ∷ bs) zero h e = absurd (ground arith)
seen-set (false ∷ bs) (suc i) h e = seen-set bs i (omega arith) e
seen-set (true ∷ bs) (suc i) h e = ap suc (seen-set bs i (omega arith) e)

pub get_or-set :
    (bs : List Bool) (i j : ℕ)
    → get_or (set bs i true) j false ≡ true
    → (i ≡ j) ⊎ (get_or bs j false ≡ true)
get_or-set [] i j h = inr h
get_or-set (b ∷ bs) zero zero h = inl refl
get_or-set (b ∷ bs) zero (suc j) h = inr h
get_or-set (b ∷ bs) (suc i) zero h = inr h
get_or-set (b ∷ bs) (suc i) (suc j) h = elim (get_or-set bs i j h) [
  | inl e ↦ inl (ap suc e)
  | inr e ↦ inr e
]

pub seen-replicate : (n : ℕ) → seen (replicate n false) ≡ 0
seen-replicate zero = refl
seen-replicate (suc n) = seen-replicate n

pub unseen : (n i : ℕ) → get_or (replicate n false) i false ≡ false
unseen zero i = refl
unseen (suc n) zero = refl
unseen (suc n) (suc i) = unseen n i

pub check_number-cases :
    (z : ℤ) (check : List Bool)
    → ((e : Error) × (check_number z check ≡ throw e))
      ⊎ ((n : ℕ) × (check_number z check ≡ ok (n, set check n true))
          × (n < length check)
          × (get_or check n false ≡ false))
unfolding check_number
check_number-cases (negsuc n) check = inl (line_out_of_range, refl)
check_number-cases (pos n) check = elim (Bool-cases (ltb n (length check))) [
  | inl h ↦ elim (Bool-cases (get_or check n false)) [
    | inl e ↦ inl (duplicate_line, rw h (rw e refl))
    | inr e ↦ inr (n, rw h (rw e refl), ground arith, e)
  ]
  | inr h ↦ inl (line_out_of_range, rw h refl)
]

pub find-All {ℓ} :
    {V : Type ℓ} (P : V → Type 0) (k : Name) (m : Map Name V) (v : V)
    → All (λ e. P e.1) m
    → find k m ≡ some v
    → P v
find-All P k [] v h e = absurd (ground arith)
find-All P k ((j, w) ∷ m) v h e = elim (Bool-cases (name_eqb j k)) [
  | inl t ↦ subst P (ground arith) h.0
  | inr t ↦ find-All P k m v h.1 (ground arith)
]

pub drivers_fast : (apcape : Bool) → All (λ e. 0 < e.1.max_frequency) (drivers apcape)
unfolding drivers
drivers_fast true = omega arith
drivers_fast false = omega arith
