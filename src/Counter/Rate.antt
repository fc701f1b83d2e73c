-- ===== src/Counter/Rate.antt =====
-- `Counter::set_frequency` of server/counter.cpp: the interval between the samples of a reply.
use pmlib.Prelude.{ℕ, zero, suc, ◌+◌, ◌*◌, ◌/◌, ◌<◌, ◌≤◌, ◌≡◌, ap, ◌∙◌, ◌-◌, ◌⊎◌, inl, inr, arith}
use pmlib.Prelude.Int.{ℤ, ◌≤ℤ◌, pos, negsuc, sub_ℕ}
use pmlib.Outcome.{ok, throw, frequency_too_high}
use pmlib.Counter.{set_frequency, round_ratio}

-- Whole and positive, and as near to `m / f` as a whole number is.
abbrev pub IsNearest : ℕ → ℕ → ℕ → Type 0
IsNearest m f k = (1 ≤ k) × (2 * m ≤ 2 * k * f + f) × (2 * k * f ≤ 2 * m + f)

nearest : (m f : ℕ) → 0 < f → f ≤ m → IsNearest m f ((2 * m + f) / (2 * f))
nearest m f h l = grind arith

whole : (m : ℕ) → (2 * suc m + suc m) / (2 * suc m) ≡ 1
whole m = grind arith

lt_cases : (a b : ℕ) → (a < b) ⊎ (b ≤ a)
lt_cases a b = ground arith

accepted :
    (m f : ℕ)
    → 0 < f
    → f ≤ suc m
    → (k : ℕ) × (set_frequency (pos f) (suc m) ≡ ok (pos k)) × IsNearest (suc m) f k
unfolding set_frequency round_ratio
accepted m zero h le = absurd (omega arith)
accepted m (suc f) h le = (_, ground arith, nearest (suc m) (suc f) h le)

refused : (m f : ℕ) → suc m < f → set_frequency (pos f) (suc m) ≡ throw frequency_too_high
unfolding set_frequency
refused m zero h = absurd (omega arith)
refused m (suc f) h = ground arith

-- For a positive maximum, the frequency 0 stands for the maximum; up to the maximum the interval is
-- positive and nearest to the ratio; a higher frequency is refused; a negative frequency is
-- accepted and gives an interval that is not positive.
pub set_frequency_lem :
    (m : ℕ)
    → 0 < m
    → (set_frequency (pos 0) m ≡ ok (pos 1))
      × ((f : ℕ)
          → 0 < f
          → f ≤ m
          → (k : ℕ) × (set_frequency (pos f) m ≡ ok (pos k)) × IsNearest m f k)
      × ((f : ℕ) → m < f → set_frequency (pos f) m ≡ throw frequency_too_high)
      × ((f : ℕ) → (k : ℕ) × (set_frequency (negsuc f) m ≡ ok (sub_ℕ 0 k)))
unfolding set_frequency round_ratio
set_frequency_lem zero h = elim h [ ]
set_frequency_lem (suc m) h = (
  ap (λ k. ok (pos k)) (whole m),
  accepted m,
  refused m,
  λ f. ((2 * suc m + suc f) / (2 * suc f), ground arith),
)

-- A frequency that is not negative is refused or gives a positive interval.
pub set_frequency-cases :
    (z : ℤ) (m : ℕ)
    → 0 < m
    → pos 0 ≤ℤ z
    → (set_frequency z m ≡ throw frequency_too_high)
      ⊎ ((k : ℕ) × (set_frequency z m ≡ ok (pos (suc k))))
set_frequency-cases (negsuc f) m h n = absurd (omega arith)
set_frequency-cases (pos zero) m h n = inr (0, (set_frequency_lem m h).0)
set_frequency-cases (pos (suc f)) m h n = elim (lt_cases m (suc f)) [
  | inl l ↦ inl ((set_frequency_lem m h).2 (suc f) l)
  | inr l ↦
      let (k, p, q) = (set_frequency_lem m h).1 (suc f) (omega arith) l in
      inr (k - 1, p ∙ ap (λ t. ok (pos t)) (omega arith))
]
