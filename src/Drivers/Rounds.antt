-- ===== src/Drivers/Rounds.antt =====
-- One round of the sampling loops of server/devices/Dummy.hpp, ArduPower.hpp and LMG.hpp: the next sample
-- from the one before it, or from the bytes that the meter has sent.
pub mod Frames
use pmlib.Prelude.{ℕ, zero, suc, ◌+◌, ◌*◌, ◌≡◌, Bool, true, false, List, [], ◌∷◌, map, take, drop}
use pmlib.Floating.{Floating}

module _ {R : Type 0} ⦃f : Floating R⦄ where
  -- `sample[s] = (s + 1) / 100.0`, from line `s` on.
  unfoldable pub dummy_start : ℕ → ℕ → List R
  dummy_start s zero = []
  dummy_start s (suc n) = f.ratio (s + 1) 100 ∷ dummy_start (s + 1) n

  -- `sample[s] += 1` for each line.
  unfoldable pub dummy_round : List R → List R
  dummy_round sample = map (λ x. f.add x (f.of_ℕ 1)) sample

  -- `sample[0]++`.
  unfoldable pub ardu_round : List R → List R
  ardu_round [] = []
  ardu_round (x ∷ sample) = f.add x (f.of_ℕ 1) ∷ sample

  -- The samples that a driver yields: one after each round.
  unfoldable pub yields : (List R → List R) → ℕ → List R → List (List R)
  yields round zero sample = []
  yields round (suc n) sample = round sample ∷ yields round n (round sample)

-- `memcpy` of four bytes into a `float`, which `float_of` reads, for each line from `s` on; seven
-- bytes of header come first.
unfoldable pub lmg_values : {R : Type 0} → (List ℕ → R) → List ℕ → ℕ → ℕ → List R
lmg_values float_of frame s zero = []
lmg_values float_of frame s (suc n) =
    float_of (take 4 (drop (7 + s * 4) frame)) ∷ lmg_values float_of frame (s + 1) n

unfoldable pub lmg_round : {R : Type 0} → (List ℕ → R) → ℕ → List ℕ → List R
unfolding lmg_values
lmg_round float_of n frame = lmg_values float_of frame 0 n
