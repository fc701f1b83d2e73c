-- ===== src/Drivers/Rounds/Frames.antt =====
-- What the drivers' rounds (server/devices/*.hpp) yield.
use pmlib.Prelude.{
  ℕ, zero, suc, ◌+◌, ◌*◌, ◌≡◌, refl, sym, ◌∙◌, ap, List, [], ◌∷◌, ◌++◌, arith, All, length,
  length-append, take, drop, append_assoc, take-length_append, drop-length_append,
}
use pmlib.Wire.{concat_map}
use pmlib.Floating.{Floating}
use pmlib.Drivers.Rounds.{dummy_start, dummy_round, ardu_round, yields, lmg_values, lmg_round}

length-dummy_start : (R : Type 0) ⦃f : Floating R⦄ (s n : ℕ) → length (dummy_start {R = R} s n) ≡ n
unfolding dummy_start
length-dummy_start R s zero = refl
length-dummy_start R s (suc n) = ap suc (length-dummy_start R (s + 1) n)

module _ {R : Type 0} ⦃f : Floating R⦄ where
  length-dummy_round : (sample : List R) → length (dummy_round sample) ≡ length sample
  unfolding dummy_round
  length-dummy_round [] = refl
  length-dummy_round (x ∷ sample) = ap suc (length-dummy_round sample)

  length-ardu_round : (sample : List R) → length (ardu_round sample) ≡ length sample
  unfolding ardu_round
  length-ardu_round [] = refl
  length-ardu_round (x ∷ sample) = refl

  length-yields :
      (round : List R → List R) (n m : ℕ) (sample : List R)
      → ((xs : List R) → length (round xs) ≡ length xs)
      → length sample ≡ m
      → All (λ s. length s ≡ m) (yields round n sample)
  unfolding yields
  length-yields round zero m sample h e = tt
  length-yields round (suc n) m sample h e =
      (h sample ∙ e, length-yields round n m (round sample) h (h sample ∙ e))

  -- A value for each of the lines, in every sample.
  pub length-yields_each :
      (n : ℕ) (k : ℕ)
      → All (λ s. length s ≡ n) (yields {R = R} dummy_round k (dummy_start 0 n))
        × ((sample : List R)
            → length sample ≡ n
            → All (λ s. length s ≡ n) (yields ardu_round k sample))
  length-yields_each n k = (
    length-yields dummy_round k n (dummy_start 0 n) length-dummy_round (length-dummy_start R 0 n),
    λ sample e. length-yields ardu_round k n sample length-ardu_round e,
  )

  -- Values that stand behind `s` others in a frame.
  lmg_values_lem :
      (float_of : List ℕ → R) (s : ℕ) (before after : List ℕ) (values : List R)
      → All (λ x. float_of (f.float_bytes x) ≡ x) values
      → length before ≡ 7 + s * 4
      → lmg_values float_of (before ++ concat_map f.float_bytes values ++ after) s (length values)
        ≡ values
  unfolding lmg_values
  lmg_values_lem float_of s before after [] h e = refl
  lmg_values_lem float_of s before after (x ∷ values) (hx, h) e =
      let bytes = f.float_bytes x in
      let rest = concat_map f.float_bytes values ++ after in
      let later_bytes = concat_map f.float_bytes values in
      let first : before ++ (bytes ++ later_bytes) ++ after ≡ before ++ (bytes ++ rest) =
        append_assoc before (bytes ++ later_bytes) after
        ∙ ap (λ t. before ++ t) (append_assoc bytes later_bytes after) in
      let later : before ++ (bytes ++ rest) ≡ before ++ bytes ++ later_bytes ++ after =
        sym (append_assoc before bytes rest)
        ∙ sym (append_assoc (before ++ bytes) later_bytes after) in
      let value : take 4 (drop (7 + s * 4) (before ++ (bytes ++ rest))) ≡ bytes =
        rw (← e, drop-length_append before (bytes ++ rest))
          (ap (λ n. take n (bytes ++ rest)) (sym (f.length-float_bytes x))
            ∙ take-length_append bytes rest) in
      let there : length (before ++ bytes) ≡ 7 + (s + 1) * 4 =
        omega (arith, length-append before bytes, f.length-float_bytes x, e) in
      ap
        (λ t.
          float_of (take 4 (drop (7 + s * 4) t)) ∷ lmg_values float_of t (s + 1) (length values))
        first
      ∙ ap
          (λ t.
            float_of t ∷ lmg_values float_of (before ++ (bytes ++ rest)) (s + 1) (length values))
          value
      ∙ ap (λ t. t ∷ lmg_values float_of (before ++ (bytes ++ rest)) (s + 1) (length values)) hx
      ∙ ap (λ t. x ∷ lmg_values float_of t (s + 1) (length values)) later
      ∙ ap (λ t. x ∷ t) (lmg_values_lem float_of (s + 1) (before ++ bytes) after values h there)

  -- From a frame of seven bytes of header, the bytes of some values and any trailer, the LMG driver
  -- reads just these values, where the conversion of bytes to a float undoes that of each value to
  -- bytes.
  pub lmg_round-frame :
      (float_of : List ℕ → R) (header trailer : List ℕ) (values : List R)
      → All (λ x. float_of (f.float_bytes x) ≡ x) values
      → length header ≡ 7
      → lmg_round float_of (length values) (header ++ concat_map f.float_bytes values ++ trailer)
        ≡ values
  unfolding lmg_round
  lmg_round-frame float_of header trailer values h e =
      lmg_values_lem float_of 0 header trailer values h (omega arith)
