-- ===== src/Floating.antt =====
-- Floating-point numbers. Samples are `double`s and calibration data are `float`s; a `float` is here the
-- `double` of the same value. The server adds samples up, scales raw readings and sends the IEEE
-- bytes; it relies on nothing but their number.
use pmlib.Prelude.{ℕ, ◌≡◌, List, length}

pub record Floating (R : Type 0) : Type 0 where
  pub of_ℕ : ℕ → R
  pub add : R → R → R
  pub multiply : R → R → R
  pub divide : R → R → R
  -- the constant nearest to a quotient of integers, such as `0.001`
  pub ratio : ℕ → ℕ → R
  -- the 4 bytes of a `float` and the 8 bytes of a `double`
  pub float_bytes : R → List ℕ
  pub double_bytes : R → List ℕ
  pub length-float_bytes : (r : R) → length (float_bytes r) ≡ 4
  pub length-double_bytes : (r : R) → length (double_bytes r) ≡ 8
