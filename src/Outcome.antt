-- ===== src/Outcome.antt =====
-- Running C++: a call returns, throws an exception that a handler above may catch, or runs into
-- undefined behaviour, after which nothing is promised and no handler runs. The state is kept by a
-- throw: what was written stays written.
use pmlib.Prelude.{◌≡◌, refl, Option, none, some}

pub data Error : Type 0 where
  -- asio: the peer closed the stream before the bytes that were asked for, or stopped reading
  end_of_file broken_pipe : Error
  device_not_found frequency_too_high length_error : Error
  -- the exceptions of `parse_configfile`
  json_error unsupported_type no_lines wrong_line_count duplicate_line line_out_of_range : Error
  no_devices : Error
  -- the client library: `exit(1)`, and the -1 that a call returns
  exited invalid_argument : Error

-- The kinds of undefined behaviour that the modelled code could reach, and the fuel of a modelled loop
-- running out.
pub data Fault : Type 0 where
  null_pointer unset_optional division_by_zero out_of_range uninitialised out_of_fuel : Fault
  -- `front()` of an empty vector
  empty_front : Fault

pub data Outcome {ℓ} (A : Type ℓ) : Type ℓ where
  ok : A → Outcome A
  throw : Error → Outcome A
  crash : Fault → Outcome A

-- A call over a state `S`.
abbrev pub M {ℓ κ} : Type κ → Type ℓ → Type (ℓ ⊔ κ)
M S A = S → Outcome A × S

abbrev pub after {ℓ κ λ'} :
    {S : Type κ} {A : Type ℓ} {B : Type λ'} → Outcome A × S → (A → M S B) → Outcome B × S
after (ok a, s) f = f a s
after (throw e, s) f = (throw e, s)
after (crash e, s) f = (crash e, s)

infixl 5 ◌>>=◌ ◌>>◌
abbrev pub ◌>>=◌ {ℓ κ λ'} : {S : Type κ} {A : Type ℓ} {B : Type λ'} → M S A → (A → M S B) → M S B
◌>>=◌ m f s = after (m s) f

abbrev pub ◌>>◌ {ℓ κ λ'} : {S : Type κ} {A : Type ℓ} {B : Type λ'} → M S A → M S B → M S B
◌>>◌ m k s = after (m s) (λ _. k)

module _ {ℓ κ} {S : Type κ} {A : Type ℓ} where
  abbrev pub pure : A → M S A
  pure a s = (ok a, s)

  abbrev pub fail : Error → M S A
  fail e s = (throw e, s)

  abbrev pub undefined : Fault → M S A
  undefined f s = (crash f, s)

  abbrev pub lift : Outcome A → M S A
  lift r s = (r, s)

-- `try { m } catch (exception& e) { h }`.
abbrev pub handled {ℓ κ} :
    {S : Type κ} {A : Type ℓ} → (Error → M S A) → Outcome A × S → Outcome A × S
handled h (ok a, s) = (ok a, s)
handled h (throw e, s) = h e s
handled h (crash f, s) = (crash f, s)

abbrev pub catch_with {ℓ κ} : {S : Type κ} {A : Type ℓ} → M S A → (Error → M S A) → M S A
catch_with m h s = handled h (m s)

abbrev pub or_throw {ℓ} : {A : Type ℓ} → Option A → Error → Outcome A
or_throw none e = throw e
or_throw (some a) e = ok a

abbrev pub or_crash {ℓ} : {A : Type ℓ} → Option A → Fault → Outcome A
or_crash none f = crash f
or_crash (some a) f = ok a

module _ {κ} {S : Type κ} where
  abbrev pub modify : (S → S) → M S (Unit {0})
  modify f s = (ok tt, f s)

  abbrev pub done : M S (Unit {0})
  done = pure tt

-- The chain of results where no state is at hand.
infixl 5 ◌and_then◌
abbrev pub ◌and_then◌ {ℓ κ} : {A : Type ℓ} {B : Type κ} → Outcome A → (A → Outcome B) → Outcome B
ok a and_then f = f a
throw e and_then f = throw e
crash e and_then f = crash e

-- No undefined behaviour.
abbrev pub IsDefined {ℓ} : {A : Type ℓ} → Outcome A → Type 0
IsDefined (ok a) = Unit {0}
IsDefined (throw e) = Unit {0}
IsDefined (crash f) = ⊥

-- No undefined behaviour but `front()` of an empty vector, and that only where `F`.
abbrev pub IsSettled {ℓ} : Type 0 → {A : Type ℓ} → Outcome A → Type 0
IsSettled F (ok a) = Unit {0}
IsSettled F (throw e) = Unit {0}
IsSettled F (crash f) = (f ≡ empty_front) × F

pub IsDefined-IsSettled {ℓ} :
    (F : Type 0) {A : Type ℓ} (r : Outcome A) → IsDefined r → IsSettled F r
IsDefined-IsSettled F (ok a) h = tt
IsDefined-IsSettled F (throw e) h = tt
IsDefined-IsSettled F (crash f) h = absurd h

pub IsSettled-map {ℓ} :
    (F G : Type 0) {A : Type ℓ} (r : Outcome A) → (F → G) → IsSettled F r → IsSettled G r
IsSettled-map F G (ok a) w h = tt
IsSettled-map F G (throw e) w h = tt
IsSettled-map F G (crash f) w h = (h.0, w h.1)

-- A step that returns hands its value and state on; one that does not ends the chain.
module _ {ℓ κ λ'} {S : Type κ} {A : Type ℓ} {B : Type λ'} where
  pub >>=-ok :
      (m : M S A) (f : A → M S B) {s s' : S} {a : A} {r : Outcome B × S}
      → m s ≡ (ok a, s')
      → f a s' ≡ r
      → (m >>= f) s ≡ r
  >>=-ok m f p q = rw p q

  pub >>=-throw :
      (m : M S A) (f : A → M S B) {s s' : S} {e : Error}
      → m s ≡ (throw e, s')
      → (m >>= f) s ≡ (throw e, s')
  >>=-throw m f p = rw p

-- What holds after a call: `P` of its value and the state, `Q` of the state that a throw leaves; and
-- there is no undefined behaviour.
module _ {ℓ κ} {S : Type κ} {A : Type ℓ} where
  abbrev pub Post : (A → S → Type 0) → (S → Type 0) → Outcome A × S → Type 0
  Post P Q (ok a, s) = P a s
  Post P Q (throw e, s) = Q s
  Post P Q (crash f, s) = ⊥

  -- The same, where `front()` of an empty vector may be the end, if `F` holds of the state.
  abbrev pub Settles : (A → S → Type 0) → (S → Type 0) → (S → Type 0) → Outcome A × S → Type 0
  Settles P Q F (ok a, s) = P a s
  Settles P Q F (throw e, s) = Q s
  Settles P Q F (crash f, s) = (f ≡ empty_front) × F s

module _ {ℓ κ λ'} {S : Type κ} {A : Type ℓ} {B : Type λ'} where
  pub after-Post :
      (P : A → S → Type 0) (P' : B → S → Type 0) (Q : S → Type 0) (r : Outcome A × S)
      (f : A → M S B)
      → Post P Q r
      → ((a : A) (s : S) → P a s → Post P' Q (f a s))
      → Post P' Q (after r f)
  after-Post P P' Q (ok a, s) f h g = g a s h
  after-Post P P' Q (throw e, s) f h g = h
  after-Post P P' Q (crash e, s) f h g = h

  pub after-Settles :
      (P : A → S → Type 0) (P' : B → S → Type 0) (Q F : S → Type 0) (r : Outcome A × S)
      (f : A → M S B)
      → Settles P Q F r
      → ((a : A) (s : S) → P a s → Settles P' Q F (f a s))
      → Settles P' Q F (after r f)
  after-Settles P P' Q F (ok a, s) f h g = g a s h
  after-Settles P P' Q F (throw e, s) f h g = h
  after-Settles P P' Q F (crash e, s) f h g = h

  pub after-IsSettled :
      (F : Type 0) (r : Outcome A × S) (f : A → M S B)
      → IsSettled F r.0
      → ((a : A) (s : S) → IsSettled F (f a s).0)
      → IsSettled F (after r f).0
  after-IsSettled F (ok a, s) f h g = g a s
  after-IsSettled F (throw e, s) f h g = h
  after-IsSettled F (crash e, s) f h g = h

  pub after-IsDefined :
      (r : Outcome A × S) (f : A → M S B)
      → IsDefined r.0
      → ((a : A) (s : S) → IsDefined (f a s).0)
      → IsDefined (after r f).0
  after-IsDefined (ok a, s) f h g = g a s
  after-IsDefined (throw e, s) f h g = h
  after-IsDefined (crash e, s) f h g = h

  -- A lookup that throws.
  pub or_throw-Post :
      (P : B → S → Type 0) (Q : S → Type 0) (o : Option A) (e : Error) (s : S) (f : A → M S B)
      → Q s
      → ((a : A) → o ≡ some a → Post P Q (f a s))
      → Post P Q (after (or_throw o e, s) f)
  or_throw-Post P Q none e s f q g = q
  or_throw-Post P Q (some a) e s f q g = g a refl
