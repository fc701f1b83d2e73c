-- ===== src/Info/Streaming.antt =====
-- The loop of `Info::read_device` in server/info.cpp.
use pmlib.Prelude.{
  ℕ, zero, suc, ◌+◌, ◌*◌, ◌-◌, ◌<◌, ◌≤◌, ◌≡◌, ◌∙◌, ap, refl, List, [], ◌∷◌, ◌++◌, arith, true,
  false, ◌==◌, Option, none, some, if◌then◌else◌, Bool-cases, inl, inr, length, append_assoc,
  append-nil,
}
use pmlib.Prelude.Int.{pos}
use pmlib.Outcome.{
  Outcome, ok, throw, crash, done, handled, IsSettled, Settles, after-Settles, empty_front,
  broken_pipe, >>=-throw,
}
use pmlib.Wire.{Socket, write, write_vector, send_int, send_vector, concat_map, int_bytes}
use pmlib.Wire.Roundtrip.{write_lem, send_int_lem}
use pmlib.Floating.{Floating}
use pmlib.Info.{stream, stream_samples}

write-throws :
    (bytes : List ℕ) (k : Socket) → k.writable ≡ 0 → write bytes k ≡ (throw broken_pipe, k)
unfolding write
write-throws bytes k e = ground arith

-- A write that returns has used up one of those that the peer takes.
write-Settles :
    (F : Type 0) (bytes : List ℕ) (k : Socket) (n : ℕ)
    → k.writable < suc n
    → Settles (λ _ k'. k'.writable < n) (λ _. Unit {0}) (λ _. F) (write bytes k)
unfolding write
write-Settles F bytes k n h = ground arith

write_vector_lem {ℓ} :
    {A : Type ℓ} (element : A → List ℕ) (xs : List A) (k : Socket)
    → 0 < length xs
    → write_vector element xs k ≡ write (concat_map element xs) k
unfolding write_vector
write_vector_lem element [] k h = absurd (omega arith)
write_vector_lem element (x ∷ xs) k h = refl

empty_of : {R : Type 0} (xs : List R) → (length xs == 0) ≡ true → xs ≡ []
empty_of [] h = refl
empty_of (x ∷ xs) h = absurd (ground arith)

write_vector-Settles :
    {A : Type 0} (element : A → List ℕ) (xs : List A) (k : Socket) (n : ℕ)
    → k.writable < suc n
    → Settles (λ _ k'. k'.writable < n) (λ _. Unit {0}) (λ _. xs ≡ []) (write_vector element xs k)
unfolding write_vector
write_vector-Settles element [] k n h = (refl, refl)
write_vector-Settles element (x ∷ xs) k n h = write-Settles _ (concat_map element (x ∷ xs)) k n h

send_vector-throws {ℓ} :
    {A : Type ℓ} (element : A → List ℕ) (xs : List A) (k : Socket)
    → k.writable ≡ 0
    → send_vector element xs k ≡ (throw broken_pipe, k)
unfolding send_vector send_int
send_vector-throws element xs k e =
    >>=-throw (send_int (pos (length xs))) _ (write-throws (int_bytes (pos (length xs))) k e)

module _ {R : Type 0} ⦃f : Floating R⦄ (samples : ℕ → List R) where
  abbrev pub message : ℕ → List ℕ
  message i = int_bytes (pos (length (samples i))) ++ concat_map f.double_bytes (samples i)

  -- The messages for `n` samples from the `i`-th on.
  abbrev pub messages : ℕ → ℕ → List ℕ
  messages zero i = []
  messages (suc n) i = message i ++ messages n (i + 1)

  -- A sample with a value.
  filled :
      (i : ℕ) (k : Socket)
      → (length (samples i) == 0) ≡ false
      → write_vector f.double_bytes (samples i) k ≡ write (concat_map f.double_bytes (samples i)) k
  filled i k h = write_vector_lem f.double_bytes (samples i) k (ground (arith, h))

  send_message :
      (i : ℕ) (k : Socket)
      → 2 ≤ k.writable
      → (length (samples i) == 0) ≡ false
      → send_vector f.double_bytes (samples i) k
        ≡ (ok tt, record k { outbox = k.outbox ++ message i; writable = k.writable - 2 })
  unfolding send_vector
  send_message i k h some' =
      let n = pos (length (samples i)) in
      let k1 : Socket = record k { outbox = k.outbox ++ int_bytes n; writable = k.writable - 1 } in
      rw (send_int_lem n k (omega arith)) (
        filled i k1 some'
        ∙ write_lem (concat_map f.double_bytes (samples i)) k1 (omega arith)
        ∙ ground
            (arith, append_assoc k.outbox (int_bytes n) (concat_map f.double_bytes (samples i))))

  send_empty :
      (i : ℕ) (k : Socket)
      → 1 ≤ k.writable
      → (length (samples i) == 0) ≡ true
      → send_vector f.double_bytes (samples i) k ≡ (
        crash empty_front,
        record k { outbox = k.outbox ++ int_bytes (pos 0); writable = k.writable - 1 },
      )
  unfolding send_vector write_vector
  send_empty i k h none' =
      let nothing : samples i ≡ [] = empty_of (samples i) none' in
      rw nothing (rw (send_int_lem (pos 0) k (omega arith)) refl)

  -- Which of the `n` samples from the `i`-th on is the first one without a value, counting from 0.
  abbrev pub first_empty : ℕ → ℕ → Option ℕ
  first_empty zero i = none
  first_empty (suc n) i =
      let rest = first_empty n (i + 1) in
      if length (samples i) == 0 then some 0 else elim rest [ none ↦ none | some m ↦ some (suc m) ]

  -- What the loop does on a connection that takes two writes for each of the `n` samples.
  abbrev pub streamed : ℕ → ℕ → Socket → Option ℕ → Outcome (Unit {0}) × Socket
  streamed n i k none = (ok tt, record k { outbox = k.outbox ++ messages n i; writable = 0 })
  streamed n i k (some m) = (
    crash empty_front,
    record k {
      outbox = k.outbox ++ messages m i ++ int_bytes (pos 0);
      writable = k.writable - suc (2 * m);
    },
  )

  streamed-suc :
      (n i : ℕ) (k : Socket) (o : Option ℕ)
      → streamed n
          (i + 1)
          (record k { outbox = k.outbox ++ message i; writable = k.writable - 2 })
          o
        ≡ streamed (suc n) i k (elim o [ none ↦ none | some m ↦ some (suc m) ])
  streamed-suc n i k none =
      ap (λ o. (ok tt, record k { outbox = o; writable = 0 }))
        (append_assoc k.outbox (message i) (messages n (i + 1)))
  streamed-suc n i k (some m) =
      let left : k.writable - 2 - suc (2 * m) ≡ k.writable - suc (2 * suc m) = omega arith in
      rw (left, append_assoc k.outbox (message i) (messages m (i + 1))) refl

  stream_lem :
      (n fuel i : ℕ) (k : Socket)
      → k.writable ≡ 2 * n
      → n < fuel
      → handled (λ _. done) (stream fuel samples i k) ≡ streamed n i k (first_empty n i)
  unfolding stream
  stream_lem n zero i k e h = absurd (omega arith)
  stream_lem zero (suc fuel) i k e h =
      rw (send_vector-throws f.double_bytes (samples i) k e)
        (rw (append-nil k.outbox) (ap (λ w. (ok tt, record k { writable = w })) e))
  stream_lem (suc n) (suc fuel) i k e h = elim (Bool-cases (length (samples i) == 0)) [
    | inl none' ↦ rw (none', send_empty i k (omega arith) none', append-nil k.outbox) refl
    | inr some' ↦
        rw (some', send_message i k (omega arith) some')
          (stream_lem n fuel (i + 1)
              (record k { outbox = k.outbox ++ message i; writable = k.writable - 2 }) (omega arith)
              (omega arith)
            ∙ streamed-suc n i k (first_empty n (i + 1)))
  ]

  -- If the peer takes 2 n more writes and the next n samples each have a value, the loop of
  -- read_device sends it just these n samples, one message each, and then ends by itself. If one of
  -- them has none, the loop sends those before the first such one and the length 0, and then takes
  -- the front of an empty vector.
  pub stream_samples_lem :
      (n : ℕ) (k : Socket)
      → k.writable ≡ 2 * n
      → stream_samples samples k ≡ streamed n 0 k (first_empty n 0)
  unfolding stream_samples
  stream_samples_lem n k e = stream_lem n (suc k.writable) 0 k e (omega arith)

  -- Some sample has no value.
  abbrev pub LacksValue : Type 0
  LacksValue = (i : ℕ) × (samples i ≡ [])

  calm :
      (r : Outcome (Unit {0}) × Socket)
      → Settles (λ _ _. Unit {0}) (λ _. Unit {0}) (λ _. LacksValue) r
      → IsSettled LacksValue (handled (λ _. done) r).0
  calm (ok a, k) h = h
  calm (throw e, k) h = tt
  calm (crash e, k) h = h

  write_sample-Settles :
      (i : ℕ) (k : Socket) (n : ℕ) (r : Outcome (Unit {0}) × Socket)
      → Settles (λ _ k'. k'.writable < n) (λ _. Unit {0}) (λ _. samples i ≡ []) r
      → Settles (λ _ k'. k'.writable < n) (λ _. Unit {0}) (λ _. LacksValue) r
  write_sample-Settles i k n (ok a, k') h = h
  write_sample-Settles i k n (throw e, k') h = h
  write_sample-Settles i k n (crash e, k') h = (h.0, (i, h.1))

  stream-Settles :
      (fuel i : ℕ) (k : Socket)
      → k.writable < fuel
      → Settles (λ _ _. Unit {0}) (λ _. Unit {0}) (λ _. LacksValue) (stream fuel samples i k)
  unfolding stream send_vector send_int
  stream-Settles zero i k h = absurd (omega arith)
  stream-Settles (suc fuel) i k h =
      after-Settles (λ _ k2. k2.writable < fuel) (λ _ _. Unit {0}) (λ _. Unit {0}) (λ _. LacksValue)
        (send_vector f.double_bytes (samples i) k) _
        (after-Settles (λ _ k1. k1.writable < fuel) (λ _ k2. k2.writable < fuel) (λ _. Unit {0})
          (λ _. LacksValue) (send_int (pos (length (samples i))) k) _
          (write-Settles LacksValue (int_bytes (pos (length (samples i)))) k fuel h)
          λ _ k1 h1.
            write_sample-Settles i k1 fuel (write_vector f.double_bytes (samples i) k1)
              (write_vector-Settles f.double_bytes (samples i) k1 fuel (omega arith)))
        λ _ k2 h2. stream-Settles fuel (i + 1) k2 h2

  pub stream_samples-IsSettled : (k : Socket) → IsSettled LacksValue (stream_samples samples k).0
  unfolding stream_samples
  stream_samples-IsSettled k =
      calm (stream (suc k.writable) samples 0 k) (stream-Settles (suc k.writable) 0 k (omega arith))
