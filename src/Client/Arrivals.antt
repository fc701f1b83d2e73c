-- ===== src/Client/Arrivals.antt =====
-- Receiving in client/*.c, where the network may put the server's writes together. The fields of an
-- answer are each received by a `recv` of their own.
use pmlib.Prelude.{
  ℕ, ◌-◌, ◌<◌, ◌≡◌, refl, sym, ◌∙◌, ap, true, List, [], ◌∷◌, ◌++◌, arith, leb, ◌==◌, ==_iff, length,
  take, length-append, take-length_append, drop-length_append, append-nil, ◌^◌, Bool-cases, inl,
  inr,
}
use pmlib.Prelude.Int.{ℤ, pos}
use pmlib.Outcome.{ok}
use pmlib.Wire.{int_bytes}
use pmlib.Wire.Roundtrip.{IsInt32, int_of_bytes-int_bytes, length-int_bytes}
use pmlib.Client.{
  Link, connect, recv_from, recv_all, expect, expect_all, expect_int, response, transmit,
}

abbrev pub join : List (List ℕ) → List ℕ
join [] = []
join (p ∷ ps) = p ++ join ps

abbrev strip : List (List ℕ) → List (List ℕ)
strip [] = []
strip ([] ∷ ps) = strip ps
strip ((b ∷ bs) ∷ ps) = (b ∷ bs) ∷ ps

-- Pieces in which each field is at the beginning of a piece or follows another field in the same one,
-- with `rest` behind them, split in any way.
abbrev pub Arrives : List (List ℕ) → List ℕ → List (List ℕ) → Type 0
Arrives [] rest ps = join ps ≡ rest
Arrives (f ∷ fs) rest ps =
    (p : List ℕ) × (ps' : List (List ℕ)) × (strip ps ≡ (f ++ p) ∷ ps') × Arrives fs rest (p ∷ ps')

recv_from-strip : (n : ℕ) (ps : List (List ℕ)) → recv_from n ps ≡ recv_from n (strip ps)
recv_from-strip n [] = refl
recv_from-strip n ([] ∷ ps) = recv_from-strip n ps
recv_from-strip n ((b ∷ bs) ∷ ps) = refl

recv_from-append :
    (f p : List ℕ) (ps : List (List ℕ))
    → 0 < length f
    → recv_from (length f) ((f ++ p) ∷ ps) ≡ (f, p ∷ ps)
recv_from-append [] p ps h = absurd (omega arith)
recv_from-append (b ∷ bs) p ps h =
    rw (take-length_append (b ∷ bs) p, drop-length_append (b ∷ bs) p) refl

-- A field of `n` bytes is received, and what follows it stays.
pub expect_lem :
    (n : ℕ) (f : List ℕ) (fs : List (List ℕ)) (rest : List ℕ) (k : Link)
    → 0 < length f
    → length f ≡ n
    → Arrives (f ∷ fs) rest k.arrivals
    → (ps : List (List ℕ)) × (expect n k ≡ (ok f, record k { arrivals = ps })) × Arrives fs rest ps
unfolding expect
expect_lem n f fs rest k h e (p, ps, at, later) =
    let same : (length f == length f) ≡ true = (==_iff (length f) (length f)).1 refl in
    (
      p ∷ ps,
      rw (← e, recv_from-strip (length f) k.arrivals, at, recv_from-append f p ps h, same) refl,
      later,
    )

pub expect_int_lem :
    (z : ℤ) (fs : List (List ℕ)) (rest : List ℕ) (k : Link)
    → IsInt32 z
    → Arrives (int_bytes z ∷ fs) rest k.arrivals
    → (ps : List (List ℕ)) × (expect_int k ≡ (ok z, record k { arrivals = ps }))
      × Arrives fs rest ps
unfolding expect_int
expect_int_lem z fs rest k h a =
    let len = length-int_bytes z in
    let (ps, got, later) = expect_lem 4 (int_bytes z) fs rest k (omega arith) len a in
    (ps, rw (got, int_of_bytes-int_bytes z h) refl, later)

pub response_lem :
    (n : ℕ) (fs : List (List ℕ)) (rest : List ℕ) (k : Link)
    → n < 2 ^ 31
    → Arrives (int_bytes (pos n) ∷ fs) rest k.arrivals
    → (ps : List (List ℕ)) × (response k ≡ (ok n, record k { arrivals = ps })) × Arrives fs rest ps
unfolding response
response_lem n fs rest k h a =
    let (ps, got, later) = expect_int_lem (pos n) fs rest k (ground arith) a in
    (ps, rw got refl, later)

length-zero : (xs : List ℕ) → length xs ≡ 0 → xs ≡ []
length-zero [] h = refl
length-zero (x ∷ xs) h = absurd (omega arith)

take-length : (xs : List ℕ) → take (length xs) xs ≡ xs
take-length [] = refl
take-length (x ∷ xs) = ap (◌∷◌ x) (take-length xs)

recv_all-all : (n : ℕ) (ps : List (List ℕ)) → length (join ps) ≡ n → (recv_all n ps).0 ≡ join ps
recv_all-all n [] e = refl
recv_all-all n (p ∷ ps) e =
    let whole = length-append p (join ps) in
    elim (Bool-cases (leb n (length p))) [
      | inl h ↦
          let last : length (join ps) ≡ 0 = ground arith in
          let here : n ≡ length p = omega arith in
          rw (h, here, take-length p, length-zero (join ps) last) (sym (append-nil p))
      | inr h ↦ rw (h, recv_all-all (n - length p) ps (omega arith)) refl
    ]

pub expect_all_lem :
    (rest : List ℕ) (k : Link)
    → Arrives [] rest k.arrivals
    → (ps : List (List ℕ)) × (expect_all (length rest) k ≡ (ok rest, record k { arrivals = ps }))
unfolding expect_all
expect_all_lem rest k a =
    let got = recv_all-all (length rest) k.arrivals (ap length a) ∙ a in
    let same : (length rest == length rest) ≡ true = (==_iff (length rest) (length rest)).1 refl in
    ((recv_all (length rest) k.arrivals).1, rw (got, same) refl)

pub transmit_lem :
    (bytes : List ℕ) (k : Link)
    → 0 < k.writable
    → transmit bytes k ≡ (ok tt, record k { sent = k.sent ++ bytes; writable = k.writable - 1 })
unfolding transmit
transmit_lem bytes k h = ground arith

pub connect_lem : (k : Link) → k.reachable ≡ true → connect k ≡ (ok tt, k)
connect_lem k h = ground arith
