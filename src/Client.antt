-- ===== src/Client.antt =====
-- The client library in client/: the connection to the server as client/*.c uses it, through `send`,
-- `recv` and `close`.
pub mod Lines
pub mod Parse
pub mod Requests
pub mod Data
pub mod Arrivals
pub mod Print
pub mod Energy
pub mod Exchange
pub mod Session
pub mod Trace
pub mod Otf
pub mod Stream
pub mod Server
use pmlib.Prelude.{
  ℕ, suc, ◌+◌, ◌-◌, Bool, true, false, List, [], ◌∷◌, ◌++◌, length, take, drop, ltb, leb, ◌==◌,
  if◌then◌else◌,
}
use pmlib.Prelude.Int.{ℤ, pos, negsuc}
use pmlib.Outcome.{ok, throw, crash, Outcome, M, ◌>>=◌, ◌>>◌, pure, fail, exited, out_of_range}
use pmlib.Wire.{int_of_bytes}

-- The client's end of a connection. The bytes that the server sends come in pieces: a `recv` returns
-- what the first piece has. `writable` is how many more `send` calls the connection takes, `reachable`
-- whether `connect` succeeds.
pub record Link : Type 0 where
  pub reachable : Bool
  pub arrivals : List (List ℕ)
  pub sent : List ℕ
  pub writable : ℕ
  pub closed : Bool

-- `if (connect(...) < 0) exit(1)`.
abbrev pub connect : M Link (Unit {0})
connect k = if k.reachable then (ok tt, k) else (throw exited, k)

-- `recv` of at most `n` bytes: what the first piece has of them, nothing where the server has closed.
abbrev pub recv_from : ℕ → List (List ℕ) → List ℕ × List (List ℕ)
recv_from n [] = ([], [])
recv_from n ([] ∷ pieces) = recv_from n pieces
recv_from n ((b ∷ bs) ∷ pieces) = (take n (b ∷ bs), drop n (b ∷ bs) ∷ pieces)

-- `recv` with `MSG_WAITALL`: piece after piece, until there are `n` bytes.
abbrev pub recv_all : ℕ → List (List ℕ) → List ℕ × List (List ℕ)
recv_all n [] = ([], [])
recv_all n (p ∷ pieces) =
    let (got, rest) = recv_all (n - length p) pieces in
    if leb n (length p) then (take n p, drop n p ∷ pieces) else (p ++ got, rest)

abbrev received : ℕ → Link → List ℕ × List (List ℕ) → Outcome (List ℕ) × Link
received n k (bytes, rest) =
    if length bytes == n
    then (ok bytes, record k { arrivals = rest })
    else (throw exited, record k { arrivals = rest })

-- `if ((bytes = recv(sock, buffer, n, 0)) != n) exit(1)`.
unfoldable pub expect : ℕ → M Link (List ℕ)
expect n k = received n k (recv_from n k.arrivals)

unfoldable pub expect_all : ℕ → M Link (List ℕ)
expect_all n k = received n k (recv_all n k.arrivals)

unfoldable pub expect_int : M Link ℤ
expect_int = do bytes ← expect 4; pure (int_of_bytes bytes)

abbrev pub not_negative : ℤ → M Link ℕ
not_negative (pos n) = pure n
not_negative (negsuc n) = fail exited

-- An `int` that must not be negative.
unfoldable pub response : M Link ℕ
response = do z ← expect_int; not_negative z

-- `if (send(sock, buffer, msg_size, 0) != msg_size) exit(1)`.
unfoldable pub transmit : List ℕ → M Link (Unit {0})
transmit bytes k =
    if ltb 0 k.writable
    then (ok tt, record k { sent = k.sent ++ bytes; writable = k.writable - 1 })
    else (throw exited, k)

-- The bytes that a function has put together in its `buffer` of `BUFFSIZE` bytes.
abbrev pub in_buffer : List ℕ → Outcome (List ℕ)
in_buffer bytes = if leb (length bytes) 1024 then ok bytes else crash out_of_range

abbrev pub hang_up : M Link (Unit {0})
hang_up k = (ok tt, record k { closed = true })
