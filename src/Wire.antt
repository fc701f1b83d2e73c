-- ===== src/Wire.antt =====
-- The binary codec of server/server.hpp (`send`, `receive`): fixed-size integers, vectors and
-- strings with a length in front, least significant byte first as on the hosts that PMLib runs on.
pub mod Roundtrip
pub mod Defined
use pmlib.Prelude.{
  ℕ, zero, suc, ◌+◌, ◌-◌, ◌*◌, ◌/◌, ◌%◌, ◌^◌, ◌≡◌, refl, Bool, true, false, List, [], ◌∷◌, ◌++◌,
  arith, length, take, drop, leb, ltb, ◌==◌, if◌then◌else◌, not, Option, none, some, map,
}
use pmlib.Prelude.Int.{ℤ, pos, negsuc}
use pmlib.Map.{Name}
use pmlib.Outcome.{
  Outcome, ok, throw, M, undefined, empty_front, ◌>>=◌, ◌>>◌, fail, pure, done, end_of_file,
  broken_pipe,
}

-- One end of a TCP connection: the bytes that the peer will still send before it closes its side,
-- those that were sent to it, and how many more `write` calls it accepts before the connection
-- breaks.
pub record Socket : Type 0 where
  pub inbox : List ℕ
  pub outbox : List ℕ
  pub writable : ℕ
  -- the peer's address, as `remote_endpoint()` gives it
  pub peer : Name

abbrev pub word32 : ℤ → ℕ
word32 (pos n) = n % 2 ^ 32
word32 (negsuc n) = 2 ^ 32 - 1 - n % 2 ^ 32

-- The `int` that a bit pattern stands for.
abbrev pub signed32 : ℕ → ℤ
signed32 w = if ltb w (2 ^ 31) then pos w else negsuc (2 ^ 32 - w - 1)

abbrev pub bytes_of_word : ℕ → List ℕ
bytes_of_word w = w % 256 ∷ w / 2 ^ 8 % 256 ∷ w / 2 ^ 16 % 256 ∷ w / 2 ^ 24 % 256 ∷ []

abbrev pub word_of_bytes : List ℕ → ℕ
word_of_bytes [] = 0
word_of_bytes (b ∷ bs) = b + 256 * word_of_bytes bs

unfoldable pub int_bytes : ℤ → List ℕ
int_bytes z = bytes_of_word (word32 z)

unfoldable pub int_of_bytes : List ℕ → ℤ
int_of_bytes bs = signed32 (word_of_bytes bs)

-- asio's `write`: all of the bytes, or an exception.
unfoldable pub write : List ℕ → M Socket (Unit {0})
write bytes s =
    if ltb 0 s.writable
    then (ok tt, record s { outbox = s.outbox ++ bytes; writable = s.writable - 1 })
    else (throw broken_pipe, s)

-- asio's `read`: exactly `n` bytes, or an exception that has used up what there was.
unfoldable pub read : ℕ → M Socket (List ℕ)
read n s =
    if leb n (length s.inbox)
    then (ok (take n s.inbox), record s { inbox = drop n s.inbox })
    else (throw end_of_file, record s { inbox = [] })

unfoldable pub send_int : ℤ → M Socket (Unit {0})
send_int z = write (int_bytes z)

abbrev pub concat_map {ℓ} : {A : Type ℓ} → (A → List ℕ) → List A → List ℕ
concat_map f [] = []
concat_map f (x ∷ xs) = f x ++ concat_map f xs

-- `write(*_sock, buffer((char*)(&data.front()), sizeof(T)*data.size()))`: there is no first element in
-- an empty vector.
unfoldable pub write_vector {ℓ} : {A : Type ℓ} → (A → List ℕ) → List A → M Socket (Unit {0})
write_vector element [] = undefined empty_front
write_vector element (x ∷ xs) = write (concat_map element (x ∷ xs))

-- `send(_sock, vector<T> const &data)`, given the bytes of each element.
unfoldable pub send_vector {ℓ} : {A : Type ℓ} → (A → List ℕ) → List A → M Socket (Unit {0})
send_vector element xs = do send_int (pos (length xs)); write_vector element xs

unfoldable pub send_string : Name → M Socket (Unit {0})
send_string str = do send_int (pos (length str)); write str

unfoldable pub receive_int : M Socket ℤ
receive_int = do bytes ← read 4; pure (int_of_bytes bytes)

abbrev first_byte : List ℕ → Bool
first_byte [] = false
first_byte (b ∷ bs) = not (b == 0)

-- `receive<bool, int>`: four bytes are read over a `bool` of one byte. The first is its value; the other
-- three are written behind it.
unfoldable pub receive_bool : M Socket (Bool × List ℕ)
receive_bool = do bytes ← read 4; pure (first_byte bytes, drop 1 bytes)

abbrev pub read_chars : ℤ → M Socket Name
read_chars (pos (suc n)) = read (suc n)
read_chars _ = pure []

-- `receive(_sock, string &data)` into an empty string: a length that is not positive leaves it so.
unfoldable pub receive_string : M Socket Name
receive_string = do len ← receive_int; read_chars len
