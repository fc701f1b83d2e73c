-- ===== src/Wire/Roundtrip.antt =====
-- Sending and receiving over server/server.hpp's codec.
use pmlib.Prelude.{
  ℕ, ◌-◌, suc, ◌∙◌, ◌^◌, ◌≤◌, ◌<◌, ◌≡◌, refl, List, [], ◌∷◌, ◌++◌, arith, length,
  take-length_append, drop-length_append, length-append, append_assoc, le→leb, le→leb,
}
use pmlib.Prelude.Int.{ℤ, pos, negsuc, ◌≤ℤ◌}
use pmlib.Map.{Name}
use pmlib.Outcome.{ok, >>=-ok}
use pmlib.Wire.{
  Socket, int_bytes, int_of_bytes, write, read, send_int, send_string, receive_int, receive_string,
  read_chars,
}

-- The values of a C++ `int`.
abbrev pub IsInt32 : ℤ → Type 0
IsInt32 z = (negsuc (2 ^ 31 - 1) ≤ℤ z) × (z ≤ℤ pos (2 ^ 31 - 1))

pub int_of_bytes-int_bytes : (z : ℤ) → IsInt32 z → int_of_bytes (int_bytes z) ≡ z
unfolding int_of_bytes int_bytes
int_of_bytes-int_bytes (pos n) h = ground arith
int_of_bytes-int_bytes (negsuc n) h = ground arith

pub length-int_bytes : (z : ℤ) → length (int_bytes z) ≡ 4
unfolding int_bytes
length-int_bytes z = refl

pub write_lem :
    (bytes : List ℕ) (s : Socket)
    → 0 < s.writable
    → write bytes s ≡ (ok tt, record s { outbox = s.outbox ++ bytes; writable = s.writable - 1 })
unfolding write
write_lem bytes s h = ground arith

-- A read of as many bytes as the first message has gives that message and leaves the rest.
pub read_lem :
    (n : ℕ) (xs ys : List ℕ) (s : Socket)
    → length xs ≡ n
    → read n (record s { inbox = xs ++ ys }) ≡ (ok xs, record s { inbox = ys })
unfolding read
read_lem n xs ys s e =
    let len = length-append xs ys in
    rw (
      ← e,
      le→leb (length xs) (length (xs ++ ys)) (omega arith),
      take-length_append xs ys,
      drop-length_append xs ys,
    )

pub receive_int_lem :
    (z : ℤ) (rest : List ℕ) (s : Socket)
    → IsInt32 z
    → receive_int (record s { inbox = int_bytes z ++ rest }) ≡ (ok z, record s { inbox = rest })
unfolding receive_int
receive_int_lem z rest s h =
    rw (read_lem 4 (int_bytes z) rest s (length-int_bytes z), int_of_bytes-int_bytes z h)

pub send_int_lem :
    (z : ℤ) (s : Socket)
    → 0 < s.writable
    → send_int z s
      ≡ (ok tt, record s { outbox = s.outbox ++ int_bytes z; writable = s.writable - 1 })
unfolding send_int
send_int_lem z s h = write_lem (int_bytes z) s h

pub send_string_lem :
    (str : Name) (s : Socket)
    → 2 ≤ s.writable
    → send_string str s ≡ (
      ok tt,
      record s {
        outbox = s.outbox ++ int_bytes (pos (length str)) ++ str;
        writable = s.writable - 2;
      },
    )
unfolding send_string
send_string_lem str s h =
    >>=-ok (send_int (pos (length str))) _ (send_int_lem (pos (length str)) s (omega arith)) (
      write_lem str
        (record s { outbox = s.outbox ++ int_bytes (pos (length str)); writable = s.writable - 1 })
        (omega arith)
      ∙ ground (arith, append_assoc s.outbox (int_bytes (pos (length str))) str))

pub read_chars_lem :
    (str rest : List ℕ) (r : Socket)
    → read_chars (pos (length str)) (record r { inbox = str ++ rest })
      ≡ (ok str, record r { inbox = rest })
read_chars_lem [] rest r = refl
read_chars_lem (c ∷ cs) rest r = read_lem (suc (length cs)) (c ∷ cs) rest r refl

-- A string of less than 2 ^ 31 bytes that one end sends on a connection which takes two more writes
-- is read back by the other end, and what follows it on the stream stays there.
pub receive_string-send_string :
    (str rest : List ℕ) (s r : Socket)
    → 2 ≤ s.writable
    → length str < 2 ^ 31
    → let sent = (send_string str (record s { outbox = [] })).1.outbox in
      receive_string (record r { inbox = sent ++ rest }) ≡ (ok str, record r { inbox = rest })
unfolding receive_string
receive_string-send_string str rest s r h k =
    rw (send_string_lem str (record s { outbox = [] }) h) (
      rw (append_assoc (int_bytes (pos (length str))) str rest) (
        >>=-ok receive_int _ (receive_int_lem (pos (length str)) (str ++ rest) r (ground arith))
          (read_chars_lem str rest r)))
