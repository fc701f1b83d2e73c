-- ===== src/Wire/Defined.antt =====
-- Reading and writing, as server/server.hpp does them, and undefined behaviour.
use pmlib.Prelude.{zero, suc, refl, ◌≡◌}
use pmlib.Prelude.Int.{ℤ, pos, negsuc}
use pmlib.Prelude.{ℕ, arith, List, [], ◌∷◌, length}
use pmlib.Outcome.{IsDefined, IsSettled, IsDefined-IsSettled, after-IsDefined, after-IsSettled}
use pmlib.Wire.{
  Socket, int_bytes, concat_map, write, write_vector, send_int, send_vector, send_string, read,
  read_chars, receive_int, receive_bool, receive_string,
}

read-IsDefined : (n : ℕ) (k : Socket) → IsDefined (read n k).0
unfolding read
read-IsDefined n k = ground arith

read_chars-IsDefined : (z : ℤ) (k : Socket) → IsDefined (read_chars z k).0
read_chars-IsDefined (pos zero) k = tt
read_chars-IsDefined (pos (suc n)) k = read-IsDefined (suc n) k
read_chars-IsDefined (negsuc n) k = tt

pub receive_int-IsDefined : (k : Socket) → IsDefined (receive_int k).0
unfolding receive_int
receive_int-IsDefined k = after-IsDefined (read 4 k) _ (read-IsDefined 4 k) (λ _ _. tt)

pub receive_bool-IsDefined : (k : Socket) → IsDefined (receive_bool k).0
unfolding receive_bool
receive_bool-IsDefined k = after-IsDefined (read 4 k) _ (read-IsDefined 4 k) (λ _ _. tt)

pub receive_string-IsDefined : (k : Socket) → IsDefined (receive_string k).0
unfolding receive_string
receive_string-IsDefined k =
    after-IsDefined (receive_int k) _ (receive_int-IsDefined k) read_chars-IsDefined

pub write-IsDefined : (bytes : List ℕ) (k : Socket) → IsDefined (write bytes k).0
unfolding write
write-IsDefined bytes k = ground arith

pub send_int-IsDefined : (z : ℤ) (k : Socket) → IsDefined (send_int z k).0
unfolding send_int
send_int-IsDefined z k = write-IsDefined (int_bytes z) k

pub write_vector-IsSettled :
    {A : Type 0} (element : A → List ℕ) (xs : List A) (k : Socket)
    → IsSettled (xs ≡ []) (write_vector element xs k).0
unfolding write_vector
write_vector-IsSettled element [] k = (refl, refl)
write_vector-IsSettled element (x ∷ xs) k =
    IsDefined-IsSettled _ _ (write-IsDefined (concat_map element (x ∷ xs)) k)

pub send_vector-IsSettled :
    {A : Type 0} (element : A → List ℕ) (xs : List A) (k : Socket)
    → IsSettled (xs ≡ []) (send_vector element xs k).0
unfolding send_vector
send_vector-IsSettled element xs k =
    after-IsSettled (xs ≡ []) (send_int (pos (length xs)) k) _
      (IsDefined-IsSettled _ _ (send_int-IsDefined _ k))
      λ _ k'. write_vector-IsSettled element xs k'

pub send_string-IsDefined : (str : List ℕ) (k : Socket) → IsDefined (send_string str k).0
unfolding send_string
send_string-IsDefined str k =
    after-IsDefined (send_int (pos (length str)) k) _ (send_int-IsDefined _ k)
      λ _ k'. write-IsDefined str k'

pub send_int-IsSettled : (F : Type 0) (z : ℤ) (k : Socket) → IsSettled F (send_int z k).0
send_int-IsSettled F z k = IsDefined-IsSettled _ _ (send_int-IsDefined z k)

pub send_string-IsSettled :
    (F : Type 0) (str : List ℕ) (k : Socket) → IsSettled F (send_string str k).0
send_string-IsSettled F str k = IsDefined-IsSettled _ _ (send_string-IsDefined str k)
