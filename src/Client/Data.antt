-- ===== src/Client/Data.antt =====
-- `pm_get_counter_data` of client/pm_get_counter_data.c: the samples of a counter.
use pmlib.Prelude.{
  ℕ, zero, suc, ◌*◌, ◌%◌, ◌^◌, List, [], ◌∷◌, take, drop, length, leb, ltb, if◌then◌else◌,
}
use pmlib.Prelude.Int.{ℤ, pos, negsuc, ◌+ℤ◌}
use pmlib.Outcome.{
  Outcome, ok, crash, M, ◌>>=◌, ◌>>◌, lift, fail, undefined, ◌and_then◌, out_of_range, exited,
}
use pmlib.Wire.{word32, signed32, int_bytes, int_of_bytes}
use pmlib.Client.Requests.{CounterT}
use pmlib.Client.{Link, expect_int, expect_all, response, transmit}

-- The value of an `int` variable that is given a number of bytes, of which `sizeof` makes a `size_t`.
abbrev pub int_of_size : ℕ → ℤ
int_of_size n = signed32 (n % 2 ^ 32)

-- A count of elements: none where it is negative.
abbrev pub count : ℤ → ℕ
count (pos n) = n
count (negsuc n) = 0

-- `size * n` bytes, for a number that may be negative, which is a huge `size_t` then.
abbrev pub bytes_of : ℕ → ℤ → ℤ
bytes_of size n = int_of_size (size * word32 n)

-- `malloc(n)` of an array, which fails where `n` is negative, and then the first element is out of
-- range; so is the last one where `n` has lost its upper bits.
abbrev pub allocate : ℕ → ℕ → ℤ → Outcome (Unit {0})
allocate zero size n = ok tt
allocate (suc elements) size (pos n) =
    if leb (size * suc elements) n then ok tt else crash out_of_range
allocate (suc elements) size (negsuc n) = crash out_of_range

-- The length is a sum of two `int`s, which must not overflow; `recv` fails where it is negative.
abbrev pub expect_rest : ℤ → M Link (List ℕ)
expect_rest (pos n) = if ltb n (2 ^ 31) then expect_all n else undefined out_of_range
expect_rest (negsuc n) = fail exited

-- A loop that reads `n` elements of some size out of the message.
unfoldable pub elements {ℓ} :
    {A : Type ℓ} → (List ℕ → A) → ℕ → ℕ → List ℕ → Outcome (List A × List ℕ)
elements value size zero bytes = ok ([], bytes)
elements value size (suc n) bytes =
    let rest = elements value size n (drop size bytes) in
    if leb size (length bytes)
    then (rest and_then λ (xs, more). ok (value (take size bytes) ∷ xs, more))
    else crash out_of_range

module _ {R : Type 0} (double_of : List ℕ → R) where
  -- The two loops over the message.
  abbrev pub fill : ℕ → ℤ → ℤ → List ℕ → CounterT R → Outcome (CounterT R)
  fill watts_size sets_size lines_len bytes c =
      allocate (count sets_size) 4 (bytes_of 4 sets_size) and_then λ _.
      allocate watts_size 8 (bytes_of 8 (pos watts_size)) and_then λ _.
      elements int_of_bytes 4 (count sets_size) bytes and_then λ (sets, rest).
      elements double_of 8 watts_size rest and_then λ (watts, more). ok (record c {
        energy = record {
          watts_size = watts_size;
          watts_sets_size = sets_size;
          watts_sets = sets;
          watts = watts;
          lines_len = lines_len;
        };
      })

  -- The return value is 1.
  unfoldable pub pm_get_counter_data : CounterT R → M Link (CounterT R)
  pm_get_counter_data c = do
    transmit (int_bytes (pos 4))
    watts_size ← response
    sets_size ← expect_int
    lines_len ← expect_int
    bytes ← expect_rest (bytes_of 4 sets_size +ℤ bytes_of 8 (pos watts_size))
    lift (fill watts_size sets_size lines_len bytes c)
