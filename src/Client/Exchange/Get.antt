-- ===== src/Client/Exchange/Get.antt =====
-- The reply of `Counter::get` (server/counter.cpp) and `pm_get_counter_data` (client/pm_get_counter_data.c).
use pmlib.Prelude.{
  ℕ, zero, suc, ◌+◌, ◌-◌, ◌*◌, ◌^◌, ◌<◌, ◌≤◌, ◌≡◌, refl, sym, ◌∙◌, ap, true, List, [], ◌∷◌, ◌++◌,
  arith, ltb, leb, length, take, drop, All, All-map, length-append, take-length_append,
  drop-length_append, append_assoc, append-nil, le→leb,
}
use pmlib.Prelude.Int.{ℤ, pos, ◌+ℤ◌, +ℤ-pos}
use pmlib.Outcome.{ok}
use pmlib.Wire.{int_bytes, int_of_bytes, concat_map, write, write_vector, send_int}
use pmlib.Wire.Roundtrip.{IsInt32, int_of_bytes-int_bytes, length-int_bytes}
use pmlib.Floating.{Floating}
use pmlib.Counter.{Session, send_reply}
use pmlib.Client.{Link, expect_all}
use pmlib.Client.Requests.{CounterT}
use pmlib.Client.Data.{bytes_of, allocate, expect_rest, elements, fill, pm_get_counter_data}
use pmlib.Client.Arrivals.{
  join, Arrives, expect_int_lem, response_lem, expect_all_lem, transmit_lem,
}

-- A loop of the client undoes the server's concatenation.
elements_lem {ℓ} :
    {A : Type ℓ} (value : List ℕ → A) (bytes : A → List ℕ) (size : ℕ) (xs : List A) (rest : List ℕ)
    → ((x : A) → length (bytes x) ≡ size)
    → All (λ x. value (bytes x) ≡ x) xs
    → elements value size (length xs) (concat_map bytes xs ++ rest) ≡ ok (xs, rest)
unfolding elements
elements_lem value bytes size [] rest len back = refl
elements_lem value bytes size (x ∷ xs) rest len back =
    let text : concat_map bytes (x ∷ xs) ++ rest ≡ bytes x ++ (concat_map bytes xs ++ rest) =
      append_assoc (bytes x) (concat_map bytes xs) rest in
    let here : leb size (length (bytes x ++ (concat_map bytes xs ++ rest))) ≡ true =
      le→leb _ _ (omega (arith, len x, length-append (bytes x) (concat_map bytes xs ++ rest))) in
    let first : take size (bytes x ++ (concat_map bytes xs ++ rest)) ≡ bytes x =
      rw (← len x) (take-length_append (bytes x) _) in
    let later : drop size (bytes x ++ (concat_map bytes xs ++ rest)) ≡ concat_map bytes xs ++ rest =
      rw (← len x) (drop-length_append (bytes x) _) in
    rw (text, here, first, later, elements_lem value bytes size xs rest len back.1, back.0) refl

length-concat_map {ℓ} :
    {A : Type ℓ} (bytes : A → List ℕ) (size : ℕ) (xs : List A)
    → ((x : A) → length (bytes x) ≡ size)
    → length (concat_map bytes xs) ≡ size * length xs
length-concat_map bytes size [] len = omega arith
length-concat_map bytes size (x ∷ xs) len = grind (
  arith,
  len x,
  length-append (bytes x) (concat_map bytes xs),
  length-concat_map bytes size xs len,
)

bytes_of-four : (n : ℕ) → 4 * n < 2 ^ 31 → bytes_of 4 (pos n) ≡ pos (4 * n)
bytes_of-four n h = ground arith

bytes_of-eight : (n : ℕ) → 8 * n < 2 ^ 31 → bytes_of 8 (pos n) ≡ pos (8 * n)
bytes_of-eight n h = ground arith

allocate_lem : (n size : ℕ) → allocate n size (pos (size * n)) ≡ ok tt
allocate_lem zero size = refl
allocate_lem (suc n) size =
    let fits : leb (size * suc n) (size * suc n) ≡ true = le→leb _ _ (omega arith) in rw fits refl

module _ {R : Type 0} ⦃f : Floating R⦄ where
  abbrev pub header : ℕ → List R → List ℤ → List (List ℕ)
  header n_lines watts sets =
      int_bytes (pos (length watts)) ∷ int_bytes (pos (length sets)) ∷ int_bytes (pos n_lines) ∷ []

  abbrev pub body : List R → List ℤ → List ℕ
  body watts sets = concat_map int_bytes sets ++ concat_map f.double_bytes watts

  send_reply_lem :
      (n_lines : ℕ) (watts : List R) (sets : List ℤ) (s : Session R)
      → 5 ≤ s.sock.writable
      → 0 < length watts
      → 0 < length sets
      → (send_reply n_lines (watts, sets) s).1.sock.outbox
        ≡ s.sock.outbox ++ join (header n_lines watts sets) ++ body watts sets
  unfolding send_reply send_int write write_vector
  send_reply_lem n_lines [] sets s h some' begun = absurd (omega arith)
  send_reply_lem n_lines watts [] s h some' begun = absurd (omega arith)
  send_reply_lem n_lines (r ∷ watts) (z ∷ sets) s h some' begun =
      let w1 : ltb 0 s.sock.writable ≡ true = ground arith in
      let w2 : ltb 0 (s.sock.writable - 1) ≡ true = ground arith in
      let w3 : ltb 0 (s.sock.writable - 1 - 1) ≡ true = ground arith in
      let w4 : ltb 0 (s.sock.writable - 1 - 1 - 1) ≡ true = ground arith in
      let w5 : ltb 0 (s.sock.writable - 1 - 1 - 1 - 1) ≡ true = ground arith in
      rw (w1, w2, w3, w4, w5) (simp (append_assoc, append-nil))

  -- What the client makes of a whole body.
  fill_lem :
      (double_of : List ℕ → R) (watts : List R) (sets : List ℤ) (n_lines : ℤ) (c : CounterT R)
      → All (λ r. double_of (f.double_bytes r) ≡ r) watts
      → All IsInt32 sets
      → 4 * length sets + 8 * length watts < 2 ^ 31
      → fill double_of (length watts) (pos (length sets)) n_lines (body watts sets) c
        ≡ ok (record c {
          energy = record {
            watts_size = length watts;
            watts_sets_size = pos (length sets);
            watts_sets = sets;
            watts = watts;
            lines_len = n_lines;
          };
        })
  fill_lem double_of watts sets n_lines c back ints small =
      let back' =
        All-map IsInt32 (λ z. int_of_bytes (int_bytes z) ≡ z) int_of_bytes-int_bytes sets ints in
      let tail : concat_map f.double_bytes watts ≡ concat_map f.double_bytes watts ++ [] =
        sym (append-nil _) in
      rw
        (
          bytes_of-four (length sets) (omega arith),
          bytes_of-eight (length watts) (omega arith),
          allocate_lem (length sets) 4,
          allocate_lem (length watts) 8,
          elements_lem int_of_bytes int_bytes 4 sets (concat_map f.double_bytes watts)
              length-int_bytes back',
          tail,
          elements_lem double_of f.double_bytes 8 watts [] f.length-double_bytes back,
        )
        refl

  expect_rest_lem :
      (watts : List R) (sets : List ℤ) (k : Link) (ps : List (List ℕ))
      → 4 * length sets + 8 * length watts < 2 ^ 31
      → expect_all (length (body watts sets)) k ≡ (ok (body watts sets), record k { arrivals = ps })
      → expect_rest (bytes_of 4 (pos (length sets)) +ℤ bytes_of 8 (pos (length watts))) k
        ≡ (ok (body watts sets), record k { arrivals = ps })
  expect_rest_lem watts sets k ps small got =
      let len : length (body watts sets) ≡ 4 * length sets + 8 * length watts =
        length-append (concat_map int_bytes sets) (concat_map f.double_bytes watts)
        ∙ omega (
          arith,
          length-concat_map int_bytes 4 sets length-int_bytes,
          length-concat_map f.double_bytes 8 watts f.length-double_bytes,
        ) in
      let fits : ltb (4 * length sets + 8 * length watts) (2 ^ 31) ≡ true = ground arith in
      rw
        (
          bytes_of-four (length sets) (omega arith),
          bytes_of-eight (length watts) (omega arith),
          +ℤ-pos (4 * length sets) (8 * length watts),
          fits,
        )
        (rw (← len) got)

  abbrev pub received : List R → List ℤ → ℕ → CounterT R → CounterT R
  received watts sets n_lines c = record c {
    energy = record {
      watts_size = length watts;
      watts_sets_size = pos (length sets);
      watts_sets = sets;
      watts = watts;
      lines_len = pos n_lines;
    };
  }

  -- Let a reply have at least one sample, the beginning of at least one set and less than 2 ^ 31
  -- bytes of arrays, and let the conversion of bytes to a double undo that of its samples. However
  -- the network splits the arrays and joins the rest, pm_get_counter_data takes from what get sends
  -- just the samples, the beginnings of the sets and the number of lines.
  pub pm_get_counter_data-send_reply :
      (double_of : List ℕ → R) (watts : List R) (sets : List ℤ) (n_lines : ℕ) (s : Session R)
      (c : CounterT R) (k : Link)
      → 5 ≤ s.sock.writable
      → 0 < k.writable
      → 0 < length watts
      → 0 < length sets
      → All (λ r. double_of (f.double_bytes r) ≡ r) watts
      → All IsInt32 sets
      → 4 * length sets + 8 * length watts < 2 ^ 31
      → n_lines < 2 ^ 31
      → Arrives (header n_lines watts sets) (body watts sets) k.arrivals
      → ((send_reply n_lines (watts, sets) s).1.sock.outbox
          ≡ s.sock.outbox ++ join (header n_lines watts sets) ++ body watts sets)
        × ((pm_get_counter_data double_of c k).0 ≡ ok (received watts sets n_lines c))
        × ((pm_get_counter_data double_of c k).1.sent ≡ k.sent ++ int_bytes (pos 4))
  unfolding pm_get_counter_data
  pm_get_counter_data-send_reply double_of watts sets n_lines s c k sw kw some' begun back ints
        small lines a =
      let k0 : Link = record k { sent = k.sent ++ int_bytes (pos 4); writable = k.writable - 1 } in
      let (ps1, got1, a1) =
        response_lem (length watts) (int_bytes (pos (length sets)) ∷ int_bytes (pos n_lines) ∷ [])
          (body watts sets) k0 (omega arith) a in
      let k1 : Link = record k0 { arrivals = ps1 } in
      let (ps2, got2, a2) =
        expect_int_lem (pos (length sets)) (int_bytes (pos n_lines) ∷ []) (body watts sets) k1
          (ground arith) a1 in
      let k2 : Link = record k0 { arrivals = ps2 } in
      let (ps3, got3, a3) =
        expect_int_lem (pos n_lines) [] (body watts sets) k2 (ground arith) a2 in
      let k3 : Link = record k0 { arrivals = ps3 } in
      let (ps4, got4) = expect_all_lem (body watts sets) k3 a3 in
      let whole = expect_rest_lem watts sets k3 ps4 small got4 in
      let filled = fill_lem double_of watts sets (pos n_lines) c back ints small in
      let run : pm_get_counter_data double_of c k
          ≡ (ok (received watts sets n_lines c), record k0 { arrivals = ps4 }) =
        rw (transmit_lem (int_bytes (pos 4)) k kw, got1, got2, got3, whole, filled) refl in
      (
        send_reply_lem n_lines watts sets s sw some' begun,
        ap (λ r. r.0) run,
        ap (λ r. r.1.sent) run,
      )
