-- ===== src/Client/Parse/Rounds.antt =====
-- The rounds of the second loop of `pm_set_lines` in client/pm_set_lines.c.
use pmlib.Prelude.{
  ℕ, zero, suc, ◌+◌, ◌-◌, ◌<◌, ◌≤◌, ◌≡◌, refl, sym, ◌∙◌, true, some, List, [], ◌∷◌, ◌++◌, arith,
  ltb, length, append_assoc, append-nil, length-append, All,
}
use pmlib.Outcome.{Outcome, ok, ◌and_then◌}
use pmlib.Client.Parse.{Cursor, comma, hyphen, push_range, push_last, step, scan}
use pmlib.Client.Parse.Items.{
  Item, one, span, render_number, render_item, render, count_from, lines_of_item, expand, IsShort,
  ends_number, read_number_lem,
}

-- A round of the second loop that reads a number, and one that reads a range.
scan-number :
    (m n : ℕ) (t : List ℕ) (k : Cursor) {r : Outcome (List ℕ)}
    → m < 100
    → ends_number t ≡ true
    → k.rest ≡ render_number m ++ t
    → (push_last m t (record k { rest = t; line = some m }) and_then scan n) ≡ r
    → scan (suc n) k ≡ r
unfolding scan step
scan-number m n t k h e at p =
    let (c, cs, text, plain, read) = read_number_lem m t h e in rw (at, text) (rw (plain, read) p)

scan-range :
    (a b n : ℕ) (t : List ℕ) (k : Cursor) {r : Outcome (List ℕ)}
    → b < 100
    → ends_number t ≡ true
    → k.rest ≡ hyphen ∷ render_number b ++ t
    → k.line ≡ some a
    → (push_range (b + 1 - a) a (record k { rest = t; line = some a; sep = hyphen })
        and_then scan n)
      ≡ r
    → scan (suc n) k ≡ r
unfolding scan step
scan-range a b n t k h e at line p =
    let (c, cs, text, plain, read) = read_number_lem b t h e in
    rw (at, text) (rw (plain, read, line) p)

push_range_lem :
    (n i : ℕ) (k : Cursor)
    → length k.found + n ≤ 128
    → push_range n i k ≡ ok (record k { found = k.found ++ count_from i n })
unfolding push_range
push_range_lem zero i k h = rw append-nil refl
push_range_lem (suc n) i k h =
    let free : ltb (length k.found) 128 ≡ true = ground arith in
    let longer = length-append k.found (i ∷ []) in
    rw free (
      push_range_lem n (i + 1) (record k { found = k.found ++ i ∷ [] }) (omega arith)
      ∙ rw append_assoc refl)

-- A comma behind a range, and one behind a number, whose line is stored now.
scan-comma_range :
    (n : ℕ) (u : List ℕ) (k : Cursor)
    → k.rest ≡ comma ∷ u
    → k.sep ≡ hyphen
    → scan (suc n) k ≡ scan n (record k { rest = u; sep = comma })
unfolding scan step
scan-comma_range n u k at h = rw (at, h) refl

scan-comma_number :
    (m n : ℕ) (u : List ℕ) (k : Cursor)
    → k.rest ≡ comma ∷ u
    → k.sep ≡ comma
    → k.line ≡ some m
    → length k.found < 128
    → scan (suc n) k
      ≡ scan n (record k { rest = u; sep = comma; line = some m; found = k.found ++ m ∷ [] })
unfolding scan step
scan-comma_number m n u k at h line free =
    let free' : ltb (length k.found) 128 ≡ true = ground arith in rw (at, h, line, free') refl

scan-end : (n : ℕ) (k : Cursor) → k.rest ≡ [] → scan (suc n) k ≡ ok k.found
unfolding scan
scan-end n k h = rw h refl

length-render_number : (m : ℕ) → 1 ≤ length (render_number m)
length-render_number m = ground arith

length-count_from : (a n : ℕ) → length (count_from a n) ≡ n
length-count_from a zero = refl
length-count_from a (suc n) = omega (arith, length-count_from (a + 1) n)

room_of :
    (a b : ℕ) (k : Cursor)
    → length k.found + length (lines_of_item (span a b)) ≤ 128
    → length k.found + (b + 1 - a) ≤ 128
room_of a b k h = omega (arith, length-count_from a (b + 1 - a))

length-span : (a b : ℕ) → 3 ≤ length (render_item (span a b))
length-span a b = omega (
  arith,
  length-render_number a,
  length-render_number b,
  length-append (render_number a) (hyphen ∷ render_number b),
)

scan-span :
    (a b n : ℕ) (t : List ℕ) (k : Cursor)
    → IsShort (span a b)
    → ends_number t ≡ true
    → k.rest ≡ render_item (span a b) ++ t
    → length k.found + (b + 1 - a) ≤ 128
    → scan (suc (suc n)) k
      ≡ scan n (record k {
        rest = t;
        line = some a;
        sep = hyphen;
        found = k.found ++ count_from a (b + 1 - a);
      })
scan-span a b n t k h e at room =
    let behind = hyphen ∷ render_number b ++ t in
    let k' : Cursor = record k { rest = behind; line = some a } in
    scan-number a (suc n) behind k h.0 refl
      (at ∙ append_assoc (render_number a) (hyphen ∷ render_number b) t)
      (scan-range a b n t k' h.1 e refl refl
        (rw (push_range_lem (b + 1 - a) a (record k' { rest = t; sep = hyphen }) room) refl))

-- One item at the end of the text.
scan_last :
    (i : Item) (n : ℕ) (k : Cursor)
    → IsShort i
    → k.rest ≡ render_item i
    → length k.found + length (lines_of_item i) ≤ 128
    → length (render_item i) ≤ n
    → scan (suc n) k ≡ ok (k.found ++ lines_of_item i)
scan_last (one m) zero k h at room fuel = absurd (omega (arith, length-render_number m))
scan_last (one m) (suc n) k h at room fuel =
    let free : ltb (length k.found) 128 ≡ true = ground arith in
    scan-number m (suc n) [] k h refl (at ∙ sym (append-nil _)) (rw free (scan-end n _ refl))
scan_last (span a b) (suc (suc n)) k h at room fuel =
    scan-span a b (suc n) [] k h refl (at ∙ sym (append-nil _)) (room_of a b k room)
    ∙ scan-end n _ refl
scan_last (span a b) zero k h at room fuel = absurd (omega (arith, length-span a b))
scan_last (span a b) (suc zero) k h at room fuel = absurd (omega (arith, length-span a b))

-- One item with a comma and more behind it.
scan_item :
    (i : Item) (u : List ℕ) (n : ℕ) (k : Cursor) {r : Outcome (List ℕ)}
    → IsShort i
    → k.rest ≡ render_item i ++ comma ∷ u
    → k.sep ≡ comma
    → length k.found + length (lines_of_item i) ≤ 128
    → length (render_item i) + 1 + length u ≤ n
    → ((n' : ℕ) (k' : Cursor)
        → k'.rest ≡ u
        → k'.sep ≡ comma
        → k'.found ≡ k.found ++ lines_of_item i
        → length u ≤ n'
        → scan (suc n') k' ≡ r)
    → scan (suc n) k ≡ r
scan_item (one m) u zero k h at sep room fuel next = absurd (omega arith)
scan_item (one m) u (suc zero) k h at sep room fuel next =
    absurd (ground (arith, length-render_number m))
scan_item (one m) u (suc (suc n)) k h at sep room fuel next =
    scan-number m (suc (suc n)) (comma ∷ u) k h refl at (
      scan-comma_number m (suc n) u (record k { rest = comma ∷ u; line = some m }) refl sep refl
        (omega arith)
      ∙ next n _ refl refl refl (omega (arith, length-render_number m)))
scan_item (span a b) u (suc (suc (suc n))) k h at sep room fuel next =
    scan-span a b (suc (suc n)) (comma ∷ u) k h refl at (room_of a b k room)
    ∙ scan-comma_range (suc n) u
        (record k {
          rest = comma ∷ u;
          line = some a;
          sep = hyphen;
          found = k.found ++ count_from a (b + 1 - a);
        })
        refl refl
    ∙ next n _ refl refl refl (omega (arith, length-span a b))
scan_item (span a b) u zero k h at sep room fuel next = absurd (omega (arith, length-span a b))
scan_item (span a b) u (suc zero) k h at sep room fuel next =
    absurd (omega (arith, length-span a b))
scan_item (span a b) u (suc (suc zero)) k h at sep room fuel next =
    absurd (omega (arith, length-span a b))

pub scan-render :
    (is : List Item) (n : ℕ) (k : Cursor)
    → All IsShort is
    → k.rest ≡ render is
    → k.sep ≡ comma
    → length k.found + length (expand is) ≤ 128
    → length (render is) ≤ n
    → scan (suc n) k ≡ ok (k.found ++ expand is)
scan-render [] n k h at sep room fuel = scan-end n k at ∙ rw append-nil refl
scan-render (i ∷ []) n k h at sep room fuel =
    let whole : lines_of_item i ++ [] ≡ lines_of_item i = append-nil _ in
    rw whole (scan_last i n k h.0 at (rw⁻¹ whole room) fuel)
scan-render (i ∷ j ∷ is) n k h at sep room fuel =
    let split = length-append (lines_of_item i) (expand (j ∷ is)) in
    let text = length-append (render_item i) (comma ∷ render (j ∷ is)) in
    scan_item i (render (j ∷ is)) n k h.0 at sep (omega arith) (omega arith)
      (λ n' k' at' sep' f fuel'.
        let longer = length-append k.found (lines_of_item i) in
        scan-render (j ∷ is) n' k' h.1 at' sep' (rw f (omega arith)) fuel'
        ∙ rw (f, append_assoc k.found (lines_of_item i) (expand (j ∷ is))) refl)
