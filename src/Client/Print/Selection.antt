-- ===== src/Client/Print/Selection.antt =====
-- The lines that client/pm_print_data_*.c choose for printing, against the list of the counter's lines.
use pmlib.Prelude.{
  ℕ, zero, suc, ◌+◌, ◌≤◌, ◌≡◌, refl, ap, ◌∙◌, List, [], ◌∷◌, arith, if◌then◌else◌, length,
  Bool-cases, inl, inr,
}
use pmlib.Prelude.Int.{pos, ltb_ℤ}
use pmlib.Outcome.{ok}
use pmlib.Client.Lines.{LineT, line_isset, line_and}
use pmlib.Client.Lines.Laws.{IsLineT, line_isset-line_and}
use pmlib.Client.Requests.{CounterT}
use pmlib.Client.Print.Plan.{count_lines, index_lines, lines_to_print, counter_lines, nlinebits}

-- The lines that a bit map has, among the `k` from line `i` on.
unfoldable pub set_lines : LineT → ℕ → ℕ → List ℕ
set_lines c i zero = []
set_lines c i (suc k) =
    let rest = set_lines c (i + 1) k in if line_isset i c then i ∷ rest else rest

-- Those of some lines that are asked for, each with its place in the list, which begins at `j`.
unfoldable pub places : LineT → ℕ → List ℕ → List (ℕ × ℕ)
places lines j [] = []
places lines j (l ∷ ls) =
    let rest = places lines (j + 1) ls in if line_isset l lines then (j, l) ∷ rest else rest

empty_of : (ls : List ℕ) → length ls ≡ 0 → ls ≡ []
empty_of [] h = refl
empty_of (l ∷ ls) h = absurd (omega arith)

module _ (lines c : LineT) (ok' : IsLineT lines) (ok'' : IsLineT c) where
  index_lines_lem :
      (i k j len : ℕ)
      → j + length (set_lines c i k) ≡ len
      → index_lines (pos len) (line_and lines c) c i k j ≡ places lines j (set_lines c i k)
  unfolding index_lines set_lines places
  index_lines_lem i zero j len e = refl
  index_lines_lem i (suc k) j len e =
      let both = line_isset-line_and i lines c ok' ok'' in
      elim (Bool-cases (ltb_ℤ (pos j) (pos len))) [
        | inr full ↦
            let none_left : set_lines c i (suc k) ≡ [] = empty_of _ (ground arith) in
            rw (full, none_left) refl
        | inl more ↦ elim (Bool-cases (line_isset i c)) [
          | inl here ↦
              let rest = index_lines_lem (i + 1) k (j + 1) len (ground arith) in
              ground (arith, rest, both)
          | inr gone ↦
              let rest = index_lines_lem (i + 1) k j len (ground arith) in
              ground (arith, rest, both)
        ]
      ]

  count_lines_lem :
      (i k n m j len : ℕ)
      → n + length (set_lines c i k) ≤ len
      → count_lines (pos len) (line_and lines c) c i k n m
        ≡ (n + length (places lines j (set_lines c i k)), m + length (set_lines c i k))
  unfolding count_lines set_lines places
  count_lines_lem i zero n m j len e = ground arith
  count_lines_lem i (suc k) n m j len e =
      let both = line_isset-line_and i lines c ok' ok'' in
      elim (Bool-cases (ltb_ℤ (pos n) (pos len))) [
        | inr full ↦
            let none_left : set_lines c i (suc k) ≡ [] = empty_of _ (ground arith) in
            rw (full, none_left) (ground arith)
        | inl more ↦ elim (Bool-cases (line_isset i c)) [
          | inr gone ↦
              let rest = count_lines_lem (i + 1) k n m j len (ground arith) in
              ground (arith, rest, both)
          | inl here ↦ elim (Bool-cases (line_isset i lines)) [
            | inl asked ↦
                let rest = count_lines_lem (i + 1) k (n + 1) (m + 1) (j + 1) len (ground arith) in
                ground (arith, rest, both)
            | inr skipped ↦
                let rest = count_lines_lem (i + 1) k n (m + 1) (j + 1) len (ground arith) in
                ground (arith, rest, both)
          ]
        ]
      ]

module _ {R : Type 0} where
  -- `lines_len` is the number of lines of the counter's bit map.
  abbrev pub HasLines : CounterT R → Type 0
  HasLines c = c.energy.lines_len ≡ pos (length (set_lines c.lines 0 nlinebits))

  abbrev pub asked : CounterT R → LineT → List (ℕ × ℕ)
  asked c lines = places lines 0 (set_lines c.lines 0 nlinebits)

  pub lines_to_print_lem :
      (c : CounterT R) (lines : LineT)
      → IsLineT lines
      → IsLineT c.lines
      → HasLines c
      → (lines_to_print c lines ≡ ok (asked c lines))
        × (counter_lines c lines ≡ length (set_lines c.lines 0 nlinebits))
  unfolding lines_to_print counter_lines
  lines_to_print_lem c lines ok' ok'' h =
      let ls = set_lines c.lines 0 nlinebits in
      let counted =
        count_lines_lem lines c.lines ok' ok'' 0 nlinebits 0 0 0 (length ls) (omega arith) in
      let indexed =
        index_lines_lem lines c.lines ok' ok'' 0 nlinebits 0 (length ls) (omega arith) in
      let from : count_lines c.energy.lines_len (line_and lines c.lines) c.lines 0 nlinebits 0 0
          ≡ (0 + length (places lines 0 ls), 0 + length ls) =
        rw h counted in
      (rw (h, counted, indexed) (ground arith), ap (λ r. r.1) from ∙ omega arith)
