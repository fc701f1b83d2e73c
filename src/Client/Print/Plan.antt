-- ===== src/Client/Print/Plan.antt =====
-- What client/pm_print_data_*.c print: the lines and the sets that are asked for, and where a set is found
-- in the reply.
use pmlib.Prelude.{
  ◌<◌, ◌≡◌, ℕ, zero, suc, ◌+◌, ◌*◌, ◌&&◌, ◌||◌, not, List, [], ◌∷◌, ◌++◌, length, ltb,
  if◌then◌else◌,
}
use pmlib.Prelude.Int.{ℤ, pos, negsuc, ◌-ℤ◌, ltb_ℤ, pos_part}
use pmlib.Map.{nat_key, find}
use pmlib.Outcome.{
  Outcome, ok, throw, crash, ◌and_then◌, or_crash, invalid_argument, out_of_range, uninitialised,
}
use pmlib.Counter.Reply.{sample_at}
use pmlib.Client.Lines.{LineT, line_isset, line_and}
use pmlib.Client.Requests.{CounterT, timelen}

-- Subtraction, and the conversion of an `int` to a `double`.
pub record Difference (R : Type 0) : Type 0 where
  pub subtract : R → R → R
  pub of_ℤ : ℤ → R

-- What `fprintf` is given: literal text, an `int` for `%d` and a `double` for `%f`.
pub data Piece (R : Type 0) : Type 0 where
  text : List ℕ → Piece R
  int_field : ℤ → Piece R
  real_field : R → Piece R

-- `__NLINEBITS`
abbrev pub nlinebits : ℕ
nlinebits = 128

-- The first loop, from bit `i` on with `k` to go: the numbers of lines to print and of lines of the
-- counter, `n_lines_print` and `n_lines_counter`.
unfoldable pub count_lines : ℤ → LineT → LineT → ℕ → ℕ → ℕ → ℕ → ℕ × ℕ
count_lines lines_len p c i zero n m = (n, m)
count_lines lines_len p c i (suc k) n m =
    let rest =
      count_lines lines_len p c (i + 1) k (if line_isset i p then n + 1 else n)
        (if line_isset i c then m + 1 else m) in
    if ltb_ℤ (pos n) lines_len then rest else (n, m)

-- The second loop: `ind_print` and `ind_lines`, as pairs; `j` counts the lines of the counter.
unfoldable pub index_lines : ℤ → LineT → LineT → ℕ → ℕ → ℕ → List (ℕ × ℕ)
index_lines lines_len p c i zero j = []
index_lines lines_len p c i (suc k) j =
    let both = index_lines lines_len p c (i + 1) k (j + 1) in
    let neither = index_lines lines_len p c (i + 1) k j in
    if ltb_ℤ (pos j) lines_len
    then (if line_isset i p && line_isset i c
        then (j, i) ∷ both
        else if not (line_isset i p) && line_isset i c
        then both
        else neither)
    else []

-- The arrays, which have `n_lines_print` elements: the loop above must not write more of them, and the
-- loops below read them all.
abbrev pub arrays : ℕ → List (ℕ × ℕ) → Outcome (List (ℕ × ℕ))
arrays n written =
    if ltb n (length written)
    then crash out_of_range
    else if ltb (length written) n
    then crash uninitialised
    else ok written

abbrev pub append_to {ℓ} : {A : Type ℓ} → List A → Outcome (List A) → Outcome (List A)
append_to xs r = r and_then λ ys. ok (xs ++ ys)

module _ {R : Type 0} where
  -- The lines that are asked for, each by its place among the counter's lines and its number.
  unfoldable pub lines_to_print : CounterT R → LineT → Outcome (List (ℕ × ℕ))
  lines_to_print c lines =
      let p = line_and lines c.lines in
      let len = c.energy.lines_len in
      arrays (count_lines len p c.lines 0 nlinebits 0 0).0 (index_lines len p c.lines 0 nlinebits 0)

  unfoldable pub counter_lines : CounterT R → LineT → ℕ
  counter_lines c lines =
      (count_lines c.energy.lines_len (line_and lines c.lines) c.lines 0 nlinebits 0 0).1

  -- `watts_sets[s]`
  abbrev pub set_at : CounterT R → ℤ → Outcome ℤ
  set_at c s = sample_at c.energy.watts_sets s

  abbrev pub timing_at : CounterT R → ℕ → Outcome R
  timing_at c i =
      if ltb i timelen then or_crash (find i c.timing) uninitialised else crash out_of_range

  -- `init` and the number of sets up to `last`; the guard in front, whose return value is -1.
  unfoldable pub sets_to_print : CounterT R → ℤ → Outcome (ℕ × ℕ)
  sets_to_print c set =
      if ltb_ℤ (c.energy.watts_sets_size -ℤ pos 1) set || ltb_ℤ set (negsuc 0)
      then throw invalid_argument
      else if ltb_ℤ set (pos 0)
      then ok (0, pos_part (c.energy.watts_sets_size -ℤ pos 1))
      else ok (pos_part set, 1)

  -- `ini`, `fin`, `time` of a set.
  unfoldable pub set_bounds : ⦃g : Difference R⦄ → CounterT R → ℕ → Outcome (ℤ × ℤ × R)
  set_bounds ⦃g⦄ c s = set_at c (pos s) and_then λ ini. set_at c (pos (s + 1)) and_then λ fin.
      timing_at c (s * 2 + 1) and_then λ stop.
      timing_at c (s * 2) and_then λ start. ok (ini, fin, g.subtract stop start)

  -- Both ends of each set have been taken down.
  abbrev pub HasTimes : CounterT R → ℕ → (ℕ → R) → (ℕ → R) → Type 0
  HasTimes c n starts stops =
      (s : ℕ)
      → s < n
      → (timing_at c (s * 2) ≡ ok (starts s)) × (timing_at c (s * 2 + 1) ≡ ok (stops s))
