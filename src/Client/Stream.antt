-- ===== src/Client/Stream.antt =====
-- Paraver's trace of a reply, written while the reply arrives: client/pm_get_and_print_data_paraver.c.
-- What it had printed when it leaves by `exit(1)` is left out.
pub mod Missed
use pmlib.Prelude.{
  ℕ, zero, suc, ◌+◌, ◌-◌, ◌^◌, Bool, ◌&&◌, List, [], ◌∷◌, ◌++◌, codes, leb, ltb, ◌==◌,
  if◌then◌else◌, Option, none, some,
}
use pmlib.Prelude.Int.{ℤ, pos, negsuc}
use pmlib.Map.{Name}
use pmlib.Outcome.{
  Outcome, ok, crash, M, ◌>>=◌, ◌>>◌, lift, pure, undefined, ◌and_then◌, out_of_fuel,
}
use pmlib.Wire.{int_bytes, int_of_bytes}
use pmlib.Floating.{Floating}
use pmlib.Client.{Link, expect, expect_int, response, transmit}
use pmlib.Client.Lines.{LineT}
use pmlib.Client.Requests.{CounterT}
use pmlib.Client.Data.{count, bytes_of, allocate, expect_rest, elements}
use pmlib.Client.Print.{whole_interval, aggregates, zero_real}
use pmlib.Client.Print.Plan.{Difference, Piece, set_at, lines_to_print, sets_to_print}
use pmlib.Client.Trace.{extent, in_unit, paraver_header, step_time, event, sum_code, start_time}

-- An `int` compared with an `unsigned long long`.
abbrev pub unsigned : ℤ → ℕ
unsigned (pos n) = n
unsigned (negsuc n) = 2 ^ 64 - suc n

-- `read >= ini && read < fin`
abbrev pub within : ℤ → ℤ → ℕ → Bool
within ini fin read = leb (unsigned ini) read && ltb read (unsigned fin)

-- The loop over `ind_print`: the number of the line that is in place `current_line`.
abbrev pub line_in : ℕ → List (ℕ × ℕ) → Option ℕ
line_in current_line [] = none
line_in current_line ((p, l) ∷ sel) =
    let rest = line_in current_line sel in if current_line == p then some l else rest

module _ {R : Type 0} ⦃f : Floating R⦄ ⦃g : Difference R⦄ (double_of : List ℕ → R) where
  -- What is printed of a sample, and the time behind it.
  abbrev pub sample_event : R → Option ℤ → Bool → R → R → List (Piece R) × R
  sample_event inc none printed tm v = ([], tm)
  sample_event inc (some code) printed tm v =
      if printed then (event (pos 1) tm code v, f.add tm inc) else ([], tm)

  -- `n` samples, received one by one; `read` counts those before them.
  unfoldable pub read_samples : Option ℤ → R → ℤ → ℤ → ℕ → ℕ → R → M Link (List (Piece R))
  read_samples code inc ini fin zero read tm = pure []
  read_samples code inc ini fin (suc n) read tm = do
    bytes ← expect 8
    let now = sample_event inc code (within ini fin (read + 1)) tm (double_of bytes)
    later ← read_samples code inc ini fin n (read + 1) now.1
    pure (now.0 ++ later)

  abbrev pub line_code : Option ℕ → Option ℤ
  line_code none = none
  line_code (some l) = some (pos (500000010 + l))

  -- Line after line, until `watts_size` samples have been read; `steps` bounds the number of lines. The
  -- loop has no end where lines have no samples. The first line begins at `tm`, the others at 0.
  unfoldable pub read_lines :
      ℕ → ℕ → ℕ → List (ℕ × ℕ) → R → ℤ → ℤ → ℕ → ℕ → R → M Link (List (Piece R))
  read_lines zero watts_size interval sel inc ini fin read current_line tm =
      if ltb read watts_size then undefined out_of_fuel else pure []
  read_lines (suc steps) watts_size interval sel inc ini fin read current_line tm =
      let rest =
        read_lines steps watts_size interval sel inc ini fin (read + interval) (current_line + 1)
          zero_real in
      if ltb read watts_size
      then (do
        xs ← read_samples (line_code (line_in current_line sel)) inc ini fin interval read tm
        ys ← rest
        pure (xs ++ ys))
      else pure []

  -- The sizes and the array of sets; the samples have not been read yet.
  abbrev pub fill_sets : ℕ → ℤ → ℤ → List ℕ → CounterT R → Outcome (CounterT R)
  fill_sets watts_size sets_size lines_len bytes c =
      allocate (count sets_size) 4 (bytes_of 4 sets_size) and_then λ _.
      elements int_of_bytes 4 (count sets_size) bytes and_then λ (sets, more). ok (record c {
        energy = record c.energy {
          watts_size = watts_size;
          watts_sets_size = sets_size;
          watts_sets = sets;
          lines_len = lines_len;
        };
      })

  -- `ini` and `fin`: the beginning of the first set and the end of the last one.
  abbrev pub range_ends : CounterT R → ℕ × ℕ → Outcome (ℤ × ℤ)
  range_ends c (init, n) =
      set_at c (pos init) and_then λ ini. set_at c (pos (init + n)) and_then λ fin. ok (ini, fin)

  abbrev pub range_time : CounterT R → ℤ → Outcome (R × (ℤ × ℤ))
  range_time c set = sets_to_print c set and_then λ range.
      start_time c set and_then λ tm. range_ends c range and_then λ ends. ok (tm, ends)

  unfoldable pub stream_aggregate : CounterT R → ℤ → R → M Link (List (Piece R))
  stream_aggregate c set inc = do
    at ← lift (range_time c set)
    read_samples (some sum_code) inc at.1.0 at.1.1 c.energy.watts_size 0 at.0

  unfoldable pub stream_lines : CounterT R → LineT → ℤ → R → M Link (List (Piece R))
  stream_lines c lines set inc = do
    at ← lift (range_time c set)
    sel ← lift (lines_to_print c lines)
    interval ← lift (whole_interval c)
    read_lines c.energy.watts_size c.energy.watts_size (unsigned interval) sel inc at.1.0 at.1.1 0 0
        at.0

  -- What is printed, and the counter; the return value is 1.
  unfoldable pub pm_get_and_print_data_paraver :
      Name → CounterT R → LineT → ℤ → Name → M Link (List (Piece R) × CounterT R)
  pm_get_and_print_data_paraver date c lines set unit = do
    transmit (int_bytes (pos 4))
    watts_size ← response
    sets_size ← expect_int
    lines_len ← expect_int
    bytes ← expect_rest (bytes_of 4 sets_size)
    c' ← lift (fill_sets watts_size sets_size lines_len bytes c)
    size ← lift (extent (negsuc 0) c' set set)
    let t = in_unit unit size.0
    let inc = step_time t size.1
    printed ← (if aggregates c' then stream_aggregate c' set inc else stream_lines c' lines set inc)
    pure (paraver_header date unit t (codes ":1(1):1:1:(1:1)\n") ++ printed, c')
