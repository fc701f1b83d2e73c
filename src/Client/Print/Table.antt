-- ===== src/Client/Print/Table.antt =====
-- What `pm_print_data_text` of client/pm_print_data_text.c prints of a whole reply.
use pmlib.Prelude.{
  ℕ, suc, ◌+◌, ◌*◌, ◌≡◌, refl, sym, ap, ◌∙◌, List, [], ◌∷◌, ◌++◌, arith, length, All, subst,
  length-append, append_assoc, false, ◌||◌,
}
use pmlib.Prelude.Int.{ℤ, pos, negsuc, ◌-ℤ◌, +ℤ-pos, -ℤ-pos, ltb_ℤ}
use pmlib.Map.{nat_key}
use pmlib.Outcome.{ok}
use pmlib.Floating.{Floating}
use pmlib.Counter.Reply.{sample_at}
use pmlib.Client.Lines.{LineT}
use pmlib.Client.Lines.Laws.{IsLineT}
use pmlib.Client.Requests.{CounterT}
use pmlib.Client.Print.Plan.{
  HasTimes, Difference, set_at, timing_at, sets_to_print, set_bounds, nlinebits,
}
use pmlib.Client.Print.Selection.{set_lines, HasLines, asked, lines_to_print_lem}
use pmlib.Client.Print.Layout.{Block, boundaries, flat, watts_of, IsFull, length-flat}
use pmlib.Client.Print.{
  tab, zero_real, increment, line_header, text_sets, print_text_lines, whole_interval,
  pm_print_data_text, aggregates,
}
use pmlib.Client.Print.Rows.{AreBelow, places-AreBelow, table, line_rows_lem, minus_one}

module _ {R : Type 0} ⦃f : Floating R⦄ ⦃g : Difference R⦄ where
  -- The ends of the sets from `s` on are those of `bs`, which begin at `a`.
  abbrev HasSets : CounterT R → ℕ → ℕ → List (Block R) → Type 0
  HasSets c s a bs = (k : ℕ) → set_at c (pos (s + k)) ≡ sample_at (boundaries a bs) (pos k)

  first_boundary : (a : ℕ) (bs : List (Block R)) → sample_at (boundaries a bs) (pos 0) ≡ ok (pos a)
  first_boundary a [] = refl
  first_boundary a (b ∷ bs) = refl

  set_bounds_lem :
      (c : CounterT R) (s a : ℕ) (b : Block R) (bs : List (Block R)) (start stop : R)
      → HasSets c s a (b ∷ bs)
      → timing_at c (s * 2) ≡ ok start
      → timing_at c (s * 2 + 1) ≡ ok stop
      → set_bounds c s ≡ ok (pos a, pos (a + b.size), g.subtract stop start)
  unfolding set_bounds
  set_bounds_lem c s a b bs start stop sets p q =
      let here : set_at c (pos s) ≡ ok (pos a) =
        subst (λ n. set_at c (pos n) ≡ ok (pos a)) (omega arith) (sets 0) in
      rw (here, sets 1 ∙ first_boundary (a + b.size) bs, q, p) refl

  text_sets_lem :
      (c : CounterT R) (m : ℕ) (sel : List (ℕ × ℕ)) (starts stops : ℕ → R) (n s a : ℕ)
      (pre : List R) (bs : List (Block R))
      → c.energy.watts ≡ pre ++ watts_of bs
      → AreBelow m sel
      → All (IsFull m) bs
      → s + length bs ≡ n
      → HasTimes c n starts stops
      → HasSets c s a bs
      → text_sets tab c m sel (pos (length pre)) s (length bs)
        ≡ ok (table sel (λ s. g.subtract (stops s) (starts s)) s bs)
  unfolding text_sets
  text_sets_lem c m sel starts stops n s a pre [] watts below full e times sets = refl
  text_sets_lem c m sel starts stops n s a pre (b ∷ bs) watts below full e times sets =
      let (start, stop) = times s (omega arith) in
      let later : HasSets c (s + 1) (a + b.size) bs = λ k.
        subst (λ n. set_at c (pos n) ≡ sample_at (boundaries (a + b.size) bs) (pos k)) (omega arith)
          (sets (suc k)) in
      let behind : length (pre ++ flat b.samples) ≡ length pre + b.size * m = grind (
        arith,
        length-append pre (flat b.samples),
        length-flat b.size b.samples full.0.1,
        full.0.0,
      ) in
      let rest =
        text_sets_lem c m sel starts stops n (s + 1) (a + b.size) (pre ++ flat b.samples) bs
          (watts ∙ sym (append_assoc pre (flat b.samples) (watts_of bs))) below full.1 (omega arith)
          times later in
      let long : pos (a + b.size) -ℤ pos a ≡ pos b.size =
        -ℤ-pos (a + b.size) a (omega arith) ∙ ap pos (omega arith) in
      let time = g.subtract (stops s) (starts s) in
      let inc = f.divide time (g.of_ℤ (pos b.size -ℤ pos 1)) in
      let inc_time : increment (pos a) (pos (a + b.size)) time ≡ inc =
        ap (λ z. f.divide time (g.of_ℤ (z -ℤ pos 1))) long in
      rw
        (
          set_bounds_lem c s a b bs (starts s) (stops s) sets start stop,
          inc_time,
          long,
          watts,
          line_rows_lem b pre (watts_of bs) m s sel inc b.size 0 zero_real full.0 below
              (omega arith),
          +ℤ-pos (length pre) (b.size * m),
          ← behind,
          rest,
        )
        refl

  -- A reply to a counter that does not aggregate: the arrays hold these sets, one after another.
  abbrev pub Holds : CounterT R → List (Block R) → Type 0
  Holds c bs =
      (c.aggregate ≡ pos 0)
      × (c.energy.watts ≡ watts_of bs)
      × (c.energy.watts_sets ≡ boundaries 0 bs)
      × (c.energy.watts_sets_size ≡ pos (suc (length bs)))

  pub last_boundary :
      (a : ℕ) (bs : List (Block R))
      → (e : ℤ) × (sample_at (boundaries a bs) (pos (length bs)) ≡ ok e)
  last_boundary a [] = (pos a, refl)
  last_boundary a (b ∷ bs) = last_boundary (a + b.size) bs

  pub whole_interval_lem :
      (c : CounterT R) (bs : List (Block R)) → Holds c bs → (w : ℤ) × (whole_interval c ≡ ok w)
  whole_interval_lem c bs (plain, watts, sets, size) =
      let (e, at) = last_boundary 0 bs in
      let last : set_at c (c.energy.watts_sets_size -ℤ pos 1) ≡ ok e =
        subst (λ z. set_at c (z -ℤ pos 1) ≡ ok e) (sym size)
          (subst (λ ss. sample_at ss (pos (suc (length bs)) -ℤ pos 1) ≡ ok e) (sym sets)
            (rw (minus_one (length bs)) at)) in
      let first : set_at c (pos 0) ≡ ok (pos 0) =
        subst (λ ss. sample_at ss (pos 0) ≡ ok (pos 0)) (sym sets) (first_boundary 0 bs) in
      (e -ℤ pos 0, rw (last, first) refl)

  all_sets :
      (c : CounterT R) (bs : List (Block R))
      → Holds c bs
      → sets_to_print c (negsuc 0) ≡ ok (0, length bs)
  unfolding sets_to_print
  all_sets c bs (plain, watts, sets, size) =
      let size' : c.energy.watts_sets_size -ℤ pos 1 ≡ pos (length bs) =
        ap (λ z. z -ℤ pos 1) size ∙ minus_one (length bs) in
      rw size' (ground arith)

  from_start : (c : CounterT R) (bs : List (Block R)) → Holds c bs → HasSets c 0 0 bs
  from_start c bs held k =
      let at : set_at c (pos k) ≡ sample_at (boundaries 0 bs) (pos k) =
        ap (λ ss. sample_at ss (pos k)) held.2 in
      subst (λ n. set_at c (pos n) ≡ sample_at (boundaries 0 bs) (pos k)) (omega arith) at

  -- Let a counter that does not aggregate hold a reply with a number of sets, each with as many
  -- samples for each line of the counter's bit map, and let both ends of each set have been taken
  -- down. Then pm_print_data_text, asked for all sets, prints the header and, for each set and each
  -- sample of it, one row: the set, the time, that sample of each line that is asked for and the
  -- counter has, and their sum; no read is out of range.
  pub pm_print_data_text-table :
      (c : CounterT R) (lines : LineT) (bs : List (Block R)) (starts stops : ℕ → R)
      → IsLineT lines
      → IsLineT c.lines
      → HasLines c
      → Holds c bs
      → All (IsFull (length (set_lines c.lines 0 nlinebits))) bs
      → HasTimes c (length bs) starts stops
      → pm_print_data_text c lines (negsuc 0)
        ≡ ok (
            line_header tab (asked c lines)
            ++ table (asked c lines) (λ s. g.subtract (stops s) (starts s)) 0 bs)
  unfolding pm_print_data_text print_text_lines
  pm_print_data_text-table c lines bs starts stops ok' ok'' len held full times =
      let m = length (set_lines c.lines 0 nlinebits) in
      let (chosen, counted) = lines_to_print_lem c lines ok' ok'' len in
      let below = places-AreBelow lines 0 m (set_lines c.lines 0 nlinebits) (omega arith) in
      let all =
        text_sets_lem c m (asked c lines) starts stops (length bs) 0 0 [] bs held.1 below full
          (omega arith) times (from_start c bs held) in
      let (w, whole) = whole_interval_lem c bs held in
      let plain : aggregates c ≡ false = ap (λ z. ltb_ℤ z (pos 0) || ltb_ℤ (pos 0) z) held.0 in
      rw (plain, all_sets c bs held, chosen, whole, counted, all) refl
