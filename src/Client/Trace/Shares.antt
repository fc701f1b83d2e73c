-- ===== src/Client/Trace/Shares.antt =====
-- The times that client/pm_print_data_paraver_cstates.c adds up for the processors.
use pmlib.Prelude.{
  ℕ, zero, suc, ◌+◌, ◌*◌, ◌/◌, ◌%◌, codes, append-nil, append_assoc, ◌≤◌, ◌<◌, ◌≡◌, ◌≢◌, refl, sym,
  ap, ◌∙◌, subst, Bool, true, false, List, [], ◌∷◌, ◌++◌, ◌==◌, if◌then◌else◌, none, some,
  get_elem?, set, All, arith, length, length-set, Bool-cases, ==_iff, inl, inr,
}
use pmlib.Prelude.Int.{ℤ, pos, ◌+ℤ◌}
use pmlib.Outcome.{ok, crash, out_of_range}
use pmlib.Floating.{Floating}
use pmlib.Counter.Reply.{sample_at}
use pmlib.Client.Print.Plan.{Difference, Piece, text, int_field, real_field}
use pmlib.Client.Print.{scale, zero_real}
use pmlib.Client.Trace.States.{add_state, add_states, state_rows}

module _ {ℓ} {A : Type ℓ} where
  get_elem?-set_self :
      (xs : List A) (i : ℕ) (v : A) → i < length xs → get_elem? (set xs i v) i ≡ some v
  get_elem?-set_self [] i v h = absurd (omega arith)
  get_elem?-set_self (x ∷ xs) zero v h = refl
  get_elem?-set_self (x ∷ xs) (suc i) v h = get_elem?-set_self xs i v (omega arith)

  get_elem?-set_other :
      (xs : List A) (i j : ℕ) (v : A) → i ≢ j → get_elem? (set xs i v) j ≡ get_elem? xs j
  get_elem?-set_other [] i j v h = refl
  get_elem?-set_other (x ∷ xs) zero zero v h = absurd (h refl)
  get_elem?-set_other (x ∷ xs) zero (suc j) v h = refl
  get_elem?-set_other (x ∷ xs) (suc i) zero v h = refl
  get_elem?-set_other (x ∷ xs) (suc i) (suc j) v h =
      get_elem?-set_other xs i j v (λ e. h (ap suc e))

  get_elem?-beyond : (xs : List A) (i : ℕ) → length xs ≤ i → get_elem? xs i ≡ none
  get_elem?-beyond [] i h = refl
  get_elem?-beyond (x ∷ xs) zero h = absurd (omega arith)
  get_elem?-beyond (x ∷ xs) (suc i) h = get_elem?-beyond xs i (omega arith)

-- The lines belong to processors that have a place in the array.
abbrev pub Fits : ℕ → List (ℕ × ℕ) → Type 0
Fits n sel = All (λ (p, l). l / 4 < n) sel

module _ {R : Type 0} ⦃f : Floating R⦄ ⦃g : Difference R⦄ where
  -- The share of the time of a sample that a value, a percentage, stands for.
  abbrev share : R → R → R
  share inc v = f.divide (f.multiply inc v) (f.of_ℕ 100)

  abbrev pub state_event : ℕ → R → List (Piece R)
  state_event l time =
      text (codes "2:0:1:1:")
      ∷ int_field (pos (l / 4 + 1))
      ∷ text (codes ":")
      ∷ real_field time
      ∷ text (codes ":90000000:")
      ∷ int_field (pos (l % 4))
      ∷ text (codes "\n")
      ∷ []

  -- Where each line's value in sample `i` is.
  abbrev pub Reads : List R → (ℕ → ℤ) → List (ℕ × ℕ) → List R → Type 0
  Reads watts place [] [] = Unit
  Reads watts place [] (v ∷ vs) = ⊥
  Reads watts place (x ∷ sel) [] = ⊥
  Reads watts place ((p, l) ∷ sel) (v ∷ vs) =
      (sample_at watts (place p) ≡ ok v) × Reads watts place sel vs

  -- The lines' values in one sample.
  abbrev pub readings : List (ℕ × ℕ) → List R → List (ℕ × R)
  readings ((p, l) ∷ sel) (v ∷ vs) = (l, v) ∷ readings sel vs
  readings _ _ = []

  -- The lines' values in the samples from `i` on.
  abbrev pub ReadsRows : List R → ℤ → List (ℕ × ℕ) → ℤ → List (List R) → Type 0
  ReadsRows watts interval sel i [] = Unit {0}
  ReadsRows watts interval sel i (vs ∷ rows) =
      Reads watts (λ p. i +ℤ scale p interval) sel vs
      × ReadsRows watts interval sel (i +ℤ pos 1) rows

  -- The samples of some rows, in the order in which they are visited.
  abbrev pub all_readings : List (ℕ × ℕ) → List (List R) → List (ℕ × R)
  all_readings sel [] = []
  all_readings sel (vs ∷ rows) = readings sel vs ++ all_readings sel rows

  module _ (is_zero : R → Bool) where
    -- What one sample of a line of processor `c` changes in the time of processor `k`.
    abbrev one : R → ℕ → R → ℕ → R → R
    one inc c v k t = if is_zero v then t else if c == k then f.add t (share inc v) else t

    -- The time of processor `k` behind some samples, each with its line.
    abbrev spent_from : R → ℕ → R → List (ℕ × R) → R
    spent_from inc k t [] = t
    spent_from inc k t ((l, v) ∷ h) = spent_from inc k (one inc (l / 4) v k t) h

    abbrev pub spent : R → ℕ → List (ℕ × R) → R
    spent inc k h = spent_from inc k zero_real h

    -- The event of a line, at the time of its processor behind the samples that were before it and its
    -- own; a sample that is zero has none.
    abbrev pub timeline : R → List (ℕ × R) → List (ℕ × R) → List (Piece R)
    timeline inc before [] = []
    timeline inc before ((l, v) ∷ h) =
        let now = before ++ (l, v) ∷ [] in
        (if is_zero v then [] else state_event l (spent inc (l / 4) now)) ++ timeline inc now h

    timeline-append :
        (inc : R) (before xs ys : List (ℕ × R))
        → timeline inc before (xs ++ ys) ≡ timeline inc before xs ++ timeline inc (before ++ xs) ys
    timeline-append inc before [] ys = rw (append-nil before) refl
    timeline-append inc before ((l, v) ∷ h) ys =
        let now = before ++ (l, v) ∷ [] in
        let first = if is_zero v then [] else state_event l (spent inc (l / 4) now) in
        ap (λ zs. first ++ zs)
          (timeline-append inc now h ys
            ∙ ap (λ b. timeline inc now h ++ timeline inc b ys)
                (append_assoc before ((l, v) ∷ []) h))
        ∙ sym (append_assoc first (timeline inc now h) (timeline inc (before ++ (l, v) ∷ h) ys))

    spent_from-append :
        (inc : R) (k : ℕ) (t : R) (xs ys : List (ℕ × R))
        → spent_from inc k t (xs ++ ys) ≡ spent_from inc k (spent_from inc k t xs) ys
    spent_from-append inc k t [] ys = refl
    spent_from-append inc k t ((l, v) ∷ xs) ys =
        spent_from-append inc k (one inc (l / 4) v k t) xs ys

    -- The array of times `after` what was `before` it, with a change to the time of each processor.
    abbrev pub Changed : (ℕ → R → R) → List R → List R → Type 0
    Changed change before after =
        (length after ≡ length before)
        × ((k : ℕ) (t : R) → get_elem? before k ≡ some t → get_elem? after k ≡ some (change k t))

    change_set :
        (before : List R) (i : ℕ) (change : R → R) (old : R)
        → get_elem? before i ≡ some old
        → i < length before
        → Changed (λ k t. if i == k then change t else t) before (set before i (change old))
    change_set before i change old here h = (
      length-set before i (change old),
      λ k t e. elim (Bool-cases (i == k)) [
        | inl q ↦
            let same = (==_iff i k).0 q in
            let found : some old ≡ some t = sym here ∙ ap (get_elem? before) same ∙ e in
            let now : some (change old) ≡ some (change t) = cc in
            rw q (
              subst (λ n. get_elem? (set before i (change old)) n ≡ some (change t)) same
                (get_elem?-set_self before i (change old) h ∙ now))
        | inr q ↦
            let other : i ≢ k = ground arith in
            rw q (get_elem?-set_other before i k (change old) other ∙ e)
      ],
    )

    -- The array holds the times of `n` processors behind some samples.
    abbrev pub Tracks : ℕ → R → List (ℕ × R) → List R → Type 0
    Tracks n inc h value_ant =
        (length value_ant ≡ n) × ((k : ℕ) → k < n → get_elem? value_ant k ≡ some (spent inc k h))

    add_state-Tracks :
        (n : ℕ) (inc : R) (l : ℕ) (v : R) (h : List (ℕ × R)) (before : List R)
        → l / 4 < n
        → Tracks n inc h before
        → (mid : List R) × ((if is_zero v
              then ok ([], before)
              else add_state inc l v before (get_elem? before (l / 4)))
            ≡ ok (
              if is_zero v then [] else state_event l (spent inc (l / 4) (h ++ (l, v) ∷ [])),
              mid,
            ))
          × Tracks n inc (h ++ (l, v) ∷ []) mid
    add_state-Tracks n inc l v h before small tracks =
        let x : List (ℕ × R) = (l, v) ∷ [] in
        let grown : (k : ℕ) → spent inc k (h ++ x) ≡ one inc (l / 4) v k (spent inc k h) =
          λ k. spent_from-append inc k zero_real h x in
        elim (Bool-cases (is_zero v)) [
          | inl q ↦ (
            before,
            rw q refl,
            (tracks.0, λ k lt. tracks.1 k lt ∙ ap some (sym (grown k ∙ rw q refl))),
          )
          | inr q ↦
              let old = spent inc (l / 4) h in
              let here : get_elem? before (l / 4) ≡ some old = tracks.1 (l / 4) small in
              let change = λ (t : R). f.add t (share inc v) in
              let same : (l / 4 == l / 4) ≡ true = (==_iff (l / 4) (l / 4)).1 refl in
              let own : change old ≡ spent inc (l / 4) (h ++ x) =
                sym (grown (l / 4) ∙ rw (q, same) refl) in
              let mid = set before (l / 4) (change old) in
              let (long, changed) =
                change_set before (l / 4) change old here (omega (arith, tracks.0)) in
              (
                mid,
                rw (q, here) (ap (λ r. ok (state_event l r, mid)) own),
                (
                  long ∙ tracks.0,
                  λ k lt. changed k _ (tracks.1 k lt) ∙ ap some (sym (grown k ∙ rw q refl)),
                ),
              )
        ]

    add_states-timeline :
        (n : ℕ) (inc : R) (watts : List R) (place : ℕ → ℤ) (sel : List (ℕ × ℕ)) (vs : List R)
        (h : List (ℕ × R)) (value_ant : List R)
        → Reads watts place sel vs
        → Fits n sel
        → Tracks n inc h value_ant
        → (after : List R) × (add_states is_zero inc watts place sel value_ant
            ≡ ok (timeline inc h (readings sel vs), after))
          × Tracks n inc (h ++ readings sel vs) after
    unfolding add_states
    add_states-timeline n inc watts place [] [] h value_ant read fit tracks =
        (value_ant, refl, rw (append-nil h) tracks)
    add_states-timeline n inc watts place [] (v ∷ vs) h value_ant read fit tracks = absurd read
    add_states-timeline n inc watts place (x ∷ sel) [] h value_ant read fit tracks = absurd read
    add_states-timeline n inc watts place ((p, l) ∷ sel) (v ∷ vs) h value_ant read fit tracks =
        let (mid, step, tracks') = add_state-Tracks n inc l v h value_ant fit.0 tracks in
        let (after, rest, tracks'') =
          add_states-timeline n inc watts place sel vs (h ++ (l, v) ∷ []) mid read.1 fit.1
            tracks' in
        (
          after,
          rw (read.0, step, rest) refl,
          subst (λ z. Tracks n inc z after) (append_assoc h ((l, v) ∷ []) (readings sel vs))
              tracks'',
        )

    pub state_rows-timeline :
        (n : ℕ) (inc : R) (watts : List R) (interval : ℤ) (sel : List (ℕ × ℕ)) (i : ℤ)
        (rows : List (List R)) (h : List (ℕ × R)) (value_ant : List R)
        → ReadsRows watts interval sel i rows
        → Fits n sel
        → Tracks n inc h value_ant
        → (after : List R) × (state_rows is_zero inc watts interval sel (length rows) i value_ant
            ≡ ok (timeline inc h (all_readings sel rows), after))
    unfolding state_rows
    state_rows-timeline n inc watts interval sel i [] h value_ant read fit tracks =
        (value_ant, refl)
    state_rows-timeline n inc watts interval sel i (vs ∷ rows) h value_ant read fit tracks =
        let (mid, step, tracks') =
          add_states-timeline n inc watts (λ p. i +ℤ scale p interval) sel vs h value_ant read.0 fit
            tracks in
        let (after, rest) =
          state_rows-timeline n inc watts interval sel (i +ℤ pos 1) rows (h ++ readings sel vs) mid
            read.1 fit tracks' in
        (
          after,
          rw (step, rest, timeline-append inc h (readings sel vs) (all_readings sel rows)) refl,
        )

    pub add_states_beyond :
        (n : ℕ) (inc : R) (watts : List R) (place : ℕ → ℤ) (sel : List (ℕ × ℕ)) (vs : List R)
        (p l : ℕ) (v : R) (rest : List (ℕ × ℕ)) (h : List (ℕ × R)) (value_ant : List R)
        → Reads watts place sel vs
        → Fits n sel
        → Tracks n inc h value_ant
        → sample_at watts (place p) ≡ ok v
        → is_zero v ≡ false
        → 4 * n ≤ l
        → add_states is_zero inc watts place (sel ++ ((p, l) ∷ rest)) value_ant ≡ crash out_of_range
    unfolding add_states
    add_states_beyond n inc watts place [] [] p l v rest h value_ant read fit tracks at nonzero
          far =
        let outside : length value_ant ≤ l / 4 = omega (arith, tracks.0) in
        rw (at, nonzero, get_elem?-beyond value_ant (l / 4) outside) refl
    add_states_beyond n inc watts place [] (_ ∷ _) p l v rest h value_ant read fit tracks at nonzero
          far =
        absurd read
    add_states_beyond n inc watts place (x ∷ sel) [] p l v rest h value_ant read fit tracks at
          nonzero far =
        absurd read
    add_states_beyond n inc watts place ((q, m) ∷ sel) (w ∷ vs) p l v rest h value_ant read fit
          tracks at nonzero far =
        let (mid, step, tracks') = add_state-Tracks n inc m w h value_ant fit.0 tracks in
        let later =
          add_states_beyond n inc watts place sel vs p l v rest (h ++ (m, w) ∷ []) mid read.1 fit.1
            tracks' at nonzero far in
        rw (read.0, step, later) refl
