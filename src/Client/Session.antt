-- ===== src/Client/Session.antt =====
-- A client that measures: client/pm_start_counter.c, client/pm_stop_counter.c and
-- client/pm_continue_counter.c in turn, against a server that answers each request with success.
use pmlib.Prelude.{
  ℕ, zero, suc, sym, ◌+◌, ◌-◌, ◌*◌, ◌<◌, ◌≤◌, ◌≡◌, refl, ◌∙◌, ap, true, false, [], ◌++◌, arith,
  subst, ltb, ◌==◌, ==_iff, if◌then◌else◌, replicate, Bool-cases, inl, inr,
}
use pmlib.Prelude.Int.{ℤ, pos}
use pmlib.Map.{nat_key, insert_or_assign, find-insert}
use pmlib.Outcome.{Outcome, ok, crash, M, ◌>>=◌, pure, out_of_range}
use pmlib.Wire.{int_bytes}
use pmlib.Client.{Link}
use pmlib.Client.Requests.{
  CounterT, timelen, command, set_timing, pm_start_counter, pm_stop_counter, pm_continue_counter,
}
use pmlib.Client.Arrivals.{Arrives, response_lem, transmit_lem}
use pmlib.Client.Print.Plan.{timing_at, HasTimes}

-- `n` more requests can be sent, and are answered with success.
abbrev pub Answers : ℕ → Link → Type 0
Answers n k = Arrives (replicate n (int_bytes (pos 0))) [] k.arrivals × (n ≤ k.writable)

command_lem :
    (z : ℤ) (n : ℕ) (k : Link)
    → Answers (suc n) k
    → (k' : Link) × (command z k ≡ (ok 0, k')) × Answers n k'
unfolding command
command_lem z n k (a, room) =
    let sent : Link = record k { sent = k.sent ++ int_bytes z; writable = k.writable - 1 } in
    let (ps, got, later) =
      response_lem 0 (replicate n (int_bytes (pos 0))) [] sent (omega arith) a in
    (
      record sent { arrivals = ps },
      rw (transmit_lem (int_bytes z) k (omega arith), got) refl,
      (later, omega arith),
    )

double : (n : ℕ) → suc n * 2 ≡ suc (suc (n * 2))
double n = omega arith

module _ {R : Type 0} (starts stops : ℕ → R) where
  -- Round after round of continue and stop, `n` of them from round `j` on.
  abbrev pub rounds : ℕ → ℕ → CounterT R → M Link (CounterT R)
  rounds zero j c = pure c
  rounds (suc n) j c = do
    continued ← pm_continue_counter (starts j) c
    stopped ← pm_stop_counter (stops j) continued.1
    rounds n (j + 1) stopped.1

  -- The first one begins with a start instead.
  abbrev pub measure : ℕ → CounterT R → M Link (CounterT R)
  measure n c = do
    started ← pm_start_counter (starts 0) c
    stopped ← pm_stop_counter (stops 0) started.1
    rounds n 1 stopped.1

  abbrev written : ℕ → R → CounterT R → CounterT R
  written i t c = record c { timing = insert_or_assign i t c.timing }

  set_timing_lem :
      (i : ℕ) (t : R) (c : CounterT R) → i < timelen → set_timing i t c ≡ ok (written i t c)
  set_timing_lem i t c h = ground arith

  -- The counter after round `j`.
  abbrev after_round : ℕ → CounterT R → CounterT R
  after_round j c =
      let i = c.next_timing * 2 in
      record c {
        next_timing = c.next_timing + 1;
        timing = insert_or_assign (i + 1) (stops j) (insert_or_assign i (starts j) c.timing);
      }

  timing_at-written :
      (i j : ℕ) (t : R) (c : CounterT R)
      → i < timelen
      → timing_at (written i t c) j ≡ (if i == j then ok t else timing_at c j)
  timing_at-written i j t c h = ground (arith, find-insert {V = R} j i t c.timing)

  -- An entry after both writes of a round.
  timing_at-after_round :
      (j i : ℕ) (c : CounterT R)
      → c.next_timing < 5000
      → timing_at (after_round j c) i ≡ (
          if c.next_timing * 2 + 1 == i
          then ok (stops j)
          else (if c.next_timing * 2 == i then ok (starts j) else timing_at c i))
  timing_at-after_round j i c h =
      let mid = written (c.next_timing * 2) (starts j) c in
      timing_at-written (c.next_timing * 2 + 1) i (stops j) mid (omega arith)
      ∙ ap (λ r. if c.next_timing * 2 + 1 == i then ok (stops j) else r)
          (timing_at-written (c.next_timing * 2) i (starts j) c (omega arith))

  after_round-HasTimes :
      (j : ℕ) (c : CounterT R)
      → c.next_timing ≡ j
      → j < 5000
      → HasTimes c j starts stops
      → HasTimes (after_round j c) (suc j) starts stops
  after_round-HasTimes j c e h times s hs =
      let low = timing_at-after_round j (s * 2) c (omega arith) in
      let high = timing_at-after_round j (s * 2 + 1) c (omega arith) in
      elim (Bool-cases (s == j)) [
        | inl last ↦
            let same : s ≡ j = (==_iff s j).0 last in
            let n1 : (c.next_timing * 2 + 1 == s * 2) ≡ false = ground arith in
            let n2 : (c.next_timing * 2 == s * 2) ≡ true = ground arith in
            let n3 : (c.next_timing * 2 + 1 == s * 2 + 1) ≡ true = ground arith in
            (
              low ∙ (rw (n1, n2) (ap (λ i. ok (starts i)) (sym same))),
              high ∙ (rw n3 (ap (λ i. ok (stops i)) (sym same))),
            )
        | inr before ↦
            let n1 : (c.next_timing * 2 + 1 == s * 2) ≡ false = ground arith in
            let n2 : (c.next_timing * 2 == s * 2) ≡ false = ground arith in
            let n3 : (c.next_timing * 2 + 1 == s * 2 + 1) ≡ false = ground arith in
            let n4 : (c.next_timing * 2 == s * 2 + 1) ≡ false = ground arith in
            let (start, stop) = times s (ground arith) in
            (low ∙ (rw (n1, n2) start), high ∙ (rw (n3, n4) stop))
      ]

  -- A round, and what follows it.
  round_lem :
      (n j : ℕ) (c : CounterT R) (k : Link) (f : CounterT R → M Link (CounterT R))
      → c.next_timing < 5000
      → Answers (suc (suc n)) k
      → (k' : Link) × ((do
        continued ← pm_continue_counter (starts j) c
        stopped ← pm_stop_counter (stops j) continued.1
        f stopped.1)
            k
          ≡ f (after_round j c) k')
        × Answers n k'
  unfolding pm_continue_counter pm_stop_counter
  round_lem n j c k f h a =
      let (k1, asked, a1) = command_lem (pos 2) (suc n) k a in
      let begun = written (c.next_timing * 2) (starts j) c in
      let (k2, done, a2) = command_lem (pos 3) n k1 a1 in
      (
        k2,
        rw
            (
              asked,
              set_timing_lem (c.next_timing * 2) (starts j) c (omega arith),
              set_timing_lem (c.next_timing * 2 + 1) (stops j) begun (omega arith),
              done,
            )
            refl,
        a2,
      )

  first_round :
      (n : ℕ) (c : CounterT R) (k : Link) (f : CounterT R → M Link (CounterT R))
      → Answers (suc (suc n)) k
      → (k' : Link) × ((do
        started ← pm_start_counter (starts 0) c
        stopped ← pm_stop_counter (stops 0) started.1
        f stopped.1)
            k
          ≡ f (after_round 0 (record c { next_timing = 0 })) k')
        × Answers n k'
  unfolding pm_start_counter pm_stop_counter
  first_round n c k f a =
      let (k1, asked, a1) = command_lem (pos 1) (suc n) k a in
      let (k2, done, a2) = command_lem (pos 3) n k1 a1 in (k2, rw (asked, done) refl, a2)

  Measured : ℕ → Outcome (CounterT R) → Type 0
  Measured n r = (c' : CounterT R) × (r ≡ ok c') × (c'.next_timing ≡ n) × HasTimes c' n starts stops

  rounds-Measured :
      (n j : ℕ) (c : CounterT R) (k : Link)
      → c.next_timing ≡ j
      → j + n ≤ 5000
      → HasTimes c j starts stops
      → Answers (n * 2) k
      → Measured (j + n) (rounds n j c k).0
  unfolding Measured
  rounds-Measured zero j c k e h times a =
      let last : j + 0 ≡ j = omega arith in rw last (c, refl, e, times)
  rounds-Measured (suc n) j c k e h times a =
      let (k', run, a') =
        round_lem (n * 2) j c k (rounds n (j + 1)) (omega arith)
          (subst (λ m. Answers m k) (double n) a) in
      let next = after_round-HasTimes j c e (omega arith) times in
      let (c', got, count, times') =
        rounds-Measured n (j + 1) (after_round j c) k' (omega arith) (omega arith)
          (subst (λ m. HasTimes (after_round j c) m starts stops) (omega arith) next) a' in
      let total : j + suc n ≡ j + 1 + n = omega arith in
      rw total (c', ap (λ r. r.0) run ∙ got, count, times')

  rounds_full :
      (m n j : ℕ) (c : CounterT R) (k : Link)
      → c.next_timing ≡ 5000
      → Answers (suc m) k
      → (rounds (suc n) j c k).0 ≡ crash out_of_range
  unfolding pm_continue_counter
  rounds_full m n j c k e a =
      let (k1, asked, a1) = command_lem (pos 2) m k a in
      let over : ltb (c.next_timing * 2) timelen ≡ false = ground arith in rw (asked, over) refl

  -- One more round than there is room for.
  rounds_beyond :
      (n j : ℕ) (c : CounterT R) (k : Link)
      → c.next_timing ≡ j
      → j ≤ 5000
      → 5000 < j + n
      → Answers (n * 2) k
      → (rounds n j c k).0 ≡ crash out_of_range
  rounds_beyond zero j c k e h over a = absurd (omega arith)
  rounds_beyond (suc n) j c k e h over a = elim (Bool-cases (j == 5000)) [
    | inl full ↦
        rounds_full (suc (n * 2)) n j c k (ground arith) (subst (λ m. Answers m k) (double n) a)
    | inr room ↦
        let (k', run, a') =
          round_lem (n * 2) j c k (rounds n (j + 1)) (ground arith)
            (subst (λ m. Answers m k) (double n) a) in
        ap (λ r. r.0) run
        ∙ rounds_beyond n (j + 1) (after_round j c) k' (omega arith) (ground arith) (omega arith) a'
  ]

  -- Let a server answer each request with success, and let a client start, stop, and then continue
  -- and stop again, for no more than 5000 rounds in all. Then every call succeeds, the counter has
  -- counted the rounds, and the beginning and the end of each round stand at their places in the
  -- array of times, those of no round overwritten by another one.
  pub measure-HasTimes :
      (n : ℕ) (c : CounterT R) (k : Link)
      → suc n ≤ 5000
      → Answers (suc n * 2) k
      → (c' : CounterT R) × ((measure n c k).0 ≡ ok c')
        × (c'.next_timing ≡ suc n)
        × HasTimes c' (suc n) starts stops
  unfolding Measured
  measure-HasTimes n c k h a =
      let (k', run, a') =
        first_round (n * 2) c k (rounds n 1) (subst (λ m. Answers m k) (double n) a) in
      let fresh : CounterT R = record c { next_timing = 0 } in
      let first = after_round-HasTimes 0 fresh refl (omega arith) (λ s hs. absurd (omega arith)) in
      let (c', got, count, times) =
        rounds-Measured n 1 (after_round 0 fresh) k' refl (omega arith) first a' in
      (
        c',
        ap (λ r. r.0) run ∙ got,
        count ∙ omega arith,
        subst (λ m. HasTimes c' m starts stops) (omega arith) times,
      )

  -- If a server answers each request with success, then a client that starts, stops, and continues
  -- and stops again for more than 5000 rounds in all writes past the end of the array of times.
  pub measure_beyond :
      (n : ℕ) (c : CounterT R) (k : Link)
      → 5000 < suc n
      → Answers (suc n * 2) k
      → (measure n c k).0 ≡ crash out_of_range
  measure_beyond n c k h a =
      let (k', run, a') =
        first_round (n * 2) c k (rounds n 1) (subst (λ m. Answers m k) (double n) a) in
      let fresh : CounterT R = record c { next_timing = 0 } in
      ap (λ r. r.0) run
      ∙ rounds_beyond n 1 (after_round 0 fresh) k' refl (omega arith) (omega arith) a'
