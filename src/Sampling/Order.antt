-- ===== src/Sampling/Order.antt =====
-- The samples between a driver and the lines of its device (server/device.cpp): which are stored,
-- in what order, and when.
use pmlib.Prelude.{
  ◌||◌, ◌&&◌, ℕ, zero, suc, ◌+◌, ◌-◌, ◌<◌, ◌≤◌, ◌≡◌, refl, sym, ◌∙◌, ap, Bool, true, false, List,
  [], ◌∷◌, ◌++◌, arith, All, All-append, length, length-append, ltb, if◌then◌else◌, replicate,
}
use pmlib.Map.{Map}
use pmlib.Outcome.{ok}
use pmlib.Device.{Device, Line, push_back_data}
use pmlib.Device.Invariant.{push_all, push_lines-push_all, within-push_all}
use pmlib.Sampling.{
  capacity, Tick, produced, consumed, halted, yield_sample, store_front, consume, run_ticks,
}

empty : {A : Type 0} (xs : List A) → length xs ≤ 0 → xs ≡ []
empty [] h = refl
empty (x ∷ xs) h = absurd (omega arith)

or_assoc : (a b c d : Bool) → d ≡ (a || b) → (d || c) ≡ (a || (b || c))
or_assoc a b c d e = ground arith

module _ {R : Type 0} where
  -- Every sample of a list stored, the first one first.
  abbrev pub store_each : List (List R) → Map ℕ (Line R) → Map ℕ (Line R)
  store_each [] m = m
  store_each (s ∷ ss) m = store_each ss (push_all s m)

  abbrev pub products : List (Tick R) → List (List R)
  products [] = []
  products (produced s ∷ ts) = s ∷ products ts
  products (consumed ∷ ts) = products ts
  products (halted ∷ ts) = products ts

  -- A device whose waiting samples have a value for each line.
  abbrev pub IsFed : Device R → Type 0
  IsFed d = All (λ s. length s ≡ d.n_lines) d.data_queue × All (λ e. e.0 < d.n_lines) d.lines

  -- No sample meets a full queue, of which `n` places are taken.
  abbrev pub HasRoom : List (Tick R) → ℕ → Bool → Type 0
  HasRoom [] n running = Unit {0}
  HasRoom (produced s ∷ ts) n running = (n < capacity) × HasRoom ts (n + 1) running
  HasRoom (consumed ∷ ts) n running = HasRoom ts (if running then n - 1 else n) running
  HasRoom (halted ∷ ts) n running = HasRoom ts n false

  -- The lines once all that waits has been stored.
  abbrev pub total : Device R → Map ℕ (Line R)
  total d = store_each d.data_queue d.lines

  store_each-append :
      (xs ys : List (List R)) (m : Map ℕ (Line R))
      → store_each (xs ++ ys) m ≡ store_each ys (store_each xs m)
  store_each-append [] ys m = refl
  store_each-append (s ∷ xs) ys m = store_each-append xs ys (push_all s m)

  -- One stored sample.
  abbrev stored : List R → List (List R) → Device R → Device R
  stored s q d = record d { lines = push_all s d.lines; data_queue = q; working = true }

  store_front-stored :
      (s : List R) (q : List (List R)) (d : Device R)
      → length s ≡ d.n_lines
      → All (λ e. e.0 < d.n_lines) d.lines
      → store_front (s ∷ q) d ≡ ok (stored s q d)
  unfolding store_front push_back_data
  store_front-stored s q d e h = rw (push_lines-push_all s d.lines (rw e h)) refl

  -- What a step has to keep.
  record IsStep (d d' : Device R) : Type 0 where
    fed : IsFed d'
    same_lines : d'.n_lines ≡ d.n_lines
    same_running : d'.running ≡ d.running
    same_total : total d' ≡ total d

  store_front_lem :
      (q : List (List R)) (d : Device R)
      → d.data_queue ≡ q
      → IsFed d
      → (d' : Device R) × (store_front q d ≡ ok d')
        × IsStep d d'
        × (length d'.data_queue ≡ length q - 1)
        × (d'.working ≡ (d.working || ltb 0 (length q)))
  unfolding store_front
  store_front_lem [] d e h = (
    d,
    refl,
    record { fed = h; same_lines = refl; same_running = refl; same_total = refl },
    ap length e ∙ omega arith,
    ground arith,
  )
  store_front_lem (s ∷ q) d e (waiting, within) =
      let fed : All (λ s. length s ≡ d.n_lines) (s ∷ q) = rw e at waiting in
      (
        stored s q d,
        store_front-stored s q d fed.0 within,
        record {
          fed = (fed.1, within-push_all s d.n_lines d.lines within);
          same_lines = refl;
          same_running = refl;
          same_total = ap (λ t. store_each t d.lines) (sym e);
        },
        omega arith,
        ground arith,
      )

  consume_if :
      (t : Bool) (d : Device R)
      → d.running ≡ t
      → IsFed d
      → (d' : Device R) × ((if t then store_front d.data_queue d else ok d) ≡ ok d')
        × IsStep d d'
        × (length d'.data_queue ≡ (if t then length d.data_queue - 1 else length d.data_queue))
        × (d'.working ≡ (d.working || t && ltb 0 (length d.data_queue)))
  consume_if true d e h = store_front_lem d.data_queue d refl h
  consume_if false d e h = (
    d,
    refl,
    record { fed = h; same_lines = refl; same_running = refl; same_total = refl },
    refl,
    ground arith,
  )

  -- Whether a sample is stored, where `n` wait at first.
  abbrev pub wakes : List (Tick R) → ℕ → Bool → Bool
  wakes [] n running = false
  wakes (produced s ∷ ts) n running = wakes ts (n + 1) running
  wakes (consumed ∷ ts) n running =
      running && ltb 0 n || wakes ts (if running then n - 1 else n) running
  wakes (halted ∷ ts) n running = wakes ts n false

  pub run_ticks_lem :
      (ts : List (Tick R)) (d : Device R)
      → IsFed d
      → All (λ s. length s ≡ d.n_lines) (products ts)
      → HasRoom ts (length d.data_queue) d.running
      → (d' : Device R) × (run_ticks ts d ≡ ok d')
        × (total d' ≡ store_each (products ts) (total d))
        × (d'.working ≡ (d.working || wakes ts (length d.data_queue) d.running))
  unfolding run_ticks consume yield_sample
  run_ticks_lem [] d h p r = (d, refl, refl, ground arith)
  run_ticks_lem (produced s ∷ ts) d (waiting, within) (e, p) (lt, r) =
      let room : ltb (length d.data_queue) capacity ≡ true = ground arith in
      let d1 : Device R = record d { data_queue = d.data_queue ++ s ∷ [] } in
      let longer = length-append d.data_queue (s ∷ []) in
      let (d', q, t, w) =
        run_ticks_lem ts d1
          (All-append (λ s. length s ≡ d.n_lines) d.data_queue (s ∷ []) waiting (e, tt), within) p
          (rw longer r) in
      (
        d',
        rw room q,
        t ∙ ap (store_each (products ts)) (store_each-append d.data_queue (s ∷ []) d.lines),
        w ∙ ap (λ n. d.working || wakes ts n d.running) longer,
      )
  run_ticks_lem (consumed ∷ ts) d h p r =
      let (d1, q, k, len, woken) = consume_if d.running d refl h in
      let (d', q', t, w) =
        run_ticks_lem ts d1 k.fed (rw k.same_lines p) (rw (len, k.same_running) r) in
      (
        d',
        rw q q',
        t ∙ ap (store_each (products ts)) k.same_total,
        w
            ∙ ap (λ n. d1.working || wakes ts n d1.running) len
            ∙ ap
                (λ b.
                  d1.working
                  || wakes ts (if d.running then length d.data_queue - 1 else length d.data_queue)
                      b)
                k.same_running
            ∙ or_assoc d.working (d.running && ltb 0 (length d.data_queue)) _ d1.working woken,
      )
  run_ticks_lem (halted ∷ ts) d h p r = run_ticks_lem ts (record d { running = false }) h p r

  -- Let every waiting and every new sample have a value for each line, and let no sample meet a
  -- full queue. However the driver, the thread of the device and a stop take turns, nothing is
  -- undefined, and what is stored together with what waits is what was stored and waited before,
  -- followed by the new samples in their order: none is lost, doubled or moved.
  pub run_ticks-total :
      (ts : List (Tick R)) (d : Device R)
      → IsFed d
      → All (λ s. length s ≡ d.n_lines) (products ts)
      → HasRoom ts (length d.data_queue) d.running
      → (d' : Device R) × (run_ticks ts d ≡ ok d') × (total d' ≡ store_each (products ts) (total d))
  run_ticks-total ts d h p r = let (d', q, t, _) = run_ticks_lem ts d h p r in (d', q, t)

  -- Let every waiting sample of a running device have a value for each line. As many rounds of the
  -- device's thread as samples wait, or more, empty the queue and store all of them in their order.
  pub run_ticks-drained :
      (n : ℕ) (d : Device R)
      → IsFed d
      → d.running ≡ true
      → length d.data_queue ≤ n
      → (d' : Device R) × (run_ticks (replicate n consumed) d ≡ ok d')
        × (d'.data_queue ≡ [])
        × (d'.lines ≡ total d)
  unfolding run_ticks consume
  run_ticks-drained zero d h e le =
      let none_wait : d.data_queue ≡ [] = empty d.data_queue le in
      (d, refl, none_wait, ap (λ t. store_each t d.lines) (sym none_wait))
  run_ticks-drained (suc n) d h e le =
      let (d1, q, k, len, _) = consume_if d.running d refl h in
      let shorter : length d1.data_queue ≡ length d.data_queue - 1 =
        len ∙ ap (λ t. if t then length d.data_queue - 1 else length d.data_queue) e in
      let (d', q', p, t) = run_ticks-drained n d1 k.fed (k.same_running ∙ e) (omega arith) in
      (d', rw q q', p, t ∙ k.same_total)
