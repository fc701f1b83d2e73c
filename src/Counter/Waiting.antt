-- ===== src/Counter/Waiting.antt =====
-- A session that waits for a request (server/counter.cpp) while other threads use its device.
use pmlib.Prelude.{ℕ, ◌<◌, ◌≤◌, ◌≡◌, refl, ◌∙◌, ap, true, some, List, [], ◌∷◌, arith, All}
use pmlib.Map.{nat_key, find}
use pmlib.Outcome.{ok}
use pmlib.Device.{Attached, Device}
use pmlib.Device.Lines.{contains}
use pmlib.Device.Invariant.{size_of, IsWired, Evolves}
use pmlib.Counter.{Session, Event, apply_events, wait, take_events}
use pmlib.Counter.Sets.{IsRecorded-mono}
use pmlib.Counter.Soundness.{
  IsSound, ArePossible, AllPossible, apply_event-Evolves, counters-apply_event, counters_after_all,
}

All-contains :
    (P : ℕ → Type 0) (ks ls : List ℕ)
    → ((l : ℕ) → contains ks l ≡ true → contains ls l ≡ true)
    → ((l : ℕ) → contains ls l ≡ true → P l)
    → All P ks
All-contains P [] ls sub h = tt
All-contains P (k ∷ ks) ls sub h =
    (h k (sub k (ground arith)), All-contains P ks ls (λ l e. sub l (ground arith)) h)

below_of_contains : (n l : ℕ) (ls : List ℕ) → All (λ k. k < n) ls → contains ls l ≡ true → l < n
below_of_contains n l [] h e = cc
below_of_contains n l (k ∷ ks) h e = ground (arith, below_of_contains n l ks h.1)

module _ {R : Type 0} (own : Attached) where
  -- No line of the counter has lost a sample.
  pub Evolves-grows :
      (d d' : Device R) (ls : List ℕ)
      → own.lines ≡ ls
      → All (λ l. l < d.n_lines) ls
      → Evolves own d d'
      → All (λ l. size_of l d.lines ≤ size_of l d'.lines) ls
  Evolves-grows d d' ls same below v =
      All-contains _ ls ls (λ l e. e)
        λ l e. v.grows l (below_of_contains d.n_lines l ls below e) (rw same e)

  Evolves-trans : {d d' d'' : Device R} → Evolves own d d' → Evolves own d' d'' → Evolves own d d''
  Evolves-trans v v' = record {
    wired = v'.wired;
    same_lines = v'.same_lines ∙ v.same_lines;
    registered = v'.registered;
    grows = λ l h e. omega (arith, v.grows l h e, v'.grows l (rw v.same_lines h) e);
  }

  pub apply_events-Evolves :
      (d : Device R) (es : List (Event R))
      → IsWired d
      → find own.id d.counter_map ≡ some own
      → ArePossible d.n_lines own d.counter_map es
      → (d' : Device R) × (apply_events es d ≡ ok d')
        × Evolves own d d'
        × (d'.counter_map ≡ counters_after_all es d.counter_map)
  unfolding apply_events
  apply_events-Evolves d [] w reg p = (
    d,
    refl,
    record { wired = w; same_lines = refl; registered = reg; grows = λ l h _. omega arith },
    refl,
  )
  apply_events-Evolves d (e ∷ es) w reg (p, ps) =
      let (d', q, v) = apply_event-Evolves own d e w reg p in
      let cm = counters-apply_event d d' e q in
      let (d'', q', v', cm') =
        apply_events-Evolves d' es v.wired v.registered (rw (v.same_lines, cm) ps) in
      (d'', rw q q', Evolves-trans v v', cm' ∙ ap (counters_after_all es) cm)

  take_events-IsSound :
      (input : List ℕ) (s : Session R) (o : List (List (Event R)))
      → IsSound own input s
      → AllPossible s.dev.n_lines own s.dev.counter_map o
      → (s' : Session R) × (take_events o s ≡ (ok tt, s'))
        × IsSound own input s'
        × (s'.counter ≡ s.counter)
        × (s'.sock ≡ s.sock)
  take_events-IsSound input s [] h p = (s, refl, h, refl, refl)
  take_events-IsSound input s (es ∷ rest) h (now, later) =
      let (d', q, v, cm) = apply_events-Evolves s.dev es h.wired h.registered now in
      (
        record s { dev = d'; others = rest },
        rw q,
        record {
          wired = v.wired;
          registered = v.registered;
          number = h.number;
          lines = h.lines;
          selection = rw v.same_lines h.selection;
          stride = h.stride;
          recorded =
              IsRecorded-mono s.dev.lines d'.lines s.counter.lines s.counter.status s.counter.sets
                (Evolves-grows s.dev d' s.counter.lines h.lines h.selection.1 v) h.recorded;
          possible = rw (v.same_lines, cm) later;
          inbox = h.inbox;
        },
        refl,
        refl,
      )

  -- Waiting is defined and keeps a session sound, whatever the other threads do meanwhile.
  pub wait-IsSound :
      (input : List ℕ) (s : Session R)
      → IsSound own input s
      → (s' : Session R) × (wait s ≡ (ok tt, s'))
        × IsSound own input s'
        × (s'.counter ≡ s.counter)
        × (s'.sock ≡ s.sock)
  unfolding wait
  wait-IsSound input s h = take_events-IsSound input s s.others h h.possible
