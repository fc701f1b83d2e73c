-- ===== src/Counter/Termination.antt =====
-- The loop of `Counter::run` (server/counter.cpp): how it ends.
use pmlib.Prelude.{
  ℕ, zero, suc, ◌+◌, ◌<◌, ◌≤◌, ◌≡◌, refl, ap, Bool, true, false, List, [], arith, if◌then◌else◌,
  ◌⊎◌, inl, inr, length, drop, take, Bool-cases, leb, leb→le, length-drop,
}
use pmlib.Outcome.{Outcome, ok, throw, crash, M, after, ◌>>=◌, ◌>>◌, end_of_file, handled, done}
use pmlib.Wire.{Socket, receive_int, read, int_of_bytes}
use pmlib.Floating.{Floating}
use pmlib.Device.{Attached}
use pmlib.Counter.{Session, on_sock, reply, error, dispatch, operation_of, serve, run_loop, run}
use pmlib.Counter.Soundness.{IsSound}
use pmlib.Counter.Waiting.{wait-IsSound}
use pmlib.Counter.Safety.{Halts, IsSafe, dispatch-IsSafe, reply-IsSafe}

-- A number is read if four bytes are there; else all that is there is used up.
pub receive_int-cases :
    (k : Socket)
    → ((4 ≤ length k.inbox)
        × (receive_int k
            ≡ (ok (int_of_bytes (take 4 k.inbox)), record k { inbox = drop 4 k.inbox })))
      ⊎ (receive_int k ≡ (throw end_of_file, record k { inbox = [] }))
unfolding receive_int read
receive_int-cases k = elim (Bool-cases (leb 4 (length k.inbox))) [
  | inl e ↦ inl (leb→le 4 (length k.inbox) e, rw e)
  | inr e ↦ inr (rw e)
]

module _ {R : Type 0} ⦃f : Floating R⦄ (own : Attached) where
  -- A call returns or throws, or it takes the front of the samples of a reply that has none; and it
  -- leaves the session sound for some rest of the input.
  abbrev pub Ends {ℓ} : {A : Type ℓ} → Outcome A × Session R → Type 0
  Ends (r, s) = Halts r s × ((rest : List ℕ) × IsSound own rest s)

  IsSound-inbox :
      (input rest : List ℕ) (s : Session R)
      → IsSound own input s
      → IsSound own rest (record s { sock = record s.sock { inbox = rest } })
  IsSound-inbox input rest s h = record {
    wired = h.wired;
    registered = h.registered;
    number = h.number;
    lines = h.lines;
    selection = h.selection;
    stride = h.stride;
    recorded = h.recorded;
    possible = h.possible;
    inbox = refl;
  }

  if-Ends :
      (b : Bool) (x y : Outcome (Unit {0}) × Session R)
      → Ends x
      → Ends y
      → Ends (if b then x else y)
  if-Ends true x y p q = p
  if-Ends false x y p q = q

  abbrev request : M (Session R) (Unit {0})
  request = on_sock receive_int >>= λ op. dispatch (operation_of op)

  -- A round that returns has read four bytes.
  Shortens : List ℕ → Outcome (Unit {0}) × Session R → Type 0
  Shortens input (ok a, s) = (rest : List ℕ) × IsSound own rest s × (length rest + 4 ≤ length input)
  Shortens input (throw e, s) = (rest : List ℕ) × IsSound own rest s
  Shortens input (crash e, s) =
      Halts {A = Unit {0}} (crash e) s × ((rest : List ℕ) × IsSound own rest s)

  IsSafe-Shortens :
      (input rest : List ℕ) (r : Outcome (Unit {0}) × Session R)
      → length rest + 4 ≤ length input
      → IsSafe own rest r
      → Shortens input r
  unfolding Shortens
  IsSafe-Shortens input rest (ok a, s) l (_, h) = (rest, h, l)
  IsSafe-Shortens input rest (throw e, s) l (_, h) = (rest, h)
  IsSafe-Shortens input rest (crash e, s) l (d, h) = (d, (rest, h))

  request-Shortens :
      (input : List ℕ) (s : Session R) → IsSound own input s → Shortens input (request s)
  unfolding Shortens
  request-Shortens input s h = elim (receive_int-cases s.sock) [
    | inl (l, e) ↦ rw e (
        IsSafe-Shortens input (drop 4 s.sock.inbox) _
          (omega (arith, length-drop 4 s.sock.inbox, ap length h.inbox))
          (dispatch-IsSafe own (drop 4 s.sock.inbox)
            (operation_of (int_of_bytes (take 4 s.sock.inbox))) _
            (IsSound-inbox input (drop 4 s.sock.inbox) s h)))
    | inr e ↦ rw e ([], IsSound-inbox input [] s h)
  ]

  serve-Shortens : (input : List ℕ) (s : Session R) → IsSound own input s → Shortens input (serve s)
  unfolding serve
  serve-Shortens input s h =
      let (s', e, h', _, _) = wait-IsSound own input s h in rw e (request-Shortens input s' h')

  after-Ends :
      (input : List ℕ) (r : Outcome (Unit {0}) × Session R) (m : M (Session R) (Unit {0}))
      → Shortens input r
      → ((rest : List ℕ) (t : Session R)
          → IsSound own rest t
          → length rest + 4 ≤ length input
          → Ends (m t))
      → Ends (after r (λ _. m))
  unfolding Shortens
  after-Ends input (ok a, s) m (rest, h, l) ih = ih rest s h l
  after-Ends input (throw e, s) m h ih = (tt, h)
  after-Ends input (crash e, s) m h ih = h

  -- Fuel beyond the length of the input is enough.
  pub run_loop-Ends :
      (k : ℕ) (input : List ℕ) (s : Session R)
      → IsSound own input s
      → length input < k
      → Ends (run_loop k s)
  unfolding run_loop
  run_loop-Ends zero input s h lt = absurd (omega arith)
  run_loop-Ends (suc k) input s h lt =
      if-Ends s.counter.running ((serve >> run_loop k) s) (done s)
        (after-Ends input (serve s) (run_loop k) (serve-Shortens input s h)
          λ rest t h' l. run_loop-Ends k rest t h' (omega arith))
        (tt, (input, h))

  handled-Ends : (r : Outcome (Unit {0}) × Session R) → Ends r → Ends (handled (λ _. reply error) r)
  handled-Ends (ok a, s) h = h
  handled-Ends (throw e, s) (_, (rest, h)) =
      let (d, h') = reply-IsSafe own rest error s h in (d, (rest, h'))
  handled-Ends (crash e, s) h = h

  -- Whatever bytes the client sends, wherever the connection breaks and whatever samples and other
  -- counters come and go between the requests: a session that starts in a sound state ends without
  -- running out of fuel, and its invariant holds at the end. It ends by returning or throwing, or
  -- in undefined behaviour that can be one thing only: the counter is inactive, and the reply to a
  -- get takes the front of its samples, of which there are none.
  pub run-Ends : (s : Session R) → IsSound own s.sock.inbox s → Ends (run s)
  unfolding run
  run-Ends s h =
      handled-Ends (run_loop (suc (length s.sock.inbox)) s)
        (run_loop-Ends (suc (length s.sock.inbox)) s.sock.inbox s h (omega arith))
