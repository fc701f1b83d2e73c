-- ===== src/Creation/Ending.antt =====
-- How a counter of server/counter.cpp ends: what its session and its destructor leave.
use pmlib.Prelude.{ℕ, ◌≡◌, refl, Option, none, some, List, []}
use pmlib.Map.{nat_key, name_key, find}
use pmlib.Outcome.{Outcome, ok, throw, crash, Post, Settles, after-Settles}
use pmlib.Wire.{send_int}
use pmlib.Wire.Defined.{send_int-IsSettled}
use pmlib.Floating.{Floating}
use pmlib.Device.{Device, Attached, deregister_counter}
use pmlib.Device.Invariant.{
  IsSelection, without, deregister_counter-IsWired, deregister_counter-without,
}
use pmlib.Counter.{Event, Session, error, run, inactive}
use pmlib.Counter.Reply.{samples_of}
use pmlib.Prelude.Int.{ℤ}
use pmlib.Counter.Soundness.{IsSound}
use pmlib.Counter.Safety.{Halts}
use pmlib.Counter.Termination.{run-Ends}
use pmlib.Registry.{Conn, Made, talk-Settles}
use pmlib.Creation.{
  attached, create, destroy, destroy_made, session_of, close_session, run_made, after_create,
  counter_session,
}
use pmlib.Creation.Lifetime.{
  AllWired, AllWired-put, find-put, IsRegistered, Keeps, IsOpened, IsReady, create-Ready,
}

module _ {R : Type 0} where
  weaken :
      (F : Conn R → Type 0) (r : Outcome (Unit {0}) × Conn R)
      → Settles (λ _. Keeps) Keeps F r
      → Settles (λ _. Keeps) (λ c. AllWired c.server) F r
  weaken F (ok a, c) h = h
  weaken F (throw e, c) h = h.0
  weaken F (crash f, c) h = h

  -- Only the number and the lines of a counter matter to `deregister_counter`.
  deregister_counter-same :
      (c own : Attached) (d : Device R)
      → own.id ≡ c.id
      → own.lines ≡ c.lines
      → deregister_counter c d ≡ deregister_counter own d
  unfolding deregister_counter
  deregister_counter-same c own d p q = rw (p, q) refl

  destroy_made-AllWired :
      (F : Conn R → Type 0) (o : Option Made) (c : Conn R)
      → AllWired c.server
      → IsRegistered o c.server
      → Settles (λ _ c. AllWired c.server) (λ c. AllWired c.server) F (destroy_made o c)
  destroy_made-AllWired F none c w h = w
  destroy_made-AllWired F (some m) c w (d, own, found, reg, number, lines, sel) =
      let k = attached m.counter c.sock.peer in
      let sel' : IsSelection d.n_lines own.lines = rw lines sel in
      rw found (
        rw (deregister_counter-same k own d number lines) (
          rw (deregister_counter-without d (w m.device d found) own sel' reg) (
            AllWired-put c.server m.device (without own d) w
              (deregister_counter-IsWired d (w m.device d found) own sel' reg))))

module _ {R : Type 0} ⦃f : Floating R⦄ (others : List (List (Event R))) where
  -- The counter of a connection is inactive, and the reply to a get would have no sample.
  abbrev pub BareMade : Conn R → Type 0
  BareMade c =
      (m : Made) × (d : Device R) × (sums : List ℤ) × (c.made ≡ some m)
      × (find m.device c.server.device_map ≡ some d)
      × (m.counter.status ≡ inactive)
      × (samples_of m.counter.aggregate m.counter.interval d m.counter.lines m.counter.sets
          ≡ ok ([], sums))

  halted-Settles :
      (c : Conn R) (m : Made) (r : Outcome (Unit {0})) (s : Session R)
      → Halts r s
      → Keeps (close_session others c m (r, s)).1
      → Settles (λ _. Keeps) Keeps BareMade (close_session others c m (r, s))
  halted-Settles c m (ok a) s h p = p
  halted-Settles c m (throw e) s h p = p
  halted-Settles c m (crash f) s (e, (idle, sums, bare)) p = (
    e,
    (
      record m { counter = s.counter },
      s.dev,
      sums,
      refl,
      find-put c.server m.device s.dev,
      idle,
      bare,
    ),
  )

  -- A session that has ended in a sound state.
  close_session-Keeps :
      (c : Conn R) (m : Made) (own : Attached) (rest : List ℕ) (r : Outcome (Unit {0}) × Session R)
      → AllWired c.server
      → Halts r.0 r.1
      → IsSound own rest r.1
      → Settles (λ _. Keeps) Keeps BareMade (close_session others c m r)
  close_session-Keeps c m own rest (r, s) w def e = halted-Settles c m r s def (
    AllWired-put c.server m.device s.dev w e.wired,
    (s.dev, own, find-put c.server m.device s.dev, e.registered, e.number, e.lines, e.selection),
  )

  run_made-Keeps :
      (c : Conn R)
      → IsReady others c
      → Settles (λ _. Keeps) Keeps BareMade (run_made others c.made c)
  run_made-Keeps c (m, d, own, made, found, w, sound) =
      let s = session_of others c m d in
      let (def, (rest, e)) = run-Ends own s sound in
      rw made (rw found (close_session-Keeps c m own rest (run s) w def e))

  after_create-Keeps :
      (r : Outcome (Unit {0}) × Conn R)
      → Post (λ _. IsReady others) Keeps r
      → Settles (λ _. Keeps) Keeps BareMade (after_create others r)
  after_create-Keeps (ok a, c) h = run_made-Keeps c h
  after_create-Keeps (throw e, c) h =
      talk-Settles (λ _. Keeps) Keeps BareMade ⊥ (send_int error) c
        (send_int-IsSettled ⊥ error c.sock) (λ w k. absurd w) (λ _ k _. h) (λ k. h)
  after_create-Keeps (crash e, c) h = absurd h

  -- Whatever a client sends, wherever the connection breaks and whatever other threads do meanwhile:
  -- a counter is made, used and destroyed, if the frequency that the request asks for is not
  -- negative, and every device is sound in the end, unless the front of the samples for a get is
  -- taken that has none.
  pub counter_session-AllWired :
      (c : Conn R)
      → IsOpened others c
      → Settles
          (λ _ c'. AllWired c'.server)
          (λ c'. AllWired c'.server)
          BareMade
          (counter_session others c)
  unfolding counter_session destroy
  counter_session-AllWired c h =
      after-Settles (λ _. Keeps) (λ _ c'. AllWired c'.server) (λ c'. AllWired c'.server) BareMade
        (after_create others (create c)) _
        (weaken BareMade (after_create others (create c))
          (after_create-Keeps (create c) (create-Ready others c h)))
        λ _ c' (w, reg). destroy_made-AllWired BareMade c'.made c' w reg
