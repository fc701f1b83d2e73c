-- ===== src/Client/Exchange/Commands.antt =====
-- The commands of client/pm_start_counter.c, client/pm_stop_counter.c, client/pm_continue_counter.c and
-- client/pm_finalize_counter.c in the switch of `Counter::run` in server/counter.cpp.
use pmlib.Prelude.{ℕ, ◌+◌, ◌-◌, ◌*◌, ◌<◌, ◌≡◌, refl, true, List, [], ◌∷◌, ◌++◌, arith, ltb}
use pmlib.Prelude.Int.{ℤ, pos}
use pmlib.Outcome.{ok}
use pmlib.Wire.{int_bytes}
use pmlib.Wire.Roundtrip.{IsInt32, receive_int_lem}
use pmlib.Floating.{Floating}
use pmlib.Counter.{
  Session, serve, wait, dispatch, operation_of, start_session, restart, stop_session,
  finalize_session,
}
use pmlib.Client.{Link}
use pmlib.Client.Requests.{
  CounterT, timelen, command, pm_start_counter, pm_stop_counter, pm_continue_counter,
  pm_finalize_counter,
}
use pmlib.Client.Arrivals.{Arrives, response_lem, transmit_lem}

-- The server answers one request with success.
abbrev pub Answered : Link → Type 0
Answered k = Arrives (int_bytes (pos 0) ∷ []) [] k.arrivals × (0 < k.writable)

command-sent :
    (z : ℤ) (k : Link)
    → Answered k
    → (k' : Link) × (command z k ≡ (ok 0, k')) × (k'.sent ≡ k.sent ++ int_bytes z)
unfolding command
command-sent z k (a, room) =
    let sent : Link = record k { sent = k.sent ++ int_bytes z; writable = k.writable - 1 } in
    let (ps, got, later) = response_lem 0 [] [] sent (omega arith) a in
    (record sent { arrivals = ps }, rw (transmit_lem (int_bytes z) k room, got) refl, refl)

module _ {R : Type 0} where
  -- A session that waits for a request, where no other thread goes on and these bytes arrive.
  abbrev pub waiting : List ℕ → Session R → Session R
  waiting bytes s = record s { others = []; sock = record s.sock { inbox = bytes } }

  module _ ⦃f : Floating R⦄ where
    serve-dispatch :
        (z : ℤ) (rest : List ℕ) (s : Session R)
        → IsInt32 z
        → serve (waiting (int_bytes z ++ rest) s) ≡ dispatch (operation_of z) (waiting rest s)
    unfolding serve wait
    serve-dispatch z rest s h = rw (receive_int_lem z rest s.sock h) refl

    -- On a connection whose server answers with success, and below 5000 rounds, the calls that
    -- start, continue, stop and finalize a counter send one message each, on which the server's
    -- loop, when no other thread goes on, takes the step of the same name.
    pub serve-commands :
        (now : R) (c : CounterT R) (k : Link) (rest : List ℕ) (s : Session R)
        → Answered k
        → c.next_timing < 5000
        → let start = int_bytes (pos 1) in
          let continue = int_bytes (pos 2) in
          let stop = int_bytes (pos 3) in
          let finalize = int_bytes (pos 5) in
          ((pm_start_counter now c k).1.sent ≡ k.sent ++ start)
          × (serve (waiting (start ++ rest) s) ≡ start_session (waiting rest s))
          × ((pm_continue_counter now c k).1.sent ≡ k.sent ++ continue)
          × (serve (waiting (continue ++ rest) s) ≡ restart (waiting rest s))
          × ((pm_stop_counter now c k).1.sent ≡ k.sent ++ stop)
          × (serve (waiting (stop ++ rest) s) ≡ stop_session (waiting rest s))
          × ((pm_finalize_counter k).1.sent ≡ k.sent ++ finalize)
          × (serve (waiting (finalize ++ rest) s) ≡ finalize_session (waiting rest s))
    unfolding pm_start_counter pm_continue_counter pm_stop_counter pm_finalize_counter dispatch
        operation_of
    serve-commands now c k rest s a h =
        let (k1, run1, sent1) = command-sent (pos 1) k a in
        let (k2, run2, sent2) = command-sent (pos 2) k a in
        let (k3, run3, sent3) = command-sent (pos 3) k a in
        let (k5, run5, sent5) = command-sent (pos 5) k a in
        let low : ltb (c.next_timing * 2) timelen ≡ true = ground arith in
        let high : ltb (c.next_timing * 2 + 1) timelen ≡ true = ground arith in
        (
          rw run1 sent1,
          serve-dispatch (pos 1) rest s (omega arith, omega arith),
          rw (run2, low) sent2,
          serve-dispatch (pos 2) rest s (omega arith, omega arith),
          rw (high, run3) sent3,
          serve-dispatch (pos 3) rest s (omega arith, omega arith),
          rw run5 sent5,
          serve-dispatch (pos 5) rest s (omega arith, omega arith),
        )
