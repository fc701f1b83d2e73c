-- ===== src/Counter/Early.antt =====
-- `Counter::get` of server/counter.cpp before any set has been recorded.
use pmlib.Prelude.{ℕ, ◌-◌, ◌≤◌, ◌≡◌, refl, Bool, true, List, [], ◌∷◌, ◌++◌, arith, length, ltb}
use pmlib.Prelude.Int.{ℤ, pos}
use pmlib.Outcome.{ok, crash, empty_front}
use pmlib.Wire.{int_bytes, send_int, write, write_vector}
use pmlib.Floating.{Floating}
use pmlib.Device.{Device}
use pmlib.Counter.Reply.{samples_of, min_lens, all_watts, running_sums}
use pmlib.Counter.{Session, inactive, send_reply, send_samples, get_session}

module _ {R : Type 0} ⦃f : Floating R⦄ where
  nothing_recorded :
      (aggregate : Bool) (interval : ℤ) (d : Device R) (ls : List ℕ)
      → samples_of aggregate interval d ls [] ≡ ok ([], pos 0 ∷ [])
  unfolding samples_of min_lens all_watts running_sums
  nothing_recorded aggregate interval d ls = refl

  -- A get that comes before any set has been recorded, on an inactive counter and a connection that
  -- takes four more writes: the header and the one beginning of a set are sent, and then the front
  -- of the samples is taken, of which there are none; a client gets no error.
  pub get_session_early :
      (s : Session R)
      → s.counter.status ≡ inactive
      → s.counter.sets ≡ []
      → 4 ≤ s.sock.writable
      → get_session s ≡ (
        crash empty_front,
        record s {
          sock = record s.sock {
            outbox =
                s.sock.outbox
                ++ int_bytes (pos 0)
                ++ int_bytes (pos 1)
                ++ int_bytes (pos (length s.counter.lines))
                ++ (int_bytes (pos 0) ++ []);
            writable = s.sock.writable - 1 - 1 - 1 - 1;
          };
        },
      )
  unfolding get_session send_samples send_reply send_int write write_vector
  get_session_early s idle empty h =
      let w1 : ltb 0 s.sock.writable ≡ true = ground arith in
      let w2 : ltb 0 (s.sock.writable - 1) ≡ true = ground arith in
      let w3 : ltb 0 (s.sock.writable - 1 - 1) ≡ true = ground arith in
      let w4 : ltb 0 (s.sock.writable - 1 - 1 - 1) ≡ true = ground arith in
      rw
        (
          idle,
          empty,
          nothing_recorded s.counter.aggregate s.counter.interval s.dev s.counter.lines,
          w1,
          w2,
          w3,
          w4,
        )
        refl
