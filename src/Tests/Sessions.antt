-- ===== src/Tests/Sessions.antt =====
-- Examples of sessions.
use pmlib.Prelude.{ℕ, zero, suc, ◌<◌, ◌≡◌, refl, arith, some}
use pmlib.Map.{find, nat_key}
use pmlib.Device.{Line}
use pmlib.Device.Lines.{IsLine}
use pmlib.Device.Holders.{holders}
use pmlib.Device.Invariant.{IsWired}
use pmlib.Counter.{run}
use pmlib.Counter.Soundness.{IsSound}
use pmlib.Counter.Termination.{Ends, run-Ends}
use pmlib.Counter.Early.{get_session_early}
use pmlib.Counter.{get_session}
use pmlib.Outcome.{crash, empty_front}
use pmlib.Wire.{int_bytes}
use pmlib.Prelude.{[], ◌++◌, length}
use pmlib.Prelude.Int.{pos}
use pmlib.Tests.{meter, owner, session, nat_floating}

meter_present : (l : ℕ) → l < 2 → IsLine meter.lines l
meter_present zero h = (_, refl)
meter_present (suc zero) h = (_, refl)
meter_present (suc (suc l)) h = absurd (omega arith)

meter_counted :
    (l : ℕ) (x : Line ℕ)
    → l < 2
    → find l meter.lines ≡ some x
    → x.enabled ≡ holders l meter.counter_map
meter_counted zero x h e = ground arith
meter_counted (suc zero) x h e = ground arith
meter_counted (suc (suc l)) x h e = absurd (omega arith)

pub meter-IsWired : IsWired meter
meter-IsWired = record {
  present = meter_present;
  within = omega arith;
  unique = (refl, tt);
  fast = omega arith;
  counted = meter_counted;
}

pub session-IsSound : IsSound owner session.sock.inbox session
session-IsSound = record {
  wired = meter-IsWired;
  registered = refl;
  number = refl;
  lines = refl;
  selection = omega arith;
  stride = (0, refl);
  recorded = tt;
  possible = (tt, ((refl, tt), tt));
  inbox = refl;
}

run-Ends_example : Ends owner (run session)
run-Ends_example = run-Ends owner session session-IsSound

get_session_early_example : get_session session ≡ (
  crash empty_front,
  record session {
    sock = record session.sock {
      outbox =
          []
          ++ int_bytes (pos 0)
          ++ int_bytes (pos 1)
          ++ int_bytes (pos (length session.counter.lines))
          ++ (int_bytes (pos 0) ++ []);
      writable = 16;
    };
  },
)
get_session_early_example = get_session_early session refl refl (omega arith)
