-- ===== src/Tests/Connections.antt =====
-- Examples of connections and queries.
use pmlib.Prelude.{
  ℕ, ◌≡◌, refl, sym, ap, subst, Bool, true, false, if◌then◌else◌, some, none, List, [], ◌∷◌, ◌++◌,
  arith, codes,
}
use pmlib.Prelude.Int.{ℤ, pos, ◌≤ℤ◌}
use pmlib.Map.{Name, name_key, nat_key, name_eqb, find, insert_or_assign, Map}
use pmlib.Device.Invariant.{IsWired}
use pmlib.Outcome.{Outcome, ok, throw, crash}
use pmlib.Wire.{Socket, receive_int, receive_string, read, int_of_bytes}
use pmlib.Device.{Device, Attached}
use pmlib.Counter.{Event, sampled}
use pmlib.Counter.Soundness.{AllPossible}
use pmlib.Registry.{Conn}
use pmlib.Creation.Lifetime.{AllWired, IsForward, IsOpened}
use pmlib.Connection.{connection}
use pmlib.Connection.Safety.{EndsWell, connection-AllWired}
use pmlib.Info.{stream_samples}
use pmlib.Info.Streaming.{streamed, first_empty, stream_samples_lem}
use pmlib.Tests.{meter, nat_floating}
use pmlib.Tests.Sessions.{meter-IsWired}

-- Create a counter of the meter's line 0 at 5 Hz; start, stop, get and finalize.
abbrev request : List ℕ
request =
    0 ∷ 0 ∷ 0 ∷ 0 ∷ 5 ∷ 0 ∷ 0 ∷ 0 ∷ codes "meter"
    ++ 5 ∷ 0 ∷ 0 ∷ 0 ∷ 0 ∷ 0 ∷ 0 ∷ 0 ∷ 1 ∷ 0 ∷ 0 ∷ 0 ∷ 1 ∷ 1 ∷ 0 ∷ 0 ∷ 0 ∷ 3 ∷ 0 ∷ 0 ∷ 0 ∷ 4 ∷ 0 ∷ 0
      ∷ 0 ∷ 5 ∷ 0 ∷ 0 ∷ 0 ∷ []

abbrev client : List ℕ → Socket
client inbox = record { inbox = inbox; outbox = []; writable = 20; peer = codes "10.0.0.2" }

abbrev visit : Conn ℕ
visit = record {
  server = record { device_map = (codes "meter", meter) ∷ []; next_id = 1 };
  sock = client request;
  made = none;
}

abbrev measured : List (List (Event ℕ))
measured = [] ∷ (sampled (5 ∷ 6 ∷ []) ∷ []) ∷ []

only_meter : (t : Bool) (d : Device ℕ) → (if t then some meter else none) ≡ some d → meter ≡ d
only_meter true d e = ground arith
only_meter false d e = absurd (ground arith)

visit-AllWired : AllWired visit.server
visit-AllWired name d e =
    subst IsWired (only_meter (name_eqb (codes "meter") name) d e) meter-IsWired

visit-fresh : (d : Device ℕ) → meter ≡ d → find 2 d.counter_map ≡ none
visit-fresh d e = rw (← e) refl

visit-possible :
    (d : Device ℕ) (own : Attached) (cm : Map ℕ Attached)
    → meter ≡ d
    → AllPossible d.n_lines own cm measured
visit-possible d own cm e = rw (← e) (tt, ((refl, tt), tt))

abbrev value_or_zero : Outcome ℤ → ℤ
value_or_zero (ok z) = z
value_or_zero (throw e) = pos 0
value_or_zero (crash f) = pos 0

-- What is left to read after the request's first number.
abbrev after_op : Socket
after_op = (receive_int visit.sock).1

after_op-IsForward : IsForward after_op
unfolding receive_int receive_string read int_of_bytes
after_op-IsForward name k' k'' z e e' =
    let q : pos 5 ≡ z =
      ap (λ (r : Outcome ℤ × Socket). value_or_zero r.0)
        (subst (λ t. receive_int t ≡ (ok z, k'')) (sym (ap (λ (r : Outcome Name × Socket). r.1) e))
          e') in
    subst (λ t. pos 0 ≤ℤ t) q (omega arith)

after_op-IsOpened : IsOpened measured (record visit { sock = after_op })
after_op-IsOpened = record {
  wired = visit-AllWired;
  fresh = λ name d e. visit-fresh d (only_meter (name_eqb (codes "meter") name) d e);
  unmade = refl;
  forward = after_op-IsForward;
  possible = λ name k d own _ e _.
      visit-possible d own (insert_or_assign own.id own d.counter_map)
        (only_meter (name_eqb (codes "meter") name) d e);
}

visit-IsOpened :
    (op : ℤ) (k : Socket)
    → receive_int visit.sock ≡ (ok op, k)
    → IsOpened measured (record visit { sock = k })
visit-IsOpened op k e =
    subst (λ t. IsOpened measured (record visit { sock = t }))
      (ap (λ (r : Outcome ℤ × Socket). r.1) e) after_op-IsOpened

connection-AllWired_example : EndsWell (λ _. []) measured (connection (λ _. []) measured visit)
connection-AllWired_example =
    connection-AllWired (λ _. []) measured visit visit-AllWired visit-IsOpened

stream_samples_lem_example :
    stream_samples (λ i. i ∷ []) (record (client []) { writable = 4 })
    ≡ streamed
        (λ i. i ∷ [])
        2
        0
        (record (client []) { writable = 4 })
        (first_empty (λ i. i ∷ []) 2 0)
stream_samples_lem_example =
    stream_samples_lem (λ i. i ∷ []) 2 (record (client []) { writable = 4 }) refl
