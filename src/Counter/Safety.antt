-- ===== src/Counter/Safety.antt =====
-- The handlers of `Counter::run` (server/counter.cpp), undefined behaviour and the invariant of a
-- session, on every branch.
use pmlib.Prelude.{
  ℕ, ◌≡◌, refl, ◌∙◌, ap, false, none, List, [], ◌∷◌, ◌++◌, All, All-map, length, Bool-cases, ltb,
  inl, inr,
}
use pmlib.Prelude.Int.{ℤ, pos}
use pmlib.Map.{nat_key}
use pmlib.Outcome.{Outcome, ok, throw, crash, IsDefined, empty_front, M, after}
use pmlib.Wire.{Socket, write, write_vector, send_int, concat_map, int_bytes}
use pmlib.Floating.{Floating}
use pmlib.Device.{Attached, Device}
use pmlib.Device.Lines.{IsLine}
use pmlib.Device.Invariant.{IsSelection, start_counter-Evolves, stop_counter-Evolves}
use pmlib.Counter.{
  Session, State, inactive, active, on_sock, to_sock, reply, success, error, on_status, send_reply,
  begin_set, start_session, restart, end_set, stop_session, finalize_session, send_samples,
  get_session, dispatch, Operation, start, continue, stop, get, finalize,
}
use pmlib.Counter.Reply.{Recording, samples_of, running_sums}
use pmlib.Counter.Sets.{
  IsClosed, IsRecorded, IsRecorded-mono, IsRecorded-begin, close_last_lem, get_lines_sizes_lem,
}
use pmlib.Counter.Get.{samples_of-ok, set_lengths, to_ints}
use pmlib.Counter.Soundness.{IsSound}
use pmlib.Counter.Waiting.{Evolves-grows}

-- A socket call that is defined and leaves the unread bytes alone.
abbrev pub IsQuiet {ℓ} : {A : Type ℓ} → M Socket A → Type 0
IsQuiet m = (k : Socket) → IsDefined (m k).0 × ((m k).1.inbox ≡ k.inbox)

pub write-IsQuiet : (bytes : List ℕ) → IsQuiet (write bytes)
unfolding write
write-IsQuiet bytes k = elim (Bool-cases (ltb 0 k.writable)) [
  | inl e ↦ rw e (tt, refl)
  | inr e ↦ rw e (tt, refl)
]

pub write_vector-IsQuiet {ℓ} :
    {A : Type ℓ} (element : A → List ℕ) (x : A) (xs : List A)
    → IsQuiet (write_vector element (x ∷ xs))
unfolding write_vector
write_vector-IsQuiet element x xs k = write-IsQuiet (concat_map element (x ∷ xs)) k

pub send_int-IsQuiet : (z : ℤ) → IsQuiet (send_int z)
unfolding send_int
send_int-IsQuiet z = write-IsQuiet (int_bytes z)

module _ {R : Type 0} ⦃f : Floating R⦄ where
  -- The reply to a get would have no sample.
  abbrev pub IsBare : Session R → Type 0
  IsBare s =
      let c = s.counter in
      (c.status ≡ inactive)
      × (sums : List ℤ) × (samples_of c.aggregate c.interval s.dev c.lines c.sets ≡ ok ([], sums))

  -- A call returns or throws; or it takes the front of an empty vector, for a reply without samples.
  abbrev pub Halts {ℓ} : {A : Type ℓ} → Outcome A → Session R → Type 0
  Halts (ok a) s = Unit {0}
  Halts (throw e) s = Unit {0}
  Halts (crash g) s = (g ≡ empty_front) × IsBare s

  pub IsDefined-Halts {ℓ} : {A : Type ℓ} (r : Outcome A) (s : Session R) → IsDefined r → Halts r s
  IsDefined-Halts (ok a) s h = tt
  IsDefined-Halts (throw e) s h = tt
  IsDefined-Halts (crash g) s h = absurd h

module _ {R : Type 0} ⦃f : Floating R⦄ (own : Attached) (input : List ℕ) where
  -- Such a call, and the session is sound.
  abbrev pub IsSafe {ℓ} : {A : Type ℓ} → Outcome A × Session R → Type 0
  IsSafe (r, s) = Halts r s × IsSound own input s

  after-IsSafe {ℓ κ} :
      {A : Type ℓ} {B : Type κ} (r : Outcome A × Session R) (f : A → M (Session R) B)
      → IsSafe r
      → ((a : A) (s : Session R) → IsSound own input s → IsSafe (f a s))
      → IsSafe (after r f)
  after-IsSafe (ok a, s) f (_, h) g = g a s h
  after-IsSafe (throw e, s) f h g = h
  after-IsSafe (crash e, s) f (h, sound) g = (h, sound)

  pub on_sock-IsSafe {ℓ} :
      {A : Type ℓ} (m : M Socket A) (s : Session R)
      → IsQuiet m
      → IsSound own input s
      → IsSafe (on_sock m s)
  on_sock-IsSafe m s q h = (
    IsDefined-Halts (m s.sock).0 (on_sock m s).1 (q s.sock).0,
    record {
      wired = h.wired;
      registered = h.registered;
      number = h.number;
      lines = h.lines;
      selection = h.selection;
      stride = h.stride;
      recorded = h.recorded;
      possible = h.possible;
      inbox = (q s.sock).1 ∙ h.inbox;
    },
  )

  pub reply-IsSafe : (z : ℤ) (s : Session R) → IsSound own input s → IsSafe (reply z s)
  reply-IsSafe z s h = on_sock-IsSafe (send_int z) s (send_int-IsQuiet z) h

  pub begin_set_lem :
      (kept : List Recording → List Recording) (s : Session R)
      → IsSound own input s
      → (All (IsClosed s.dev.lines s.counter.lines) (kept s.counter.sets))
      → (t : Session R) × (begin_set kept s ≡ reply success t) × IsSound own input t
  unfolding begin_set
  begin_set_lem kept s h closed =
      let ls = s.counter.lines in
      let (d', p, v, same) = start_counter-Evolves own s.dev h.wired h.registered ls h.selection in
      let sel : IsSelection d'.n_lines ls = rw v.same_lines h.selection in
      let (sizes, q, e) = get_lines_sizes_lem d' v.wired ls sel in
      let grown = Evolves-grows own s.dev d' ls h.lines h.selection.1 v in
      (
        record s {
          dev = d';
          counter = record s.counter {
            status = active;
            sizes = sizes;
            sets = kept s.counter.sets ++ record { first = sizes; second = none } ∷ [];
          };
        },
        rw p (rw q),
        record {
          wired = v.wired;
          registered = v.registered;
          number = h.number;
          lines = h.lines;
          selection = sel;
          stride = h.stride;
          recorded =
              IsRecorded-begin d'.lines ls (kept s.counter.sets) sizes
                (IsRecorded-mono s.dev.lines d'.lines ls inactive (kept s.counter.sets) grown
                  closed)
                e;
          possible = rw (v.same_lines, ap (λ (d : Device R). d.counter_map) same) h.possible;
          inbox = h.inbox;
        },
      )

  pub end_set_lem :
      (s : Session R)
      → IsSound own input s
      → s.counter.status ≡ active
      → (t : Session R) × (end_set s ≡ reply success t) × IsSound own input t
  unfolding end_set
  end_set_lem s h running =
      let ls = s.counter.lines in
      let (d', p, v, same) = stop_counter-Evolves own s.dev h.wired h.registered ls h.selection in
      let sel : IsSelection d'.n_lines ls = rw v.same_lines h.selection in
      let (sizes, q, e) = get_lines_sizes_lem d' v.wired ls sel in
      let grown = Evolves-grows own s.dev d' ls h.lines h.selection.1 v in
      let open' : IsRecorded d'.lines ls active s.counter.sets =
        IsRecorded-mono s.dev.lines d'.lines ls active s.counter.sets grown
          (rw running at h.recorded) in
      let (sets, c, closed, _) = close_last_lem d'.lines ls s.counter.sets sizes open' e in
      (
        record s {
          dev = d';
          counter = record s.counter { status = inactive; sizes = sizes; sets = sets };
        },
        rw p (rw q (rw c)),
        record {
          wired = v.wired;
          registered = v.registered;
          number = h.number;
          lines = h.lines;
          selection = sel;
          stride = h.stride;
          recorded = closed;
          possible = rw (v.same_lines, ap (λ (d : Device R). d.counter_map) same) h.possible;
          inbox = h.inbox;
        },
      )

  on_status-IsSafe :
      (st : State) (idle busy : M (Session R) (Unit {0})) (s : Session R)
      → s.counter.status ≡ st
      → (s.counter.status ≡ inactive → IsSafe (idle s))
      → (s.counter.status ≡ active → IsSafe (busy s))
      → IsSafe (on_status st idle busy s)
  on_status-IsSafe inactive idle busy s e i b = i e
  on_status-IsSafe active idle busy s e i b = b e

  begin_set-IsSafe :
      (kept : List Recording → List Recording) (s : Session R)
      → IsSound own input s
      → All (IsClosed s.dev.lines s.counter.lines) (kept s.counter.sets)
      → IsSafe (begin_set kept s)
  begin_set-IsSafe kept s h c =
      let (t, p, h') = begin_set_lem kept s h c in rw p (reply-IsSafe success t h')

  end_set-IsSafe :
      (s : Session R) → IsSound own input s → s.counter.status ≡ active → IsSafe (end_set s)
  end_set-IsSafe s h e = let (t, p, h') = end_set_lem s h e in rw p (reply-IsSafe success t h')

  start_session-IsSafe : (s : Session R) → IsSound own input s → IsSafe (start_session s)
  unfolding start_session
  start_session-IsSafe s h =
      on_status-IsSafe s.counter.status (begin_set (λ _. [])) (reply error) s refl
        (λ _. begin_set-IsSafe (λ _. []) s h tt) (λ _. reply-IsSafe error s h)

  restart-IsSafe : (s : Session R) → IsSound own input s → IsSafe (restart s)
  unfolding restart
  restart-IsSafe s h =
      on_status-IsSafe s.counter.status (begin_set (λ sets. sets)) (reply error) s refl
        (λ e. begin_set-IsSafe (λ sets. sets) s h (rw e at h.recorded))
        (λ _. reply-IsSafe error s h)

  stop_session-IsSafe : (s : Session R) → IsSound own input s → IsSafe (stop_session s)
  unfolding stop_session
  stop_session-IsSafe s h =
      on_status-IsSafe s.counter.status (reply error) end_set s refl (λ _. reply-IsSafe error s h)
        (end_set-IsSafe s h)

  finalize_session-IsSafe : (s : Session R) → IsSound own input s → IsSafe (finalize_session s)
  unfolding finalize_session
  finalize_session-IsSafe s h =
      on_status-IsSafe s.counter.status _ (reply error) s refl
        (λ _.
          reply-IsSafe success (record s { counter = record s.counter { running = false } })
            (record {
              wired = h.wired;
              registered = h.registered;
              number = h.number;
              lines = h.lines;
              selection = h.selection;
              stride = h.stride;
              recorded = h.recorded;
              possible = h.possible;
              inbox = h.inbox;
            }))
        (λ _. reply-IsSafe error s h)

  write_watts-IsSafe :
      (watts : List R) (s : Session R)
      → IsSound own input s
      → (watts ≡ [] → IsBare s)
      → IsSafe (on_sock (write_vector f.double_bytes watts) s)
  unfolding write_vector
  write_watts-IsSafe [] s h bare = ((refl, bare refl), h)
  write_watts-IsSafe (x ∷ xs) s h bare =
      on_sock-IsSafe (write_vector f.double_bytes (x ∷ xs)) s
        (write_vector-IsQuiet f.double_bytes x xs) h

  -- A step that changes nothing but the connection, and what follows it.
  to_sock-IsSafe :
      (r : Outcome (Unit {0}) × Socket) (s : Session R) (m : M (Session R) (Unit {0}))
      → IsDefined r.0
      → IsSound own input (record s { sock = r.1 })
      → ((k : Socket)
          → IsSound own input (record s { sock = k })
          → IsSafe (m (record s { sock = k })))
      → IsSafe (after (to_sock s r) (λ _. m))
  to_sock-IsSafe (ok a, k) s m d h g = g k h
  to_sock-IsSafe (throw e, k) s m d h g = (tt, h)
  to_sock-IsSafe (crash e, k) s m d h g = absurd d

  then-IsSafe :
      (m : M Socket (Unit {0})) (s : Session R) (next : M (Session R) (Unit {0}))
      → IsQuiet m
      → IsSound own input s
      → ((k : Socket)
          → IsSound own input (record s { sock = k })
          → IsSafe (next (record s { sock = k })))
      → IsSafe (after (on_sock m s) (λ _. next))
  then-IsSafe m s next q h g =
      to_sock-IsSafe (m s.sock) s next (q s.sock).0 (on_sock-IsSafe m s q h).1 g

  send_reply-IsSafe :
      (n : ℕ) (watts : List R) (z : ℤ) (sums : List ℤ) (s : Session R)
      → IsSound own input s
      → (watts ≡ [] → IsBare s)
      → IsSafe (send_reply n (watts, z ∷ sums) s)
  unfolding send_reply
  send_reply-IsSafe n watts z sums s h bare =
      then-IsSafe (send_int (pos (length watts))) s _ (send_int-IsQuiet _) h λ k1 h1.
        then-IsSafe (send_int (pos (length (z ∷ sums)))) (record s { sock = k1 }) _
          (send_int-IsQuiet _) h1
          λ k2 h2.
            then-IsSafe (send_int (pos n)) (record s { sock = k2 }) _ (send_int-IsQuiet _) h2
              λ k3 h3.
                then-IsSafe (write_vector int_bytes (z ∷ sums)) (record s { sock = k3 }) _
                  (write_vector-IsQuiet int_bytes z sums) h3
                  λ k4 h4. write_watts-IsSafe watts (record s { sock = k4 }) h4 bare

  send_samples-IsSafe :
      (s : Session R) → IsSound own input s → s.counter.status ≡ inactive → IsSafe (send_samples s)
  unfolding send_samples
  send_samples-IsSafe s h e =
      let c = s.counter in
      let (k, p) = h.stride in
      let (watts, q) =
        samples_of-ok k s.dev c.lines h.selection.0
          (All-map _ (IsLine s.dev.lines) h.wired.present c.lines h.selection.1) c.aggregate c.sets
          (rw e at h.recorded) in
      let sums = running_sums (pos 0) (to_ints (set_lengths k c.lines c.sets)) in
      let sent = ap (λ z. samples_of c.aggregate z s.dev c.lines c.sets) p ∙ q in
      rw sent (
        send_reply-IsSafe (length c.lines) watts (pos 0) sums s h
          (λ none'. (e, pos 0 ∷ sums, sent ∙ ap (λ w. ok (w, pos 0 ∷ sums)) none')))

  get_session-IsSafe : (s : Session R) → IsSound own input s → IsSafe (get_session s)
  unfolding get_session
  get_session-IsSafe s h =
      on_status-IsSafe s.counter.status send_samples (reply error) s refl (send_samples-IsSafe s h)
        (λ _. reply-IsSafe error s h)

  -- So does every request of a sound session.
  pub dispatch-IsSafe :
      (op : Operation) (s : Session R) → IsSound own input s → IsSafe (dispatch op s)
  unfolding dispatch
  dispatch-IsSafe start s h = start_session-IsSafe s h
  dispatch-IsSafe continue s h = restart-IsSafe s h
  dispatch-IsSafe stop s h = stop_session-IsSafe s h
  dispatch-IsSafe get s h = get_session-IsSafe s h
  dispatch-IsSafe finalize s h = finalize_session-IsSafe s h
  dispatch-IsSafe _ s h = reply-IsSafe error s h
