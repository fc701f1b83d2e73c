-- ===== src/Counter/Soundness.antt =====
-- The invariant of a running session (server/counter.cpp), and what the other threads may do to its
-- device while it waits (server/device.cpp).
use pmlib.Prelude.{
  ℕ, suc, ◌≡◌, false, none, some, List, [], ◌∷◌, arith, ◌==◌, if◌then◌else◌, ◌⊎◌, length,
}
use pmlib.Prelude.Int.{pos}
use pmlib.Map.{Map, nat_key, find, insert_or_assign, erase}
use pmlib.Outcome.{ok}
use pmlib.Device.{
  Attached, Device, is_some, register_counter, deregister_counter, start_counter, stop_counter,
  push_back_data,
}
use pmlib.Device.Invariant.{
  IsSelection, IsWired, Evolves, start_counter-Evolves, stop_counter-Evolves,
  register_counter-Evolves, deregister_counter-Evolves, push_back_data-Evolves,
}
use pmlib.Counter.{Session, Event, sampled, joined, left, started, stopped, apply_event}
use pmlib.Counter.Sets.{IsRecorded}

-- An event that other threads can cause: samples have a value for each line, counter numbers are not
-- used twice, a counter leaves as it registered, and `own` does not leave.
abbrev pub IsPossible : {R : Type 0} → ℕ → Attached → Map ℕ Attached → Event R → Type 0
IsPossible n own cm (sampled xs) = length xs ≡ n
IsPossible n own cm (joined c) = IsSelection n c.lines × (find c.id cm ≡ none)
IsPossible n own cm (left c) =
    IsSelection n c.lines
    × ((find c.id cm ≡ none) ⊎ (find c.id cm ≡ some c))
    × ((c.id == own.id) ≡ false)
IsPossible n own cm (started ls) = IsSelection n ls
IsPossible n own cm (stopped ls) = IsSelection n ls

module _ {R : Type 0} where
  abbrev pub counters_after : Event R → Map ℕ Attached → Map ℕ Attached
  counters_after (joined c) cm = insert_or_assign c.id c cm
  counters_after (left c) cm = if is_some (find c.id cm) then erase c.id cm else cm
  counters_after _ cm = cm

  abbrev pub counters_after_all : List (Event R) → Map ℕ Attached → Map ℕ Attached
  counters_after_all [] cm = cm
  counters_after_all (e ∷ es) cm = counters_after_all es (counters_after e cm)

  abbrev pub ArePossible : ℕ → Attached → Map ℕ Attached → List (Event R) → Type 0
  ArePossible n own cm [] = Unit {0}
  ArePossible n own cm (e ∷ es) = IsPossible n own cm e × ArePossible n own (counters_after e cm) es

  -- The events between the requests of a session.
  abbrev pub AllPossible : ℕ → Attached → Map ℕ Attached → List (List (Event R)) → Type 0
  AllPossible n own cm [] = Unit {0}
  AllPossible n own cm (es ∷ rest) =
      ArePossible n own cm es × AllPossible n own (counters_after_all es cm) rest

  -- `input` is what the client will still send.
  pub record IsSound (own : Attached) (input : List ℕ) (s : Session R) : Type 0 where
    pub wired : IsWired s.dev
    pub registered : find own.id s.dev.counter_map ≡ some own
    pub number : own.id ≡ s.counter.id
    pub lines : own.lines ≡ s.counter.lines
    pub selection : IsSelection s.dev.n_lines s.counter.lines
    pub stride : (k : ℕ) × (s.counter.interval ≡ pos (suc k))
    pub recorded : IsRecorded s.dev.lines s.counter.lines s.counter.status s.counter.sets
    pub possible : AllPossible s.dev.n_lines own s.dev.counter_map s.others
    pub inbox : s.sock.inbox ≡ input

  pub apply_event-Evolves :
      (own : Attached) (d : Device R) (e : Event R)
      → IsWired d
      → find own.id d.counter_map ≡ some own
      → IsPossible d.n_lines own d.counter_map e
      → (d' : Device R) × (apply_event e d ≡ ok d') × Evolves own d d'
  unfolding apply_event
  apply_event-Evolves own d (sampled xs) w reg p = push_back_data-Evolves own d w reg xs p
  apply_event-Evolves own d (joined c) w reg (sel, fresh) =
      register_counter-Evolves own d w reg c sel fresh
  apply_event-Evolves own d (left c) w reg (sel, known, other) =
      deregister_counter-Evolves own d w reg c sel known other
  apply_event-Evolves own d (started ls) w reg sel =
      let (d', p, v, _) = start_counter-Evolves own d w reg ls sel in (d', p, v)
  apply_event-Evolves own d (stopped ls) w reg sel =
      let (d', p, v, _) = stop_counter-Evolves own d w reg ls sel in (d', p, v)

  pub counters-apply_event :
      (d d' : Device R) (e : Event R)
      → apply_event e d ≡ ok d'
      → d'.counter_map ≡ counters_after e d.counter_map
  unfolding apply_event register_counter deregister_counter start_counter stop_counter
      push_back_data
  counters-apply_event d d' (sampled xs) p = ground arith
  counters-apply_event d d' (joined c) p = ground arith
  counters-apply_event d d' (left c) p = ground arith
  counters-apply_event d d' (started ls) p = ground arith
  counters-apply_event d d' (stopped ls) p = ground arith
