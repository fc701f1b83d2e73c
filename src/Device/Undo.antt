-- ===== src/Device/Undo.antt =====
-- Pairs of operations of server/device.cpp: start and stop of a counter, and its registration and
-- departure.
use pmlib.Prelude.{
  ℕ, ◌≡◌, refl, ◌∙◌, ap, Bool, none, some, List, [], ◌∷◌, arith, All-map, ==_iff, not,
  if◌then◌else◌, ◌&&◌,
}
use pmlib.Map.{
  Map, nat_key, name_key, find, insert_or_assign, erase, adjust, find-insert, find-adjust,
}
use pmlib.Outcome.{ok, ◌and_then◌}
use pmlib.Device.{
  Line, Attached, Device, activate, deactivate, enable, release_line, register_counter,
  deregister_counter, start_counter, stop_counter, with_lines, is_enabled, clear_data,
}
use pmlib.Device.Lines.{
  contains, IsLine, IsLine-adjust_all, on_lines-adjust_all, adjust_all, find-adjust_all,
  adjust_all-adjust_all,
}
use pmlib.Device.Invariant.{IsSelection, on_lines_lem, IsWired-adjust_all, IsWired}

erase_absent : {V : Type 0} (k : ℕ) (m : Map ℕ V) → find k m ≡ none → erase k m ≡ m
erase_absent k [] h = refl
erase_absent k ((j, v) ∷ m) h = ground (arith, erase_absent k m)

erase-insert :
    {V : Type 0} (k : ℕ) (v : V) (m : Map ℕ V)
    → find k m ≡ none
    → erase k (insert_or_assign k v m) ≡ m
erase-insert k v [] h = ground (arith, ==_iff k k)
erase-insert k v ((j, w) ∷ m) h = ground (arith, ==_iff k k, erase_absent k m, erase-insert k v m)

module _ {R : Type 0} where
  undone : (x : Line R) → deactivate (activate x) ≡ x
  undone x = ground arith

  -- What is left of a line when a counter has come and gone: its samples are lost unless another
  -- counter holds the line.
  abbrev pub released : List ℕ → ℕ → Line R → Line R
  released ls l x = if contains ls l && not (is_enabled x) then clear_data x else x

  release_line-enable :
      (t : Bool) (x : Line R)
      → (if t then release_line (if t then enable x else x) else (if t then enable x else x))
        ≡ (if t && not (is_enabled x) then clear_data x else x)
  release_line-enable t x = ground arith

  find-adjust_all-none :
      (ls : List ℕ) (l : ℕ) (f : Line R → Line R) (m : Map ℕ (Line R))
      → find l m ≡ none
      → find l (adjust_all ls f m) ≡ none
  find-adjust_all-none [] l f m e = e
  find-adjust_all-none (k ∷ ls) l f m e =
      find-adjust_all-none ls l f (adjust k f m) (find-adjust l k f m ∙ rw e (ground arith))

module _ {R : Type 0} (d : Device R) (w : IsWired d) where
  module _ (ls : List ℕ) (sel : IsSelection d.n_lines ls) where
    -- Starting a counter on lines of a sound device and stopping it again leaves the device as it
    -- was.
    pub stop_counter-start_counter : (start_counter ls d and_then stop_counter ls) ≡ ok d
    unfolding start_counter stop_counter
    stop_counter-start_counter = rw (on_lines_lem d w ls sel activate) (
        rw
          (on_lines_lem (with_lines d (adjust_all ls activate d.lines))
            (IsWired-adjust_all d w ls sel activate (λ x. refl)) ls sel deactivate)
          (ap (λ m. ok (with_lines d m))
            (adjust_all-adjust_all 0 ls deactivate activate d.lines sel.0 undone)))

  module _ (c : Attached) (sel : IsSelection d.n_lines c.lines)
      (fresh : find c.id d.counter_map ≡ none) where
    -- A counter that registers with a fresh number and leaves again changes nothing of a sound
    -- device but this: those of its lines that nobody else holds have lost their samples. There are
    -- no new lines, and all else, the registered counters included, is as it was.
    pub deregister_counter-register_counter :
        (d' : Device R) × ((register_counter c d and_then deregister_counter c) ≡ ok d')
        × (d' ≡ with_lines d d'.lines)
        × ((l : ℕ) → find l d.lines ≡ none → find l d'.lines ≡ none)
        × ((l : ℕ) (x : Line R)
            → find l d.lines ≡ some x
            → find l d'.lines ≡ some (released c.lines l x))
    unfolding register_counter deregister_counter
    deregister_counter-register_counter =
        let m = adjust_all c.lines enable d.lines in
        let there : find c.id (insert_or_assign c.id c d.counter_map) ≡ some c =
          find-insert c.id c.id c d.counter_map ∙ ground (arith, ==_iff c.id c.id) in
        (
          record d {
            lines = adjust_all c.lines release_line m;
            counter_map = erase c.id (insert_or_assign c.id c d.counter_map);
          },
          rw (on_lines_lem d w c.lines sel enable) (
              rw there (
                rw
                  (on_lines-adjust_all release_line c.lines m (
                    All-map _ (IsLine m)
                      (λ l h. IsLine-adjust_all c.lines l enable d.lines (w.present l h)) c.lines
                      sel.1))
                  refl)),
          ap (λ cm. record d { lines = adjust_all c.lines release_line m; counter_map = cm })
              (erase-insert c.id c d.counter_map fresh),
          λ l e.
              find-adjust_all-none c.lines l release_line m
                (find-adjust_all-none c.lines l enable d.lines e),
          λ l x e.
              find-adjust_all 0 c.lines l release_line m _ sel.0
                (find-adjust_all 0 c.lines l enable d.lines x sel.0 e)
              ∙ ap some (release_line-enable (contains c.lines l) x),
        )
