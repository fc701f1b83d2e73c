-- ===== src/Counter/Get.antt =====
-- `Counter::get` (server/counter.cpp) as a whole, on closed sets.
use pmlib.Prelude.{
  ℕ, suc, ◌≤◌, ◌≡◌, refl, sym, ◌∙◌, ap, Bool, true, false, Option, none, some, List, [], ◌∷◌, ◌++◌,
  All, replicate, subst, length-replicate,
}
use pmlib.Prelude.Int.{ℤ, pos}
use pmlib.Map.{Map}
use pmlib.Outcome.{ok}
use pmlib.Floating.{Floating}
use pmlib.Device.{Device}
use pmlib.Device.Lines.{IsRising, IsLine}
use pmlib.Device.Invariant.{size_of}
use pmlib.Counter.Reply.{
  Recording, offset, min_len_of, min_lens, set_sums, all_watts, set_watts, samples_of, running_sums,
}
use pmlib.Counter.Sets.{IsClosed}
use pmlib.Counter.Resample.{
  quota, shortest, shortest-le, min_len_of-shortest, IsReadable, set_samples-ok, add_lines-ok,
}

abbrev pub ends : Option (Map ℕ ℕ) → Map ℕ ℕ
ends none = []
ends (some e) = e

-- The length that a set contributes to `watts_sets`: that of its shortest line.
abbrev pub set_length : ℕ → List ℕ → Recording → ℕ
set_length k ls se = shortest k se.first (ends se.second) ls

abbrev pub set_lengths : ℕ → List ℕ → List Recording → List ℕ
set_lengths k ls [] = []
set_lengths k ls (se ∷ sets) = set_length k ls se ∷ set_lengths k ls sets

abbrev pub to_ints : List ℕ → List ℤ
to_ints [] = []
to_ints (n ∷ ns) = pos n ∷ to_ints ns

module _ {R : Type 0} (k : ℕ) (d : Device R) (ls : List ℕ) (rising : IsRising 0 ls)
    (lines : All (IsLine d.lines) ls) where
  in_order :
      (b e : Map ℕ ℕ) (ks : List ℕ)
      → All (λ l. (offset b l ≤ offset e l) × (offset e l ≤ size_of l d.lines)) ks
      → All (λ l. offset b l ≤ offset e l) ks
  in_order b e [] h = tt
  in_order b e (l ∷ ks) h = (h.0.0, in_order b e ks h.1)

  readable :
      (se : Recording) (e : Map ℕ ℕ) (p : se.second ≡ some e) (n : ℕ) (ks : List ℕ)
      → All (IsLine d.lines) ks
      → All (λ l. (offset se.first l ≤ offset e l) × (offset e l ≤ size_of l d.lines)) ks
      → All (λ l. n ≤ quota k se.first e l) ks
      → All (IsReadable k d se e p n) ks
  readable se e p n [] a b c = tt
  readable se e p n (l ∷ ks) a b c = ((a.0, b.0.0, b.0.1, c.0), readable se e p n ks a.1 b.1 c.1)

  min_len_of-set_length :
      (se : Recording)
      → IsClosed d.lines ls se
      → min_len_of (pos (suc k)) ls se ≡ ok (pos (set_length k ls se))
  min_len_of-set_length se (e, p, h) =
      min_len_of-shortest k se e p ls rising (in_order se.first e ls h)
      ∙ ap (λ o. ok (pos (shortest k se.first (ends o) ls))) (sym p)

  -- The first loop of `get`: the lengths of all sets.
  pub min_lens-set_lengths :
      (sets : List Recording)
      → All (IsClosed d.lines ls) sets
      → min_lens (pos (suc k)) ls sets ≡ ok (to_ints (set_lengths k ls sets))
  unfolding min_lens
  min_lens-set_lengths [] h = refl
  min_lens-set_lengths (se ∷ sets) (c, h) =
      rw (min_len_of-set_length se c) (rw (min_lens-set_lengths sets h))

  -- Every line of a closed set has as many samples as the shortest one.
  pub All-IsReadable :
      (se : Recording) (e : Map ℕ ℕ) (p : se.second ≡ some e)
      → All (λ l. (offset se.first l ≤ offset e l) × (offset e l ≤ size_of l d.lines)) ls
      → All (IsReadable k d se e p (set_length k ls se)) ls
  All-IsReadable se e p h = readable se e p (set_length k ls se) ls lines h (
      subst (λ t. All (λ l. set_length k ls se ≤ quota k se.first t l) ls) (ap ends p)
        (shortest-le k se.first (ends se.second) ls))

  module _ ⦃f : Floating R⦄ where
    set_watts-ok :
        (aggregate : Bool) (se : Recording)
        → IsClosed d.lines ls se
        → (ys : List R) × (set_watts aggregate (pos (suc k)) d se (pos (set_length k ls se)) ls
            ≡ ok ys)
    unfolding set_sums
    set_watts-ok true se (e, p, h) =
        let n = set_length k ls se in
        let (ys, q, _) =
          add_lines-ok k d se e p n ls (replicate n (f.of_ℕ 0)) (length-replicate n _)
            (All-IsReadable se e p h) in
        (ys, q)
    set_watts-ok false se (e, p, h) =
        set_samples-ok k d se e p (set_length k ls se) ls (All-IsReadable se e p h)

    all_watts-ok :
        (aggregate : Bool) (sets : List Recording)
        → All (IsClosed d.lines ls) sets
        → (ys : List R) × (all_watts aggregate
              (pos (suc k))
              d
              ls
              sets
              (to_ints (set_lengths k ls sets))
            ≡ ok ys)
    unfolding all_watts
    all_watts-ok aggregate [] h = ([], refl)
    all_watts-ok aggregate (se ∷ sets) (c, h) =
        let (ys, p) = set_watts-ok aggregate se c in
        let (zs, q) = all_watts-ok aggregate sets h in (ys ++ zs, rw p (rw q))

    -- On closed sets `get` has a reply, whose `watts_sets` are the running sums of the lengths.
    pub samples_of-ok :
        (aggregate : Bool) (sets : List Recording)
        → All (IsClosed d.lines ls) sets
        → (watts : List R) × (samples_of aggregate (pos (suc k)) d ls sets
            ≡ ok (watts, pos 0 ∷ running_sums (pos 0) (to_ints (set_lengths k ls sets))))
    unfolding samples_of
    samples_of-ok aggregate sets h =
        let (watts, p) = all_watts-ok aggregate sets h in
        (watts, rw (min_lens-set_lengths sets h) (rw p))
