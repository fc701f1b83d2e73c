-- ===== src/Counter/Sets.antt =====
-- The sets that `Counter::start`, `restart` and `stop` record (server/counter.cpp), and the offsets
-- that `Device::get_lines_sizes` measures for them.
use pmlib.Prelude.{
  ℕ, suc, ◌≤◌, ◌≡◌, refl, ◌∙◌, ap, false, none, some, List, [], ◌∷◌, ◌++◌, arith, All, All-map,
  length,
}
use pmlib.Map.{Map, nat_key, insert_or_assign, find-insert}
use pmlib.Outcome.{ok}
use pmlib.Device.{Line, Device, add_sizes, get_lines_sizes, get_size}
use pmlib.Device.Lines.{contains, IsRising, IsLine, contains-IsRising}
use pmlib.Device.Invariant.{size_of, IsSelection, IsWired}
use pmlib.Counter.{State, inactive, active, close_last}
use pmlib.Counter.Reply.{Recording, offset}

module _ {R : Type 0} (m : Map ℕ (Line R)) (ls : List ℕ) where
  -- The offsets of a closed set lie in order, inside each line's samples.
  abbrev pub IsClosed : Recording → Type 0
  IsClosed se =
      (e : Map ℕ ℕ) × (se.second ≡ some e)
      × All (λ l. (offset se.first l ≤ offset e l) × (offset e l ≤ size_of l m)) ls

  abbrev pub IsOpen : Recording → Type 0
  IsOpen se = All (λ l. offset se.first l ≤ size_of l m) ls

  -- All sets are closed but the last one.
  abbrev pub EndsOpen : List Recording → Type 0
  EndsOpen [] = ⊥
  EndsOpen (s ∷ []) = IsOpen s
  EndsOpen (s ∷ t ∷ ts) = IsClosed s × EndsOpen (t ∷ ts)

  abbrev pub IsRecorded : State → List Recording → Type 0
  IsRecorded inactive sets = All IsClosed sets
  IsRecorded active sets = EndsOpen sets

module _ {R : Type 0} (m : Map ℕ (Line R)) where
  add_sizes_lem :
      (n : ℕ) (ls : List ℕ) (acc : Map ℕ ℕ)
      → IsRising n ls
      → All (IsLine m) ls
      → (sizes : Map ℕ ℕ) × (add_sizes ls m acc ≡ ok sizes)
        × ((l : ℕ) → contains ls l ≡ false → offset sizes l ≡ offset acc l)
        × All (λ l. offset sizes l ≡ size_of l m) ls
  unfolding add_sizes
  add_sizes_lem n [] acc r h = (acc, refl, (λ l _. refl), tt)
  add_sizes_lem n (l ∷ ls) acc r ((x, e), h) =
      let acc' = insert_or_assign l (get_size x) acc in
      let (sizes, p, out, in') = add_sizes_lem (suc l) ls acc' r.1 h in
      (
        sizes,
        rw e p,
        λ j q. out j (ground arith) ∙ ground (arith, find-insert j l (get_size x) acc),
        (
          out l (contains-IsRising (suc l) l ls r.1 (omega arith))
              ∙ ground (arith, find-insert l l (get_size x) acc),
          in',
        ),
      )

module _ {R : Type 0} (d : Device R) (w : IsWired d) (ls : List ℕ)
    (sel : IsSelection d.n_lines ls) where
  -- `get_lines_sizes` never meets a missing line, and records the size of each.
  pub get_lines_sizes_lem :
      (sizes : Map ℕ ℕ) × (get_lines_sizes ls d ≡ ok sizes)
      × All (λ l. offset sizes l ≡ size_of l d.lines) ls
  unfolding get_lines_sizes
  get_lines_sizes_lem =
      let (sizes, p, _, q) =
        add_sizes_lem d.lines 0 ls [] sel.0 (All-map _ (IsLine d.lines) w.present ls sel.1) in
      (sizes, p, q)

module _ {R : Type 0} (m m' : Map ℕ (Line R)) where
  -- Samples that arrive do not spoil what was recorded.
  IsClosed-mono :
      (ls : List ℕ) (se : Recording)
      → All (λ l. size_of l m ≤ size_of l m') ls
      → IsClosed m ls se
      → IsClosed m' ls se
  IsClosed-mono ls se g (e, p, h) = (e, p, go ls g h)
    where
      go :
          (ks : List ℕ)
          → All (λ l. size_of l m ≤ size_of l m') ks
          → All (λ l. (offset se.first l ≤ offset e l) × (offset e l ≤ size_of l m)) ks
          → All (λ l. (offset se.first l ≤ offset e l) × (offset e l ≤ size_of l m')) ks
      go [] g' h' = tt
      go (k ∷ ks) g' h' = ((h'.0.0, omega arith), go ks g'.1 h'.1)

  IsOpen-mono :
      (ls : List ℕ) (se : Recording)
      → All (λ l. size_of l m ≤ size_of l m') ls
      → IsOpen m ls se
      → IsOpen m' ls se
  IsOpen-mono [] se g h = tt
  IsOpen-mono (l ∷ ls) se g h = (omega arith, IsOpen-mono ls se g.1 h.1)

  pub IsRecorded-mono :
      (ls : List ℕ) (st : State) (sets : List Recording)
      → All (λ l. size_of l m ≤ size_of l m') ls
      → IsRecorded m ls st sets
      → IsRecorded m' ls st sets
  IsRecorded-mono ls inactive sets g h =
      All-map (IsClosed m ls) (IsClosed m' ls) (λ se. IsClosed-mono ls se g) sets h
  IsRecorded-mono ls active [] g h = h
  IsRecorded-mono ls active (s ∷ []) g h = IsOpen-mono ls s g h
  IsRecorded-mono ls active (s ∷ t ∷ ts) g h =
      (IsClosed-mono ls s g h.0, IsRecorded-mono ls active (t ∷ ts) g h.1)

module _ {R : Type 0} (m : Map ℕ (Line R)) (ls : List ℕ) where
  EndsOpen-append :
      (sets : List Recording) (se : Recording)
      → All (IsClosed m ls) sets
      → IsOpen m ls se
      → EndsOpen m ls (sets ++ se ∷ [])
  EndsOpen-append [] se h o = o
  EndsOpen-append (s ∷ []) se h o = (h.0, o)
  EndsOpen-append (s ∷ t ∷ ts) se h o = (h.0, EndsOpen-append (t ∷ ts) se h.1 o)

  -- A set that begins where the lines end is open.
  pub IsRecorded-begin :
      (sets : List Recording) (sizes : Map ℕ ℕ)
      → All (IsClosed m ls) sets
      → All (λ l. offset sizes l ≡ size_of l m) ls
      → IsRecorded m ls active (sets ++ record { first = sizes; second = none } ∷ [])
  IsRecorded-begin sets sizes h e = EndsOpen-append sets _ h (go ls e)
    where
      go :
          (ks : List ℕ)
          → All (λ l. offset sizes l ≡ size_of l m) ks
          → All (λ l. offset sizes l ≤ size_of l m) ks
      go [] h' = tt
      go (k ∷ ks) h' = (omega arith, go ks h'.1)

  -- Closing the last set where the lines end.
  pub close_last_lem :
      (sets : List Recording) (sizes : Map ℕ ℕ)
      → EndsOpen m ls sets
      → All (λ l. offset sizes l ≡ size_of l m) ls
      → (sets' : List Recording) × (close_last sizes sets ≡ ok sets')
        × All (IsClosed m ls) sets'
        × (length sets' ≡ length sets)
  close_last_lem [] sizes h e = absurd h
  close_last_lem (s ∷ []) sizes h e =
      (record s { second = some sizes } ∷ [], refl, ((sizes, refl, go ls h e), tt), refl)
    where
      go :
          (ks : List ℕ)
          → All (λ l. offset s.first l ≤ size_of l m) ks
          → All (λ l. offset sizes l ≡ size_of l m) ks
          → All (λ l. (offset s.first l ≤ offset sizes l) × (offset sizes l ≤ size_of l m)) ks
      go [] h' e' = tt
      go (k ∷ ks) h' e' = (omega arith, go ks h'.1 e'.1)
  close_last_lem (s ∷ t ∷ ts) sizes h e =
      let (sets', p, q, len) = close_last_lem (t ∷ ts) sizes h.1 e in
      (s ∷ sets', rw p, (h.0, q), ap suc len)
