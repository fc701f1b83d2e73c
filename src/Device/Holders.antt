-- ===== src/Device/Holders.antt =====
-- The reference counts of server/device.cpp: the registered counters that hold a line.
use pmlib.Prelude.{
  ℕ, ◌+◌, ◌<◌, ◌≡◌, refl, ◌∙◌, true, false, none, some, [], ◌∷◌, arith, ◌==◌, ==_iff, if◌then◌else◌,
}
use pmlib.Map.{Map, nat_key, find, insert_or_assign, erase, find-insert, find-erase}
use pmlib.Device.{Attached}
use pmlib.Device.Lines.{contains}

abbrev pub holds : ℕ → Attached → ℕ
holds l c = if contains c.lines l then 1 else 0

-- The number of registered counters that hold a line.
abbrev pub holders : ℕ → Map ℕ Attached → ℕ
holders l [] = 0
holders l ((i, c) ∷ m) = holds l c + holders l m

abbrev pub IsUnique {ℓ} : {V : Type ℓ} → Map ℕ V → Type ℓ
IsUnique [] = Unit
IsUnique ((k, v) ∷ m) = (find k m ≡ none) × IsUnique m

find-insert_fresh {ℓ} :
    {V : Type ℓ} (k i : ℕ) (v : V) (m : Map ℕ V)
    → find k m ≡ none
    → find i m ≡ none
    → (k == i) ≡ false
    → find i (insert_or_assign k v m) ≡ none
find-insert_fresh k i v m h g n = find-insert i k v m ∙ rw n g

pub IsUnique-insert :
    (k : ℕ) (c : Attached) (m : Map ℕ Attached)
    → find k m ≡ none
    → IsUnique m
    → IsUnique (insert_or_assign k c m)
IsUnique-insert k c [] h u = (refl, tt)
IsUnique-insert k c ((i, d) ∷ m) h (g, u) =
    ground (arith, IsUnique-insert k c m, find-insert i k c m)

pub holders-insert :
    (l k : ℕ) (c : Attached) (m : Map ℕ Attached)
    → find k m ≡ none
    → holders l (insert_or_assign k c m) ≡ holds l c + holders l m
holders-insert l k c [] h = refl
holders-insert l k c ((i, d) ∷ m) h = ground (arith, holders-insert l k c m)

erase_absent : (k : ℕ) (m : Map ℕ Attached) → find k m ≡ none → erase k m ≡ m
erase_absent k [] h = refl
erase_absent k ((i, d) ∷ m) h = ground (arith, erase_absent k m)

pub holders-erase :
    (l k : ℕ) (c : Attached) (m : Map ℕ Attached)
    → IsUnique m
    → find k m ≡ some c
    → holders l m ≡ holds l c + holders l (erase k m)
holders-erase l k c [] u h = cc
holders-erase l k c ((i, d) ∷ m) (g, u) h =
    ground (arith, holders-erase l k c m u, ==_iff i k, erase_absent k m)

pub IsUnique-erase : (k : ℕ) (m : Map ℕ Attached) → IsUnique m → IsUnique (erase k m)
IsUnique-erase k [] u = tt
IsUnique-erase k ((i, d) ∷ m) (g, u) = ground (arith, IsUnique-erase k m u, find-erase i k m)

-- A registered counter is counted on each of its lines.
pub holders_pos :
    (l k : ℕ) (c : Attached) (m : Map ℕ Attached)
    → find k m ≡ some c
    → contains c.lines l ≡ true
    → 0 < holders l m
holders_pos l k c [] e h = cc
holders_pos l k c ((i, d) ∷ m) e h = ground (arith, holders_pos l k c m)
