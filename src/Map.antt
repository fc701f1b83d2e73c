-- ===== src/Map.antt =====
-- `std::map`: entries in the order of their keys, each key once. The server keeps its devices by name,
-- and a device keeps its lines and counters by number.
use pmlib.Prelude.{
  ◌⊎◌, inl, inr, sym, ◌∙◌, ℕ, ◌≡◌, refl, Bool, true, false, Option, none, some, List, [], ◌∷◌,
  arith, if◌then◌else◌, ◌==◌, ==_iff, ◌↔◌, ltb, ◌&&◌, ◌||◌,
}

-- `operator<` of the key type, and the equality that it induces.
pub record Key {ℓ} (K : Type ℓ) : Type ℓ where
  pub eqb : K → K → Bool
  pub less : K → K → Bool
  pub eqb_iff : (a b : K) → (eqb a b ≡ true) ↔ (a ≡ b)

instance abbrev pub nat_key : Key ℕ
nat_key = record { eqb = λ a b. a == b; less = ltb; eqb_iff = ==_iff }

-- A `std::string` is the list of its bytes.
abbrev pub Name : Type 0
Name = List ℕ

abbrev pub name_eqb : Name → Name → Bool
name_eqb [] [] = true
name_eqb [] (b ∷ bs) = false
name_eqb (a ∷ as') [] = false
name_eqb (a ∷ as') (b ∷ bs) = (a == b) && name_eqb as' bs

-- Lexicographic, by bytes.
abbrev pub name_less : Name → Name → Bool
name_less as' [] = false
name_less [] (b ∷ bs) = true
name_less (a ∷ as') (b ∷ bs) = ltb a b || ((a == b) && name_less as' bs)

name_eqb_refl : (a : Name) → name_eqb a a ≡ true
name_eqb_refl [] = refl
name_eqb_refl (a ∷ as') = ground (arith, name_eqb_refl as')

name_eqb_sound : (a b : Name) → name_eqb a b ≡ true → a ≡ b
name_eqb_sound [] [] h = refl
name_eqb_sound [] (b ∷ bs) h = cc
name_eqb_sound (a ∷ as') [] h = cc
name_eqb_sound (a ∷ as') (b ∷ bs) h = ground (arith, name_eqb_sound as' bs)

pub name_eqb_iff : (a b : Name) → (name_eqb a b ≡ true) ↔ (a ≡ b)
name_eqb_iff a b = (name_eqb_sound a b, λ e. cc (name_eqb_refl a, e))

instance abbrev pub name_key : Key Name
name_key = record { eqb = name_eqb; less = name_less; eqb_iff = name_eqb_iff }

abbrev pub Map {ℓ κ} : Type ℓ → Type κ → Type (ℓ ⊔ κ)
Map K V = List (K × V)

pub eqb_refl {ℓ} : {K : Type ℓ} ⦃o : Key K⦄ (k : K) → o.eqb k k ≡ true
eqb_refl ⦃o⦄ k = (o.eqb_iff k k).1 refl

if_cases {κ} :
    {V : Type κ} (t : Bool) (v w : V) (o : Option V)
    → (if t then some v else o) ≡ some w
    → (v ≡ w) ⊎ (o ≡ some w)
if_cases true v w o e = inl (ground arith)
if_cases false v w o e = inr e

module _ {ℓ κ} {K : Type ℓ} {V : Type κ} where
  abbrev pub keys : Map K V → List K
  keys [] = []
  keys ((k, v) ∷ m) = k ∷ keys m

  abbrev pub values : Map K V → List V
  values [] = []
  values ((k, v) ∷ m) = v ∷ values m

module _ {ℓ κ} {K : Type ℓ} {V : Type κ} ⦃o : Key K⦄ where
  abbrev pub find : K → Map K V → Option V
  find k [] = none
  find k ((j, v) ∷ m) = if o.eqb j k then some v else find k m

  -- `m[k] = v`.
  abbrev pub insert_or_assign : K → V → Map K V → Map K V
  insert_or_assign k v [] = (k, v) ∷ []
  insert_or_assign k v ((j, w) ∷ m) =
      if o.eqb j k
      then (k, v) ∷ m
      else if o.less k j
      then (k, v) ∷ (j, w) ∷ m
      else (j, w) ∷ insert_or_assign k v m

  abbrev pub erase : K → Map K V → Map K V
  erase k [] = []
  erase k ((j, v) ∷ m) = if o.eqb j k then erase k m else (j, v) ∷ erase k m

  -- `m[k]` as a value: an absent key stands for a default.
  abbrev pub get_default : K → V → Map K V → V
  get_default k d m = elim (find k m) [ none ↦ d | some v ↦ v ]

  -- The entry of a key is changed in place; an absent key changes nothing.
  abbrev pub adjust : K → (V → V) → Map K V → Map K V
  adjust k f [] = []
  adjust k f ((j, v) ∷ m) = if o.eqb j k then (j, f v) ∷ m else (j, v) ∷ adjust k f m

  pub find-insert :
      (j k : K) (v : V) (m : Map K V)
      → find j (insert_or_assign k v m) ≡ (if o.eqb k j then some v else find j m)
  find-insert j k v [] = refl
  find-insert j k v ((i, w) ∷ m) =
      ground (arith, o.eqb_iff k j, o.eqb_iff i k, o.eqb_iff i j, find-insert j k v m)

  -- What is found after an insertion is the new value or was there before.
  pub find-insert_cases :
      (j k : K) (v w : V) (m : Map K V)
      → find j (insert_or_assign k v m) ≡ some w
      → (v ≡ w) ⊎ (find j m ≡ some w)
  find-insert_cases j k v w m e =
      if_cases (o.eqb k j) v w (find j m) (sym (find-insert j k v m) ∙ e)

  pub find-erase :
      (j k : K) (m : Map K V) → find j (erase k m) ≡ (if o.eqb k j then none else find j m)
  find-erase j k [] = ground arith
  find-erase j k ((i, w) ∷ m) =
      ground (arith, o.eqb_iff k j, o.eqb_iff i k, o.eqb_iff i j, find-erase j k m)

  pub find-adjust :
      (j k : K) (f : V → V) (m : Map K V)
      → find j (adjust k f m)
        ≡ (if o.eqb k j then elim (find j m) [ none ↦ none | some v ↦ some (f v) ] else find j m)
  find-adjust j k f [] = ground arith
  find-adjust j k f ((i, w) ∷ m) =
      ground (arith, o.eqb_iff k j, o.eqb_iff i k, o.eqb_iff i j, find-adjust j k f m)

  pub keys-adjust : (k : K) (f : V → V) (m : Map K V) → keys (adjust k f m) ≡ keys m
  keys-adjust k f [] = refl
  keys-adjust k f ((i, w) ∷ m) = ground (arith, keys-adjust k f m)
