-- ===== src/Frame/StorageMap.antt =====
-- A `StorageMap` (or a `StorageDoubleMap`, keyed by pairs) as an association list. `iter_keys`
-- lists the keys; the order of the keys is the list's.
use sygma_substrate_pallets.Prelude.{
  ◌≡◌, refl, Option, none, some, List, [], ◌∷◌, arith, is, if◌then◌else◌, Bool, true, false,
}

abbrev pub StorageMap : Type 0 → Type 0 → Type 0
StorageMap K V = List (K × V)

-- Whether a key is among those listed.
unfoldable pub contains : {K : Type 0} → Discrete K → K → List K → Bool
contains d k [] = false
contains d k (j ∷ js) = if is (d j k) then true else contains d k js

-- `iter_keys`
unfoldable pub keys : {K V : Type 0} → StorageMap K V → List K
keys [] = []
keys ((k, v) ∷ m) = k ∷ keys m

module _ {K V : Type 0} (d : Discrete K) where
  -- `OptionQuery`
  unfoldable pub get : K → StorageMap K V → Option V
  get k [] = none
  get k ((j, v) ∷ m) = if is (d j k) then some v else get k m

  -- `ValueQuery`, with the default of the value's type
  unfoldable pub get_or : V → K → StorageMap K V → V
  get_or dflt k [] = dflt
  get_or dflt k ((j, v) ∷ m) = if is (d j k) then v else get_or dflt k m

  unfoldable pub insert : K → V → StorageMap K V → StorageMap K V
  insert k v [] = (k, v) ∷ []
  insert k v ((j, w) ∷ m) = if is (d j k) then (k, v) ∷ m else (j, w) ∷ insert k v m

  unfoldable pub remove : K → StorageMap K V → StorageMap K V
  remove k [] = []
  remove k ((j, v) ∷ m) = if is (d j k) then remove k m else (j, v) ∷ remove k m

  -- `iter_keys().for_each(|k| insert(k, v))`
  unfoldable pub insert_all : List K → V → StorageMap K V → StorageMap K V
  insert_all [] v m = m
  insert_all (k ∷ ks) v m = insert_all ks v (insert k v m)

  pub get-insert :
      (j k : K) (v : V) (m : StorageMap K V)
      → get j (insert k v m) ≡ (if is (d k j) then some v else get j m)
  unfolding get insert
  get-insert j k v [] = refl
  get-insert j k v ((i, w) ∷ m) = ground (arith, get-insert j k v m)

  pub get_or-insert :
      (dflt : V) (j k : K) (v : V) (m : StorageMap K V)
      → get_or dflt j (insert k v m) ≡ (if is (d k j) then v else get_or dflt j m)
  unfolding get_or insert
  get_or-insert dflt j k v [] = refl
  get_or-insert dflt j k v ((i, w) ∷ m) = ground (arith, get_or-insert dflt j k v m)

  pub get-remove :
      (j k : K) (m : StorageMap K V) → get j (remove k m) ≡ (if is (d k j) then none else get j m)
  unfolding get remove
  get-remove j k [] = ground arith
  get-remove j k ((i, w) ∷ m) = ground (arith, get-remove j k m)

  pub get_or-remove :
      (dflt : V) (j k : K) (m : StorageMap K V)
      → get_or dflt j (remove k m) ≡ (if is (d k j) then dflt else get_or dflt j m)
  unfolding get_or remove
  get_or-remove dflt j k [] = ground arith
  get_or-remove dflt j k ((i, w) ∷ m) = ground (arith, get_or-remove dflt j k m)

  pub get_or-insert_all :
      (dflt : V) (j : K) (ks : List K) (v : V) (m : StorageMap K V)
      → get_or dflt j (insert_all ks v m) ≡ (if contains d j ks then v else get_or dflt j m)
  unfolding insert_all contains
  get_or-insert_all dflt j [] v m = refl
  get_or-insert_all dflt j (k ∷ ks) v m =
      ground (arith, get_or-insert_all dflt j ks v (insert k v m), get_or-insert dflt j k v m)

  -- A key that the map lists none of has the default.
  pub get_or-none :
      (dflt : V) (j : K) (m : StorageMap K V)
      → contains d j (keys m) ≡ false
      → get_or dflt j m ≡ dflt
  unfolding get_or contains keys
  get_or-none dflt j [] h = refl
  get_or-none dflt j ((i, w) ∷ m) h = ground (arith, get_or-none dflt j m)

  -- `keys(m).for_each(|k| m.insert(k, v))` adds no key.
  pub get_or-insert_all-keys :
      (dflt : V) (j : K) (v : V) (m : StorageMap K V)
      → get_or dflt j (insert_all (keys m) v m) ≡ (if contains d j (keys m) then v else dflt)
  get_or-insert_all-keys dflt j v m =
      ground (arith, get_or-insert_all dflt j (keys m) v m, get_or-none dflt j m)
