-- ===== src/Prelude/Maps.antt =====
-- A JavaScript `Map` or `Record` whose keys are identifiers: entries in order of insertion. A write
-- to a key that is there keeps its place.
use gql_ddd_inventory.Prelude.{
  ℕ, ◌+◌, ◌≡◌, refl, ◌≢◌, Option, none, some, List, [], ◌∷◌, arith, ◌==◌, if◌then◌else◌, sum_by,
}

abbrev pub Map {ℓ} : Type ℓ → Type ℓ
Map V = List (ℕ × V)

module _ {ℓ} {V : Type ℓ} where
  -- `map.get(k)`
  unfoldable pub lookup : ℕ → Map V → Option V
  lookup k [] = none
  lookup k ((key, value) ∷ rest) = if key == k then some value else lookup k rest

  -- `map.set(k, v)`
  unfoldable pub insert : ℕ → V → Map V → Map V
  insert k v [] = (k, v) ∷ []
  insert k v ((key, old) ∷ rest) =
      if key == k then (key, v) ∷ rest else (key, old) ∷ insert k v rest

  -- `map.delete(k)`
  unfoldable pub erase : ℕ → Map V → Map V
  erase k [] = []
  erase k ((key, old) ∷ rest) = if key == k then rest else (key, old) ∷ erase k rest

  abbrev pub values : Map V → List V
  values [] = []
  values ((k, v) ∷ m) = v ∷ values m

  abbrev pub get_or : Option V → V → V
  get_or none d = d
  get_or (some v) d = v

  pub lookup-insert :
      (written asked : ℕ) (value : V) (m : Map V)
      → lookup asked (insert written value m)
        ≡ (if written == asked then some value else lookup asked m)
  unfolding lookup insert
  lookup-insert written asked value [] = refl
  lookup-insert written asked value ((key, old) ∷ rest) =
      ground (arith, lookup-insert written asked value rest)

  pub lookup-insert_self : (k : ℕ) (v : V) (m : Map V) → lookup k (insert k v m) ≡ some v
  lookup-insert_self k v m = ground (arith, lookup-insert k k v m)

  pub lookup-erase_ne : (k j : ℕ) (m : Map V) → k ≢ j → lookup j (erase k m) ≡ lookup j m
  unfolding lookup erase
  lookup-erase_ne k j [] h = refl
  lookup-erase_ne k j ((i, w) ∷ m) h = ground (arith, lookup-erase_ne k j m h)

  abbrev pub amount_at : (V → ℕ) → Option V → ℕ
  amount_at f none = 0
  amount_at f (some v) = f v

  -- A write changes a sum over the values by the new value less the old one.
  pub sum_by-insert :
      (f : V → ℕ) (k : ℕ) (v : V) (m : Map V)
      → sum_by f (values (insert k v m)) + amount_at f (lookup k m) ≡ sum_by f (values m) + f v
  unfolding lookup insert
  sum_by-insert f k v [] = omega arith
  sum_by-insert f k v ((j, w) ∷ m) = ground (arith, sum_by-insert f k v m)
