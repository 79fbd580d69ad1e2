-- ===== src/Kit.antt =====
-- src/domain/entities/Kit.ts and src/domain/valueObjects/KitComponent.ts.
pub mod Reachable
mod Tests
use gql_ddd_inventory.Prelude.{
  ℕ, ◌≡◌, Bool, Option, none, some, List, [], ◌∷◌, ◌++◌, ◌==◌, length, Result, ok, err,
  if◌then◌else◌,
}
use gql_ddd_inventory.Prelude.Int.{ℤ, pos, ◌+ℤ◌, ltb_ℤ, pos_part}
use gql_ddd_inventory.Prelude.Methods.{Method, ◌>>=◌, ◌>>◌, this, assign, lift}

pub data KitError : Type 0 where
  quantity_below_one : KitError
  component_not_found : (variant : ℕ) → KitError

pub record KitComponent : Type 0 where
  pub variant_id : ℕ
  pub quantity : ℕ

-- `new KitComponent(variantId, quantity)`
unfoldable pub new_component : (variant : ℕ) → ℤ → Result KitError KitComponent
new_component variant quantity =
    if ltb_ℤ quantity (pos 1)
    then err quantity_below_one
    else ok (record { variant_id = variant; quantity = pos_part quantity })

pub record Kit : Type 0 where
  pub id : ℕ
  pub sku : ℕ
  pub components : List KitComponent

abbrev pub new_kit : (id sku : ℕ) → Kit
new_kit i s = record { id = i; sku = s; components = [] }

-- The first component of a variant.
unfoldable pub find_component : (variant : ℕ) → List KitComponent → Option KitComponent
find_component variant [] = none
find_component variant (c ∷ cs) =
    if c.variant_id == variant then some c else find_component variant cs

-- `components[index] = c` at the first component of a variant.
unfoldable pub replace_component :
    (variant : ℕ) → KitComponent → List KitComponent → List KitComponent
replace_component variant x [] = []
replace_component variant x (c ∷ cs) =
    if c.variant_id == variant then x ∷ cs else c ∷ replace_component variant x cs

-- `components.splice(index, 1)` at the first component of a variant.
unfoldable pub remove_first : (variant : ℕ) → List KitComponent → List KitComponent
remove_first variant [] = []
remove_first variant (c ∷ cs) = if c.variant_id == variant then cs else c ∷ remove_first variant cs

abbrev pub Call : Type 0
Call = Method Kit KitError (Unit {0})

abbrev pub with_component :
    (KitComponent → List KitComponent)
    → Result KitError KitComponent
    → Result KitError (List KitComponent)
with_component f (ok c) = ok (f c)
with_component f (err e) = err e

abbrev pub added :
    (variant : ℕ)
    → ℤ
    → List KitComponent
    → Option KitComponent
    → Result KitError (List KitComponent)
added variant quantity cs none =
    with_component (λ c. cs ++ (c ∷ [])) (new_component variant quantity)
added variant quantity cs (some old) =
    with_component (λ c. replace_component variant c cs)
      (new_component variant (pos old.quantity +ℤ quantity))

unfoldable pub add_component : (variant : ℕ) → ℤ → Call
add_component variant quantity = do
  kit ← this
  cs ← lift (added variant quantity kit.components (find_component variant kit.components))
  assign (record kit { components = cs })

abbrev pub removed :
    (variant : ℕ) → List KitComponent → Option KitComponent → Result KitError (List KitComponent)
removed variant cs none = err (component_not_found variant)
removed variant cs (some old) = ok (remove_first variant cs)

unfoldable pub remove_component : (variant : ℕ) → Call
remove_component variant = do
  kit ← this
  cs ← lift (removed variant kit.components (find_component variant kit.components))
  assign (record kit { components = cs })

unfoldable pub is_empty : Kit → Bool
is_empty kit = length kit.components == 0
