-- ===== src/Kit/Reachable.antt =====
-- What holds of every kit that is built by its methods.
use mathlib.Core.Path.{subst}
use gql_ddd_inventory.Prelude.{
  ℕ, ◌≤◌, ◌≡◌, ◌≢◌, sym, none, List, [], ◌∷◌, ◌++◌, ◌==◌, ok, All, All-snoc, Bool-cases,
  Option-cases, Result-cases, inl, inr, arith, ==_iff,
}
use gql_ddd_inventory.Prelude.Int.{ℤ, pos, ◌+ℤ◌}
use gql_ddd_inventory.Kit.{
  Kit, KitComponent, new_kit, new_component, find_component, replace_component, remove_first, Call,
  add_component, remove_component,
}

-- No two components are of one variant.
abbrev pub AreDistinct : List KitComponent → Type 0
AreDistinct [] = Unit
AreDistinct (c ∷ cs) = All (λ d. d.variant_id ≢ c.variant_id) cs × AreDistinct cs

abbrev pub IsPositive : KitComponent → Type 0
IsPositive c = 1 ≤ c.quantity

pub record IsValidKit (kit : Kit) : Type 0 where
  pub distinct : AreDistinct kit.components
  pub positive : All IsPositive kit.components

pub data Action : Type 0 where
  adds : (variant : ℕ) → ℤ → Action
  removes : (variant : ℕ) → Action

abbrev pub act : Action → Call
act (adds variant quantity) = add_component variant quantity
act (removes variant) = remove_component variant

-- The kits that calls, returning or throwing, make of a new one.
pub data Reachable : Kit → Type 0 where
  created : (id sku : ℕ) → Reachable (new_kit id sku)
  acted : {kit : Kit} → Reachable kit → (a : Action) → Reachable (act a kit).1

find_component-none :
    (v : ℕ) (cs : List KitComponent) → find_component v cs ≡ none → All (λ d. d.variant_id ≢ v) cs
unfolding find_component
find_component-none v [] h = tt
find_component-none v (c ∷ cs) h = elim (Bool-cases (c.variant_id == v)) [
  | inl e ↦ cc (rw e at h)
  | inr e ↦ let ne : c.variant_id ≢ v = ground arith in (ne, find_component-none v cs (rw e at h))
]

new_component-IsPositive :
    (v : ℕ) (q : ℤ) {c : KitComponent}
    → new_component v q ≡ ok c
    → (c.variant_id ≡ v) × IsPositive c
unfolding new_component
new_component-IsPositive v q h = ground arith

replace_component-All :
    (P : KitComponent → Type 0) (v : ℕ) (x : KitComponent) (cs : List KitComponent)
    → ((c : KitComponent) → c.variant_id ≡ v → P c → P x)
    → All P cs
    → All P (replace_component v x cs)
unfolding replace_component
replace_component-All P v x [] f h = tt
replace_component-All P v x (c ∷ cs) f h = elim (Bool-cases (c.variant_id == v)) [
  | inl e ↦ rw e (f c ((==_iff c.variant_id v).0 e) h.0, h.1)
  | inr e ↦ rw e (h.0, replace_component-All P v x cs f h.1)
]

remove_first-All :
    (P : KitComponent → Type 0) (v : ℕ) (cs : List KitComponent)
    → All P cs
    → All P (remove_first v cs)
unfolding remove_first
remove_first-All P v [] h = tt
remove_first-All P v (c ∷ cs) h = elim (Bool-cases (c.variant_id == v)) [
  | inl e ↦ rw e h.1
  | inr e ↦ rw e (h.0, remove_first-All P v cs h.1)
]

AreDistinct-snoc :
    (cs : List KitComponent) (x : KitComponent)
    → AreDistinct cs
    → All (λ d. d.variant_id ≢ x.variant_id) cs
    → AreDistinct (cs ++ (x ∷ []))
AreDistinct-snoc [] x d n = (tt, tt)
AreDistinct-snoc (c ∷ cs) x d n = (
  All-snoc (λ e. e.variant_id ≢ c.variant_id) cs x d.0 (λ e. n.0 (sym e)),
  AreDistinct-snoc cs x d.1 n.1,
)

replace_component-AreDistinct :
    (v : ℕ) (x : KitComponent) (cs : List KitComponent)
    → x.variant_id ≡ v
    → AreDistinct cs
    → AreDistinct (replace_component v x cs)
unfolding replace_component
replace_component-AreDistinct v x [] e d = tt
replace_component-AreDistinct v x (c ∷ cs) e d = elim (Bool-cases (c.variant_id == v)) [
  | inl h ↦
      let same : c.variant_id ≡ x.variant_id = ground arith in
      rw h (subst (λ i. All (λ k. k.variant_id ≢ i) cs) same d.0, d.1)
  | inr h ↦ rw h (
    replace_component-All (λ k. k.variant_id ≢ c.variant_id) v x cs (λ k s n. ground arith) d.0,
    replace_component-AreDistinct v x cs e d.1,
  )
]

remove_first-AreDistinct :
    (v : ℕ) (cs : List KitComponent) → AreDistinct cs → AreDistinct (remove_first v cs)
unfolding remove_first
remove_first-AreDistinct v [] d = tt
remove_first-AreDistinct v (c ∷ cs) d = elim (Bool-cases (c.variant_id == v)) [
  | inl h ↦ rw h d.1
  | inr h ↦ rw h (
    remove_first-All (λ k. k.variant_id ≢ c.variant_id) v cs d.0,
    remove_first-AreDistinct v cs d.1,
  )
]

add_component-IsValidKit :
    (v : ℕ) (q : ℤ) (kit : Kit) → IsValidKit kit → IsValidKit (add_component v q kit).1
unfolding add_component
add_component-IsValidKit v q kit i = elim (Option-cases (find_component v kit.components)) [
  | inl e ↦ elim (Result-cases (new_component v q)) [
    | inr (x, h) ↦ rw (e, h) i
    | inl (c, h) ↦
        let (same, one) = new_component-IsPositive v q h in
        let fresh =
          subst (λ w. All (λ d. d.variant_id ≢ w) kit.components) (sym same)
            (find_component-none v kit.components e) in
        rw (e, h)
          (record {
            distinct = AreDistinct-snoc kit.components c i.distinct fresh;
            positive = All-snoc IsPositive kit.components c i.positive one;
          })
  ]
  | inr (old, e) ↦ elim (Result-cases (new_component v (pos old.quantity +ℤ q))) [
    | inr (x, h) ↦ rw (e, h) i
    | inl (c, h) ↦
        let (same, one) = new_component-IsPositive v (pos old.quantity +ℤ q) h in
        rw (e, h)
          (record {
            distinct = replace_component-AreDistinct v c kit.components same i.distinct;
            positive =
                replace_component-All IsPositive v c kit.components (λ k s n. one) i.positive;
          })
  ]
]

remove_component-IsValidKit :
    (v : ℕ) (kit : Kit) → IsValidKit kit → IsValidKit (remove_component v kit).1
unfolding remove_component
remove_component-IsValidKit v kit i = elim (Option-cases (find_component v kit.components)) [
  | inl e ↦ rw e i
  | inr (old, e) ↦ rw e (record {
    distinct = remove_first-AreDistinct v kit.components i.distinct;
    positive = remove_first-All IsPositive v kit.components i.positive;
  })
]

-- Every kit that its methods build lists each variant once, with a quantity of at least one.
pub Reachable-IsValidKit : {kit : Kit} → Reachable kit → IsValidKit kit
Reachable-IsValidKit (created i s) = record { distinct = tt; positive = tt }
Reachable-IsValidKit (acted {kit = kit} r (adds v q)) =
    add_component-IsValidKit v q kit (Reachable-IsValidKit r)
Reachable-IsValidKit (acted {kit = kit} r (removes v)) =
    remove_component-IsValidKit v kit (Reachable-IsValidKit r)
