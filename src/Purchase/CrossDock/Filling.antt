-- ===== src/Purchase/CrossDock/Filling.antt =====
-- How much an arrival gives, and in which order the waiting orders are filled.
use gql_ddd_inventory.Prelude.{
  ℕ, ◌+◌, ◌-◌, ◌≤◌, ◌≡◌, min, refl, sym, ap, ◌∙◌, Bool, true, false, Option, none, some, List, [],
  ◌∷◌, ◌++◌, leb, ◌==◌, if◌then◌else◌, sum_by, All, arith, Bool-cases, inl, inr,
}
use gql_ddd_inventory.Prelude.Maps.{Map, lookup, insert, lookup-insert, get_or}
use gql_ddd_inventory.Costing.Sort.{sort, sum_by-sort, IsOrder, IsSorted, sort-IsSorted}
use gql_ddd_inventory.Purchase.CrossDock.{
  InboundItem, Backorder, Assignment, CrossDockOpportunity, backorders_by_variant, comes_first,
  assign_each, opportunity, opportunities, evaluate,
}

-- The orders that wait for a variant, and what they ask for.
unfoldable pub waiting_for : (variant : ℕ) → List Backorder → List Backorder
waiting_for variant [] = []
waiting_for variant (b ∷ backorders) =
    if b.variant_id == variant
    then b ∷ waiting_for variant backorders
    else waiting_for variant backorders

abbrev pub wanted : List Backorder → ℕ
wanted = sum_by (λ b. b.quantity)

-- Assignments in the order of a list: each goes to the order at its place and asks no more than it,
-- and is all that the order asks where a later one gets anything.
pub Fills : List Backorder → List Assignment → Type 0
Fills backorders [] = Unit
Fills [] (a ∷ as') = ⊥
Fills (b ∷ backorders) (a ∷ []) = (a.order_id ≡ b.order_id) × (a.required_quantity ≤ b.quantity)
Fills (b ∷ backorders) (a ∷ next ∷ rest) =
    (a.order_id ≡ b.order_id) × (a.required_quantity ≡ b.quantity) × Fills backorders (next ∷ rest)

assign_each-total :
    (backorders : List Backorder) (n : ℕ)
    → let (assigned, left) = assign_each backorders n in
      (sum_by (λ a. a.required_quantity) assigned + left ≡ n) × (left ≡ n - wanted backorders)
unfolding assign_each
assign_each-total [] n = (omega arith, omega arith)
assign_each-total (b ∷ backorders) n =
    let (total, rest) = assign_each-total backorders (n - min n b.quantity) in
    elim (Bool-cases (leb n 0)) [
      | inl e ↦ rw e (omega arith, ground (arith, e))
      | inr e ↦ rw e (omega (arith, total), omega (arith, rest))
    ]

append_nil : (xs : List Backorder) → xs ++ [] ≡ xs
append_nil [] = refl
append_nil (x ∷ xs) = ap (λ ys. x ∷ ys) (append_nil xs)

append_one :
    (xs : List Backorder) (b : Backorder) (ys : List Backorder)
    → (xs ++ (b ∷ [])) ++ ys ≡ xs ++ (b ∷ ys)
append_one [] b ys = refl
append_one (x ∷ xs) b ys = ap (λ zs. x ∷ zs) (append_one xs b ys)

-- The map has, under a variant, the orders that wait for it.
lookup-by_variant :
    (variant : ℕ) (backorders : List Backorder) (m : Map (List Backorder))
    → get_or (lookup variant (backorders_by_variant backorders m)) []
      ≡ get_or (lookup variant m) [] ++ waiting_for variant backorders
unfolding backorders_by_variant waiting_for
lookup-by_variant variant [] m = sym (append_nil _)
lookup-by_variant variant (b ∷ backorders) m =
    let list = get_or (lookup b.variant_id m) [] in
    let m' = insert b.variant_id (list ++ (b ∷ [])) m in
    lookup-by_variant variant backorders m' ∙ elim (Bool-cases (b.variant_id == variant)) [
      | inl e ↦
          let same : b.variant_id ≡ variant = ground (arith, e) in
          rw (lookup-insert b.variant_id variant (list ++ (b ∷ [])) m, e)
            (append_one list b (waiting_for variant backorders)
              ∙ ap (λ v. get_or (lookup v m) [] ++ (b ∷ waiting_for variant backorders)) same)
      | inr e ↦ rw (lookup-insert b.variant_id variant (list ++ (b ∷ [])) m, e) refl
    ]

abbrev is_nil : List Assignment → Bool
is_nil [] = true
is_nil (a ∷ as') = false

Fills-cons :
    (b : Backorder) (a : Assignment) (backorders : List Backorder) (rest : List Assignment)
    → a.order_id ≡ b.order_id
    → a.required_quantity ≤ b.quantity
    → (is_nil rest ≡ false → a.required_quantity ≡ b.quantity)
    → Fills backorders rest
    → Fills (b ∷ backorders) (a ∷ rest)
unfolding Fills
Fills-cons b a backorders [] same le full f = (same, le)
Fills-cons b a backorders (next ∷ rest) same le full f = (same, full refl, f)

-- Nothing is left for the orders after one that takes all that remains.
nothing_left :
    (backorders : List Backorder) (n : ℕ)
    → is_nil (assign_each backorders n).0 ≡ false
    → leb n 0 ≡ false
unfolding assign_each
nothing_left [] n h = cc
nothing_left (b ∷ backorders) n h = elim (Bool-cases (leb n 0)) [
  | inl e ↦ cc (rw e at h)
  | inr e ↦ e
]

abbrev assignment : Backorder → ℕ → Assignment
assignment b n = record {
  order_id = b.order_id;
  required_quantity = n;
  priority = get_or b.priority 1;
}

assign_each-Fills :
    (backorders : List Backorder) (n : ℕ) → Fills backorders (assign_each backorders n).0
unfolding assign_each Fills
assign_each-Fills [] n = tt
assign_each-Fills (b ∷ backorders) n = elim (Bool-cases (leb n 0)) [
  | inl e ↦ rw e tt
  | inr e ↦ rw e (
      Fills-cons b (assignment b (min n b.quantity)) backorders _ refl (omega arith)
        (λ h. ground (arith, nothing_left backorders (n - min n b.quantity) h))
        (assign_each-Fills backorders (n - min n b.quantity)))
]

comes_first-IsOrder : IsOrder comes_first
comes_first-IsOrder = record { asym = λ a b h. ground arith; not_trans = λ a b c h k. ground arith }

-- What an opportunity says of the orders that wait for its variant: they are taken by priority.
pub record Allocates (backorders : List Backorder) (o : CrossDockOpportunity) : Type 0 where
  pub total : sum_by (λ a. a.required_quantity) o.matching_backorders ≡ o.recommended_quantity
  pub most :
      o.recommended_quantity ≡ min o.inbound_quantity (wanted (waiting_for o.variant_id backorders))
  pub by_priority : IsSorted comes_first (sort comes_first (waiting_for o.variant_id backorders))
  pub filled : Fills (sort comes_first (waiting_for o.variant_id backorders)) o.matching_backorders

All-append : {A : Type 0} (P : A → Type 0) (xs ys : List A) → All P xs → All P ys → All P (xs ++ ys)
All-append P [] ys p q = q
All-append P (x ∷ xs) ys p q = (p.0, All-append P xs ys p.1 q)

allocated :
    (item : InboundItem) (purchase_order : ℕ) (backorders : List Backorder) (left : ℕ)
    (assigned : List Assignment) (matching : List Backorder)
    → matching ≡ waiting_for item.variant_id backorders
    → assign_each (sort comes_first matching) item.quantity ≡ (assigned, left)
    → Allocates backorders (record {
      purchase_order_id = purchase_order;
      variant_id = item.variant_id;
      inbound_quantity = item.quantity;
      matching_backorders = assigned;
      recommended_quantity = item.quantity - left;
    })
allocated item purchase_order backorders left assigned matching h e =
    let list = sort comes_first (waiting_for item.variant_id backorders) in
    let e' : assign_each list item.quantity ≡ (assigned, left) =
      ap (λ l. assign_each (sort comes_first l) item.quantity) (sym h) ∙ e in
    let (total, rest) = assign_each-total list item.quantity in
    let fills = assign_each-Fills list item.quantity in
    let asked =
      sum_by-sort comes_first (λ b. b.quantity) (waiting_for item.variant_id backorders) in
    let total' = rw e' at total in
    let rest' = rw e' at rest in
    record {
      total = omega (arith, total');
      most = omega (arith, rest', asked);
      by_priority = sort-IsSorted comes_first comes_first-IsOrder _;
      filled = rw e' at fills;
    }

one_allocated :
    (item : InboundItem) (purchase_order : ℕ) (backorders : List Backorder)
    (matching : Option (List Backorder))
    → get_or matching [] ≡ waiting_for item.variant_id backorders
    → All (Allocates backorders) (opportunity purchase_order item matching)
unfolding opportunity
one_allocated item purchase_order backorders none h = tt
one_allocated item purchase_order backorders (some []) h = tt
one_allocated item purchase_order backorders (some (b ∷ matching)) h =
    (allocated item purchase_order backorders _ _ (b ∷ matching) h refl, tt)

all_allocated :
    (items : List InboundItem) (purchase_order : ℕ) (backorders : List Backorder)
    (m : Map (List Backorder))
    → ((v : ℕ) → get_or (lookup v m) [] ≡ waiting_for v backorders)
    → All (Allocates backorders) (opportunities purchase_order items m)
unfolding opportunities
all_allocated [] purchase_order backorders m h = tt
all_allocated (item ∷ items) purchase_order backorders m h =
    All-append _ _ _
      (one_allocated item purchase_order backorders (lookup item.variant_id m) (h item.variant_id))
      (all_allocated items purchase_order backorders m h)

-- Every opportunity that an arrival has gives the orders that wait for its variant, in the order of
-- their priorities, the smaller of what arrives on its line and what they ask for together: each
-- assignment is at most what its order asks, and all of it wherever a later order gets anything.
pub evaluate-Allocates :
    (purchase_order : ℕ) (items : List InboundItem) (backorders : List Backorder)
    → All (Allocates backorders) (evaluate purchase_order items backorders)
unfolding evaluate waiting_for lookup
evaluate-Allocates purchase_order items backorders =
    all_allocated items purchase_order backorders _ (λ v. lookup-by_variant v backorders [])
