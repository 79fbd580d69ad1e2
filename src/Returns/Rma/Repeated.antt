-- ===== src/Returns/Rma/Repeated.antt =====
-- Return authorisations that list a variant twice.
use gql_ddd_inventory.Prelude.{
  WhenOk, WhenOk-any, ℕ, ◌+◌, ◌≤◌, ◌≡◌, ◌≢◌, refl, sym, ◌∙◌, false, ◌||◌, List, [], ◌∷◌, ◌==◌,
  Result, ok, err, all, All, Bool-cases, inl, inr, arith, ◌⊎◌, if◌then◌else◌, sum_by, ==_iff,
}
use gql_ddd_inventory.Prelude.Int.{ℤ}
use gql_ddd_inventory.Returns.Item
use gql_ddd_inventory.Returns.Item.{
  RmaItem, RmaItemError, RmaDisposition, is_fully_processed, IsUntouched,
}
use gql_ddd_inventory.Returns.Rma.{
  Rma, RmaError, requested, completed, is_requested, is_authorized, placed, after_item,
  receive_first, authorize, receive_item, reject,
}
use gql_ddd_inventory.Returns.Rma.Reachable.{
  authorizes, rejects, receives, Reaches, started, acted, status-cases, receive_item-open,
  receive_item-refused,
}

-- How many items are of a variant.
abbrev pub lines_of : (variant : ℕ) → List RmaItem → ℕ
lines_of v items = sum_by (λ i. if i.variant_id == v then 1 else 0) items

-- An item of the variant that is not processed, and one that a receipt cannot reach.
abbrev HasOpen : (variant : ℕ) → List RmaItem → Type 0
HasOpen v [] = ⊥
HasOpen v (i ∷ items) = ((i.variant_id ≡ v) × (is_fully_processed i ≡ false)) ⊎ HasOpen v items

abbrev IsShadowed : (variant : ℕ) → List RmaItem → Type 0
IsShadowed v [] = ⊥
IsShadowed v (i ∷ items) =
    ((i.variant_id ≡ v) × HasOpen v items) ⊎ ((i.variant_id ≢ v) × IsShadowed v items)

lines_of-HasOpen :
    (v : ℕ) (items : List RmaItem) → All IsUntouched items → 1 ≤ lines_of v items → HasOpen v items
lines_of-HasOpen v [] h n = ground arith
lines_of-HasOpen v (i ∷ items) ((p, e, z), h) n = elim (Bool-cases (i.variant_id == v)) [
  | inl s ↦ inl ((==_iff i.variant_id v).0 s, rw e refl)
  | inr s ↦
      let more : 1 ≤ 0 + lines_of v items = rw s at n in
      inr (lines_of-HasOpen v items h (omega (arith, more)))
]

lines_of-IsShadowed :
    (v : ℕ) (items : List RmaItem)
    → All IsUntouched items
    → 2 ≤ lines_of v items
    → IsShadowed v items
lines_of-IsShadowed v [] h n = ground arith
lines_of-IsShadowed v (i ∷ items) (u, h) n = elim (Bool-cases (i.variant_id == v)) [
  | inl s ↦
      let more : 2 ≤ 1 + lines_of v items = rw s at n in
      inl ((==_iff i.variant_id v).0 s, lines_of-HasOpen v items h (omega (arith, more)))
  | inr s ↦
      let more : 2 ≤ 0 + lines_of v items = rw s at n in
      inr (ground arith, lines_of-IsShadowed v items h (omega (arith, more)))
]

HasOpen-unprocessed :
    (v : ℕ) (items : List RmaItem) → HasOpen v items → all is_fully_processed items ≡ false
HasOpen-unprocessed v [] h = elim h [ ]
HasOpen-unprocessed v (i ∷ items) (inl (s, e)) = rw e refl
HasOpen-unprocessed v (i ∷ items) (inr h) = elim (Bool-cases (is_fully_processed i)) [
  | inl e ↦ rw e (HasOpen-unprocessed v items h)
  | inr e ↦ rw e refl
]

IsShadowed-HasOpen : (v : ℕ) (items : List RmaItem) → IsShadowed v items → HasOpen v items
IsShadowed-HasOpen v [] h = elim h [ ]
IsShadowed-HasOpen v (i ∷ items) (inl (s, h)) = inr h
IsShadowed-HasOpen v (i ∷ items) (inr (s, h)) = inr (IsShadowed-HasOpen v items h)

receive-variant :
    (q : ℤ) (d : RmaDisposition) (i : RmaItem)
    → WhenOk (λ i'. i'.variant_id ≡ i.variant_id) (Item.receive q d i)
unfolding Item.receive
receive-variant q d i = ground arith

placed-WhenOk :
    (P : List RmaItem → Type 0) (Q : RmaItem → Type 0) (items : List RmaItem)
    (r : Result RmaItemError RmaItem)
    → WhenOk Q r
    → ((i : RmaItem) → Q i → P (i ∷ items))
    → WhenOk P (placed items r)
placed-WhenOk P Q items (ok i) h f = f i h
placed-WhenOk P Q items (err e) h f = tt

after_item-WhenOk :
    (P Q : List RmaItem → Type 0) (i : RmaItem) (r : Result RmaError (List RmaItem))
    → WhenOk Q r
    → ((items : List RmaItem) → Q items → P (i ∷ items))
    → WhenOk P (after_item i r)
after_item-WhenOk P Q i (ok items) h f = f items h
after_item-WhenOk P Q i (err e) h f = tt

module _ (q : ℤ) (d : RmaDisposition) where
  receive_first-HasOpen :
      (w v : ℕ) (items : List RmaItem)
      → w ≢ v
      → HasOpen v items
      → WhenOk (HasOpen v) (receive_first w q d items)
  unfolding receive_first
  receive_first-HasOpen w v [] n h = elim h [ ]
  receive_first-HasOpen w v (i ∷ items) n h = elim (Bool-cases (i.variant_id == w)) [
    | inl e ↦ elim h [
      | inl (s, o) ↦ absurd (n (sym ((==_iff i.variant_id w).0 e) ∙ s))
      | inr o ↦ rw e (
          placed-WhenOk (HasOpen v) (λ _. Unit) items (Item.receive q d i) (WhenOk-any _)
            (λ i' _. inr o))
    ]
    | inr e ↦ elim h [
      | inl o ↦ rw e (
          after_item-WhenOk (HasOpen v) (λ _. Unit) i (receive_first w q d items) (WhenOk-any _)
            (λ is _. inl o))
      | inr o ↦ rw e (
          after_item-WhenOk (HasOpen v) (HasOpen v) i (receive_first w q d items)
            (receive_first-HasOpen w v items n o) (λ is p. inr p))
    ]
  ]

  receive_first-IsShadowed :
      (w v : ℕ) (items : List RmaItem)
      → IsShadowed v items
      → WhenOk (IsShadowed v) (receive_first w q d items)
  unfolding receive_first
  receive_first-IsShadowed w v [] h = elim h [ ]
  receive_first-IsShadowed w v (i ∷ items) h = elim (Bool-cases (i.variant_id == w)) [
    | inl e ↦ rw e (
        placed-WhenOk (IsShadowed v) (λ i'. i'.variant_id ≡ i.variant_id) items (Item.receive q d i)
          (receive-variant q d i)
          (λ i' same. elim h [
            | inl (s, o) ↦ inl (same ∙ s, o)
            | inr (s, o) ↦ inr ((λ p. s (sym same ∙ p)), o)
          ]))
    | inr e ↦ elim h [
      | inl (s, o) ↦
          let ne : w ≢ v = ground arith in
          rw e (
            after_item-WhenOk (IsShadowed v) (HasOpen v) i (receive_first w q d items)
              (receive_first-HasOpen w v items ne o) (λ is p. inl (s, p)))
      | inr (s, o) ↦ rw e (
          after_item-WhenOk (IsShadowed v) (IsShadowed v) i (receive_first w q d items)
            (receive_first-IsShadowed w v items o) (λ is p. inr (s, p)))
    ]
  ]

-- What no call takes away from such a return authorisation.
abbrev Stuck : (variant : ℕ) → Rma → Type 0
Stuck v rma = IsShadowed v rma.items × (rma.status ≢ completed)

receive_item-Stuck :
    (v w : ℕ) (q : ℤ) (d : RmaDisposition) (rma : Rma)
    → Stuck v rma
    → Stuck v (receive_item w q d rma).1
receive_item-Stuck v w q d rma h = elim (status-cases rma.status) [
  | inr o ↦ rw (receive_item-refused w q d rma o) h
  | inl o ↦ elim (receive_item-open w q d rma o) [
    | inl e ↦ rw e h
    | inr (items, r, e) ↦
        let s : IsShadowed v items = rw r at (receive_first-IsShadowed q d w v rma.items h.0) in
        rw (e, HasOpen-unprocessed v items (IsShadowed-HasOpen v items s)) (s, λ x. cc)
  ]
]

authorize-Stuck : (v : ℕ) (rma : Rma) → Stuck v rma → Stuck v (authorize rma).1
unfolding authorize
authorize-Stuck v rma h = elim (Bool-cases (is_requested rma.status)) [
  | inl e ↦ rw e (h.0, λ x. cc)
  | inr e ↦ rw e h
]

reject-Stuck : (v : ℕ) (rma : Rma) → Stuck v rma → Stuck v (reject rma).1
unfolding reject
reject-Stuck v rma h = elim (Bool-cases (is_requested rma.status || is_authorized rma.status)) [
  | inl e ↦ rw e (h.0, λ x. cc)
  | inr e ↦ rw e h
]

Reaches-Stuck : {start rma : Rma} (v : ℕ) → Stuck v start → Reaches start rma → Stuck v rma
Reaches-Stuck v h started = h
Reaches-Stuck v h (acted {rma = rma} r authorizes) = authorize-Stuck v rma (Reaches-Stuck v h r)
Reaches-Stuck v h (acted {rma = rma} r rejects) = reject-Stuck v rma (Reaches-Stuck v h r)
Reaches-Stuck v h (acted {rma = rma} r (receives w q d)) =
    receive_item-Stuck v w q d rma (Reaches-Stuck v h r)

-- A receipt goes to the first item of its variant. So a new return authorisation that lists a variant
-- twice, with positive quantities, is never completed, whatever calls are made on it.
pub repeated-not-completed :
    {start rma : Rma} (variant : ℕ)
    → start.status ≡ requested
    → All IsUntouched start.items
    → 2 ≤ lines_of variant start.items
    → Reaches start rma
    → rma.status ≢ completed
repeated-not-completed {start = start} v e h n r =
    (Reaches-Stuck v (lines_of-IsShadowed v start.items h n, λ x. cc) r).1
