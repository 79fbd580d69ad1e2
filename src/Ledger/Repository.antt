-- ===== src/Ledger/Repository.antt =====
-- src/infrastructure/persistence/InMemoryLedgerRepository.ts: a list of entries.
use gql_ddd_inventory.Prelude.{
  ℕ, ◌≡◌, refl, ap, ◌∙◌, Bool, Bool-cases, inl, inr, ==_iff, true, false, ◌&&◌, List, [], ◌∷◌, ◌++◌,
  any, ◌==◌, if◌then◌else◌,
}
use gql_ddd_inventory.Prelude.Int.{ℤ, pos, ◌+ℤ◌}
use gql_ddd_inventory.Prelude.Maps.{Map, lookup, insert, get_or, lookup-insert, lookup-insert_self}
use gql_ddd_inventory.Ledger.Entry.{LedgerEntry}

-- Whether an entry counts towards a variant at a location.
abbrev pub is_of : (variant location : ℕ) → LedgerEntry → Bool
is_of variant location e = e.variant_id == variant && e.location_id == location

-- The loop of `currentQuantity`, with the sum so far.
unfoldable pub sum_from : (variant location : ℕ) → List LedgerEntry → ℤ → ℤ
sum_from variant location [] sum = sum
sum_from variant location (e ∷ es) sum =
    sum_from variant location es (if is_of variant location e then sum +ℤ e.quantity else sum)

unfoldable pub current_quantity : (variant location : ℕ) → List LedgerEntry → ℤ
current_quantity variant location entries = sum_from variant location entries (pos 0)

-- The loop of `currentQuantities`, with the quantities so far.
unfoldable pub quantities_from :
    (variants : List ℕ) (location : ℕ) → List LedgerEntry → Map ℤ → Map ℤ
quantities_from variants location [] quantities = quantities
quantities_from variants location (e ∷ es) quantities = quantities_from variants location es (
    if e.location_id == location && any (λ v. v == e.variant_id) variants
    then insert e.variant_id (get_or (lookup e.variant_id quantities) (pos 0) +ℤ e.quantity)
        quantities
    else quantities)

unfoldable pub current_quantities : (variants : List ℕ) (location : ℕ) → List LedgerEntry → Map ℤ
current_quantities variants location entries = quantities_from variants location entries []

unfoldable pub has_any_entries : (variant location : ℕ) → List LedgerEntry → Bool
has_any_entries variant location entries = any (is_of variant location) entries

sum_from-append :
    (variant location : ℕ) (old new : List LedgerEntry) (sum : ℤ)
    → sum_from variant location (old ++ new) sum
      ≡ sum_from variant location new (sum_from variant location old sum)
unfolding sum_from
sum_from-append variant location [] new sum = refl
sum_from-append variant location (e ∷ old) new sum = sum_from-append variant location old new _

-- The sum goes on where the first entries leave it.
pub current_quantity-append :
    (variant location : ℕ) (old new : List LedgerEntry)
    → current_quantity variant location (old ++ new)
      ≡ sum_from variant location new (current_quantity variant location old)
unfolding current_quantity
current_quantity-append variant location old new = sum_from-append variant location old new (pos 0)

-- The quantities after an entry of a variant, which may be at the location or not.
abbrev after_entry : (variants : List ℕ) (variant : ℕ) → Bool → ℤ → Map ℤ → Map ℤ
after_entry variants x here q m =
    if here && any (λ w. w == x) variants then insert x (get_or (lookup x m) (pos 0) +ℤ q) m else m

after_entry-same :
    (variants : List ℕ) (v : ℕ) (here : Bool) (q : ℤ) (m : Map ℤ)
    → any (λ w. w == v) variants ≡ true
    → get_or (lookup v (after_entry variants v here q m)) (pos 0)
      ≡ (if here then get_or (lookup v m) (pos 0) +ℤ q else get_or (lookup v m) (pos 0))
after_entry-same variants v true q m h =
    rw (h, lookup-insert_self v (get_or (lookup v m) (pos 0) +ℤ q) m) refl
after_entry-same variants v false q m h = refl

after_entry-other :
    (variants : List ℕ) (v x : ℕ) (here : Bool) (q : ℤ) (m : Map ℤ)
    → (x == v) ≡ false
    → get_or (lookup v (after_entry variants x here q m)) (pos 0) ≡ get_or (lookup v m) (pos 0)
after_entry-other variants v x false q m n = refl
after_entry-other variants v x true q m n = elim (Bool-cases (any (λ w. w == x) variants)) [
  | inl k ↦ rw (k, lookup-insert x v (get_or (lookup x m) (pos 0) +ℤ q) m, n) refl
  | inr k ↦ rw k refl
]

after_entry-reads :
    (variants : List ℕ) (v x : ℕ) (here : Bool) (q : ℤ) (m : Map ℤ)
    → any (λ w. w == v) variants ≡ true
    → get_or (lookup v (after_entry variants x here q m)) (pos 0)
      ≡ (if (x == v) && here then get_or (lookup v m) (pos 0) +ℤ q else get_or (lookup v m) (pos 0))
after_entry-reads variants v x here q m h = elim (Bool-cases (x == v)) [
  | inr n ↦ after_entry-other variants v x here q m n ∙ rw n refl
  | inl e ↦
      ap (λ y. get_or (lookup v (after_entry variants y here q m)) (pos 0)) ((==_iff x v).0 e)
      ∙ after_entry-same variants v here q m h
      ∙ rw e refl
]

quantities_from-sum_from :
    (variants : List ℕ) (v location : ℕ) (es : List LedgerEntry) (m : Map ℤ)
    → any (λ w. w == v) variants ≡ true
    → get_or (lookup v (quantities_from variants location es m)) (pos 0)
      ≡ sum_from v location es (get_or (lookup v m) (pos 0))
unfolding quantities_from sum_from
quantities_from-sum_from variants v location [] m h = refl
quantities_from-sum_from variants v location (e ∷ es) m h =
    quantities_from-sum_from variants v location es _ h
    ∙ ap (sum_from v location es)
        (after_entry-reads variants v e.variant_id (e.location_id == location) e.quantity m h)

-- The batch query reads, at each variant that it is asked for, what the single query does.
pub current_quantities-current_quantity :
    (variants : List ℕ) (v location : ℕ) (entries : List LedgerEntry)
    → any (λ w. w == v) variants ≡ true
    → get_or (lookup v (current_quantities variants location entries)) (pos 0)
      ≡ current_quantity v location entries
unfolding current_quantities current_quantity lookup
current_quantities-current_quantity variants v location entries h =
    quantities_from-sum_from variants v location entries [] h
