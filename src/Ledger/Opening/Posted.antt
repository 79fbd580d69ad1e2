-- ===== src/Ledger/Opening/Posted.antt =====
-- What an opening balance leaves in the ledger, and when it is refused.
use gql_ddd_inventory.Prelude.{
  ℕ, ◌≡◌, refl, sym, ap, ◌∙◌, Bool, true, false, not, ◌&&◌, ◌||◌, Option, none, some, List, [], ◌∷◌,
  ◌++◌, any, map, ok, ◌==◌, if◌then◌else◌, arith, Bool-cases, inl, inr, bind-ok, throw_if,
  ok-injective,
}
use mathlib.Core.Path.{subst}
use gql_ddd_inventory.Prelude.Int.{ℤ, pos, ◌+ℤ◌, pos_part, +ℤ_zero}
use gql_ddd_inventory.Prelude.Maps.{Map, lookup, insert, lookup-insert, get_or}
use gql_ddd_inventory.Ledger.Entry.{LedgerEntry, new_ledger_entry}
use gql_ddd_inventory.Ledger.Repository.{
  is_of, sum_from, current_quantity, current_quantity-append, has_any_entries,
}
use gql_ddd_inventory.Ledger.Opening.{
  OnboardingItem, StockOnboarding, OpeningBooks, OnboardingError, new_onboarding_item, set_item,
  set_items, submit_onboarding, is_empty_map, no_items, mark_entries, no_entries_yet,
  has_any_entries_batch, assert_no_entries, entry_of_item, opening_entries, process,
  execute_opening,
}

or_false : (b : Bool) → (b || false) ≡ b
or_false true = refl
or_false false = refl

or_true : (a b : Bool) → (a || (true || b)) ≡ true
or_true true b = refl
or_true false b = refl

-- The batch query marks a variant that it is asked for where the single query finds an entry.
mark_entries-reads :
    (variants : List ℕ) (v location : ℕ) (entries : List LedgerEntry) (m : Map Bool)
    → any (λ w. w == v) variants ≡ true
    → get_or (lookup v (mark_entries variants location entries m)) false
      ≡ get_or (lookup v m) false || has_any_entries v location entries
unfolding mark_entries has_any_entries
mark_entries-reads variants v location [] m h = sym (or_false _)
mark_entries-reads variants v location (e ∷ entries) m h = elim (Bool-cases (e.variant_id == v)) [
  | inl s ↦
      let same : e.variant_id ≡ v = ground (arith, s) in
      let asked = ap (λ k. any (λ w. w == k) variants) same ∙ h in
      elim (Bool-cases (e.location_id == location)) [
        | inl l ↦
            rw (s, l, asked)
              (mark_entries-reads variants v location entries (insert e.variant_id true m) h
                ∙ rw (lookup-insert e.variant_id v true m, s)
                    (sym
                      (or_true (get_or (lookup v m) false) (has_any_entries v location entries))))
        | inr l ↦ rw (s, l) (mark_entries-reads variants v location entries m h)
      ]
  | inr s ↦ elim (Bool-cases (e.location_id == location && any (λ w. w == e.variant_id) variants)) [
    | inl c ↦
        rw (s, c)
          (mark_entries-reads variants v location entries (insert e.variant_id true m) h
            ∙ rw (lookup-insert e.variant_id v true m, s) refl)
    | inr c ↦ rw (s, c) (mark_entries-reads variants v location entries m h)
  ]
]

-- Without an entry the quantity is zero.
unlisted :
    (v location : ℕ) (entries : List LedgerEntry) (sum : ℤ)
    → has_any_entries v location entries ≡ false
    → sum_from v location entries sum ≡ sum
unfolding has_any_entries sum_from
unlisted v location [] sum h = refl
unlisted v location (e ∷ entries) sum h = elim (Bool-cases (is_of v location e)) [
  | inl s ↦ cc (rw s at h)
  | inr s ↦ rw s (unlisted v location entries sum (rw s at h))
]

-- A map has each key once.
IsKeyed : Map OnboardingItem → Type 0
IsKeyed [] = Unit
IsKeyed ((k, item) ∷ m) = (lookup k m ≡ none) × IsKeyed m

insert-IsKeyed :
    (k : ℕ) (item : OnboardingItem) (m : Map OnboardingItem) → IsKeyed m → IsKeyed (insert k item m)
unfolding IsKeyed insert lookup
insert-IsKeyed k item [] u = (refl, tt)
insert-IsKeyed k item ((j, old) ∷ m) u = elim (Bool-cases (j == k)) [
  | inl e ↦ rw e u
  | inr e ↦ rw e (lookup-insert k j item m ∙ ground (arith, e, u.0), insert-IsKeyed k item m u.1)
]

-- What an item adds.
abbrev plus_item : Option OnboardingItem → ℤ → ℤ
plus_item none sum = sum
plus_item (some item) sum = sum +ℤ pos item.quantity

same_if : (b : Bool) (sum : ℤ) → sum ≡ (if b then sum else sum)
same_if true sum = refl
same_if false sum = refl

is_same : (a b : ℕ) → (a == b) ≡ true → a ≡ b
is_same a b h = ground arith

entry_of_item-facts :
    (o : StockOnboarding) (actor variant : ℕ) (item : OnboardingItem) {e : LedgerEntry}
    → entry_of_item o actor variant item ≡ ok e
    → (e.variant_id ≡ variant) × (e.location_id ≡ o.location_id) × (e.quantity ≡ pos item.quantity)
unfolding new_ledger_entry
entry_of_item-facts o actor variant item h = ground arith

-- One entry, where the others add the items that are left.
one_entry :
    (here k v location : ℕ) (item : OnboardingItem) (items : Map OnboardingItem) (e : LedgerEntry)
    (es : List LedgerEntry) (sum : ℤ)
    → e.variant_id ≡ k
    → e.location_id ≡ here
    → e.quantity ≡ pos item.quantity
    → lookup k items ≡ none
    → ((n : ℤ)
        → sum_from v location es n ≡ (if here == location then plus_item (lookup v items) n else n))
    → sum_from v location (e ∷ es) sum
      ≡ (if here == location then plus_item (lookup v ((k, item) ∷ items)) sum else sum)
unfolding sum_from lookup
one_entry here k v location item items e es sum same_v same_l same_q fresh rest =
    rw (same_v, same_l, same_q)
      (elim (Bool-cases (here == location)) [
        | inl l ↦ elim (Bool-cases (k == v)) [
          | inl s ↦
              let none_left : lookup v items ≡ none =
                ap (λ j. lookup j items) (sym (is_same k v s)) ∙ fresh in
              rw (l, s) (rw (l, none_left) at (rest (sum +ℤ pos item.quantity)))
          | inr s ↦ rw (l, s) (rw l at (rest sum))
        ]
        | inr l ↦ elim (Bool-cases (k == v)) [
          | inl s ↦ rw (l, s) (rw l at (rest sum))
          | inr s ↦ rw (l, s) (rw l at (rest sum))
        ]
      ])

-- The entries of an onboarding add the quantity of each item at its location, and nothing else.
opening_entries-sum :
    (o : StockOnboarding) (actor v location : ℕ) (items : Map OnboardingItem)
    {es : List LedgerEntry} (sum : ℤ)
    → IsKeyed items
    → opening_entries o actor items ≡ ok es
    → sum_from v location es sum
      ≡ (if o.location_id == location then plus_item (lookup v items) sum else sum)
unfolding opening_entries sum_from lookup IsKeyed
opening_entries-sum o actor v location [] sum u h =
    ap (λ xs. sum_from v location xs sum) (sym (ok-injective h)) ∙ same_if _ sum
opening_entries-sum o actor v location ((k, item) ∷ items) sum u h =
    let (e, made, h') = bind-ok (entry_of_item o actor k item) _ h in
    let (es, rest, h2) = bind-ok (opening_entries o actor items) _ h' in
    let (same_v, same_l, same_q) = entry_of_item-facts o actor k item made in
    ap (λ xs. sum_from v location xs sum) (sym (ok-injective h2))
    ∙ one_entry o.location_id k v location item items e es sum same_v same_l same_q u.0
        (λ n. opening_entries-sum o actor v location items n u.1 rest)

not_thrown : (b : Bool) (e : OnboardingError) {t : Unit {0}} → throw_if b e ≡ ok t → b ≡ false
not_thrown true e h = cc
not_thrown false e h = refl

-- The first pass found no entry of a variant of the onboarding.
asserted :
    (location v : ℕ) (has : Map Bool) (items : Map OnboardingItem) {item : OnboardingItem}
    {t : Unit {0}}
    → assert_no_entries location has items ≡ ok t
    → lookup v items ≡ some item
    → get_or (lookup v has) false ≡ false
unfolding assert_no_entries lookup
asserted location v has [] h e = cc
asserted location v has ((k, item) ∷ items) h e =
    let (t, a, h') = bind-ok (throw_if (get_or (lookup k has) false) _) _ h in
    elim (Bool-cases (k == v)) [
      | inl s ↦ ap (λ j. get_or (lookup j has) false) (sym (is_same k v s)) ∙ not_thrown _ _ a
      | inr s ↦ asserted location v has items h' (rw s at e)
    ]

nothing_marked :
    (variants : List ℕ) (v : ℕ) (m : Map Bool)
    → get_or (lookup v m) false ≡ false
    → get_or (lookup v (no_entries_yet variants m)) false ≡ false
unfolding no_entries_yet
nothing_marked [] v m h = h
nothing_marked (k ∷ variants) v m h =
    nothing_marked variants v (insert k false m) (elim (Bool-cases (k == v)) [
      | inl e ↦ rw (lookup-insert k v false m, e) refl
      | inr e ↦ rw (lookup-insert k v false m, e) h
    ])

asked_for :
    (v : ℕ) (items : Map OnboardingItem) {item : OnboardingItem}
    → lookup v items ≡ some item
    → any (λ w. w == v) (map (λ x. x.0) items) ≡ true
unfolding lookup
asked_for v [] e = cc
asked_for v ((k, item) ∷ items) e = elim (Bool-cases (k == v)) [
  | inl s ↦ rw s refl
  | inr s ↦ rw s (asked_for v items (rw s at e))
]

-- A variant of an onboarding that was processed had nothing in the ledger.
had_nothing :
    (location v : ℕ) (entries : List LedgerEntry) (items : Map OnboardingItem)
    {item : OnboardingItem} {t : Unit {0}}
    → assert_no_entries location
        (has_any_entries_batch (map (λ x. x.0) items) location entries)
        items
      ≡ ok t
    → lookup v items ≡ some item
    → has_any_entries v location entries ≡ false
unfolding has_any_entries_batch lookup
had_nothing location v entries items h e =
    let variants = map (λ x. x.0) items in
    let reads =
      mark_entries-reads variants v location entries (no_entries_yet variants [])
        (asked_for v items e) in
    let none_yet = nothing_marked variants v [] refl in
    let reads' = rw none_yet at reads in sym reads' ∙ asserted location v _ items h e

-- The quantity that the last line of a variant gives, or what was there.
unfoldable pub opened : (variant : ℕ) → List (ℕ × ℤ × ℤ) → Option ℕ → Option ℕ
opened variant [] before = before
opened variant ((v, quantity, cost) ∷ lines) before =
    opened variant lines (if v == variant then some (pos_part quantity) else before)

abbrev quantity_of : Option OnboardingItem → Option ℕ
quantity_of none = none
quantity_of (some item) = some item.quantity

-- The items that the lines set.
record HasItems (lines : List (ℕ × ℤ × ℤ)) (o o' : StockOnboarding) : Type 0 where
  keyed : IsKeyed o'.items
  place : o'.location_id ≡ o.location_id
  quantities :
      (v : ℕ) → quantity_of (lookup v o'.items) ≡ opened v lines (quantity_of (lookup v o.items))

new_onboarding_item-quantity :
    (q c : ℤ) {item : OnboardingItem}
    → new_onboarding_item q c ≡ ok item
    → item.quantity ≡ pos_part q
unfolding new_onboarding_item
new_onboarding_item-quantity q c h = ground arith

set_item-ok :
    (k : ℕ) (q c : ℤ) (o : StockOnboarding) {o' : StockOnboarding}
    → set_item k q c o ≡ ok o'
    → (item : OnboardingItem) × (o'.items ≡ insert k item o.items)
      × (o'.location_id ≡ o.location_id)
      × (item.quantity ≡ pos_part q)
unfolding set_item
set_item-ok k q c o {o'} h =
    let (s, b, h1) = bind-ok (throw_if o.is_submitted _) _ h in
    let (item, made, h2) = bind-ok (new_onboarding_item q c) _ h1 in
    let same : record o { items = insert k item o.items } ≡ o' = ok-injective h2 in
    (
      item,
      ap (λ x. x.items) (sym same),
      ap (λ x. x.location_id) (sym same),
      new_onboarding_item-quantity q c made,
    )

read_set :
    (k v : ℕ) (item : OnboardingItem) (n : ℕ) (m : Map OnboardingItem)
    → item.quantity ≡ n
    → quantity_of (lookup v (insert k item m))
      ≡ (if k == v then some n else quantity_of (lookup v m))
read_set k v item n m h = elim (Bool-cases (k == v)) [
  | inl e ↦ rw (lookup-insert k v item m, e) (ap some h)
  | inr e ↦ rw (lookup-insert k v item m, e) refl
]

set_items-HasItems :
    (lines : List (ℕ × ℤ × ℤ)) (o : StockOnboarding) {o' : StockOnboarding}
    → IsKeyed o.items
    → set_items lines o ≡ ok o'
    → HasItems lines o o'
unfolding set_items set_item new_onboarding_item opened
set_items-HasItems [] o {o'} u h =
    let same : o ≡ o' = ok-injective h in
    subst (HasItems [] o) same (record { keyed = u; place = refl; quantities = λ v. refl })
set_items-HasItems ((k, q, c) ∷ lines) o {o'} u h =
    let (o1, a, h1) = bind-ok (set_item k q c o) (set_items lines) h in
    let (item, first, place, quantity) = set_item-ok k q c o a in
    let keyed : IsKeyed o1.items = subst IsKeyed (sym first) (insert-IsKeyed k item o.items u) in
    let rest : HasItems lines o1 o' = set_items-HasItems lines o1 keyed h1 in
    record {
      keyed = rest.keyed;
      place = rest.place ∙ place;
      quantities = λ v.
          rest.quantities v
          ∙ ap (opened v lines) (
              ap (λ m. quantity_of (lookup v m)) first
              ∙ read_set k v item (pos_part q) o.items quantity);
    }

-- What a variant has after an opening.
unfoldable pub opened_to : Option ℕ → ℤ → ℤ
opened_to none before = before
opened_to (some q) before = pos q

submit_onboarding-ok :
    (o : StockOnboarding) {o' : StockOnboarding}
    → submit_onboarding o ≡ ok o'
    → (o'.items ≡ o.items) × (o'.location_id ≡ o.location_id)
unfolding submit_onboarding
submit_onboarding-ok o {o'} h =
    let (t, a, h1) = bind-ok (throw_if o.is_submitted _) _ h in
    let (t', a', h2) =
      bind-ok (throw_if (is_empty_map o.items) no_items)
        (λ _. ok (record o { is_submitted = true })) h1 in
    let same : record o { is_submitted = true } ≡ o' = ok-injective h2 in
    (ap (λ x. x.items) (sym same), ap (λ x. x.location_id) (sym same))

-- The two passes of `process`.
process-ok :
    (o : StockOnboarding) (actor : ℕ) (books : OpeningBooks) {books' : OpeningBooks}
    → process o actor books ≡ ok books'
    → (es : List LedgerEntry) × (books'.entries ≡ books.entries ++ es)
      × (opening_entries o actor o.items ≡ ok es)
      × (assert_no_entries o.location_id
            (has_any_entries_batch (map (λ x. x.0) o.items) o.location_id books.entries)
            o.items
          ≡ ok tt)
unfolding process
process-ok o actor books h =
    let (t, a, h1) = bind-ok (throw_if (not o.is_submitted) _) _ h in
    let (t', asserts, h2) = bind-ok (assert_no_entries o.location_id _ o.items) _ h1 in
    let (es, made, h3) = bind-ok (opening_entries o actor o.items) _ h2 in
    (es, ap (λ b. b.entries) (sym (ok-injective h3)), made, asserts)

-- The quantity after the entries of an item, where nothing was there before.
opens_at :
    (v location : ℕ) (entries : List LedgerEntry) (found : Option OnboardingItem)
    → ((item : OnboardingItem) → found ≡ some item → has_any_entries v location entries ≡ false)
    → plus_item found (current_quantity v location entries)
      ≡ opened_to (quantity_of found) (current_quantity v location entries)
unfolding opened_to current_quantity
opens_at v location entries none fresh = refl
opens_at v location entries (some item) fresh =
    ap (λ n. n +ℤ pos item.quantity) (unlisted v location entries (pos 0) (fresh item refl))
    ∙ +ℤ_zero (pos item.quantity)

process-Opens :
    (o : StockOnboarding) (actor v place : ℕ) (books : OpeningBooks) {books' : OpeningBooks}
    → IsKeyed o.items
    → process o actor books ≡ ok books'
    → current_quantity v place books'.entries ≡ (
        if o.location_id == place
        then opened_to (quantity_of (lookup v o.items)) (current_quantity v place books.entries)
        else current_quantity v place books.entries)
process-Opens o actor v place books keyed h =
    let (es, appended, made, asserts) = process-ok o actor books h in
    let now = current_quantity v place books.entries in
    ap (current_quantity v place) appended
    ∙ current_quantity-append v place books.entries es
    ∙ opening_entries-sum o actor v place o.items now keyed made
    ∙ (elim (Bool-cases (o.location_id == place)) [
      | inl l ↦ rw l (
          opens_at v place books.entries (lookup v o.items) (λ item e.
            ap (λ p. has_any_entries v p books.entries) (sym (is_same o.location_id place l))
            ∙ had_nothing o.location_id v books.entries o.items asserts e))
      | inr l ↦ rw l refl
    ])

-- Where an opening balance is posted, every variant of its lines has exactly the quantity of its
-- last line at the location, even where it has several lines, and the quantity of every other
-- variant there, and of every variant at any other location, is what it was.
pub execute_opening-Opens :
    (uuid tenant location as_of actor v place : ℕ) (lines : List (ℕ × ℤ × ℤ)) (books : OpeningBooks)
    {books' : OpeningBooks}
    → execute_opening uuid tenant location as_of actor lines books ≡ ok books'
    → current_quantity v place books'.entries ≡ (
        if location == place
        then opened_to (opened v lines none) (current_quantity v place books.entries)
        else current_quantity v place books.entries)
unfolding execute_opening IsKeyed lookup
execute_opening-Opens uuid tenant location as_of actor v place lines books {books'} h =
    let (o, sets, h1) = bind-ok (set_items lines _) _ h in
    let (o', submits, h2) = bind-ok (submit_onboarding o) _ h1 in
    let set : HasItems lines _ o = set_items-HasItems lines _ tt sets in
    let (items, here) = submit_onboarding-ok o submits in
    let keyed : IsKeyed o'.items = subst IsKeyed (sym items) set.keyed in
    process-Opens o' actor v place books keyed h2
    ∙ ap
        (λ p.
          if p == place
          then opened_to (quantity_of (lookup v o'.items)) (current_quantity v place books.entries)
          else current_quantity v place books.entries)
        (here ∙ set.place)
    ∙ ap
        (λ q.
          if location == place
          then opened_to q (current_quantity v place books.entries)
          else current_quantity v place books.entries)
        (ap (λ m. quantity_of (lookup v m)) items ∙ set.quantities v)
