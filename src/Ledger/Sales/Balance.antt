-- ===== src/Ledger/Sales/Balance.antt =====
-- What a sale of several lines does to the quantities of the ledger.
use gql_ddd_inventory.Prelude.{
  ℕ, ◌≡◌, ◌≢◌, refl, sym, ap, ◌∙◌, true, false, ◌&&◌, some, List, [], ◌∷◌, ◌++◌, map, Result, ok,
  err, if◌then◌else◌, ◌==◌, All, any, ◌⊎◌, inl, inr, Bool-cases, arith,
}
use gql_ddd_inventory.Prelude.Int.{ℤ, pos, neg_ℤ, ◌+ℤ◌, ◌-ℤ◌, ◌≤ℤ◌, ltb_ℤ, +ℤ_zero, -ℤ_zero, -ℤ_sum}
use gql_ddd_inventory.Ledger.Entry.{
  LedgerEntry, ReasonCode, new_ledger_entry, is_zero, zero_quantity,
}
use gql_ddd_inventory.Ledger.Repository.{
  current_quantities, current_quantities-current_quantity, current_quantity,
  current_quantity-append, sum_from,
}
use gql_ddd_inventory.Ledger.Sales.{
  SaleError, ledger_error, Books, Sale, Line, assert_available, assert_all_sufficient, deduction,
  deductions, decremented, insufficient_stock,
}
use gql_ddd_inventory.Ledger.Sales.Service.{sell_lines}

-- How much of a variant the lines ask for.
abbrev pub asked : (variant : ℕ) → List Line → ℤ
asked v [] = pos 0
asked v ((w, q) ∷ ls) = (if w == v then q else pos 0) +ℤ asked v ls

-- The quantity that a line asks for is there.
abbrev pub IsCovered : (location : ℕ) → List LedgerEntry → Line → Type 0
IsCovered location entries (v, q) = q ≤ℤ current_quantity v location entries

abbrev pub IsNonzero : Line → Type 0
IsNonzero (v, q) = is_zero q ≡ false

assert_available-cases :
    (available : ℤ) (l : Line)
    → ((assert_available available l ≡ ok tt) × (l.1 ≤ℤ available))
      ⊎ ((e : SaleError) × (assert_available available l ≡ err e) × ¬ (l.1 ≤ℤ available))
assert_available-cases available (v, q) = elim (Bool-cases (ltb_ℤ available q)) [
  | inl h ↦ inr (insufficient_stock v q available, rw h refl, λ c. ground arith)
  | inr h ↦ inl (rw h refl, ground arith)
]

-- The lines whose variant is among some.
abbrev AreAsked : List ℕ → List Line → Type 0
AreAsked variants ls = All (λ l. any (λ w. w == l.0) variants ≡ true) ls

AreAsked-cons :
    (v : ℕ) (variants : List ℕ) (ls : List Line) → AreAsked variants ls → AreAsked (v ∷ variants) ls
AreAsked-cons v variants [] h = tt
AreAsked-cons v variants (l ∷ ls) h = (ground arith, AreAsked-cons v variants ls h.1)

all-AreAsked : (ls : List Line) → AreAsked (map (λ l. l.0) ls) ls
all-AreAsked [] = tt
all-AreAsked (l ∷ ls) = (ground arith, AreAsked-cons l.0 (map (λ m. m.0) ls) ls (all-AreAsked ls))

assert_all_sufficient-IsCovered :
    (variants : List ℕ) (location : ℕ) (entries : List LedgerEntry) (ls : List Line)
    → AreAsked variants ls
    → let r = assert_all_sufficient (current_quantities variants location entries) ls in
      ((r ≡ ok tt) × All (IsCovered location entries) ls)
      ⊎ ((e : SaleError) × (r ≡ err e) × ¬ All (IsCovered location entries) ls)
unfolding assert_all_sufficient
assert_all_sufficient-IsCovered variants location entries [] a = inl (refl, tt)
assert_all_sufficient-IsCovered variants location entries (l ∷ ls) a =
    let read = current_quantities-current_quantity variants l.0 location entries a.0 in
    elim (assert_available-cases (current_quantity l.0 location entries) l) [
      | inr (e, h, n) ↦ inr (e, rw (read, h) refl, λ c. n c.0)
      | inl (h, c) ↦ elim (assert_all_sufficient-IsCovered variants location entries ls a.1) [
        | inr (e, h', n) ↦ inr (e, rw (read, h, h') refl, λ c. n c.1)
        | inl (h', c') ↦ inl (rw (read, h, h') refl, (c, c'))
      ]
    ]

is_zero-neg : (q : ℤ) → is_zero (neg_ℤ q) ≡ is_zero q
is_zero-neg q = ground arith

-- A deduction of each line, in order.
abbrev pub AreDeductions : Sale → List Line → List LedgerEntry → Type 0
AreDeductions s ls es =
    map {B = ℕ × ℕ × ℤ} (λ e. (e.variant_id, e.location_id, e.quantity)) es
    ≡ map {B = ℕ × ℕ × ℤ} (λ l. (l.0, s.location_id, neg_ℤ l.1)) ls

-- What the entries of some lines are worth, at the place of the sale and elsewhere.
pub record Deducts (s : Sale) (ls : List Line) (es : List LedgerEntry) : Type 0 where
  pub here : (v : ℕ) (sum : ℤ) → sum_from v s.location_id es sum ≡ sum -ℤ asked v ls
  pub posted : AreDeductions s ls es
  pub elsewhere :
      (v location : ℕ) (sum : ℤ) → location ≢ s.location_id → sum_from v location es sum ≡ sum

abbrev entry_of : Sale → ReasonCode → Line → LedgerEntry
entry_of s reason (v, q) = record {
  tenant_id = s.tenant_id;
  location_id = s.location_id;
  variant_id = v;
  quantity = neg_ℤ q;
  reason = reason;
  actor = s.actor;
  occurred_at = s.now;
  reference_id = some s.sale_id;
}

deduction-IsNonzero :
    (s : Sale) (reason : ReasonCode) (l : Line)
    → ((deduction s reason l ≡ ok (entry_of s reason l)) × IsNonzero l)
      ⊎ ((deduction s reason l ≡ err (ledger_error zero_quantity)) × ¬ IsNonzero l)
unfolding new_ledger_entry
deduction-IsNonzero s reason (v, q) = elim (Bool-cases (is_zero q)) [
  | inl h ↦ inr (rw (is_zero-neg q, h) refl, λ n. cc)
  | inr h ↦ inl (rw (is_zero-neg q, h) refl, h)
]

==_refl : (a : ℕ) → (a == a) ≡ true
==_refl a = ground arith

other_place : (w v here there : ℕ) → there ≢ here → (w == v && here == there) ≡ false
other_place w v here there ne = ground arith

Deducts-cons :
    (s : Sale) (reason : ReasonCode) (l : Line) (ls : List Line) (es : List LedgerEntry)
    → Deducts s ls es
    → Deducts s (l ∷ ls) (entry_of s reason l ∷ es)
unfolding sum_from
Deducts-cons s reason (w, q) ls es d = record {
  here = λ v sum. elim (Bool-cases (w == v)) [
    | inl h ↦ rw (h, ==_refl s.location_id) (d.here v (sum +ℤ neg_ℤ q) ∙ -ℤ_sum sum q (asked v ls))
    | inr h ↦ rw h (d.here v sum ∙ ap (λ a. sum -ℤ a) (sym (+ℤ_zero (asked v ls))))
  ];
  posted = ap (λ (x : List (ℕ × ℕ × ℤ)). (w, s.location_id, neg_ℤ q) ∷ x) d.posted;
  elsewhere = λ v location sum ne.
      rw (other_place w v s.location_id location ne) (d.elsewhere v location sum ne);
}

deductions-Deducts :
    (s : Sale) (reason : ReasonCode) (ls : List Line)
    → ((es : List LedgerEntry) × (deductions s reason ls ≡ ok es)
        × Deducts s ls es
        × All IsNonzero ls)
      ⊎ ((e : SaleError) × (deductions s reason ls ≡ err e) × ¬ All IsNonzero ls)
unfolding deductions sum_from
deductions-Deducts s reason [] = inl (
  [],
  refl,
  record {
    here = λ v sum. sym (-ℤ_zero sum);
    posted = refl;
    elsewhere = λ v location sum ne. refl;
  },
  tt,
)
deductions-Deducts s reason (l ∷ ls) = elim (deduction-IsNonzero s reason l) [
  | inr (h, n) ↦ inr (ledger_error zero_quantity, rw h refl, λ c. n c.0)
  | inl (h, c) ↦ elim (deductions-Deducts s reason ls) [
    | inr (e, h', n) ↦ inr (e, rw (h, h') refl, λ c. n c.1)
    | inl (es, h', d, c') ↦
        inl (entry_of s reason l ∷ es, rw (h, h') refl, Deducts-cons s reason l ls es d, (c, c'))
  ]
]

-- The quantities after a sale of some lines.
pub record Sold (s : Sale) (ls : List Line) (books books' : Books) : Type 0 where
  pub covered : All (IsCovered s.location_id books.entries) ls
  pub here :
      (v : ℕ)
      → current_quantity v s.location_id books'.entries
        ≡ current_quantity v s.location_id books.entries -ℤ asked v ls
  pub elsewhere :
      (v location : ℕ)
      → location ≢ s.location_id
      → current_quantity v location books'.entries ≡ current_quantity v location books.entries
  pub posted :
      (es : List LedgerEntry) × (books'.entries ≡ books.entries ++ es) × AreDeductions s ls es
  pub events : books'.dispatched ≡ books.dispatched ++ map (decremented s) ls

-- A sale that returns has sold its lines; one that throws has changed nothing, and had a line that is
-- not covered or is empty.
abbrev pub Sells : Sale → List Line → Books → Result SaleError (Unit {0}) × Books → Type 0
Sells s ls books (ok _, books') = Sold s ls books books'
Sells s ls books (err e, books') =
    (books' ≡ books) × ((¬ All (IsCovered s.location_id books.entries) ls) ⊎ (¬ All IsNonzero ls))

pub sell_lines-Sells :
    (s : Sale) (reason : ReasonCode) (ls : List Line) (books : Books)
    → Sells s ls books (sell_lines s reason ls books)
unfolding sell_lines
sell_lines-Sells s reason ls books =
    elim (assert_all_sufficient-IsCovered (map (λ l. l.0) ls) s.location_id books.entries ls
      (all-AreAsked ls)) [
        | inr (e, h, n) ↦ rw h (refl, inl n)
        | inl (h, c) ↦ elim (deductions-Deducts s reason ls) [
          | inr (e, h', n) ↦ rw (h, h') (refl, inr n)
          | inl (es, h', d, nz) ↦
              rw (h, h')
                (record {
                  covered = c;
                  here = λ v. current_quantity-append v s.location_id books.entries es ∙ d.here v _;
                  elsewhere = λ v location ne.
                      current_quantity-append v location books.entries es
                      ∙ d.elsewhere v location _ ne;
                  posted = (es, refl, d.posted);
                  events = refl;
                })
        ]
      ]
