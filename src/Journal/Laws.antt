-- ===== src/Journal/Laws.antt =====
-- No unbalanced entry is built or saved.
use mathlib.Core.List.{append-nil, append_assoc}
use native.Mathlib.Decide.{dec_le}
use Prim.Native.String.{String}
use gql_ddd_inventory.Prelude.{
  ℕ, ◌+◌, ◌≤◌, ◌≡◌, refl, true, List, [], ◌∷◌, ◌++◌, ok, err, arith, Option, All, ap, ◌∙◌, inl, inr,
  Bool-cases, sum_by, ◌⊎◌, ◌↔◌,
}
use gql_ddd_inventory.Prelude.Int.{ℤ, pos, pos_part, ◌≤ℤ◌}
use gql_ddd_inventory.Journal.{
  AccountCode, inventory, accounts_payable, cost_of_goods_sold, inventory_write_off_expense,
  JournalLine, JournalEntry, amount_not_positive, unbalanced, DebitCredit, debit, credit, Posting,
  new_line, add_line, add_lines, tally, is_balanced, build_entry, build_stock_returned,
  build_inventory_write_off, build_return_to_vendor, Build, record_entry, save, AccountingMethod,
  accrual,
}

abbrev pub side : DebitCredit → DebitCredit → ℕ → ℕ
side debit debit n = n
side credit credit n = n
side _ _ n = 0

-- The total of one side, independently of the loop.
abbrev pub total : DebitCredit → List JournalLine → ℕ
total t = sum_by (λ l. side t l.type l.amount_cents)

abbrev pub IsBalanced : JournalEntry → Type 0
IsBalanced e = total debit e.lines ≡ total credit e.lines

abbrev pub IsPositive : JournalLine → Type 0
IsPositive l = 1 ≤ l.amount_cents

tally-eq-total :
    (ls : List JournalLine) (d c : ℕ) → tally ls d c ≡ (d + total debit ls, c + total credit ls)
unfolding tally
tally-eq-total [] d c = ground arith
tally-eq-total (l ∷ ls) d c =
    ground
      (arith, tally-eq-total ls (d + l.amount_cents) c, tally-eq-total ls d (c + l.amount_cents))

-- `isBalanced` says whether the debits of an entry sum to what its credits sum to.
pub is_balanced-IsBalanced : (e : JournalEntry) → (is_balanced e ≡ true) ↔ IsBalanced e
unfolding is_balanced
is_balanced-IsBalanced e = ground (arith, tally-eq-total e.lines 0 0)

-- The lines that the postings become, where all their amounts are positive.
abbrev pub line_of : Posting → JournalLine
line_of p = record {
  account = p.account;
  amount_cents = pos_part p.amount;
  type = p.type;
  memo = p.memo;
}

abbrev pub lines_of : List Posting → List JournalLine
lines_of [] = []
lines_of (p ∷ ps) = line_of p ∷ lines_of ps

abbrev pub IsPayable : Posting → Type 0
IsPayable p = pos 1 ≤ℤ p.amount

add_line-ok :
    (p : Posting) (e : JournalEntry)
    → IsPayable p
    → add_line p.account p.amount p.type p.memo e
      ≡ ok (record e { lines = e.lines ++ (line_of p ∷ []) })
unfolding add_line new_line
add_line-ok p e h = ground arith

add_line-err :
    (p : Posting) (e : JournalEntry)
    → ¬ IsPayable p
    → add_line p.account p.amount p.type p.memo e ≡ err amount_not_positive
unfolding add_line new_line
add_line-err p e h = ground arith

add_lines-ok :
    (ps : List Posting) (e : JournalEntry)
    → All IsPayable ps
    → add_lines ps e ≡ ok (record e { lines = e.lines ++ lines_of ps })
unfolding add_lines
add_lines-ok [] e h = simp append-nil
add_lines-ok (p ∷ ps) e h =
    let e' = record e { lines = e.lines ++ (line_of p ∷ []) } in
    rw (add_line-ok p e h.0) (
      add_lines-ok ps e' h.1
      ∙ ap (λ ls. ok (record e { lines = ls }))
          (append_assoc e.lines (line_of p ∷ []) (lines_of ps)))

add_lines-err :
    (ps : List Posting) (e : JournalEntry)
    → ¬ All IsPayable ps
    → add_lines ps e ≡ err amount_not_positive
unfolding add_lines
add_lines-err [] e h = absurd (h tt)
add_lines-err (p ∷ ps) e h = elim (dec_le 1 (pos_part p.amount)) [
  | yes y ↦
      let e' = record e { lines = e.lines ++ (line_of p ∷ []) } in
      let here : IsPayable p = ground arith in
      rw (add_line-ok p e here) (add_lines-err ps e' λ rest. h (here, rest))
  | no n ↦ rw (add_line-err p e (ground arith)) refl
]

IsPayable-cases : (ps : List Posting) → All IsPayable ps ⊎ (¬ All IsPayable ps)
IsPayable-cases [] = inl tt
IsPayable-cases (p ∷ ps) = elim (dec_le 1 (pos_part p.amount)) [
  | no n ↦ inr (λ h. n (ground arith))
  | yes y ↦ elim (IsPayable-cases ps) [ inl h ↦ inl (ground arith, h) | inr n ↦ inr (λ h. n h.1) ]
]

module _ (i t d : ℕ) (r : Option ℕ) (m : AccountingMethod) (ps : List Posting) where
  abbrev pub entry_of : JournalEntry
  entry_of = record {
    id = i;
    tenant_id = t;
    date = d;
    method = m;
    reference_id = r;
    lines = lines_of ps;
  }

  build_entry-branches :
      (All IsPayable ps → IsBalanced entry_of → build_entry i t d r m ps ≡ ok entry_of)
      × (All IsPayable ps → ¬ IsBalanced entry_of → build_entry i t d r m ps ≡ err unbalanced)
      × (¬ All IsPayable ps → build_entry i t d r m ps ≡ err amount_not_positive)
  unfolding build_entry
  build_entry-branches =
      let (sound, complete) = is_balanced-IsBalanced entry_of in
      (
        λ p b. rw (add_lines-ok ps _ p, complete b),
        λ p n. elim (Bool-cases (is_balanced entry_of)) [
          | inl e ↦ absurd (n (sound e))
          | inr e ↦ rw (add_lines-ok ps _ p, e)
        ],
        λ n. rw (add_lines-err ps _ n),
      )

  -- `buildEntry` returns the entry with the given postings exactly when every amount is positive and
  -- the debits sum to what the credits sum to; an amount that is not positive throws that error, and
  -- otherwise unequal sums throw `unbalanced`.
  build_entry_lem :
      (All IsPayable ps × IsBalanced entry_of × (build_entry i t d r m ps ≡ ok entry_of))
      ⊎ ((All IsPayable ps × (¬ IsBalanced entry_of) × (build_entry i t d r m ps ≡ err unbalanced))
          ⊎ ((¬ All IsPayable ps) × (build_entry i t d r m ps ≡ err amount_not_positive)))
  build_entry_lem =
      let (built, unequal, refused) = build_entry-branches in
      elim (IsPayable-cases ps) [
        | inr n ↦ inr (inr (n, refused n))
        | inl p ↦ elim (Bool-cases (is_balanced entry_of)) [
          | inl e ↦ let b = (is_balanced-IsBalanced entry_of).0 e in inl (p, b, built p b)
          | inr e ↦
              let n : ¬ IsBalanced entry_of = λ b. cc ((is_balanced-IsBalanced entry_of).1 b) in
              inr (inl (p, n, unequal p n))
        ]
      ]

-- The three entries of the service that move one cost between two accounts.
pub data IsServiceBuild : Build → Type 0 where
  stock_returned : IsServiceBuild build_stock_returned
  inventory_write_off : IsServiceBuild build_inventory_write_off
  return_to_vendor : IsServiceBuild build_return_to_vendor

-- A build saves one balanced entry of a positive cost, and nothing of any other.
abbrev pub SavesBalanced : Build → (id tenant date : ℕ) → Option ℕ → ℤ → List JournalEntry → Type 0
SavesBalanced build i t d r cost repo =
    ((pos 1 ≤ℤ cost)
      × (e : JournalEntry) × (record_entry build i t d r cost repo ≡ (ok e, repo ++ (e ∷ [])))
      × IsBalanced e
      × (total debit e.lines ≡ pos_part cost))
    ⊎ ((¬ (pos 1 ≤ℤ cost))
        × (record_entry build i t d r cost repo ≡ (err amount_not_positive, repo)))

abbrev pair : AccountCode → AccountCode → String → String → ℤ → List Posting
pair a b m n cost =
    record { account = a; amount = cost; type = debit; memo = m }
    ∷ record { account = b; amount = cost; type = credit; memo = n }
    ∷ []

one_payable : (cost : ℤ) → (pos 1 ≤ℤ cost) ⊎ (¬ (pos 1 ≤ℤ cost))
one_payable cost = elim (dec_le 1 (pos_part cost)) [
  | yes y ↦ inl (ground arith)
  | no n ↦ inr (ground arith)
]

module _ (build : Build) (a b : AccountCode) (m n : String)
    (same : (i t d : ℕ) (r : Option ℕ) (cost : ℤ)
      → build i t d r cost ≡ build_entry i t d r accrual (pair a b m n cost))
    (i t d : ℕ) (r : Option ℕ) (cost : ℤ) (repo : List JournalEntry) where
  pair-SavesBalanced : SavesBalanced build i t d r cost repo
  unfolding record_entry
  pair-SavesBalanced =
      let (saved, unequal, refused) = build_entry-branches i t d r accrual (pair a b m n cost) in
      let entry = entry_of i t d r accrual (pair a b m n cost) in
      let balanced : IsBalanced entry = omega arith in
      elim (one_payable cost) [
        | inl p ↦ inl (
          p,
          entry,
          ap (λ x. save x repo) (same i t d r cost ∙ saved (p, (p, tt)) balanced),
          balanced,
          omega arith,
        )
        | inr p ↦ inr (p, ap (λ x. save x repo) (same i t d r cost ∙ refused (λ h. p h.0)))
      ]

-- A return, a write-off and a return to the vendor are each saved as one balanced entry when their
-- cost is positive; at a cost of zero or less they throw `amount_not_positive` and save nothing.
pub record_entry-SavesBalanced :
    (build : Build)
    → IsServiceBuild build
    → (i t d : ℕ) (r : Option ℕ) (cost : ℤ) (repo : List JournalEntry)
    → SavesBalanced build i t d r cost repo
unfolding build_stock_returned build_inventory_write_off build_return_to_vendor
record_entry-SavesBalanced build stock_returned =
    pair-SavesBalanced _ inventory cost_of_goods_sold _ _ (λ i t d r c. refl)
record_entry-SavesBalanced build inventory_write_off =
    pair-SavesBalanced _ inventory_write_off_expense inventory _ _ (λ i t d r c. refl)
record_entry-SavesBalanced build return_to_vendor =
    pair-SavesBalanced _ accounts_payable inventory _ _ (λ i t d r c. refl)
