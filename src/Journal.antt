-- ===== src/Journal.antt =====
-- Double-entry journals: src/domain/entities/JournalLine.ts, src/domain/entities/JournalEntry.ts, the
-- accounts of src/domain/valueObjects/AccountCode.ts, and
-- src/domain/services/AccountingJournalService.ts. Amounts are whole cents; descriptions, which
-- nothing reads, are left out.
pub mod Laws
mod Tests
use Prim.Native.String.{String}
use gql_ddd_inventory.Prelude.{
  ℕ, ◌+◌, ◌≡◌, Bool, true, false, not, List, [], ◌∷◌, ◌++◌, Result, ok, err, ◌>>=◌, ◌>>◌, throw_if,
  ◌==◌, Option, none, some,
}
use gql_ddd_inventory.Prelude.Int.{ℤ, pos, leb_ℤ, pos_part}

pub data AccountCategory : Type 0 where
  asset liability equity revenue expense : AccountCategory

pub record AccountCode : Type 0 where
  pub code : ℕ
  pub category : AccountCategory

abbrev pub inventory : AccountCode
inventory = record { code = 1200; category = asset }

abbrev pub accounts_payable : AccountCode
accounts_payable = record { code = 2000; category = liability }

abbrev pub cost_of_goods_sold : AccountCode
cost_of_goods_sold = record { code = 5000; category = expense }

abbrev pub inventory_write_off_expense : AccountCode
inventory_write_off_expense = record { code = 5300; category = expense }

pub data DebitCredit : Type 0 where
  debit credit : DebitCredit

pub data AccountingMethod : Type 0 where
  cash accrual : AccountingMethod

pub data JournalError : Type 0 where
  amount_not_positive unbalanced : JournalError

pub record JournalLine : Type 0 where
  pub account : AccountCode
  pub amount_cents : ℕ
  pub type : DebitCredit
  pub memo : String

-- `new JournalLine(account, amountCents, type, memo)`
unfoldable pub new_line : AccountCode → ℤ → DebitCredit → String → Result JournalError JournalLine
new_line account amount type memo = do
  throw_if (leb_ℤ amount (pos 0)) amount_not_positive
  ok (record { account = account; amount_cents = pos_part amount; type = type; memo = memo })

pub record JournalEntry : Type 0 where
  pub id : ℕ
  pub tenant_id : ℕ
  pub date : ℕ
  pub method : AccountingMethod
  pub reference_id : Option ℕ
  pub lines : List JournalLine

unfoldable pub add_line :
    AccountCode → ℤ → DebitCredit → String → JournalEntry → Result JournalError JournalEntry
add_line account amount type memo entry = do
  line ← new_line account amount type memo
  ok (record entry { lines = entry.lines ++ (line ∷ []) })

-- The loop of `isBalanced`, over the debits and credits so far.
unfoldable pub tally : List JournalLine → (debits credits : ℕ) → ℕ × ℕ
tally [] debits credits = (debits, credits)
tally (l ∷ ls) debits credits = elim l.type [
  | debit ↦ tally ls (debits + l.amount_cents) credits
  | credit ↦ tally ls debits (credits + l.amount_cents)
]

unfoldable pub is_balanced : JournalEntry → Bool
is_balanced entry = let (debits, credits) = tally entry.lines 0 0 in debits == credits

-- An element of the `lines` that `buildEntry` is given.
pub record Posting : Type 0 where
  pub account : AccountCode
  pub amount : ℤ
  pub type : DebitCredit
  pub memo : String

-- The loop of `buildEntry`.
unfoldable pub add_lines : List Posting → JournalEntry → Result JournalError JournalEntry
add_lines [] entry = ok entry
add_lines (p ∷ ps) entry = add_line p.account p.amount p.type p.memo entry >>= add_lines ps

unfoldable pub build_entry :
    (id tenant date : ℕ)
    → Option ℕ
    → AccountingMethod
    → List Posting
    → Result JournalError JournalEntry
build_entry i t d r m postings = do
  entry ←
      add_lines postings
        (record { id = i; tenant_id = t; date = d; method = m; reference_id = r; lines = [] })
  throw_if (not (is_balanced entry)) unbalanced
  ok entry

abbrev posting : AccountCode → ℤ → DebitCredit → String → Posting
posting a n t m = record { account = a; amount = n; type = t; memo = m }

abbrev pub Build : Type 0
Build =
    (id tenant date : ℕ)
    → (reference : Option ℕ) → (total_cost_cents : ℤ) → Result JournalError JournalEntry

unfoldable pub build_stock_returned : Build
build_stock_returned i t d r cost = build_entry i t d r accrual (
    posting inventory cost debit "Returned stock"
    ∷ posting cost_of_goods_sold cost credit "COGS reversal"
    ∷ [])

unfoldable pub build_inventory_write_off : Build
build_inventory_write_off i t d r cost = build_entry i t d r accrual (
    posting inventory_write_off_expense cost debit "Inventory write-off"
    ∷ posting inventory cost credit "Inventory reduction"
    ∷ [])

unfoldable pub build_return_to_vendor : Build
build_return_to_vendor i t d r cost = build_entry i t d r accrual (
    posting accounts_payable cost debit "AP cleared — return to vendor"
    ∷ posting inventory cost credit "Inventory reduction"
    ∷ [])

-- `journalRepo.save`, reached when the entry was built.
abbrev pub save :
    Result JournalError JournalEntry
    → List JournalEntry
    → Result JournalError JournalEntry × List JournalEntry
save (ok entry) repo = (ok entry, repo ++ (entry ∷ []))
save (err e) repo = (err e, repo)

-- The three `on…` methods: build the entry, and save it in the repository.
unfoldable pub record_entry :
    Build
    → (id tenant date : ℕ) → Option ℕ
    → ℤ
    → List JournalEntry
    → Result JournalError JournalEntry × List JournalEntry
record_entry build i t d r cost repo = save (build i t d r cost) repo
