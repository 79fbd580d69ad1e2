-- ===== src/Journal/Tests.antt =====
-- Entries on small examples.
use gql_ddd_inventory.Prelude.{◌≡◌, refl, List, [], ◌∷◌, none, err}
use gql_ddd_inventory.Prelude.Int.{pos}
use gql_ddd_inventory.Journal.{
  Posting, inventory, accounts_payable, debit, credit, accrual, build_entry, build_stock_returned,
  is_balanced, unbalanced, add_lines, add_line, new_line, tally,
}
use gql_ddd_inventory.Journal.Laws.{SavesBalanced, stock_returned, record_entry-SavesBalanced}

abbrev purchase : List Posting
purchase =
    record { account = inventory; amount = pos 250; type = debit; memo = "" }
    ∷ record { account = accounts_payable; amount = pos 200; type = credit; memo = "" }
    ∷ []

unbalanced_test : build_entry 1 1 0 none accrual purchase ≡ err unbalanced
unfolding build_entry add_lines add_line new_line is_balanced tally
unbalanced_test = refl

record_entry-SavesBalanced_example : SavesBalanced build_stock_returned 1 1 0 none (pos 300) []
record_entry-SavesBalanced_example =
    record_entry-SavesBalanced build_stock_returned stock_returned 1 1 0 none (pos 300) []
