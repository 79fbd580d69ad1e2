-- ===== src/Ledger/Sales/Oversell.antt =====
-- When a sale leaves no quantity below zero, and when it does.
use mathlib.Core.List.{append-nil}
use gql_ddd_inventory.Prelude.{
  ℕ, ◌+◌, ◌≡◌, ◌≢◌, refl, sym, ap, ◌∙◌, true, false, List, [], ◌∷◌, map, Result, ok, err, ◌==◌, All,
  All-both, Bool-cases, inl, inr, arith,
}
use gql_ddd_inventory.Prelude.Int.{
  ℤ, pos, negsuc, ◌+ℤ◌, ◌-ℤ◌, ◌≤ℤ◌, +ℤ_parts, -ℤ_parts, +ℤ_zero, -ℤ_zero, eq_of_parts,
}
use gql_ddd_inventory.Prelude.Methods.{returned}
use gql_ddd_inventory.Kit.{Kit, KitComponent, is_empty}
use gql_ddd_inventory.Kit.Reachable.{AreDistinct, Reachable, Reachable-IsValidKit}
use gql_ddd_inventory.Ledger.Entry.{LedgerEntry, sale, kit_sale}
use gql_ddd_inventory.Ledger.Repository.{current_quantity}
use gql_ddd_inventory.Ledger.Sales.{Books, Sale, Line, SaleError}
use gql_ddd_inventory.Ledger.Sales.Service.{
  decrement_for_sale_batch, decrement_for_kit_sale, needed_for,
}
use gql_ddd_inventory.Ledger.Sales.Balance.{
  asked, IsCovered, IsNonzero, Sold, Sells, sell_lines-Sells,
}

-- No two lines are of one variant.
abbrev pub AreApart : List Line → Type 0
AreApart [] = Unit
AreApart (l ∷ ls) = All (λ m. m.0 ≢ l.0) ls × AreApart ls

differs : (w v : ℕ) → w ≢ v → (w == v) ≡ false
differs w v h = ground arith

==_self : (v : ℕ) → (v == v) ≡ true
==_self v = ground arith

+ℤ_zero_right : (a : ℤ) → a +ℤ pos 0 ≡ a
+ℤ_zero_right a = eq_of_parts _ _ (omega (arith, +ℤ_parts a (pos 0)))

left_over : (have take left : ℤ) → take ≤ℤ have → left ≡ have -ℤ take → pos 0 ≤ℤ left
left_over have take left c e = rw e (omega (arith, c, -ℤ_parts have take))

asked_elsewhere : (v : ℕ) (ls : List Line) → All (λ m. m.0 ≢ v) ls → asked v ls ≡ pos 0
asked_elsewhere v [] h = refl
asked_elsewhere v ((w, q) ∷ ls) h =
    rw (differs w v h.0) (+ℤ_zero (asked v ls) ∙ asked_elsewhere v ls h.1)

-- Where the lines are apart, what they ask for a variant is what its line asks for.
asked-AreApart : (ls : List Line) → AreApart ls → All (λ l. asked l.0 ls ≡ l.1) ls
asked-AreApart [] d = tt
asked-AreApart ((v, q) ∷ ls) d = (
  rw (==_self v) (ap (λ a. q +ℤ a) (asked_elsewhere v ls d.0) ∙ +ℤ_zero_right q),
  All-both (λ m. m.0 ≢ v) (λ m. asked m.0 ls ≡ m.1) (λ m. asked m.0 ((v, q) ∷ ls) ≡ m.1) ls
      (λ m ne e. rw (differs v m.0 (λ p. ne (sym p))) (+ℤ_zero (asked m.0 ls) ∙ e)) d.0
      (asked-AreApart ls d.1),
)

-- The quantity of a line's variant is not below zero.
abbrev pub IsStocked : (location : ℕ) → List LedgerEntry → Line → Type 0
IsStocked location entries (v, q) = pos 0 ≤ℤ current_quantity v location entries

Sold-IsStocked :
    (s : Sale) (ls : List Line) (books books' : Books)
    → AreApart ls
    → Sold s ls books books'
    → All (IsStocked s.location_id books'.entries) ls
Sold-IsStocked s ls books books' d h =
    All-both (IsCovered s.location_id books.entries) (λ l. asked l.0 ls ≡ l.1)
      (IsStocked s.location_id books'.entries) ls
      (λ l covered e.
        left_over (current_quantity l.0 s.location_id books.entries) l.1
          (current_quantity l.0 s.location_id books'.entries) covered
          (h.here l.0 ∙ ap (λ a. current_quantity l.0 s.location_id books.entries -ℤ a) e))
      h.covered (asked-AreApart ls d)

-- A batch that returns appends one deduction for each line, in order, and dispatches its event: every quantity at the
-- place of the sale falls by what the lines ask for, which each line had found covered, and no other
-- quantity changes. A batch that throws changes nothing, and had a line that is not covered or asks
-- for zero.
pub decrement_for_sale_batch-Sells :
    (s : Sale) (ls : List Line) (books : Books)
    → Sells s ls books (decrement_for_sale_batch s ls books)
unfolding decrement_for_sale_batch
decrement_for_sale_batch-Sells s [] books = record {
  covered = tt;
  here = λ v. sym (-ℤ_zero (current_quantity v s.location_id books.entries));
  elsewhere = λ v location ne. refl;
  posted = ([], sym (append-nil books.entries), refl);
  events = sym (append-nil books.dispatched);
}
decrement_for_sale_batch-Sells s (l ∷ ls) books = sell_lines-Sells s sale (l ∷ ls) books

returned-Sold :
    (s : Sale) (ls : List Line) (books : Books) (out : Result SaleError (Unit {0}) × Books)
    → Sells s ls books out
    → returned out ≡ true
    → Sold s ls books out.1
returned-Sold s ls books (ok a, books') h r = h
returned-Sold s ls books (err e, books') h r = cc

-- A batch whose lines are of different variants leaves none of these below zero when it returns.
pub decrement_for_sale_batch-IsStocked :
    (s : Sale) (ls : List Line) (books : Books)
    → AreApart ls
    → returned (decrement_for_sale_batch s ls books) ≡ true
    → All (IsStocked s.location_id (decrement_for_sale_batch s ls books).1.entries) ls
decrement_for_sale_batch-IsStocked s ls books d r =
    Sold-IsStocked s ls books _ d
      (returned-Sold s ls books _ (decrement_for_sale_batch-Sells s ls books) r)

needed-apart :
    (n : ℤ) (v : ℕ) (cs : List KitComponent)
    → All (λ c. c.variant_id ≢ v) cs
    → All (λ l. l.0 ≢ v) (map (needed_for n) cs)
needed-apart n v [] h = tt
needed-apart n v (c ∷ cs) h = (h.0, needed-apart n v cs h.1)

needed-AreApart :
    (n : ℤ) (cs : List KitComponent) → AreDistinct cs → AreApart (map (needed_for n) cs)
needed-AreApart n [] d = tt
needed-AreApart n (c ∷ cs) d = (needed-apart n c.variant_id cs d.0, needed-AreApart n cs d.1)

-- A sale of any number of a kit that its methods built leaves no variant of the kit below zero when it
-- returns.
pub decrement_for_kit_sale-IsStocked :
    (s : Sale) (kit : Kit) (n : ℤ) (books : Books)
    → Reachable kit
    → returned (decrement_for_kit_sale s kit n books) ≡ true
    → All
        (IsStocked s.location_id (decrement_for_kit_sale s kit n books).1.entries)
        (map (needed_for n) kit.components)
unfolding decrement_for_kit_sale
decrement_for_kit_sale-IsStocked s kit n books k r = elim (Bool-cases (is_empty kit)) [
  | inl e ↦ cc (rw e at r)
  | inr e ↦
      let ls = map (needed_for n) kit.components in
      rw e (
        Sold-IsStocked s ls books _
          (needed-AreApart n kit.components (Reachable-IsValidKit k).distinct)
          (returned-Sold s ls books _ (sell_lines-Sells s kit_sale ls books) (rw e at r)))
]

below_zero :
    (v n : ℕ) (have : ℤ)
    → have ≡ pos (n + 1)
    → have -ℤ asked v ((v, pos (n + 1)) ∷ (v, pos (n + 1)) ∷ []) ≡ negsuc n
below_zero v n have h =
    rw (h, ==_self v)
      (eq_of_parts _ _ (
        omega (
          arith,
          -ℤ_parts (pos (n + 1)) (pos (n + 1) +ℤ (pos (n + 1) +ℤ pos 0)),
          +ℤ_parts (pos (n + 1)) (pos (n + 1) +ℤ pos 0),
          +ℤ_parts (pos (n + 1)) (pos 0),
        )))

must-return :
    (s : Sale) (ls : List Line) (books : Books) (out : Result SaleError (Unit {0}) × Books)
    → Sells s ls books out
    → All (IsCovered s.location_id books.entries) ls
    → All IsNonzero ls
    → (returned out ≡ true) × Sold s ls books out.1
must-return s ls books (ok a, books') h c n = (refl, h)
must-return s ls books (err e, books') h c n = elim h.1 [
  | inl x ↦ absurd (x c)
  | inr x ↦ absurd (x n)
]

-- The first pass looks at each line alone: a batch that lists a variant twice, each time with all that
-- there is of it, returns, and leaves as much below zero as there was.
decrement_for_sale_batch-oversells :
    (s : Sale) (v n : ℕ) (books : Books)
    → current_quantity v s.location_id books.entries ≡ pos (n + 1)
    → let out = decrement_for_sale_batch s ((v, pos (n + 1)) ∷ (v, pos (n + 1)) ∷ []) books in
      (returned out ≡ true) × (current_quantity v s.location_id out.1.entries ≡ negsuc n)
decrement_for_sale_batch-oversells s v n books h =
    let ls : List Line = (v, pos (n + 1)) ∷ (v, pos (n + 1)) ∷ [] in
    let covered : IsCovered s.location_id books.entries (v, pos (n + 1)) = rw h (omega arith) in
    let (r, sold) =
      must-return s ls books _ (decrement_for_sale_batch-Sells s ls books) (covered, (covered, tt))
        (ground arith, (ground arith, tt)) in
    (r, sold.here v ∙ below_zero v n _ h)
