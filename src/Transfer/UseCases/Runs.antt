-- ===== src/Transfer/UseCases/Runs.antt =====
-- What the loop over the lines of a transfer does to the stock of every SKU at the two locations.
use gql_ddd_inventory.Prelude.{
  ℕ, ◌+◌, ◌≤◌, ◌≡◌, ◌≢◌, List, [], ◌∷◌, Result, ok, arith, ◌==◌, if◌then◌else◌, Result-cases, inl,
  inr, ok-injective, sym, ap, ◌∙◌, ==_iff, Bool-cases,
}
use mathlib.Core.Path.{subst, subst₂}
use gql_ddd_inventory.Stock.Item.Laws.{Levels}
use gql_ddd_inventory.Transfer.UseCases.{
  Line, Working, UseCaseError, dispatch_line, receive_line, cancel_line, each_line,
}
use gql_ddd_inventory.Stock.Shelves.{
  levels_at, AreCounted, less_on_hand, more_on_hand, less_incoming, more_incoming,
}
use gql_ddd_inventory.Transfer.UseCases.Lines.{
  Moves, dispatch_line-Moves, receive_line-Moves, cancel_line-Moves,
}

-- How many pieces of a SKU the lines ask for.
abbrev pub needed : ℕ → List Line → ℕ
needed k [] = 0
needed k ((sku, n) ∷ ls) = (if sku == k then n else 0) + needed k ls

-- The stock of every SKU at both locations after some lines, as functions of how many pieces the
-- lines ask for.
pub record Shifts (f g : ℕ → Levels → Levels) (Fits : ℕ → Levels → Levels → Type 0) (ls : List Line)
    (w w' : Working) : Type 0 where
  pub source_counted : AreCounted w'.source
  pub destination_counted : AreCounted w'.destination
  pub at_source : (k : ℕ) → levels_at k w'.source ≡ f (needed k ls) (levels_at k w.source)
  pub at_destination :
      (k : ℕ) → levels_at k w'.destination ≡ g (needed k ls) (levels_at k w.destination)
  pub fits : (k : ℕ) → Fits (needed k ls) (levels_at k w.source) (levels_at k w.destination)

-- Functions that add up, and a condition that adds up along them.
record IsAdditive (f g : ℕ → Levels → Levels) (Fits : ℕ → Levels → Levels → Type 0) : Type 0 where
  f_zero : (l : Levels) → f 0 l ≡ l
  g_zero : (l : Levels) → g 0 l ≡ l
  f_add : (a b : ℕ) (l : Levels) → f b (f a l) ≡ f (a + b) l
  g_add : (a b : ℕ) (l : Levels) → g b (g a l) ≡ g (a + b) l
  fits_zero : (s d : Levels) → Fits 0 s d
  fits_add : (a b : ℕ) (s d : Levels) → Fits a s d → Fits b (f a s) (g a d) → Fits (a + b) s d

module _ (f g : ℕ → Levels → Levels) (Fits : ℕ → Levels → Levels → Type 0)
    (add : IsAdditive f g Fits) (step : Line → Working → Result UseCaseError Working)
    (step-Moves : (sku n : ℕ) (w w' : Working)
      → AreCounted w.source
      → AreCounted w.destination
      → step (sku, n) w ≡ ok w'
      → Fits n (levels_at sku w.source) (levels_at sku w.destination)
        × Moves sku (f n (levels_at sku w.source)) (g n (levels_at sku w.destination)) w w') where
  one-Shifts :
      (sku n k : ℕ) (w w' : Working)
      → Fits n (levels_at sku w.source) (levels_at sku w.destination)
      → Moves sku (f n (levels_at sku w.source)) (g n (levels_at sku w.destination)) w w'
      → let m = if sku == k then n else 0 in
        (levels_at k w'.source ≡ f m (levels_at k w.source))
        × (levels_at k w'.destination ≡ g m (levels_at k w.destination))
        × Fits m (levels_at k w.source) (levels_at k w.destination)
  one-Shifts sku n k w w' fit m = elim (Bool-cases (sku == k)) [
    | inl e ↦
        let same : sku ≡ k = (==_iff sku k).0 e in
        rw e (
          subst
            (λ x.
              (levels_at x w'.source ≡ f n (levels_at x w.source))
              × (levels_at x w'.destination ≡ g n (levels_at x w.destination))
              × Fits n (levels_at x w.source) (levels_at x w.destination))
            same (m.at_source.there, m.at_destination.there, fit))
    | inr e ↦
        let other : k ≢ sku = ground arith in
        rw e (
          m.at_source.elsewhere k other ∙ sym (add.f_zero _),
          m.at_destination.elsewhere k other ∙ sym (add.g_zero _),
          add.fits_zero _ _,
        )
  ]

  each_line-Shifts :
      (ls : List Line) (w w' : Working)
      → AreCounted w.source
      → AreCounted w.destination
      → each_line step ls w ≡ ok w'
      → Shifts f g Fits ls w w'
  unfolding each_line
  each_line-Shifts [] w w' cs cd e = subst (Shifts f g Fits [] w) (ok-injective e) (record {
    source_counted = cs;
    destination_counted = cd;
    at_source = λ k. sym (add.f_zero _);
    at_destination = λ k. sym (add.g_zero _);
    fits = λ k. add.fits_zero _ _;
  })
  each_line-Shifts ((sku, n) ∷ ls) w w' cs cd e = elim (Result-cases (step (sku, n) w)) [
    | inr (x, e₁) ↦ cc (rw e₁ at e)
    | inl (v, e₁) ↦
        let (fit, m) = step-Moves sku n w v cs cd e₁ in
        let rest =
          each_line-Shifts ls v w' m.at_source.counted m.at_destination.counted (rw e₁ at e) in
        let one = λ (k : ℕ). one-Shifts sku n k w v fit m in
        record {
          source_counted = rest.source_counted;
          destination_counted = rest.destination_counted;
          at_source = λ k. rest.at_source k ∙ ap (f (needed k ls)) (one k).0 ∙ add.f_add _ _ _;
          at_destination =
              λ k. rest.at_destination k ∙ ap (g (needed k ls)) (one k).1 ∙ add.g_add _ _ _;
          fits = λ k.
              add.fits_add _ _ _ _ (one k).2
                (subst₂ (Fits (needed k ls)) (one k).0 (one k).1 (rest.fits k));
        }
  ]

abbrev pub OnHandFits : ℕ → Levels → Levels → Type 0
OnHandFits n s d = n ≤ s.on_hand

abbrev pub IncomingFits : ℕ → Levels → Levels → Type 0
IncomingFits n s d = n ≤ d.incoming

abbrev pub AnyFits : ℕ → Levels → Levels → Type 0
AnyFits n s d = Unit

abbrev pub same_levels : ℕ → Levels → Levels
same_levels n l = l

abbrev pub arrived : ℕ → Levels → Levels
arrived n l = more_on_hand n (less_incoming n l)

dispatch-IsAdditive : IsAdditive less_on_hand more_incoming OnHandFits
dispatch-IsAdditive = ground arith

receive-IsAdditive : IsAdditive same_levels arrived IncomingFits
receive-IsAdditive = ground arith

cancel-IsAdditive : IsAdditive more_on_hand less_incoming AnyFits
cancel-IsAdditive = ground arith

module _ (uuid : ℕ → ℕ) (source destination : ℕ) (ls : List Line) (w w' : Working) where
  -- A dispatch of some lines takes what they ask for of each SKU from the source, where it must be on
  -- hand, and announces it at the destination.
  pub dispatch-Shifts :
      AreCounted w.source
      → AreCounted w.destination
      → each_line (dispatch_line uuid source destination) ls w ≡ ok w'
      → Shifts less_on_hand more_incoming OnHandFits ls w w'
  dispatch-Shifts =
      each_line-Shifts less_on_hand more_incoming OnHandFits dispatch-IsAdditive
        (dispatch_line uuid source destination)
        (λ sku n v v' cs cd e. dispatch_line-Moves uuid source destination sku n v cs cd e) ls w w'

  -- A receipt of some lines turns what they ask for into stock on hand at the destination.
  pub receive-Shifts :
      AreCounted w.source
      → AreCounted w.destination
      → each_line (receive_line uuid source destination) ls w ≡ ok w'
      → Shifts same_levels arrived IncomingFits ls w w'
  receive-Shifts =
      each_line-Shifts same_levels arrived IncomingFits receive-IsAdditive
        (receive_line uuid source destination)
        (λ sku n v v' cs cd e. receive_line-Moves uuid source destination sku n v cs cd e) ls w w'

  -- A cancellation of some lines puts what they ask for back at the source.
  pub cancel-Shifts :
      AreCounted w.source
      → AreCounted w.destination
      → each_line (cancel_line uuid source destination) ls w ≡ ok w'
      → Shifts more_on_hand less_incoming AnyFits ls w w'
  cancel-Shifts =
      each_line-Shifts more_on_hand less_incoming AnyFits cancel-IsAdditive
        (cancel_line uuid source destination)
        (λ sku n v v' cs cd e. (tt, cancel_line-Moves uuid source destination sku n v cs cd e)) ls w
        w'
