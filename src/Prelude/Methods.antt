-- ===== src/Prelude/Methods.antt =====
-- A method of an object with fields: it returns or throws, and leaves the object in a new state. What
-- was assigned before a throw stays assigned.
use gql_ddd_inventory.Prelude.{Bool, true, false, Result, ok, err}

abbrev pub Method : Type 0 → Type 0 → Type 0 → Type 0
Method S E A = S → Result E A × S

module _ {S E : Type 0} where
  -- What follows a call: its continuation, or nothing more after a throw.
  abbrev pub followed_by : {A B : Type 0} → Result E A × S → (A → Method S E B) → Result E B × S
  followed_by (ok a, s) f = f a s
  followed_by (err e, s) f = (err e, s)

  infixl 5 ◌>>=◌ ◌>>◌
  abbrev pub ◌>>=◌ : {A B : Type 0} → Method S E A → (A → Method S E B) → Method S E B
  ◌>>=◌ m f s = followed_by (m s) f

  abbrev pub ◌>>◌ : {B : Type 0} → Method S E (Unit {0}) → Method S E B → Method S E B
  m >> k = m >>= λ _. k

  abbrev pub return : {A : Type 0} → A → Method S E A
  return a s = (ok a, s)

  abbrev pub this : Method S E S
  this s = (ok s, s)

  abbrev pub assign : S → Method S E (Unit {0})
  assign s' s = (ok tt, s')

  abbrev pub lift : {A : Type 0} → Result E A → Method S E A
  lift r s = (r, s)

  abbrev pub reject_if : Bool → E → Method S E (Unit {0})
  reject_if true e s = (err e, s)
  reject_if false e s = (ok tt, s)

-- The object that a caller keeps when the call returned.
abbrev pub kept : {S E A : Type 0} → Result E A × S → Result E S
kept (ok _, s) = ok s
kept (err e, s) = err e

-- Whether the call returned.
abbrev pub returned : {S E A : Type 0} → Result E A × S → Bool
returned (ok _, s) = true
returned (err e, s) = false
