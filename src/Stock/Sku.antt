-- ===== src/Stock/Sku.antt =====
-- src/domain/valueObjects/Sku.ts. A text is the number whose digits in base 2 ^ 16 are its UTF-16
-- units, the first one lowest; the empty text is 0.
use gql_ddd_inventory.Prelude.{
  ℕ, ◌+◌, ◌*◌, ◌-◌, ◌≤◌, ◌≡◌, refl, ap, Bool, true, false, ◌&&◌, ◌||◌, leb, ◌==◌, Option, none,
  some, arith, if◌then◌else◌, Bool-cases, inl, inr,
}
use Prim.Native.Nat.{zero, suc, ◌/◌, ◌%◌}

-- `/^[A-Z0-9-]+$/i`
abbrev is_upper : ℕ → Bool
is_upper c = leb 65 c && leb c 90

abbrev is_lower : ℕ → Bool
is_lower c = leb 97 c && leb c 122

abbrev is_digit : ℕ → Bool
is_digit c = leb 48 c && leb c 57

abbrev is_allowed : ℕ → Bool
is_allowed c = is_upper c || is_lower c || is_digit c || c == 45

-- `toUpperCase` of a letter, a digit or a hyphen.
abbrev to_upper : ℕ → ℕ
to_upper c = if is_lower c then c - 32 else c

-- The rest of a text, after a unit.
abbrev before_rest : (unit : ℕ) → Option ℕ → Option ℕ
before_rest c none = none
before_rest c (some rest) = some (to_upper c + 65536 * rest)

abbrev checked_unit : (unit : ℕ) → Option ℕ → Option ℕ
checked_unit c rest = if is_allowed c then before_rest c rest else none

-- The upper-cased text where all its units are allowed. The fuel is at least the text.
unfoldable upper_text : (fuel text : ℕ) → Option ℕ
upper_text zero text = some 0
upper_text (suc fuel) text = elim (text == 0) [
  | true ↦ some 0
  | false ↦ checked_unit (text % 65536) (upper_text fuel (text / 65536))
]

-- `new Sku(value).value`, or nothing where it throws.
unfoldable pub new_sku : (text : ℕ) → Option ℕ
unfolding upper_text
new_sku text = if text == 0 then none else upper_text text text

smaller : (text fuel : ℕ) → text ≤ fuel + 1 → (text == 0) ≡ false → text / 65536 ≤ fuel
smaller text fuel h n = ground arith

-- More fuel than the text changes nothing.
upper_text-enough :
    (fuel more text : ℕ) → text ≤ fuel → text ≤ more → upper_text fuel text ≡ upper_text more text
unfolding upper_text
upper_text-enough zero zero text h k = refl
upper_text-enough zero (suc more) text h k =
    let e : (text == 0) ≡ true = ground arith in rw (upper_text, e) refl
upper_text-enough (suc fuel) zero text h k =
    let e : (text == 0) ≡ true = ground arith in rw (upper_text, e) refl
upper_text-enough (suc fuel) (suc more) text h k = elim (Bool-cases (text == 0)) [
  | inl e ↦ rw (upper_text, e) refl
  | inr e ↦
      rw (upper_text, e)
        (ap (checked_unit (text % 65536)) (
          upper_text-enough fuel more (text / 65536) (smaller text fuel (omega (arith, h)) e)
            (smaller text more (omega (arith, k)) e)))
]

lower_test : new_sku (97 + 65536 * 49) ≡ some (65 + 65536 * 49)
unfolding new_sku
lower_test = refl

underscore_test : new_sku 95 ≡ none
unfolding new_sku
underscore_test = refl
