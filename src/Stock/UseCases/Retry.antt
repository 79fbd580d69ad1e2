-- ===== src/Stock/UseCases/Retry.antt =====
-- src/application/decorators/AutoRetryDecorator.ts: a use case that is tried again after a concurrency
-- error. The waits between the attempts are left out.
use gql_ddd_inventory.Prelude.{
  ℕ, zero, suc, ◌≡◌, refl, Bool, true, false, Result, ok, err, if◌then◌else◌, Bool-cases, inl, inr,
}
use gql_ddd_inventory.Prelude.Methods.{Method}
use gql_ddd_inventory.Stock.UseCases.{StockUseCaseError, of_repository}

-- An attempt that threw a concurrency error is followed by the next one.
abbrev again : {S E A : Type 0} → (E → Bool) → Result E A × S → Method S E A → Result E A × S
again is_concurrency (ok a, s) next = (ok a, s)
again is_concurrency (err e, s) next = if is_concurrency e then next s else (err e, s)

-- `AutoRetryDecorator.wrap`, with the number of retries that are left.
unfoldable pub with_retries :
    {S E A : Type 0} → (is_concurrency : E → Bool) → (retries : ℕ) → Method S E A → Method S E A
with_retries is_concurrency zero use_case s = use_case s
with_retries is_concurrency (suc n) use_case s =
    again is_concurrency (use_case s) (with_retries is_concurrency n use_case)

abbrev pub is_concurrency_error : StockUseCaseError → Bool
is_concurrency_error (of_repository e) = true
is_concurrency_error _ = false

-- A use case that throws and leaves the store as it was does so after any number of retries.
pub with_retries-throws :
    {S E A : Type 0} (is_concurrency : E → Bool) (n : ℕ) (m : Method S E A) (s : S) {e : E}
    → m s ≡ (err e, s)
    → with_retries is_concurrency n m s ≡ (err e, s)
unfolding with_retries
with_retries-throws is_concurrency zero m s h = h
with_retries-throws is_concurrency (suc n) m s {e} h = elim (Bool-cases (is_concurrency e)) [
  | inl c ↦ rw (h, c) (with_retries-throws is_concurrency n m s h)
  | inr c ↦ rw (h, c) refl
]
