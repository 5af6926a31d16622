-- ===== src/Base/Results.antt =====
-- What can go wrong (src/agent_runs/domain/errors.py), and the functions that may fail. An exception's
-- texts and details are not kept, only which it is; `internal` is any exception that is no
-- `ServiceError`, which is answered 500.
use mathlib.Core.Path.{◌≡◌, refl}
use mathlib.Core.Logic.{◌⊎◌, inl, inr}
use mathlib.Core.Bool.{Bool, true, false}
use mathlib.Core.List.{List, [], ◌∷◌}

pub data ServiceError : Type 0 where
  bad_request unauthorized forbidden not_found conflict lease_lost : ServiceError
  too_large unprocessable rate_limited unavailable internal : ServiceError

-- What a request answers, or the exception that leaves it.
pub data Result {ℓ} (A : Type ℓ) : Type ℓ where
  err : ServiceError → Result A
  ok : A → Result A

-- `if test: raise e`
abbrev pub raise_if : Bool → ServiceError → Result (Unit {0})
raise_if false why = ok tt
raise_if true why = err why

module _ {ℓ κ} {A : Type ℓ} {B : Type κ} where
  infixl 5 ◌>>=◌
  -- The next statement, with what the one before it answered.
  abbrev pub ◌>>=◌ : Result A → (A → Result B) → Result B
  err why >>= next = err why
  ok answer >>= next = next answer

  -- A sequence that succeeds had both its parts succeed.
  pub >>=-eq-ok :
      (first : Result A) (next : A → Result B) {last : B}
      → (first >>= next) ≡ ok last
      → (answer : A) × (first ≡ ok answer) × (next answer ≡ ok last)
  >>=-eq-ok (err why) next e = cc
  >>=-eq-ok (ok answer) next e = (answer, refl, e)

module _ {ℓ} {B : Type ℓ} where
  infixl 5 ◌>>◌
  -- The next statement, where the one before it answers nothing.
  abbrev pub ◌>>◌ : Result (Unit {0}) → Result B → Result B
  check >> rest = check >>= λ done. rest

-- One step for each member, in order; the first failure is the failure of all.
module _ {ℓ κ} {A : Type ℓ} {B : Type κ} where
  abbrev pub map_result : (A → Result B) → List A → Result (List B)
  map_result step [] = ok []
  map_result step (x ∷ xs) = do y ← step x; ys ← map_result step xs; ok (y ∷ ys)

-- To split on a computed answer and keep the equation.
pub Result-cases {ℓ} :
    {A : Type ℓ} (r : Result A) → ((why : ServiceError) × (r ≡ err why)) ⊎ ((a : A) × (r ≡ ok a))
Result-cases (err why) = inl (why, refl)
Result-cases (ok a) = inr (a, refl)
