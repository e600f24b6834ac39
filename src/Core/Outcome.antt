-- ===== src/Core/Outcome.antt =====
-- jdftx/core/Util.h: `die` prints a message and ends the run. Here a routine that may end so
-- returns a value that names which call of `die` was reached. Loops whose end depends on the
-- environment take fuel, and running out of it is an outcome of its own.
use python_jdftx.Common.{ℕ, List, ◌≡◌, refl, ◌≢◌}

abbrev pub Bytes : Type 0
Bytes = List ℕ

-- The calls of `die` of commands/parser.cpp, each with the names that its message prints.
pub data Failure : Type 0 where
  unterminated_variable : Bytes → Failure
  cannot_open : Bytes → Failure
  include_without_name : Failure
  cyclic_include : Bytes → Failure
  invalid_requirement : (required by : Bytes) → Failure
  cyclic_dependency : List Bytes → Failure
  invalid_forbid : (forbidden by : Bytes) → Failure
  forbid_require_conflict : (command : Bytes) → List Bytes → Failure
  parsing_failed : ℕ → Failure
  default_failed : Bytes → Failure

pub data Outcome {ℓ} (A : Type ℓ) : Type ℓ where
  ok : A → Outcome A
  die : Failure → Outcome A
  no_fuel : Outcome A

infixl 5 ◌>>=◌
abbrev pub ◌>>=◌ {ℓ κ} : {A : Type ℓ} {B : Type κ} → Outcome A → (A → Outcome B) → Outcome B
no_fuel >>= next = no_fuel
die cause >>= next = die cause
ok value >>= next = next value

module _ {ℓ κ} {A : Type ℓ} {B : Type κ} where
  -- A chain that ends well went through a value of its first part.
  pub >>=-eq-ok :
      {b : B} (run : Outcome A) (next : A → Outcome B)
      → (run >>= next) ≡ ok b
      → (a : A) × (run ≡ ok a) × (next a ≡ ok b)
  >>=-eq-ok no_fuel next q = cc
  >>=-eq-ok (die cause) next q = cc
  >>=-eq-ok (ok value) next q = (value, refl, q)

  -- A chain has enough fuel if each of its parts has.
  pub >>=-ne-no_fuel :
      (run : Outcome A) (next : A → Outcome B)
      → run ≢ no_fuel
      → ((a : A) → run ≡ ok a → next a ≢ no_fuel)
      → (run >>= next) ≢ no_fuel
  >>=-ne-no_fuel no_fuel next enough rest = λ q. enough refl
  >>=-ne-no_fuel (die cause) next enough rest = λ q. cc
  >>=-ne-no_fuel (ok value) next enough rest = rest value refl
