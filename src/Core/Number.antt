-- ===== src/Core/Number.antt =====
-- What the code does with a `double`, and with the vectors that the optimisers are templates over.
-- Floating-point arithmetic belongs to the machine, and vectors to the callers: both are arguments.
use python_jdftx.Common.{ℕ, Bool}

pub record Double (R : Type 0) : Type 0 where
  pub lit : ℕ → R
  pub nan : R
  pub add : R → R → R
  pub sub : R → R → R
  pub mul : R → R → R
  pub div : R → R → R
  pub neg : R → R
  pub sqrt : R → R
  pub fabs : R → R
  pub lt : R → R → Bool
  pub le : R → R → Bool
  pub is_finite : R → Bool
  pub is_zero : R → Bool

infixl 65 ◌⊕◌ ◌⊖◌
infixl 70 ◌⊗◌ ◌⊘◌
infix 50 ◌≺◌ ◌≼◌
module _ {R : Type 0} ⦃r : Double R⦄ where
  abbrev pub ◌⊕◌ : R → R → R
  ◌⊕◌ = r.add

  abbrev pub ◌⊖◌ : R → R → R
  ◌⊖◌ = r.sub

  abbrev pub ◌⊗◌ : R → R → R
  ◌⊗◌ = r.mul

  abbrev pub ◌⊘◌ : R → R → R
  ◌⊘◌ = r.div

  abbrev pub ◌≺◌ : R → R → Bool
  ◌≺◌ = r.lt

  abbrev pub ◌≼◌ : R → R → Bool
  ◌≼◌ = r.le

-- The operations that Minimize.h asks of a `Vector`: `axpy a x y` is y + a x.
pub record Space (R V : Type 0) : Type 0 where
  pub dot : V → V → R
  pub axpy : R → V → V → V
  pub scale : R → V → V
  pub randomize : V → V
