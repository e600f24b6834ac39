-- ===== src/Core/Complex.antt =====
-- jdftx/core/scalar.h, struct `complex`, over doubles.
use python_jdftx.Common.{◌≡◌, refl, ap, ◌∙◌}
use python_jdftx.Core.Number.{Double, ◌⊕◌, ◌⊗◌}

pub record Complex (R : Type 0) : Type 0 where
  pub x : R
  pub y : R

-- What exact arithmetic promises of the operations that the conversions use.
pub record IsExactArithmetic (R : Type 0) ⦃r : Double R⦄ : Type 0 where
  pub mul_comm : (a b : R) → a ⊗ b ≡ b ⊗ a
  pub mul_assoc : (a b c : R) → (a ⊗ b) ⊗ c ≡ a ⊗ (b ⊗ c)
  pub neg_mul : (a b : R) → r.neg (a ⊗ b) ≡ r.neg a ⊗ b
  pub neg_neg : (a : R) → r.neg (r.neg a) ≡ a

module _ {R : Type 0} ⦃r : Double R⦄ where
  unfoldable pub of_real : R → Complex R
  of_real a = record { x = a; y = r.lit 0 }

  unfoldable pub conj : Complex R → Complex R
  conj z = record { x = z.x; y = r.neg z.y }

  unfoldable pub add_complex : Complex R → Complex R → Complex R
  add_complex z w = record { x = z.x ⊕ w.x; y = z.y ⊕ w.y }

  unfoldable pub add_real : Complex R → R → Complex R
  add_real z a = record { x = z.x ⊕ a; y = z.y }

  -- The product with a double.
  unfoldable pub scale : R → Complex R → Complex R
  scale a z = record { x = z.x ⊗ a; y = z.y ⊗ a }

  zip :
      {a b c d : R}
      → a ≡ c
      → b ≡ d
      → ◌≡◌ {A = Complex R} (record { x = a; y = b }) (record { x = c; y = d })
  zip e f = λ i. record { x = e i; y = f i }

  pub scale-scale :
      IsExactArithmetic R → (a b : R) (z : Complex R) → scale a (scale b z) ≡ scale (a ⊗ b) z
  unfolding scale
  scale-scale laws a b z = zip (turn z.x) (turn z.y)
    where
      turn : (x : R) → (x ⊗ b) ⊗ a ≡ x ⊗ (a ⊗ b)
      turn x = laws.mul_assoc x b a ∙ ap (λ k. x ⊗ k) (laws.mul_comm b a)

  pub conj-scale :
      IsExactArithmetic R → (a : R) (z : Complex R) → conj (scale a z) ≡ scale a (conj z)
  unfolding conj scale
  conj-scale laws a z = zip refl (laws.neg_mul z.y a)

  pub conj-conj : IsExactArithmetic R → (z : Complex R) → conj (conj z) ≡ z
  unfolding conj
  conj-conj laws z = zip refl (laws.neg_neg z.y)
