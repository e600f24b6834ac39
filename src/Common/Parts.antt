-- ===== src/Common/Parts.antt =====
-- Identities of integers by way of differences of natural numbers, which `omega` multiplies out.
use native.Mathlib.Nat.{eq_of_mul-eq-mul_right}
use python_jdftx.Common.{ℕ, ◌+◌, ◌*◌, ◌<◌, ◌≡◌, ap, arith}
use python_jdftx.Common.Int.{
  ℤ, pos, pos_part, neg_part, ◌+ℤ◌, ◌*ℤ◌, +ℤ_parts, *ℤ_parts, eq_of_parts, neg_ℤ, neg_ℤ_parts,
}

-- The integer is `p - n`.
pub record IsDifference (a : ℤ) (p n : ℕ) : Type 0 where
  pub parts : pos_part a + n ≡ neg_part a + p

pub own_parts : (a : ℤ) → IsDifference a (pos_part a) (neg_part a)
own_parts a = record { parts = omega arith }

pub pos_parts : (n : ℕ) → IsDifference (pos n) n 0
pos_parts n = record { parts = omega arith }

module _ {a b : ℤ} {p n q m : ℕ} where
  pub sum_parts : IsDifference a p n → IsDifference b q m → IsDifference (a +ℤ b) (p + q) (n + m)
  sum_parts one two = record { parts = omega (arith, one.parts, two.parts, +ℤ_parts a b) }

  pub product_parts :
      IsDifference a p n
      → IsDifference b q m
      → IsDifference (a *ℤ b) (p * q + n * m) (p * m + n * q)
  product_parts one two =
      let one_pos = ap (λ k. k * pos_part b) one.parts in
      let one_neg = ap (λ k. k * neg_part b) one.parts in
      let two_pos = ap (λ k. p * k) two.parts in
      let two_neg = ap (λ k. n * k) two.parts in
      record { parts = omega (arith, one_pos, one_neg, two_pos, two_neg, *ℤ_parts a b) }

  pub equal_parts : IsDifference a p n → IsDifference b q m → p + m ≡ n + q → a ≡ b
  equal_parts one two same = eq_of_parts a b (omega (arith, one.parts, two.parts))

  pub parts_equal : a ≡ b → IsDifference a p n → IsDifference b q m → p + m ≡ n + q
  parts_equal e one two =
      let high = ap pos_part e in let low = ap neg_part e in omega (arith, one.parts, two.parts)

pub negative_parts : {a : ℤ} {p n : ℕ} → IsDifference a p n → IsDifference (neg_ℤ a) n p
negative_parts {a} one = record { parts = omega (arith, one.parts, neg_ℤ_parts a) }

pub +ℤ_comm : (a b : ℤ) → a +ℤ b ≡ b +ℤ a
+ℤ_comm a b =
    equal_parts (sum_parts (own_parts a) (own_parts b)) (sum_parts (own_parts b) (own_parts a))
      (omega arith)

pub *ℤ_comm : (a b : ℤ) → a *ℤ b ≡ b *ℤ a
*ℤ_comm a b =
    equal_parts (product_parts (own_parts a) (own_parts b))
      (product_parts (own_parts b) (own_parts a)) (omega arith)

pub *ℤ_assoc : (a b c : ℤ) → (a *ℤ b) *ℤ c ≡ a *ℤ (b *ℤ c)
*ℤ_assoc a b c =
    equal_parts (product_parts (product_parts (own_parts a) (own_parts b)) (own_parts c))
      (product_parts (own_parts a) (product_parts (own_parts b) (own_parts c))) (omega arith)

-- A factor that is not 0 can be taken away.
pub *ℤ_cancel : (a b : ℤ) (s : ℕ) → 0 < s → a *ℤ pos s ≡ b *ℤ pos s → a ≡ b
*ℤ_cancel a b s h e =
    let one = product_parts (own_parts a) (pos_parts s) in
    let two = product_parts (own_parts b) (pos_parts s) in
    let high = ap pos_part e in
    let low = ap neg_part e in
    let scaled : (pos_part a + neg_part b) * s ≡ (pos_part b + neg_part a) * s =
      omega (arith, one.parts, two.parts) in
    eq_of_parts a b (eq_of_mul-eq-mul_right s h _ _ scaled)
