-- ===== src/Core/Grid/Divisors.antt =====
-- jdftx/core/vector3.h, `gcd` and `gcdReduce`, on numbers that are not negative, as GridInfo.cpp
-- uses them. The loop takes fuel, and yields none without enough of it.
pub mod Reduced
use native.Mathlib.Nat.{div-add-mod, mod-lt, mul-div_right}
use python_jdftx.Common.{
  ℕ, zero, suc, ◌+◌, ◌-◌, ◌*◌, ◌/◌, ◌%◌, ◌<◌, ◌≤◌, ◌≡◌, refl, sym, ap, ◌∙◌, Bool, Option, none,
  some, leb, ◌==◌, if◌then◌else◌, arith, Bool-cases, inl, inr,
}
use python_jdftx.Core.Grid.{Vector3}
use python_jdftx.Core.Grid.Sizes.{◌>>=◌}

unfoldable pub gcd : (fuel x y : ℕ) → Option ℕ
gcd zero x y = none
gcd (suc fuel) x y = let rest = gcd fuel y (x % y) in if y == 0 then some x else rest

unfoldable pub gcd_reduce : (fuel : ℕ) → Vector3 ℕ → Option (Vector3 ℕ)
gcd_reduce fuel d = gcd fuel d.x d.y >>= λ f.
    gcd fuel f d.z >>= λ g. some (record { x = d.x / g; y = d.y / g; z = d.z / g })

pub record Divides (d n : ℕ) : Type 0 where
  pub quotient : ℕ
  pub product : n ≡ d * quotient

-- The greatest common divisor, as the loop finds it.
pub record IsGcd (fuel x y : ℕ) : Type 0 where
  pub value : ℕ
  pub found : gcd fuel x y ≡ some value
  pub first : Divides value x
  pub second : Divides value y
  pub greatest : (d : ℕ) → Divides d x → Divides d y → Divides d value

difference : (d k m r : ℕ) → d * k ≡ d * m + r → r ≡ d * (k - m)
difference d k m r h = elim (Bool-cases (leb m k)) [
  | inl e ↦
      let split : m + (k - m) ≡ k = ground arith in
      let apart : d * (m + (k - m)) ≡ d * m + d * (k - m) = grind arith in
      let whole : d * k ≡ d * m + d * (k - m) = ap (λ x. d * x) (sym split) ∙ apart in omega arith
  | inr e ↦
      let nothing : k - m ≡ 0 = ground arith in
      let split : k + (m - k) ≡ m = ground arith in
      let apart : d * (k + (m - k)) ≡ d * k + d * (m - k) = grind arith in
      let whole : d * m ≡ d * k + d * (m - k) = ap (λ x. d * x) (sym split) ∙ apart in
      let rest : d * (k - m) ≡ 0 = ap (λ x. d * x) nothing ∙ grind arith in omega arith
]

step_up : (g a b x y q r : ℕ) → y * q + r ≡ x → y ≡ g * a → r ≡ g * b → x ≡ g * (a * q + b)
step_up g a b x y q r h e f =
    let turned : g * (a * q + b) ≡ g * a * q + g * b = grind arith in
    let first : y * q ≡ g * a * q = ap (λ k. k * q) e in omega arith

step_down : (d k l x y q r : ℕ) → y * q + r ≡ x → x ≡ d * k → y ≡ d * l → r ≡ d * (k - l * q)
step_down d k l x y q r h e f =
    let turned : d * (l * q) ≡ d * l * q = grind arith in
    let first : y * q ≡ d * l * q = ap (λ k. k * q) f in difference d k (l * q) r (omega arith)

-- With more fuel than the second number, gcd ends, with a divisor of both numbers that every other
-- common divisor divides.
pub gcd_lem : (fuel x y : ℕ) → y < fuel → IsGcd fuel x y
unfolding gcd
gcd_lem zero x y h = absurd (omega arith)
gcd_lem (suc fuel) x y h = elim (Bool-cases (y == 0)) [
  | inl e ↦ record {
    value = x;
    found = rw (e, gcd) refl;
    first = record { quotient = 1; product = grind arith };
    second = record { quotient = 0; product = ground arith };
    greatest = λ d a b. a;
  }
  | inr e ↦
      let less = mod-lt x {m = y} (ground arith) in
      let parts = div-add-mod x y in
      let rest = gcd_lem fuel y (x % y) (omega arith) in
      let a = rest.first in
      let b = rest.second in
      record {
        value = rest.value;
        found = rw (e, gcd) rest.found;
        first = record {
          quotient = a.quotient * (x / y) + b.quotient;
          product =
              step_up rest.value a.quotient b.quotient x y (x / y) (x % y) parts a.product
                b.product;
        };
        second = a;
        greatest = λ d k l. rest.greatest d l (record {
          quotient = k.quotient - l.quotient * (x / y);
          product = step_down d k.quotient l.quotient x y (x / y) (x % y) parts k.product l.product;
        });
      }
]
