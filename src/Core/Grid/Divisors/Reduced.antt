-- ===== src/Core/Grid/Divisors/Reduced.antt =====
-- jdftx/core/vector3.h, `gcdReduce`: what is left of a vector.
use native.Mathlib.Nat.{mul-div_right}
use python_jdftx.Common.{ℕ, zero, suc, ◌+◌, ◌*◌, ◌/◌, ◌<◌, ◌≡◌, refl, sym, ap, ◌∙◌, some, arith}
use python_jdftx.Core.Grid.{Vector3}
use python_jdftx.Core.Grid.Divisors.{gcd_reduce, Divides, gcd_lem}

-- A vector that is a multiple of another one, whose entries have no divisor in common.
pub record IsReduced (fuel : ℕ) (d : Vector3 ℕ) : Type 0 where
  pub factor : ℕ
  pub new : Vector3 ℕ
  pub found : gcd_reduce fuel d ≡ some new
  pub positive : 0 < factor
  pub first : d.x ≡ factor * new.x
  pub second : d.y ≡ factor * new.y
  pub third : d.z ≡ factor * new.z
  pub coprime : (e : ℕ) → Divides e new.x → Divides e new.y → Divides e new.z → e ≡ 1

chained : (f g n : ℕ) → Divides g f → Divides f n → Divides g n
chained f g n a b = record {
  quotient = a.quotient * b.quotient;
  product = b.product ∙ ap (λ k. k * b.quotient) a.product ∙ grind arith;
}

divided : (g n : ℕ) → 0 < g → Divides g n → n ≡ g * (n / g)
divided g n h a =
    let whole : n / g ≡ a.quotient = ap (λ k. k / g) a.product ∙ mul-div_right a.quotient h in
    a.product ∙ ap (λ k. g * k) (sym whole)

scaled : (g e n r : ℕ) → n ≡ g * r → Divides e r → Divides (g * e) n
scaled g e n r h a = record {
  quotient = a.quotient;
  product = h ∙ ap (λ k. g * k) a.product ∙ grind arith;
}

one : (e k : ℕ) → e * k ≡ 1 → e ≡ 1
one zero k h = omega arith
one (suc zero) k h = refl
one (suc (suc e)) zero h = absurd (grind arith)
one (suc (suc e)) (suc k) h =
    let large : suc (suc e) * suc k ≡ e * k + e + 2 * k + 2 = grind arith in absurd (omega arith)

-- A divisor that is a multiple of itself is so by 1.
unit_factor : (g e : ℕ) → 0 < g → Divides (g * e) g → e ≡ 1
unit_factor g e h a =
    let turned : g * e * a.quotient ≡ g * (e * a.quotient) = grind arith in
    let back : g * (e * a.quotient) / g ≡ e * a.quotient = mul-div_right (e * a.quotient) h in
    let self : g * 1 / g ≡ 1 = mul-div_right 1 h in
    let same : g * (e * a.quotient) ≡ g * 1 = omega (arith, a.product) in
    one e a.quotient (sym back ∙ ap (λ k. k / g) same ∙ self)

positive_divisor : (g n : ℕ) → 0 < n → Divides g n → 0 < g
positive_divisor zero n h a =
    let p = a.product in let nothing : 0 * a.quotient ≡ 0 = grind arith in absurd (omega arith)
positive_divisor (suc g) n h a = omega arith

some_divisor : (g x y z : ℕ) → 0 < x + y + z → Divides g x → Divides g y → Divides g z → 0 < g
some_divisor g zero zero z h a b c = positive_divisor g z (omega arith) c
some_divisor g zero (suc y) z h a b c = positive_divisor g (suc y) (omega arith) b
some_divisor g (suc x) y z h a b c = positive_divisor g (suc x) (omega arith) a

-- A vector with an entry that is not 0, with more fuel than its second and its third entry, is
-- reduced to one whose entries have no common divisor but 1, and of which it is a multiple.
pub gcd_reduce-IsReduced :
    (fuel : ℕ) (d : Vector3 ℕ) → 0 < d.x + d.y + d.z → d.y < fuel → d.z < fuel → IsReduced fuel d
unfolding gcd_reduce
gcd_reduce-IsReduced fuel d some_entry hy hz =
    let f = gcd_lem fuel d.x d.y hy in
    let g = gcd_lem fuel f.value d.z hz in
    let v = g.value in
    let x = chained f.value v d.x g.first f.first in
    let y = chained f.value v d.y g.first f.second in
    let positive = some_divisor v d.x d.y d.z some_entry x y g.second in
    let ex = divided v d.x positive x in
    let ey = divided v d.y positive y in
    let ez = divided v d.z positive g.second in
    record {
      factor = v;
      new = record { x = d.x / v; y = d.y / v; z = d.z / v };
      found = rw (f.found, g.found) refl;
      positive = positive;
      first = ex;
      second = ey;
      third = ez;
      coprime = λ e a b c.
          let ax = scaled v e d.x (d.x / v) ex a in
          let ay = scaled v e d.y (d.y / v) ey b in
          let az = scaled v e d.z (d.z / v) ez c in
          unit_factor v e positive (g.greatest (v * e) (f.greatest (v * e) ax ay) az);
    }
