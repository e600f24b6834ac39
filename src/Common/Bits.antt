-- ===== src/Common/Bits.antt =====
-- The native bit operations peel one binary digit at a time; fields that do not overlap add up.
use Prim.Native.Nat.{
  ℕ, zero, suc, ◌+◌, ◌*◌, ◌/◌, ◌%◌, ◌≤◌, ◌<◌, min, max, bit_and, bit_or, digits, bitwise,
  bit_and-bitwise, bit_or-bitwise,
}
use mathlib.Core.Path.{◌≡◌, refl, sym, ap, ◌∙◌}
use native.Mathlib.Omega.{arith}

-- An operation on digits: `z` is what is left of the second number once the first is used up.
module _ (z : ℕ → ℕ) (f : ℕ → ℕ → ℕ) (used_up : (b : ℕ) → z b ≡ z (b / 2) * 2 + f 0 (b % 2)) where
  none_left : (rounds b : ℕ) → digits z f rounds 0 b ≡ z b
  none_left zero b = refl
  none_left (suc r) b = refl

  -- Any number of rounds that suffices gives the same result.
  rounds_agree : (a b r t : ℕ) → a ≤ r → a ≤ t → digits z f r a b ≡ digits z f t a b
  rounds_agree zero b r t hr ht = none_left r b ∙ sym (none_left t b)
  rounds_agree (suc a) b zero t hr ht = absurd (omega arith)
  rounds_agree (suc a) b (suc r) zero hr ht = absurd (omega arith)
  rounds_agree (suc a) b (suc r) (suc t) hr ht =
      let rest = rounds_agree (suc a / 2) (b / 2) r t (omega arith) (omega arith) in omega arith

  peel : (a b : ℕ) → bitwise z f a b ≡ bitwise z f (a / 2) (b / 2) * 2 + f (a % 2) (b % 2)
  peel zero b = used_up b
  peel (suc a) b =
      let rest = rounds_agree (suc a / 2) (b / 2) a (suc a / 2) (omega arith) (omega arith) in
      omega arith

pub bit_and_peel : (a b : ℕ) → bit_and a b ≡ bit_and (a / 2) (b / 2) * 2 + min (a % 2) (b % 2)
bit_and_peel a b =
    let whole = peel (λ _. 0) min (λ b. omega arith) a b in
    omega (arith, bit_and-bitwise a b, bit_and-bitwise (a / 2) (b / 2))

pub bit_or_peel : (a b : ℕ) → bit_or a b ≡ bit_or (a / 2) (b / 2) * 2 + max (a % 2) (b % 2)
bit_or_peel a b =
    let whole = peel (λ b. b) max (λ b. omega arith) a b in
    omega (arith, bit_or-bitwise a b, bit_or-bitwise (a / 2) (b / 2))

-- `a` shifted left by `k` digits.
abbrev pub shl : ℕ → ℕ → ℕ
shl a zero = a
shl a (suc k) = 2 * shl a k

or_nothing : (fuel a : ℕ) → a ≤ fuel → bit_or a 0 ≡ a
or_nothing zero a h = let none : a ≡ 0 = omega arith in ap (λ x. bit_or x 0) none ∙ sym none
or_nothing (suc n) a h = omega (arith, bit_or_peel a 0, or_nothing n (a / 2))

-- A field of `k` digits below a shifted number.
pub bit_or-shl : (k a b : ℕ) → b < shl 1 k → bit_or (shl a k) b ≡ shl a k + b
bit_or-shl zero a b h =
    let none : b ≡ 0 = omega arith in
    ap (bit_or a) none ∙ or_nothing a a (omega arith) ∙ omega arith
bit_or-shl (suc k) a b h =
    let rest = bit_or-shl k a (b / 2) (omega arith) in
    let half : 2 * shl a k / 2 ≡ shl a k = omega arith in
    let front = ap (λ x. bit_or x (b / 2)) half in omega (arith, bit_or_peel (2 * shl a k) b)
