-- ===== src/Core/Grid/Steps.antt =====
-- jdftx/core/LoopMacros.h: one step of each loop leads from the point of an index to that of the
-- next index.
use Prim.Native.Nat.{suc}
use native.Mathlib.Nat.{
  div-eq_of_lt-le, div-add-mod', mod-lt, div-div-eq-div-mul, suc-mod, mod-eq_of_lt, mod_self,
}
use python_jdftx.Common.{
  ℕ, ◌+◌, ◌*◌, ◌/◌, ◌%◌, ◌<◌, ◌≡◌, ap, ◌∙◌, ◌==◌, if◌then◌else◌, arith, Bool-cases, inl, inr,
}
use python_jdftx.Common.Int.{pos, ◌+ℤ◌, ◌-ℤ◌}
use python_jdftx.Core.Grid.{
  Vector3, point_at, next_r, centered, wrap, is_zero, next_full, next_half, g_point,
}

-- The last digit of the next number in base `s`, and what it carries.
next_digit : (s i : ℕ) → 0 < s → suc i % s ≡ (if i % s + 1 == s then 0 else i % s + 1)
next_digit s i h = elim (Bool-cases (i % s + 1 == s)) [
  | inl full ↦
      let e : suc (i % s) ≡ s = ground arith in
      rw full (suc-mod i s ∙ (ap (λ (n : ℕ). n % s) e ∙ mod_self s))
  | inr fits ↦
      let small = mod-lt i h in
      let less : suc (i % s) < s = ground arith in
      rw fits (suc-mod i s ∙ (mod-eq_of_lt less ∙ omega arith))
]

next_rest : (s i : ℕ) → 0 < s → suc i / s ≡ (if i % s + 1 == s then i / s + 1 else i / s)
next_rest s i h =
    let parts = div-add-mod' i s in
    let small = mod-lt i h in
    elim (Bool-cases (i % s + 1 == s)) [
      | inl full ↦
          let e : i % s + 1 ≡ s = ground arith in
          rw full (div-eq_of_lt-le s (grind arith) (grind arith))
      | inr fits ↦
          let less : i % s + 1 < s = ground arith in
          rw fits (div-eq_of_lt-le s (grind arith) (grind arith))
    ]

pub next_r-point_at :
    (s : Vector3 ℕ) (i : ℕ)
    → 0 < s.y
    → 0 < s.z
    → next_r s (point_at s.z s.y i) ≡ point_at s.z s.y (suc i)
unfolding next_r point_at
next_r-point_at s i hy hz =
    let q = i / s.z in
    let here = div-div-eq-div-mul i s.z s.y in
    let there = div-div-eq-div-mul (suc i) s.z s.y in
    let z = next_digit s.z i hz in
    let rest = next_rest s.z i hz in
    let y = next_digit s.y q hy in
    let x = next_rest s.y q hy in
    elim (Bool-cases (i % s.z + 1 == s.z)) [
      | inr fits ↦
          let same : suc i / s.z ≡ q = ground arith in
          let same_y = ap (λ (k : ℕ). k % s.y) same in
          let same_x = ap (λ (k : ℕ). k / s.y) same in ground arith
      | inl full ↦
          let carried : suc i / s.z ≡ suc q = ground arith in
          let carried_y = ap (λ (k : ℕ). k % s.y) carried in
          let carried_x = ap (λ (k : ℕ). k / s.y) carried in ground arith
    ]

-- The next coordinate in range, and when it starts again.
wrap-centered :
    (s n : ℕ)
    → n < s
    → wrap s (centered s n +ℤ pos 1) ≡ centered s (if n + 1 == s then 0 else n + 1)
unfolding wrap centered ◌+ℤ◌ ◌-ℤ◌
wrap-centered s n h = ground arith

is_zero-wrap : (s n : ℕ) → n < s → is_zero (wrap s (centered s n +ℤ pos 1)) ≡ (n + 1 == s)
unfolding wrap centered ◌+ℤ◌ ◌-ℤ◌
is_zero-wrap s n h = ground arith

-- The first coordinate does not start again inside the box.
wrap-centered_inside : (s n : ℕ) → n + 1 < s → wrap s (centered s n +ℤ pos 1) ≡ centered s (n + 1)
unfolding wrap centered ◌+ℤ◌ ◌-ℤ◌
wrap-centered_inside s n h = ground arith

centered-zero : (s : ℕ) → centered s 0 ≡ pos 0
unfolding centered
centered-zero s = ground arith

pub next_full-point_at :
    (s : Vector3 ℕ) (i : ℕ)
    → 0 < s.y
    → 0 < s.z
    → suc i / (s.z * s.y) < s.x
    → next_full s (g_point s (point_at s.z s.y i)) ≡ g_point s (point_at s.z s.y (suc i))
unfolding next_full g_point point_at next_r
next_full-point_at s i hy hz inside =
    let p = point_at s.z s.y i in
    let z = wrap-centered s.z p.z (mod-lt i hz) in
    let z_zero = is_zero-wrap s.z p.z (mod-lt i hz) in
    let y = wrap-centered s.y p.y (mod-lt (i / s.z) hy) in
    let y_zero = is_zero-wrap s.y p.y (mod-lt (i / s.z) hy) in
    let next = next_r-point_at s i hy hz in
    let next_x = ap (λ (v : Vector3 ℕ). v.x) next in
    let next_y = ap (λ (v : Vector3 ℕ). v.y) next in
    let next_z = ap (λ (v : Vector3 ℕ). v.z) next in
    elim (Bool-cases (p.z + 1 == s.z)) [
      | inr fits ↦ ground arith
      | inl full ↦ elim (Bool-cases (p.y + 1 == s.y)) [
        | inr fits_y ↦ ground arith
        | inl full_y ↦ let x = wrap-centered_inside s.x p.x (ground arith) in ground arith
      ]
    ]

centered_half : (s n : ℕ) → n < s / 2 + 1 → centered s n ≡ pos n
unfolding centered
centered_half s n h = ground arith

plain_step : (n : ℕ) → pos n +ℤ pos 1 ≡ pos (n + 1)
unfolding ◌+ℤ◌
plain_step n = ground arith

is_zero-sub : (n m : ℕ) → is_zero (pos n -ℤ pos m) ≡ (n == m)
unfolding ◌-ℤ◌
is_zero-sub n m = ground arith

pub next_half-point_at :
    (s : Vector3 ℕ) (i : ℕ)
    → 0 < s.y
    → suc i / ((s.z / 2 + 1) * s.y) < s.x
    → next_half s (g_point s (point_at (s.z / 2 + 1) s.y i))
      ≡ g_point s (point_at (s.z / 2 + 1) s.y (suc i))
unfolding next_half g_point point_at next_r
next_half-point_at s i hy inside =
    let w = s.z / 2 + 1 in
    let hw : 0 < w = omega arith in
    let p = point_at w s.y i in
    let small = mod-lt i hw in
    let z = centered_half s.z p.z small in
    let z_next = centered_half s.z (suc i % w) (mod-lt (suc i) hw) in
    let plain = plain_step p.z in
    let z_zero = is_zero-sub (p.z + 1) w in
    let y = wrap-centered s.y p.y (mod-lt (i / w) hy) in
    let y_zero = is_zero-wrap s.y p.y (mod-lt (i / w) hy) in
    let next = next_r-point_at (record { x = s.x; y = s.y; z = w }) i hy hw in
    let next_x = ap (λ (v : Vector3 ℕ). v.x) next in
    let next_y = ap (λ (v : Vector3 ℕ). v.y) next in
    let next_z = ap (λ (v : Vector3 ℕ). v.z) next in
    elim (Bool-cases (p.z + 1 == w)) [
      | inr fits ↦ ground arith
      | inl full ↦ elim (Bool-cases (p.y + 1 == s.y)) [
        | inr fits_y ↦ ground arith
        | inl full_y ↦ let x = wrap-centered_inside s.x p.x (ground arith) in ground arith
      ]
    ]
