-- ===== src/Electronic/Matrix/Places.antt =====
-- jdftx/electronic/matrix.h: where the entries of a block stand in the buffer.
use native.Mathlib.Nat.{div-add-mod}
use python_jdftx.Common.{
  ℕ, ◌+◌, ◌-◌, ◌*◌, ◌/◌, ◌≤◌, ◌<◌, ◌≡◌, sym, ap, true, ltb, arith, Bool-cases, inl, inr,
}
use python_jdftx.Core.Grid.Sizes.{ceildiv}
use python_jdftx.Electronic.Matrix.{Span, delta, place, index, is_whole}

-- A range that is not empty and ends within `n`.
pub record Fits (n : ℕ) (s : Span) : Type 0 where
  pub filled : s.start < s.stop
  pub within : s.stop ≤ n
  pub steps : 0 < s.step

wider : (a b c : ℕ) → b ≤ c → b * a ≤ c * a
wider a b c h = grind arith

-- A number of rounds that is rounded up stays below the bound.
below : (d step i : ℕ) → 0 < step → 0 < d → i < ceildiv d step → i * step < d
unfolding ceildiv
below d step i hs hd h =
    let q = (d + step - 1) / step in
    let parts = div-add-mod (d + step - 1) step in
    let more = wider step (i + 1) q (omega arith) in
    let split : (i + 1) * step ≡ i * step + step = grind arith in
    let turned : q * step ≡ step * q = grind arith in omega arith

pub place_inside : (n : ℕ) (s : Span) (i : ℕ) → Fits n s → i < delta s → place s i < n
unfolding delta place
place_inside n s i f h =
    let b = below (s.stop - s.start) s.step i f.steps (omega (arith, f.filled)) h in
    omega (arith, f.filled, f.within)

same_quotient : (n a b x y : ℕ) → x < n → y < n → n * a + x ≡ n * b + y → a ≤ b
same_quotient n a b x y hx hy e = elim (Bool-cases (ltb b a)) [
  | inl lt ↦
      let more = wider n (b + 1) a (ground arith) in
      let split : (b + 1) * n ≡ n * b + n = grind arith in
      let turned : a * n ≡ n * a = grind arith in absurd (omega arith)
  | inr ge ↦ ground arith
]

pub index_columns : (n i j k l : ℕ) → i < n → k < n → index n i j ≡ index n k l → j ≡ l
unfolding index
index_columns n i j k l hi hk e =
    let low = same_quotient n j l i k hi hk e in
    let high = same_quotient n l j k i hk hi (sym e) in omega arith

pub index_rows : (n i j k l : ℕ) → i < n → k < n → index n i j ≡ index n k l → i ≡ k
unfolding index
index_rows n i j k l hi hk e =
    let same = index_columns n i j k l hi hk e in
    let equal : n * j ≡ n * l = ap (λ c. n * c) same in omega arith

pub place_injective : (s : Span) (i j : ℕ) → 0 < s.step → place s i ≡ place s j → i ≡ j
unfolding place
place_injective s i j h e =
    let low = same_quotient s.step i j 0 0 h h (grind arith) in
    let high = same_quotient s.step j i 0 0 h h (grind arith) in omega arith

-- The range of a whole matrix.
pub whole_place : (n : ℕ) (s : Span) (i : ℕ) → is_whole n s ≡ true → place s i ≡ i
unfolding is_whole place
whole_place n s i h =
    let a : s.start ≡ 0 = ground arith in
    let b : s.step ≡ 1 = ground arith in rw (a, b) (omega arith)

pub whole_delta : (n : ℕ) (s : Span) → is_whole n s ≡ true → delta s ≡ n
unfolding is_whole delta ceildiv
whole_delta n s h =
    let a : s.start ≡ 0 = ground arith in
    let b : s.step ≡ 1 = ground arith in
    let c : s.stop ≡ n = ground arith in rw (a, b, c) (omega arith)
