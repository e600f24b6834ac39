-- ===== src/Core/Grid/Loops.antt =====
-- jdftx/core/LoopMacros.h: the points that the loops visit.
use native.Mathlib.Nat.{mod-eq_of_lt, div-lt_iff_lt-mul, mod-lt, mod-add-div, div-div-eq-div-mul}
use python_jdftx.Common.{
  length, Option, ℕ, zero, suc, ◌+◌, ◌-◌, ◌*◌, ◌/◌, ◌%◌, ◌<◌, ◌≤◌, ◌≡◌, refl, sym, ap, subst, true,
  false, none, some, ◌==◌, ◌∙◌, List, [], ◌∷◌, arith,
}
use python_jdftx.Common.Int.{ℤ, pos, ◌+ℤ◌, ◌*ℤ◌}
use python_jdftx.Core.Tasks.{size_mod}
use python_jdftx.Core.Grid.{
  Vector3, full_loop_from, point_at, r_loop_from, r_loop, next_full, next_half, g_loop_from,
  g_point, full_loop, half_loop, full_r_index, wrap_coordinate, wrap_g_coords, full_g_index,
  half_g_index, centered, visit_first,
}
use python_jdftx.Core.Grid.Steps.{next_r-point_at, next_full-point_at, next_half-point_at}

-- The indices from `i` on, each with its point.
unfoldable pub tabulate : {A : Type 0} → (ℕ → A) → (count i : ℕ) → List (ℕ × A)
tabulate f zero i = []
tabulate f (suc count) i = (i, f i) ∷ tabulate f count (suc i)

-- A loop whose step leads from the point of each index to that of the next one.
g_loop_from-tabulate :
    (next : Vector3 ℤ → Vector3 ℤ) (point : ℕ → Vector3 ℤ) (count i stop : ℕ)
    → i + count ≤ stop
    → ((k : ℕ) → suc k < stop → next (point k) ≡ point (suc k))
    → g_loop_from next count i (point i) ≡ tabulate point count i
unfolding g_loop_from tabulate
g_loop_from-tabulate next point zero i stop h step = refl
g_loop_from-tabulate next point (suc zero) i stop h step = refl
g_loop_from-tabulate next point (suc (suc count)) i stop h step =
    let rest = g_loop_from-tabulate next point (suc count) (suc i) stop (omega arith) step in
    ap (◌∷◌ (i, point i)) (ap (g_loop_from next (suc count) (suc i)) (step i (omega arith)) ∙ rest)

r_loop_from-tabulate :
    (s : Vector3 ℕ) (count i : ℕ)
    → 0 < s.y
    → 0 < s.z
    → r_loop_from s count i (point_at s.z s.y i) ≡ tabulate (point_at s.z s.y) count i
unfolding r_loop_from tabulate
r_loop_from-tabulate s zero i hy hz = refl
r_loop_from-tabulate s (suc count) i hy hz = ap (◌∷◌ (i, point_at s.z s.y i)) (
    ap (r_loop_from s count (suc i)) (next_r-point_at s i hy hz)
    ∙ r_loop_from-tabulate s count (suc i) hy hz)

-- A loop with a range that is not empty ends behind its last index.
full_loop_from-g_loop_from :
    (next : Vector3 ℤ → Vector3 ℤ) (count fuel i stop : ℕ) (g : Vector3 ℤ)
    → suc count ≤ fuel
    → i + suc count ≡ stop
    → stop < size_mod
    → full_loop_from next fuel i stop g ≡ some (g_loop_from next (suc count) i g)
unfolding full_loop_from g_loop_from
full_loop_from-g_loop_from next count zero i stop g h at small = absurd (omega arith)
full_loop_from-g_loop_from next zero (suc fuel) i stop g h at small =
    let index : suc i % size_mod ≡ suc i = mod-eq_of_lt (omega arith) in
    let last : (suc i == stop) ≡ true = ground arith in rw (index, last) refl
full_loop_from-g_loop_from next (suc count) (suc fuel) i stop g h at small =
    let index : suc i % size_mod ≡ suc i = mod-eq_of_lt (omega arith) in
    let more : (suc i == stop) ≡ false = ground arith in
    let rest =
      full_loop_from-g_loop_from next count fuel (suc i) stop (next g) (omega arith) (omega arith)
        small in
    rw (index, more, rest) refl

full_loop-g_loop_from :
    (s : Vector3 ℕ) (start stop : ℕ)
    → start < stop
    → stop < size_mod
    → full_loop s (stop - start) start stop
      ≡ some (g_loop_from (next_full s) (stop - start) start (g_point s (point_at s.z s.y start)))
unfolding full_loop
full_loop-g_loop_from s start stop order small =
    let count : suc (stop - start - 1) ≡ stop - start = omega arith in
    subst
      (λ k.
        full_loop_from (next_full s) k start stop (g_point s (point_at s.z s.y start))
        ≡ some (g_loop_from (next_full s) k start (g_point s (point_at s.z s.y start))))
      count
      (full_loop_from-g_loop_from (next_full s) (stop - start - 1) (suc (stop - start - 1)) start
        stop (g_point s (point_at s.z s.y start)) (omega arith) (omega arith) small)

-- What the loop comes to where the index is `count` steps before its end, on the way around: none
-- with no more fuel than `count`, and else a visit more.
record Rounds (count fuel : ℕ) (result : Option (List (ℕ × Vector3 ℤ))) : Type 0 where
  goes_on : fuel ≤ count → result ≡ none
  ends :
      count < fuel
      → (visits : List (ℕ × Vector3 ℤ)) × (result ≡ some visits) × (length visits ≡ suc count)

full_loop_from-Rounds :
    (next : Vector3 ℤ → Vector3 ℤ) (fuel count i stop : ℕ) (g : Vector3 ℤ)
    → (i + suc count) % size_mod ≡ stop
    → suc count ≤ size_mod
    → i < size_mod
    → Rounds count fuel (full_loop_from next fuel i stop g)
unfolding full_loop_from
full_loop_from-Rounds next zero count i stop g at around small = record {
  goes_on = λ h. refl;
  ends = λ h. absurd (omega arith);
}
full_loop_from-Rounds next (suc fuel) zero i stop g at around small =
    let last : (suc i % size_mod == stop) ≡ true = ground arith in
    rw last (record { goes_on = λ h. absurd (omega arith); ends = λ h. ((i, g) ∷ [], refl, refl) })
full_loop_from-Rounds next (suc fuel) (suc count) i stop g at around small =
    let more : (suc i % size_mod == stop) ≡ false = ground arith in
    let rest =
      full_loop_from-Rounds next fuel count (suc i % size_mod) stop (next g) (omega arith)
        (omega arith) (omega arith) in
    rw more (record {
      goes_on = λ h. ap (visit_first (i, g)) (rest.goes_on (omega arith));
      ends = λ h.
          let (visits, e, size) = rest.ends (omega arith) in
          ((i, g) ∷ visits, ap (visit_first (i, g)) e, omega (arith, size));
    })

-- On an empty range, at any index below 2 ^ 64, the loop over reciprocal space runs its code 2 ^
-- 64 times, until its index has come around, and it has not ended after fewer.
pub full_loop_empty :
    (s : Vector3 ℕ) (fuel start : ℕ)
    → start < size_mod
    → fuel < size_mod
    → (full_loop s fuel start start ≡ none)
      × ((visits : List (ℕ × Vector3 ℤ)) × (full_loop s size_mod start start ≡ some visits)
          × (length visits ≡ size_mod))
unfolding full_loop
full_loop_empty s fuel start small few =
    let g = g_point s (point_at s.z s.y start) in
    let rounds = λ (fuel : ℕ).
      full_loop_from-Rounds (next_full s) fuel (size_mod - 1) start start g (omega arith)
        (omega arith) small in
    let (visits, e, size) = (rounds size_mod).ends (omega arith) in
    ((rounds fuel).goes_on (omega arith), (visits, e, omega (arith, size)))

-- The first coordinate of an index inside a box is inside.
inside : (n m x i : ℕ) → 0 < n * m → i < n * m * x → i / (n * m) < x
inside n m x i h less = (div-lt_iff_lt-mul h).1 (grind arith)

-- The loops over real space, over reciprocal space and over half of it visit each index of their
-- range in order, with the point that a division of the index gives: step by step they do what a
-- computation of each point anew would do. The sides of the box are not zero, and the range is
-- not empty, lies in both boxes of reciprocal space and ends below 2 ^ 64.
pub loops-tabulate :
    (s : Vector3 ℕ) (start stop : ℕ)
    → 0 < s.y
    → 0 < s.z
    → start < stop
    → stop ≤ (s.z / 2 + 1) * s.y * s.x
    → stop ≤ s.z * s.y * s.x
    → stop < size_mod
    → (r_loop s start stop ≡ tabulate (point_at s.z s.y) (stop - start) start)
      × (full_loop s (stop - start) start stop
          ≡ some (tabulate (λ i. g_point s (point_at s.z s.y i)) (stop - start) start))
      × (half_loop s start stop
          ≡ tabulate (λ i. g_point s (point_at (s.z / 2 + 1) s.y i)) (stop - start) start)
unfolding r_loop full_loop half_loop
loops-tabulate s start stop hy hz order in_half in_full small = (
  r_loop_from-tabulate s (stop - start) start hy hz,
  full_loop-g_loop_from s start stop order small
      ∙ ap some (
          g_loop_from-tabulate (next_full s) (λ i. g_point s (point_at s.z s.y i)) (stop - start)
            start stop (omega arith)
            (λ k h.
              next_full-point_at s k hy hz
                (inside s.z s.y s.x (suc k) (grind arith) (omega arith)))),
  g_loop_from-tabulate (next_half s) (λ i. g_point s (point_at (s.z / 2 + 1) s.y i)) (stop - start)
      start stop (omega arith)
      (λ k h.
        next_half-point_at s k hy
          (inside (s.z / 2 + 1) s.y s.x (suc k) (grind arith) (omega arith))),
)

abbrev pos_point : Vector3 ℕ → Vector3 ℤ
pos_point iv = record { x = pos iv.x; y = pos iv.y; z = pos iv.z }

pub pos_mul : (a b : ℕ) → pos a *ℤ pos b ≡ pos (a * b)
unfolding ◌*ℤ◌
pos_mul a b = ground arith

pub pos_add : (a b : ℕ) → pos a +ℤ pos b ≡ pos (a + b)
unfolding ◌+ℤ◌
pos_add a b = ground arith

pub pos_linear :
    (z n y m x : ℕ) → pos z +ℤ pos n *ℤ (pos y +ℤ pos m *ℤ pos x) ≡ pos (z + n * (y + m * x))
pos_linear z n y m x = rw (pos_mul m x, pos_add y (m * x), pos_mul n (y + m * x)) (pos_add z _)

full_r_index-point_at : (n m i : ℕ) → full_r_index n m (pos_point (point_at n m i)) ≡ pos i
unfolding full_r_index point_at
full_r_index-point_at n m i =
    let inner =
      ap (λ (k : ℕ). i / n % m + m * k) (sym (div-div-eq-div-mul i n m)) ∙ mod-add-div (i / n) m in
    pos_linear (i % n) n (i / n % m) m (i / (n * m))
    ∙ ap pos (ap (λ (k : ℕ). i % n + n * k) inner ∙ mod-add-div i n)

wrap-centered : (s n : ℕ) → n < s → wrap_coordinate s (centered s n) ≡ pos n
unfolding wrap_coordinate centered ◌+ℤ◌
wrap-centered s n h = ground arith

wrap-centered_half : (s n : ℕ) → n < s / 2 + 1 → wrap_coordinate s (centered s n) ≡ pos n
unfolding wrap_coordinate centered ◌+ℤ◌
wrap-centered_half s n h = ground arith

first : (n m x i : ℕ) → 0 < n * m → i < n * m * x → (point_at n m i).x < x
unfolding point_at
first n m x i h less = inside n m x i h less

second : (n m i : ℕ) → 0 < m → (point_at n m i).y < m
unfolding point_at
second n m i h = mod-lt (i / n) h

third : (n m i : ℕ) → 0 < n → (point_at n m i).z < n
unfolding point_at
third n m i h = mod-lt i h

-- The index functions lead from the point of an index in the full box, and of one in the
-- half-reduced box, back to that index. The sides of the box are not zero.
pub g_index-point_at :
    (s : Vector3 ℕ) (i k : ℕ)
    → 0 < s.y
    → 0 < s.z
    → i < s.z * s.y * s.x
    → k < (s.z / 2 + 1) * s.y * s.x
    → (full_g_index s (g_point s (point_at s.z s.y i)) ≡ pos i)
      × (half_g_index s (g_point s (point_at (s.z / 2 + 1) s.y k)) ≡ pos k)
unfolding full_g_index half_g_index wrap_g_coords g_point
g_index-point_at s i k hy hz in_full in_half =
    let w = s.z / 2 + 1 in
    let hw : 0 < w = omega arith in
    let p = point_at s.z s.y i in
    let q = point_at w s.y k in
    let x = wrap-centered s.x p.x (first s.z s.y s.x i (grind arith) in_full) in
    let y = wrap-centered s.y p.y (second s.z s.y i hy) in
    let z = wrap-centered s.z p.z (third s.z s.y i hz) in
    let x' = wrap-centered s.x q.x (first w s.y s.x k (grind arith) in_half) in
    let y' = wrap-centered s.y q.y (second w s.y k hy) in
    let z' = wrap-centered_half s.z q.z (third w s.y k hw) in
    (
      ap (full_r_index s.z s.y) (cc (x, y, z)) ∙ full_r_index-point_at s.z s.y i,
      ap (full_r_index w s.y) (cc (x', y', z')) ∙ full_r_index-point_at w s.y k,
    )
