-- ===== src/Core/Grid.antt =====
-- jdftx/core/LoopMacros.h and the index functions of jdftx/core/GridInfo.h: the loops over the
-- points of a box, in real space and in reciprocal space, of which each thread runs a part.
pub mod Steps
pub mod Loops
pub mod Sizes
pub mod Divisors
use python_jdftx.Common.{
  ℕ, zero, suc, ◌+◌, ◌-◌, ◌*◌, ◌/◌, ◌%◌, Bool, Option, none, some, ◌&&◌, List, [], ◌∷◌, ltb, ◌==◌,
  if◌then◌else◌, map,
}
use python_jdftx.Core.Tasks.{size_mod}
use python_jdftx.Common.Int.{ℤ, pos, negsuc, sub_ℕ, pos_part, neg_part, ltb_ℤ, ◌+ℤ◌, ◌-ℤ◌, ◌*ℤ◌}

-- vector3.
pub record Vector3 (A : Type 0) : Type 0 where
  pub x : A
  pub y : A
  pub z : A

-- `vector3<int> iv(i / (S[2]*S[1]), (i/S[2]) % S[1], i % S[2])`, for a box whose last side is `n`.
unfoldable pub point_at : (n m i : ℕ) → Vector3 ℕ
point_at n m i = record { x = i / (n * m); y = i / n % m; z = i % n }

-- The end of the body of THREAD_rLoop.
unfoldable pub next_r : Vector3 ℕ → Vector3 ℕ → Vector3 ℕ
next_r s iv =
    let z = iv.z + 1 in
    let y = iv.y + 1 in
    if z == s.z
    then (if y == s.y
        then record { x = iv.x + 1; y = 0; z = 0 }
        else record { x = iv.x; y = y; z = 0 })
    else record iv { z = z }

-- The loop, with `count` indices to go: each index with its point.
unfoldable pub r_loop_from : Vector3 ℕ → (count i : ℕ) → Vector3 ℕ → List (ℕ × Vector3 ℕ)
r_loop_from s zero i iv = []
r_loop_from s (suc count) i iv = (i, iv) ∷ r_loop_from s count (suc i) (next_r s iv)

unfoldable pub r_loop : Vector3 ℕ → (start stop : ℕ) → List (ℕ × Vector3 ℕ)
r_loop s start stop = r_loop_from s (stop - start) start (point_at s.z s.y start)

-- `if(2*iG[j]>S[j]) iG[j]-=S[j]`, for an index that is not negative and for any index.
unfoldable pub centered : ℕ → ℕ → ℤ
centered s n = if ltb s (2 * n) then sub_ℕ n s else pos n

unfoldable pub wrap : ℕ → ℤ → ℤ
wrap s a = if ltb_ℤ (pos s) (a +ℤ a) then a -ℤ pos s else a

abbrev pub is_zero : ℤ → Bool
is_zero a = (pos_part a == 0) && (neg_part a == 0)

-- The end of the body of THREAD_fullGspaceLoop.
unfoldable pub next_full : Vector3 ℕ → Vector3 ℤ → Vector3 ℤ
next_full s g =
    let z = wrap s.z (g.z +ℤ pos 1) in
    let y = wrap s.y (g.y +ℤ pos 1) in
    let x = wrap s.x (g.x +ℤ pos 1) in
    if is_zero z
    then (if is_zero y then record { x = x; y = y; z = z } else record { x = g.x; y = y; z = z })
    else record g { z = z }

-- The end of the body of THREAD_halfGspaceLoop, for `size2 = S[2]/2+1`.
unfoldable pub next_half : Vector3 ℕ → Vector3 ℤ → Vector3 ℤ
next_half s g =
    let z = g.z +ℤ pos 1 in
    let y = wrap s.y (g.y +ℤ pos 1) in
    let x = wrap s.x (g.x +ℤ pos 1) in
    if is_zero (z -ℤ pos (s.z / 2 + 1))
    then (if is_zero y
        then record { x = x; y = y; z = pos 0 }
        else record { x = g.x; y = y; z = pos 0 })
    else record g { z = z }

unfoldable pub g_loop_from :
    (Vector3 ℤ → Vector3 ℤ) → (count i : ℕ) → Vector3 ℤ → List (ℕ × Vector3 ℤ)
g_loop_from next zero i g = []
g_loop_from next (suc count) i g = (i, g) ∷ g_loop_from next count (suc i) (next g)

-- The point at the start of a loop over reciprocal space: every coordinate is brought into range.
unfoldable pub g_point : Vector3 ℕ → Vector3 ℕ → Vector3 ℤ
g_point s iv = record { x = centered s.x iv.x; y = centered s.y iv.y; z = centered s.z iv.z }

abbrev pub visit_first :
    ℕ × Vector3 ℤ → Option (List (ℕ × Vector3 ℤ)) → Option (List (ℕ × Vector3 ℤ))
visit_first p none = none
visit_first p (some visits) = some (p ∷ visits)

-- The body of THREAD_fullGspaceLoop, which is run before the index is compared: `while(true)` and
-- `i++; if(i==iStop) break;` with an index of type size_t. It takes fuel, and yields none without
-- enough of it.
unfoldable pub full_loop_from :
    (Vector3 ℤ → Vector3 ℤ) → (fuel i stop : ℕ) → Vector3 ℤ → Option (List (ℕ × Vector3 ℤ))
full_loop_from next zero i stop g = none
full_loop_from next (suc fuel) i stop g =
    let i2 = suc i % size_mod in
    let rest = full_loop_from next fuel i2 stop (next g) in
    if i2 == stop then some ((i, g) ∷ []) else visit_first (i, g) rest

unfoldable pub full_loop : Vector3 ℕ → (fuel start stop : ℕ) → Option (List (ℕ × Vector3 ℤ))
full_loop s fuel start stop =
    full_loop_from (next_full s) fuel start stop (g_point s (point_at s.z s.y start))

unfoldable pub half_loop : Vector3 ℕ → (start stop : ℕ) → List (ℕ × Vector3 ℤ)
half_loop s start stop =
    g_loop_from (next_half s) (stop - start) start (g_point s (point_at (s.z / 2 + 1) s.y start))

-- `fullRindex`, for a box whose sides are `n` and `m` from the last one on.
unfoldable pub full_r_index : (n m : ℕ) → Vector3 ℤ → ℤ
full_r_index n m iv = iv.z +ℤ pos n *ℤ (iv.y +ℤ pos m *ℤ iv.x)

-- `wrapGcoords`.
unfoldable pub wrap_coordinate : ℕ → ℤ → ℤ
wrap_coordinate s a = if ltb_ℤ a (pos 0) then a +ℤ pos s else a

unfoldable pub wrap_g_coords : Vector3 ℕ → Vector3 ℤ → Vector3 ℤ
wrap_g_coords s g = record {
  x = wrap_coordinate s.x g.x;
  y = wrap_coordinate s.y g.y;
  z = wrap_coordinate s.z g.z;
}

unfoldable pub full_g_index : Vector3 ℕ → Vector3 ℤ → ℤ
full_g_index s g = full_r_index s.z s.y (wrap_g_coords s g)

unfoldable pub half_g_index : Vector3 ℕ → Vector3 ℤ → ℤ
half_g_index s g = full_r_index (s.z / 2 + 1) s.y (wrap_g_coords s g)
