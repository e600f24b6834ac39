-- ===== src/Electronic/Fields/Visits.antt =====
-- jdftx/electronic/Symmetries.cpp, `initSymmIndex`: its three loops visit the points in the order of
-- their indices.
use native.Mathlib.Nat.{
  mul-add-div, mul-add-mod_self_left, div-eq_of_lt, mod-eq_of_lt, div-div-eq-div-mul,
}
use python_jdftx.Common.{ℕ, ◌+◌, ◌*◌, ◌/◌, ◌%◌, ◌<◌, ◌≡◌, refl, sym, ap, ◌∙◌, List, arith}
use python_jdftx.Common.Int.{ℤ, pos, pos_part}
use python_jdftx.Common.Loops.{loop}
use python_jdftx.Common.Nests.{loop_cong, loop_nest}
use python_jdftx.Core.Grid.{Vector3, point_at, full_r_index}
use python_jdftx.Core.Grid.Loops.{pos_linear}
use python_jdftx.Electronic.Fields.{Matrix3, image, Found, visit, grid_point, visit_all}

-- Where a matrix leads the point of an index.
unfoldable pub moves : Vector3 ℕ → Matrix3 ℤ → ℕ → ℕ
moves s m i = let p = point_at s.z s.y i in image s (grid_point p.x p.y p.z) m

digit_high : (b x y : ℕ) → y < b → (b * x + y) / b ≡ x
digit_high b x y h =
    let none_left : y / b ≡ 0 = div-eq_of_lt h in
    mul-add-div (omega arith) x y ∙ ap (λ k. x + k) none_left ∙ omega arith

digit_low : (b x y : ℕ) → y < b → (b * x + y) % b ≡ y
digit_low b x y h = mul-add-mod_self_left b x y ∙ mod-eq_of_lt h

module _ (s : Vector3 ℕ) (x y z : ℕ) (hy : y < s.y) (hz : z < s.z) where
  abbrev pub grid_place : ℕ
  grid_place = s.z * (s.y * x + y) + z

  place_x : grid_place / (s.z * s.y) ≡ x
  place_x =
      sym (div-div-eq-div-mul grid_place s.z s.y)
      ∙ ap (λ k. k / s.y) (digit_high s.z (s.y * x + y) z hz)
      ∙ digit_high s.y x y hy

  place_y : grid_place / s.z % s.y ≡ y
  place_y = ap (λ k. k % s.y) (digit_high s.z (s.y * x + y) z hz) ∙ digit_low s.y x y hy

  place_z : grid_place % s.z ≡ z
  place_z = digit_low s.z (s.y * x + y) z hz

  pub point_at-place : point_at s.z s.y grid_place ≡ record { x = x; y = y; z = z }
  unfolding point_at
  point_at-place = cc (place_x, place_y, place_z)

  pub full_r_index-place : full_r_index s.z s.y (grid_point x y z) ≡ pos grid_place
  unfolding full_r_index
  full_r_index-place =
      let same : z + s.z * (y + s.y * x) ≡ grid_place = grind arith in
      pos_linear z s.z y s.y x ∙ ap pos same

  visit-place :
      (ms : List (Matrix3 ℤ)) (f : Found)
      → visit (image s (grid_point x y z)) ms (pos_part (full_r_index s.z s.y (grid_point x y z))) f
        ≡ visit (λ m. moves s m grid_place) ms grid_place f
  unfolding moves
  visit-place ms f =
      ap (λ k. visit (image s (grid_point x y z)) ms (pos_part k) f) full_r_index-place
      ∙ ap (λ (p : Vector3 ℕ). visit (image s (grid_point p.x p.y p.z)) ms grid_place f)
          (sym point_at-place)

pub visit_all-loop :
    (s : Vector3 ℕ) (ms : List (Matrix3 ℤ)) (f : Found)
    → visit_all s ms f ≡ loop (s.z * (s.y * s.x)) 0 (λ i. visit (λ m. moves s m i) ms i) f
unfolding visit_all
visit_all-loop s ms f =
    let body = λ (x y z : ℕ).
      visit (image s (grid_point x y z)) ms (pos_part (full_r_index s.z s.y (grid_point x y z))) in
    let flat = λ (i : ℕ). visit (λ m. moves s m i) ms i in
    let rows = λ (i : ℕ). loop s.z 0 (λ z. flat (s.z * i + z)) in
    loop_nest rows (λ x y. loop s.z 0 (body x y)) s.x s.y
      (λ x y t hx hy.
        loop_cong (body x y) (λ z. flat (s.z * (s.y * x + y) + z)) s.z 0 s.z (omega arith)
          (λ z u low hz. visit-place s x y z hy hz ms u) t)
      f
    ∙ loop_nest flat (λ i z. flat (s.z * i + z)) (s.y * s.x) s.z (λ i z t hi hz. refl) f
