-- ===== src/Electronic/Fields/Residues.antt =====
-- jdftx/electronic/Symmetries.cpp, `initSymmIndex`: the wrapped coordinates of an image are residues,
-- and so the matrices act on the points of the box.
use native.Mathlib.Nat.{mod-lt, mod-add-div, mul-le-mul_left}
use python_jdftx.Common.{
  ℕ, zero, suc, ◌+◌, ◌-◌, ◌*◌, ◌/◌, ◌%◌, ◌<◌, ◌≤◌, ◌≡◌, refl, sym, ap, subst, ◌∙◌, arith,
}
use python_jdftx.Common.Int.{ℤ, pos, negsuc, pos_part, neg_part, ◌+ℤ◌, ◌*ℤ◌, neg_ℤ}
use python_jdftx.Common.Parts.{
  own_parts, pos_parts, sum_parts, product_parts, equal_parts, parts_equal, negative_parts,
}
use python_jdftx.Core.Grid.{
  Vector3, point_at, wrap_coordinate, wrap_g_coords, full_g_index, full_r_index,
}
use python_jdftx.Electronic.Fields.{Matrix3, rem, times_vector, image, grid_point}
use python_jdftx.Electronic.Fields.Visits.{moves, point_at-place, full_r_index-place}

-- A coordinate brought into the box.
unfoldable pub residue : ℤ → ℕ → ℕ
residue a s = pos_part (wrap_coordinate s (rem a s))

-- The residue is in the box, and differs from the coordinate by a multiple of the side.
pub record IsResidue (a : ℤ) (s v : ℕ) : Type 0 where
  pub small : v < s
  pub multiple : ℤ
  pub differs : a ≡ pos v +ℤ pos s *ℤ multiple

-- Upwards of 0, at a negative multiple of the side, and at other negative coordinates.
IsResidue-pos : (n s : ℕ) → 0 < s → IsResidue (pos n) s (n % s)
IsResidue-pos n s h =
    let whole = mod-add-div n s in
    record {
      small = mod-lt n h;
      multiple = pos (n / s);
      differs =
          equal_parts (pos_parts n)
            (sum_parts (pos_parts (n % s)) (product_parts (pos_parts s) (pos_parts (n / s))))
            (omega arith);
    }

IsResidue-multiple : (n s : ℕ) → 0 < s → suc n % s ≡ 0 → IsResidue (negsuc n) s 0
IsResidue-multiple n s h e =
    let whole = mod-add-div (suc n) s in
    record {
      small = h;
      multiple = neg_ℤ (pos (suc n / s));
      differs =
          equal_parts (own_parts (negsuc n))
            (sum_parts (pos_parts 0)
              (product_parts (pos_parts s) (negative_parts (pos_parts (suc n / s)))))
            (omega arith);
    }

IsResidue-negative : (n s c : ℕ) → 0 < s → suc n % s ≡ suc c → IsResidue (negsuc n) s (s - suc c)
IsResidue-negative n s c h e =
    let whole = mod-add-div (suc n) s in
    let less = mod-lt (suc n) h in
    record {
      small = omega arith;
      multiple = negsuc (suc n / s);
      differs =
          equal_parts (own_parts (negsuc n))
            (sum_parts (pos_parts (s - suc c))
              (product_parts (pos_parts s) (own_parts (negsuc (suc n / s)))))
            (omega arith);
    }

wrap_pos : (n s : ℕ) → wrap_coordinate s (pos n) ≡ pos n
unfolding wrap_coordinate
wrap_pos n s = ground arith

wrap_negative : (s c : ℕ) → suc c < s → wrap_coordinate s (neg_ℤ (pos (suc c))) ≡ pos (s - suc c)
unfolding wrap_coordinate neg_ℤ ◌+ℤ◌
wrap_negative s c h = ground arith

pub rem-wrapped :
    (a : ℤ) (s : ℕ) → 0 < s → (v : ℕ) × (wrap_coordinate s (rem a s) ≡ pos v) × IsResidue a s v
unfolding rem
rem-wrapped (pos n) s h = (n % s, wrap_pos (n % s) s, IsResidue-pos n s h)
rem-wrapped (negsuc n) s h =
    elim (suc n % s)
        as (λ c.
          suc n % s ≡ c
          → (v : ℕ) × (wrap_coordinate s (neg_ℤ (pos c)) ≡ pos v) × IsResidue (negsuc n) s v) [
            | zero ↦ λ e. (0, unfold wrap_coordinate neg_ℤ in refl, IsResidue-multiple n s h e)
            | suc c ↦ λ e.
                let less = mod-lt (suc n) h in
                (s - suc c, wrap_negative s c (omega arith), IsResidue-negative n s c h e)
          ]
      refl

pub residue_found :
    (a : ℤ) (s : ℕ)
    → 0 < s
    → (wrap_coordinate s (rem a s) ≡ pos (residue a s)) × IsResidue a s (residue a s)
unfolding residue
residue_found a s h =
    let (v, e, r) = rem-wrapped a s h in
    let same = ap pos_part e in (e ∙ ap pos (sym same), subst (IsResidue a s) (sym same) r)

-- Residues in the box that differ by a multiple of the side are the same.
unique_pos : (s v w : ℕ) (k : ℤ) → v < s → w < s → pos v ≡ pos w +ℤ pos s *ℤ k → v ≡ w
unique_pos s v w (pos zero) hv hw e =
    let sum = (sum_parts (pos_parts w) (product_parts (pos_parts s) (pos_parts 0))).parts in
    let high = ap pos_part e in let low = ap neg_part e in omega arith
unique_pos s v w (pos (suc k)) hv hw e =
    let sum = (sum_parts (pos_parts w) (product_parts (pos_parts s) (pos_parts (suc k)))).parts in
    let high = ap pos_part e in
    let low = ap neg_part e in let more : s ≤ s * suc k = grind arith in absurd (omega arith)
unique_pos s v w (negsuc k) hv hw e =
    let sum =
      (sum_parts (pos_parts w) (product_parts (pos_parts s) (own_parts (negsuc k)))).parts in
    let high = ap pos_part e in
    let low = ap neg_part e in let more : s ≤ s * suc k = grind arith in absurd (omega arith)

-- Coordinates that differ by a multiple of the side have the same residue.
pub residue_cong :
    (a b : ℤ) (s : ℕ) (k : ℤ) → 0 < s → a ≡ b +ℤ pos s *ℤ k → residue a s ≡ residue b s
residue_cong a b s k h e =
    let one = (residue_found a s h).1 in
    let two = (residue_found b s h).1 in
    let i = one.multiple in
    let j = two.multiple in
    let w = residue b s in
    let equal = sym one.differs ∙ e ∙ ap (λ x. x +ℤ pos s *ℤ k) two.differs in
    let left = sum_parts (pos_parts (residue a s)) (product_parts (pos_parts s) (own_parts i)) in
    let right =
      sum_parts (sum_parts (pos_parts w) (product_parts (pos_parts s) (own_parts j)))
        (product_parts (pos_parts s) (own_parts k)) in
    let sums = parts_equal equal left right in
    unique_pos s (residue a s) w (j +ℤ k +ℤ neg_ℤ i) one.small two.small (
      equal_parts (pos_parts (residue a s))
        (sum_parts (pos_parts w) (
          product_parts (pos_parts s)
            (sum_parts (sum_parts (own_parts j) (own_parts k)) (negative_parts (own_parts i)))))
        (omega arith))

place_bound : (b a x y : ℕ) → x < a → y < b → b * x + y < b * a
place_bound b a x y hx hy = let room : b * suc x ≤ b * a = mul-le-mul_left b hx in omega arith

module _ (s : Vector3 ℕ) (hx : 0 < s.x) (hy : 0 < s.y) (hz : 0 < s.z) where
  -- The image of a point, by its coordinates.
  abbrev pub image_place : Matrix3 ℤ → Vector3 ℤ → ℕ
  image_place t r =
      let v = times_vector t r in s.z * (s.y * residue v.x s.x + residue v.y s.y) + residue v.z s.z

  image-place : (t : Matrix3 ℤ) (r : Vector3 ℤ) → image s r t ≡ image_place t r
  unfolding image full_g_index wrap_g_coords
  image-place t r =
      let v = times_vector t r in
      let (x, rx) = residue_found v.x s.x hx in
      let (y, ry) = residue_found v.y s.y hy in
      let (z, rz) = residue_found v.z s.z hz in
      ap pos_part (
        ap (full_r_index s.z s.y) (cc (x, y, z))
        ∙ full_r_index-place s (residue v.x s.x) (residue v.y s.y) (residue v.z s.z) ry.small
            rz.small)

  abbrev pub point_of : ℕ → Vector3 ℤ
  point_of i = let p = point_at s.z s.y i in grid_point p.x p.y p.z

  pub moves-place : (t : Matrix3 ℤ) (i : ℕ) → moves s t i ≡ image_place t (point_of i)
  unfolding moves
  moves-place t i = image-place t (point_of i)

  pub moves-within : (t : Matrix3 ℤ) (i : ℕ) → moves s t i < s.z * (s.y * s.x)
  moves-within t i =
      let v = times_vector t (point_of i) in
      let x = (residue_found v.x s.x hx).1.small in
      let y = (residue_found v.y s.y hy).1.small in
      let z = (residue_found v.z s.z hz).1.small in
      let row : s.y * residue v.x s.x + residue v.y s.y < s.y * s.x =
        place_bound s.y s.x (residue v.x s.x) (residue v.y s.y) x y in
      let all =
        place_bound s.z (s.y * s.x) (s.y * residue v.x s.x + residue v.y s.y) (residue v.z s.z) row
          z in
      omega (arith, moves-place t i)

  -- The point of the image.
  pub point_of-moves :
      (t : Matrix3 ℤ) (i : ℕ)
      → point_of (moves s t i) ≡ (
          let v = times_vector t (point_of i) in
          grid_point (residue v.x s.x) (residue v.y s.y) (residue v.z s.z))
  point_of-moves t i =
      let v = times_vector t (point_of i) in
      let y = (residue_found v.y s.y hy).1.small in
      let z = (residue_found v.z s.z hz).1.small in
      ap point_of (moves-place t i)
      ∙ ap (λ (p : Vector3 ℕ). grid_point p.x p.y p.z)
          (point_at-place s (residue v.x s.x) (residue v.y s.y) (residue v.z s.z) y z)
