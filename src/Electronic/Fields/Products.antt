-- ===== src/Electronic/Fields/Products.antt =====
-- jdftx/electronic/Symmetries.cpp: moves of points by matrices that fit the box, one after the other.
use native.Mathlib.Nat.{mod-eq_of_lt, mod-lt, mod-add-div, div-div-eq-div-mul, div-lt_iff_lt-mul}
use python_jdftx.Common.{ℕ, ◌+◌, ◌*◌, ◌/◌, ◌%◌, ◌<◌, ◌≡◌, sym, ap, ◌∙◌, arith}
use python_jdftx.Common.Int.{ℤ, pos, ◌+ℤ◌, ◌*ℤ◌}
use python_jdftx.Common.Parts.{
  own_parts, pos_parts, sum_parts, product_parts, equal_parts, *ℤ_cancel,
}
use python_jdftx.Core.Grid.{Vector3, point_at, wrap_coordinate}
use python_jdftx.Electronic.Fields.{Matrix3, rem, times_row, times_vector}
use python_jdftx.Electronic.Fields.Box.{diag3, row_times, times_matrix}
use python_jdftx.Electronic.Fields.Commensurate.{IsScaled, IsMesh}
use python_jdftx.Electronic.Fields.Residues.{
  residue, residue_found, residue_cong, point_of, point_of-moves, moves-place, image_place,
}
use python_jdftx.Electronic.Fields.Rows.{row_shift, row_product, scaled_entry, sum3}
use python_jdftx.Electronic.Fields.Visits.{moves}

unit_entry : (t : ℤ) (s : ℕ) → 0 < s → t *ℤ pos s ≡ pos s *ℤ pos 1 → t ≡ pos 1
unit_entry t s h e = *ℤ_cancel t (pos 1) s h (
    e
    ∙ equal_parts (product_parts (pos_parts s) (pos_parts 1))
        (product_parts (pos_parts 1) (pos_parts s)) (omega arith))

zero_entry : (t : ℤ) (s n : ℕ) → 0 < s → t *ℤ pos s ≡ pos n *ℤ pos 0 → t ≡ pos 0
zero_entry t s n h e = *ℤ_cancel t (pos 0) s h (
    e
    ∙ equal_parts (product_parts (pos_parts n) (pos_parts 0))
        (product_parts (pos_parts 0) (pos_parts s)) (omega arith))

row_x : (a b c : ℤ) → pos 0 +ℤ pos 1 *ℤ a +ℤ pos 0 *ℤ b +ℤ pos 0 *ℤ c ≡ a
row_x a b c =
    equal_parts
      (sum_parts
        (sum_parts (sum_parts (pos_parts 0) (product_parts (pos_parts 1) (own_parts a)))
          (product_parts (pos_parts 0) (own_parts b)))
        (product_parts (pos_parts 0) (own_parts c)))
      (own_parts a) (omega arith)

row_y : (a b c : ℤ) → pos 0 +ℤ pos 0 *ℤ a +ℤ pos 1 *ℤ b +ℤ pos 0 *ℤ c ≡ b
row_y a b c =
    equal_parts
      (sum_parts
        (sum_parts (sum_parts (pos_parts 0) (product_parts (pos_parts 0) (own_parts a)))
          (product_parts (pos_parts 1) (own_parts b)))
        (product_parts (pos_parts 0) (own_parts c)))
      (own_parts b) (omega arith)

row_z : (a b c : ℤ) → pos 0 +ℤ pos 0 *ℤ a +ℤ pos 0 *ℤ b +ℤ pos 1 *ℤ c ≡ c
row_z a b c =
    equal_parts
      (sum_parts
        (sum_parts (sum_parts (pos_parts 0) (product_parts (pos_parts 0) (own_parts a)))
          (product_parts (pos_parts 0) (own_parts b)))
        (product_parts (pos_parts 1) (own_parts c)))
      (own_parts c) (omega arith)

residue_small : (n s : ℕ) → n < s → residue (pos n) s ≡ n
unfolding residue rem wrap_coordinate
residue_small n s h = let same : n % s ≡ n = mod-eq_of_lt h in ground arith

place_cong :
    (n m : ℕ) {a b c d e f : ℕ} → a ≡ d → b ≡ e → c ≡ f → n * (m * a + b) + c ≡ n * (m * d + e) + f
place_cong n m p q r = cc

entries_cong :
    {a b c d e f : ℤ} (x y z : ℤ)
    → a ≡ d
    → b ≡ e
    → c ≡ f
    → pos 0 +ℤ a *ℤ x +ℤ b *ℤ y +ℤ c *ℤ z ≡ pos 0 +ℤ d *ℤ x +ℤ e *ℤ y +ℤ f *ℤ z
entries_cong x y z p q r = cc

module _ (s : Vector3 ℕ) (hx : 0 < s.x) (hy : 0 < s.y) (hz : 0 < s.z) where
  abbrev point : ℕ → Vector3 ℤ
  point = point_of s hx hy hz

  abbrev target : Matrix3 ℤ → Vector3 ℤ → ℕ
  target = image_place s hx hy hz

  -- The point of the image, and how far it is from the vector.
  abbrev inside : Vector3 ℤ → Vector3 ℤ
  inside v = record {
    x = pos (residue v.x s.x);
    y = pos (residue v.y s.y);
    z = pos (residue v.z s.z);
  }

  abbrev off : Vector3 ℤ → Vector3 ℤ
  off v = record {
    x = (residue_found v.x s.x hx).1.multiple;
    y = (residue_found v.y s.y hy).1.multiple;
    z = (residue_found v.z s.z hz).1.multiple;
  }

  vector_split :
      (v : Vector3 ℤ)
      → v ≡ record {
        x = (inside v).x +ℤ pos s.x *ℤ (off v).x;
        y = (inside v).y +ℤ pos s.y *ℤ (off v).y;
        z = (inside v).z +ℤ pos s.z *ℤ (off v).z;
      }
  vector_split v =
      let x = (residue_found v.x s.x hx).1.differs in
      let y = (residue_found v.y s.y hy).1.differs in
      let z = (residue_found v.z s.z hz).1.differs in cc

  -- A row that fits does the same to a vector and to the point of the box.
  residue_row :
      (n : ℕ) (m k v : Vector3 ℤ)
      → 0 < n
      → IsScaled n s m k
      → residue (times_row k (inside v)) n ≡ residue (times_row k v) n
  residue_row n m k v h scaled =
      let a = off v in
      sym (
        residue_cong (times_row k v) (times_row k (inside v)) n
          (m.x *ℤ a.x +ℤ m.y *ℤ a.y +ℤ m.z *ℤ a.z) h
          (ap (times_row k) (vector_split v) ∙ row_shift n s m k (inside v) a scaled))

  -- One move after another is the move of the product.
  pub moves-product :
      (m k t : Matrix3 ℤ) (i : ℕ)
      → IsMesh s m k
      → moves s k (moves s t i) ≡ moves s (times_matrix k t) i
  unfolding times_matrix times_vector
  moves-product m k t i mesh =
      let v = times_vector t (point i) in
      let x =
        residue_row s.x m.row0 k.row0 v hx mesh.row0
        ∙ ap (λ a. residue a s.x) (row_product k.row0 t (point i)) in
      let y =
        residue_row s.y m.row1 k.row1 v hy mesh.row1
        ∙ ap (λ a. residue a s.y) (row_product k.row1 t (point i)) in
      let z =
        residue_row s.z m.row2 k.row2 v hz mesh.row2
        ∙ ap (λ a. residue a s.z) (row_product k.row2 t (point i)) in
      moves-place s hx hy hz k (moves s t i)
      ∙ ap (target k) (point_of-moves s hx hy hz t i)
      ∙ place_cong s.z s.y x y z
      ∙ sym (moves-place s hx hy hz (times_matrix k t) i)

  -- The matrix on the points of the box of a product.
  product_row :
      (n : ℕ) (k q r : Vector3 ℤ) (m t : Matrix3 ℤ)
      → IsScaled n s k q
      → IsMesh s m t
      → IsScaled n s (row_times k m) r
      → r ≡ row_times q t
  unfolding row_times sum3
  product_row n k q r m t scaled mesh whole =
      let x = *ℤ_cancel r.x (row_times q t).x s.x hx (
        whole.x
        ∙ sym (
            scaled_entry n s.x s k q m.row0.x m.row1.x m.row2.x t.row0.x t.row1.x t.row2.x scaled
              mesh.row0.x mesh.row1.x mesh.row2.x)) in
      let y = *ℤ_cancel r.y (row_times q t).y s.y hy (
        whole.y
        ∙ sym (
            scaled_entry n s.y s k q m.row0.y m.row1.y m.row2.y t.row0.y t.row1.y t.row2.y scaled
              mesh.row0.y mesh.row1.y mesh.row2.y)) in
      let z = *ℤ_cancel r.z (row_times q t).z s.z hz (
        whole.z
        ∙ sym (
            scaled_entry n s.z s k q m.row0.z m.row1.z m.row2.z t.row0.z t.row1.z t.row2.z scaled
              mesh.row0.z mesh.row1.z mesh.row2.z)) in
      cc (x, y, z)

  pub product-IsMesh :
      (k m q t r : Matrix3 ℤ)
      → IsMesh s k q
      → IsMesh s m t
      → IsMesh s (times_matrix k m) r
      → r ≡ times_matrix q t
  unfolding times_matrix
  product-IsMesh k m q t r one two whole =
      let a = product_row s.x k.row0 q.row0 r.row0 m t one.row0 two whole.row0 in
      let b = product_row s.y k.row1 q.row1 r.row1 m t one.row1 two whole.row1 in
      let c = product_row s.z k.row2 q.row2 r.row2 m t one.row2 two whole.row2 in cc (a, b, c)

  point_back : (i : ℕ) → s.z * (s.y * (i / (s.z * s.y)) + i / s.z % s.y) + i % s.z ≡ i
  point_back i =
      let high = mod-add-div (i / s.z) s.y in
      let low = mod-add-div i s.z in
      let same = ap (λ k. s.y * k) (div-div-eq-div-mul i s.z s.y) in
      let row : s.y * (i / (s.z * s.y)) + i / s.z % s.y ≡ i / s.z = omega arith in
      ap (λ k. s.z * k + i % s.z) row ∙ omega arith

  -- The identity leaves each point where it is.
  pub moves_identity :
      (t : Matrix3 ℤ) (i : ℕ)
      → i < s.z * (s.y * s.x)
      → IsMesh s (diag3 (record { x = 1; y = 1; z = 1 })) t
      → moves s t i ≡ i
  unfolding times_vector times_row diag3 point_at
  moves_identity t i h mesh =
      let r = point i in
      let fits : i / (s.z * s.y) < s.x = (div-lt_iff_lt-mul (grind arith)).1 (grind arith) in
      let x = residue_small (i / (s.z * s.y)) s.x fits in
      let y = residue_small (i / s.z % s.y) s.y (mod-lt (i / s.z) hy) in
      let z = residue_small (i % s.z) s.z (mod-lt i hz) in
      let row0 = unit_entry t.row0.x s.x hx mesh.row0.x in
      let row1 = unit_entry t.row1.y s.y hy mesh.row1.y in
      let row2 = unit_entry t.row2.z s.z hz mesh.row2.z in
      let tx : times_row t.row0 r ≡ r.x =
        entries_cong r.x r.y r.z row0 (zero_entry t.row0.y s.y s.x hy mesh.row0.y)
          (zero_entry t.row0.z s.z s.x hz mesh.row0.z)
        ∙ row_x r.x r.y r.z in
      let ty : times_row t.row1 r ≡ r.y =
        entries_cong r.x r.y r.z (zero_entry t.row1.x s.x s.y hx mesh.row1.x) row1
          (zero_entry t.row1.z s.z s.y hz mesh.row1.z)
        ∙ row_y r.x r.y r.z in
      let tz : times_row t.row2 r ≡ r.z =
        entries_cong r.x r.y r.z (zero_entry t.row2.x s.x s.z hx mesh.row2.x)
          (zero_entry t.row2.y s.y s.z hy mesh.row2.y) row2
        ∙ row_z r.x r.y r.z in
      moves-place s hx hy hz t i
      ∙ place_cong s.z s.y (ap (λ a. residue a s.x) tx ∙ x) (ap (λ a. residue a s.y) ty ∙ y)
          (ap (λ a. residue a s.z) tz ∙ z)
      ∙ point_back i
