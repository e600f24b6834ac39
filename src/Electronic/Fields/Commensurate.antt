-- ===== src/Electronic/Fields/Commensurate.antt =====
-- jdftx/electronic/Symmetries.cpp, `checkFFTbox`: what a box is commensurate with.
use native.Mathlib.Nat.{mod-add-div}
use python_jdftx.Common.{
  ℕ, suc, ◌*◌, ◌/◌, ◌%◌, ◌≡◌, refl, sym, ap, subst, ◌∙◌, true, List, [], ◌∷◌, none, some, In, inl,
  inr, ◌==◌, arith, Bool-cases,
}
use python_jdftx.Common.Int.{ℤ, pos, negsuc, ◌+ℤ◌, ◌*ℤ◌, neg_ℤ, neg_ℤ_parts}
use python_jdftx.Common.Parts.{own_parts, pos_parts, sum_parts, product_parts, equal_parts}
use python_jdftx.Common.Options.{>>=-eq-some}
use python_jdftx.Core.Grid.{Vector3, is_zero}
use python_jdftx.Electronic.Fields.{Matrix3, rem}
use python_jdftx.Electronic.Fields.Box.{
  diag3, row_times, times_matrix, quotient, divide, divide_row, mesh_matrix, check_fft_box,
}

exact : (n s : ℕ) → (n % s == 0) ≡ true → n / s * s ≡ n
exact n s e = let whole = mod-add-div n s in ground (arith, whole)

quotient_exact : (a : ℤ) (s : ℕ) → is_zero (rem a s) ≡ true → quotient a s *ℤ pos s ≡ a
unfolding quotient rem neg_ℤ
quotient_exact (pos n) s e =
    let one : (n % s == 0) ≡ true = ground arith in
    let whole = exact n s one in
    equal_parts (product_parts (pos_parts (n / s)) (pos_parts s)) (pos_parts n) (omega arith)
quotient_exact (negsuc n) s e =
    let one : (suc n % s == 0) ≡ true = ground arith in
    let whole = exact (suc n) s one in
    let high = neg_ℤ_parts (pos (suc n / s)) in
    equal_parts (product_parts (own_parts (neg_ℤ (pos (suc n / s)))) (pos_parts s))
      (own_parts (negsuc n)) (ground arith)

divide_exact : (a : ℤ) (s : ℕ) (q : ℤ) → divide a s ≡ some q → q *ℤ pos s ≡ a
unfolding divide
divide_exact a s q e = elim (Bool-cases (is_zero (rem a s))) [
  | inl t ↦
      let found : some (quotient a s) ≡ some q = rw t at e in
      let same : quotient a s ≡ q = cc in ap (λ k. k *ℤ pos s) (sym same) ∙ quotient_exact a s t
  | inr f ↦ let found : none ≡ some q = rw f at e in absurd cc
]

-- The entries of a row with those of another, from box `s` to a side of `n`.
pub record IsScaled (n : ℕ) (s : Vector3 ℕ) (m t : Vector3 ℤ) : Type 0 where
  pub x : t.x *ℤ pos s.x ≡ pos n *ℤ m.x
  pub y : t.y *ℤ pos s.y ≡ pos n *ℤ m.y
  pub z : t.z *ℤ pos s.z ≡ pos n *ℤ m.z

-- The matrix that does on the points of the box what `m` does on lattice coordinates.
pub record IsMesh (s : Vector3 ℕ) (m t : Matrix3 ℤ) : Type 0 where
  pub row0 : IsScaled s.x s m.row0 t.row0
  pub row1 : IsScaled s.y s m.row1 t.row1
  pub row2 : IsScaled s.z s m.row2 t.row2

divide_row-exact :
    (s : Vector3 ℕ) (a t : Vector3 ℤ)
    → divide_row s a ≡ some t
    → (t.x *ℤ pos s.x ≡ a.x) × (t.y *ℤ pos s.y ≡ a.y) × (t.z *ℤ pos s.z ≡ a.z)
unfolding divide_row
divide_row-exact s a t e =
    let (x, dx, e1) = >>=-eq-some (divide a.x s.x) _ t e in
    let (y, dy, e2) = >>=-eq-some (divide a.y s.y) _ t e1 in
    let (z, dz, e3) = >>=-eq-some (divide a.z s.z) _ t e2 in
    let all : record { x = x; y = y; z = z } ≡ t = cc in
    (
      ap (λ (v : Vector3 ℤ). v.x *ℤ pos s.x) (sym all) ∙ divide_exact a.x s.x x dx,
      ap (λ (v : Vector3 ℤ). v.y *ℤ pos s.y) (sym all) ∙ divide_exact a.y s.y y dy,
      ap (λ (v : Vector3 ℤ). v.z *ℤ pos s.z) (sym all) ∙ divide_exact a.z s.z z dz,
    )

-- One entry of the product with a diagonal matrix, for each of its rows.
diag_first : (n : ℕ) (a b c : ℤ) → pos 0 +ℤ pos n *ℤ a +ℤ pos 0 *ℤ b +ℤ pos 0 *ℤ c ≡ pos n *ℤ a
diag_first n a b c =
    equal_parts
      (sum_parts
        (sum_parts (sum_parts (pos_parts 0) (product_parts (pos_parts n) (own_parts a)))
          (product_parts (pos_parts 0) (own_parts b)))
        (product_parts (pos_parts 0) (own_parts c)))
      (product_parts (pos_parts n) (own_parts a)) (omega arith)

diag_second : (n : ℕ) (a b c : ℤ) → pos 0 +ℤ pos 0 *ℤ a +ℤ pos n *ℤ b +ℤ pos 0 *ℤ c ≡ pos n *ℤ b
diag_second n a b c =
    equal_parts
      (sum_parts
        (sum_parts (sum_parts (pos_parts 0) (product_parts (pos_parts 0) (own_parts a)))
          (product_parts (pos_parts n) (own_parts b)))
        (product_parts (pos_parts 0) (own_parts c)))
      (product_parts (pos_parts n) (own_parts b)) (omega arith)

diag_third : (n : ℕ) (a b c : ℤ) → pos 0 +ℤ pos 0 *ℤ a +ℤ pos 0 *ℤ b +ℤ pos n *ℤ c ≡ pos n *ℤ c
diag_third n a b c =
    equal_parts
      (sum_parts
        (sum_parts (sum_parts (pos_parts 0) (product_parts (pos_parts 0) (own_parts a)))
          (product_parts (pos_parts 0) (own_parts b)))
        (product_parts (pos_parts n) (own_parts c)))
      (product_parts (pos_parts n) (own_parts c)) (omega arith)

pub mesh_matrix-IsMesh : (s : Vector3 ℕ) (m t : Matrix3 ℤ) → mesh_matrix s m ≡ some t → IsMesh s m t
unfolding mesh_matrix times_matrix row_times diag3
mesh_matrix-IsMesh s m t e =
    let scaled = times_matrix (diag3 s) m in
    let (a, da, e1) = >>=-eq-some (divide_row s scaled.row0) _ t e in
    let (b, db, e2) = >>=-eq-some (divide_row s scaled.row1) _ t e1 in
    let (c, dc, e3) = >>=-eq-some (divide_row s scaled.row2) _ t e2 in
    let all : record { row0 = a; row1 = b; row2 = c } ≡ t = cc in
    let (ax, ay, az) = divide_row-exact s scaled.row0 a da in
    let (bx, by, bz) = divide_row-exact s scaled.row1 b db in
    let (cx, cy, cz) = divide_row-exact s scaled.row2 c dc in
    subst (IsMesh s m) all (record {
      row0 = record {
        x = ax ∙ diag_first s.x m.row0.x m.row1.x m.row2.x;
        y = ay ∙ diag_first s.x m.row0.y m.row1.y m.row2.y;
        z = az ∙ diag_first s.x m.row0.z m.row1.z m.row2.z;
      };
      row1 = record {
        x = bx ∙ diag_second s.y m.row0.x m.row1.x m.row2.x;
        y = by ∙ diag_second s.y m.row0.y m.row1.y m.row2.y;
        z = bz ∙ diag_second s.y m.row0.z m.row1.z m.row2.z;
      };
      row2 = record {
        x = cx ∙ diag_third s.z m.row0.x m.row1.x m.row2.x;
        y = cy ∙ diag_third s.z m.row0.y m.row1.y m.row2.y;
        z = cz ∙ diag_third s.z m.row0.z m.row1.z m.row2.z;
      };
    })

-- The matrices that the check leaves, one for each symmetry.
pub check_fft_box-from :
    (s : Vector3 ℕ) (ms ts : List (Matrix3 ℤ)) (t : Matrix3 ℤ)
    → check_fft_box s ms ≡ some ts
    → In t ts
    → (m : Matrix3 ℤ) × In m ms × IsMesh s m t
unfolding check_fft_box
check_fft_box-from s [] ts t e i = let none_there : [] ≡ ts = cc in absurd (rw (← none_there) at i)
check_fft_box-from s (m ∷ ms) ts t e i =
    let (u, mesh, e1) = >>=-eq-some (mesh_matrix s m) _ ts e in
    let (us, rest, e2) = >>=-eq-some (check_fft_box s ms) _ ts e1 in
    let all : u ∷ us ≡ ts = cc in
    let j : In t (u ∷ us) = rw (← all) at i in
    elim j [
      | inl same ↦ (m, inl refl, mesh_matrix-IsMesh s m t (mesh ∙ ap some (sym same)))
      | inr k ↦ let (n, l, is_mesh) = check_fft_box-from s ms us t rest k in (n, inr l, is_mesh)
    ]

pub check_fft_box-to :
    (s : Vector3 ℕ) (ms ts : List (Matrix3 ℤ)) (m : Matrix3 ℤ)
    → check_fft_box s ms ≡ some ts
    → In m ms
    → (t : Matrix3 ℤ) × In t ts × IsMesh s m t
unfolding check_fft_box
check_fft_box-to s [] ts m e i = absurd i
check_fft_box-to s (n ∷ ms) ts m e i =
    let (u, mesh, e1) = >>=-eq-some (mesh_matrix s n) _ ts e in
    let (us, rest, e2) = >>=-eq-some (check_fft_box s ms) _ ts e1 in
    let all : u ∷ us ≡ ts = cc in
    elim i [
      | inl same ↦
          let j : In u (u ∷ us) = inl refl in
          (u, subst (λ l. In u l) all j, mesh_matrix-IsMesh s m u (ap (mesh_matrix s) same ∙ mesh))
      | inr k ↦
          let (t, l, is_mesh) = check_fft_box-to s ms us m rest k in
          let j : In t (u ∷ us) = inr l in (t, subst (λ l. In t l) all j, is_mesh)
    ]
