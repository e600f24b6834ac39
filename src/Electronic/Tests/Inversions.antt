-- ===== src/Electronic/Tests/Inversions.antt =====
-- A field on a box of 4 x 1 x 2 points under the inversion.
use python_jdftx.Common.{
  ℕ, ◌+◌, ◌-◌, ◌*◌, ◌/◌, ◌≡◌, ◌≢◌, refl, sym, ap, subst, true, List, [], ◌∷◌, some, ltb, leb, ◌==◌,
  length, In, inl, inr, arith,
}
use python_jdftx.Common.Int.{ℤ, pos, negsuc, ◌+ℤ◌, ◌*ℤ◌, neg_ℤ}
use python_jdftx.Common.Loops.{loop}
use python_jdftx.Core.Number.{Double}
use python_jdftx.Core.Grid.{Vector3, full_r_index, full_g_index, wrap_g_coords, wrap_coordinate}
use python_jdftx.Electronic.Fields.{
  Matrix3, times_row, times_vector, rem, image, mark, mark_images, visit, visit_all,
  init_symm_index,
}
use python_jdftx.Electronic.Fields.Box.{
  diag3, row_times, times_matrix, quotient, divide, divide_row, mesh_matrix, check_fft_box,
  setup_mesh,
}
use python_jdftx.Electronic.Fields.Group.{IsMatrixGroup}
use python_jdftx.Electronic.Fields.Invariance.{IsAveraged}
use python_jdftx.Electronic.Fields.Symmetrized.{field, symmetrize-mesh_matrix, symmetrize-IsMean}
use python_jdftx.Electronic.Fields.Visits.{moves}

abbrev box : Vector3 ℕ
box = record { x = 4; y = 1; z = 2 }

abbrev same : Matrix3 ℤ
same = record {
  row0 = record { x = pos 1; y = pos 0; z = pos 0 };
  row1 = record { x = pos 0; y = pos 1; z = pos 0 };
  row2 = record { x = pos 0; y = pos 0; z = pos 1 };
}

abbrev inverted : Matrix3 ℤ
inverted = record {
  row0 = record { x = negsuc 0; y = pos 0; z = pos 0 };
  row1 = record { x = pos 0; y = negsuc 0; z = pos 0 };
  row2 = record { x = pos 0; y = pos 0; z = negsuc 0 };
}

abbrev both : List (Matrix3 ℤ)
both = same ∷ inverted ∷ []

product_listed : (k m : Matrix3 ℤ) → In k both → In m both → In (times_matrix k m) both
unfolding times_matrix row_times ◌+ℤ◌ ◌*ℤ◌
product_listed k m (inl e) (inl f) =
    subst (λ a. In (times_matrix a m) both) (sym e)
      (subst (λ a. In (times_matrix same a) both) (sym f) (inl refl))
product_listed k m (inl e) (inr (inl f)) =
    subst (λ a. In (times_matrix a m) both) (sym e)
      (subst (λ a. In (times_matrix same a) both) (sym f) (inr (inl refl)))
product_listed k m (inr (inl e)) (inl f) =
    subst (λ a. In (times_matrix a m) both) (sym e)
      (subst (λ a. In (times_matrix inverted a) both) (sym f) (inr (inl refl)))
product_listed k m (inr (inl e)) (inr (inl f)) =
    subst (λ a. In (times_matrix a m) both) (sym e)
      (subst (λ a. In (times_matrix inverted a) both) (sym f) (inl refl))
product_listed k m (inr (inr e)) l = absurd e
product_listed k m l (inr (inr e)) = absurd e

inverse_listed :
    (m : Matrix3 ℤ)
    → In m both
    → (k : Matrix3 ℤ) × In k both × (times_matrix k m ≡ diag3 (record { x = 1; y = 1; z = 1 }))
unfolding times_matrix row_times diag3 ◌+ℤ◌ ◌*ℤ◌
inverse_listed m (inl e) = (same, inl refl, ap (times_matrix same) e)
inverse_listed m (inr (inl e)) = (inverted, inr (inl refl), ap (times_matrix inverted) e)
inverse_listed m (inr (inr e)) = absurd e

both-IsMatrixGroup : IsMatrixGroup both
unfolding diag3
both-IsMatrixGroup = record {
  identity = inl refl;
  product = product_listed;
  inverse = inverse_listed;
}

abbrev pairs : List ℕ
pairs = 0 ∷ 0 ∷ 1 ∷ 1 ∷ 2 ∷ 6 ∷ 3 ∷ 7 ∷ 4 ∷ 4 ∷ 5 ∷ 5 ∷ []

setup_mesh_runs : setup_mesh box both ≡ some pairs
unfolding setup_mesh check_fft_box mesh_matrix divide_row divide quotient rem times_matrix row_times
    diag3 init_symm_index visit_all visit mark_images mark image times_vector times_row full_g_index
    full_r_index wrap_g_coords wrap_coordinate loop ◌+ℤ◌ ◌*ℤ◌ neg_ℤ
setup_mesh_runs = refl

instance even_doubles : Double ℕ
even_doubles = record {
  lit = λ n. 2 * n;
  nan = 0;
  add = λ a b. a + b;
  sub = λ a b. a - b;
  mul = λ a b. a * b / 2;
  div = λ a b. 2 * a / b;
  neg = λ a. a;
  sqrt = λ a. a;
  fabs = λ a. a;
  lt = ltb;
  le = leb;
  is_finite = λ a. true;
  is_zero = λ a. a == 0;
}

abbrev nothing_there : ℕ → ℕ
nothing_there k = 0

abbrev ramp : ℕ → ℕ
ramp i = 4 * i

inverted_mesh : mesh_matrix box inverted ≡ some inverted
unfolding mesh_matrix divide_row divide quotient rem times_matrix row_times diag3 ◌+ℤ◌ ◌*ℤ◌ neg_ℤ
inverted_mesh = refl

symmetrize-mesh_matrix_example :
    field box both pairs 4 true nothing_there ramp (moves box inverted 2)
    ≡ field box both pairs 4 true nothing_there ramp 2
symmetrize-mesh_matrix_example =
    symmetrize-mesh_matrix box both pairs 4 true nothing_there (omega arith) (omega arith)
      (omega arith) setup_mesh_runs both-IsMatrixGroup (omega arith) (omega arith) ramp 2 inverted
      inverted (omega arith) (inr (inl refl)) inverted_mesh

several : length both ≢ 1
several = λ e. omega arith

symmetrize-IsMean_example :
    (ts : List (Matrix3 ℤ)) × (check_fft_box box both ≡ some ts)
    × IsAveraged box ts ramp (field box both pairs 4 true nothing_there ramp) 2
symmetrize-IsMean_example =
    symmetrize-IsMean box both pairs 4 true nothing_there (omega arith) (omega arith) (omega arith)
      setup_mesh_runs both-IsMatrixGroup (omega arith) (omega arith) ramp 2 several (omega arith)
