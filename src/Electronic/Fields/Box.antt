-- ===== src/Electronic/Fields/Box.antt =====
-- jdftx/electronic/Symmetries.cpp, `checkFFTbox` up to the truncation center, and what it makes of the
-- symmetries: matrices on the points of the box.
use python_jdftx.Common.{ℕ, suc, ◌/◌, sym, List, [], ◌∷◌, Option, none, some, if◌then◌else◌}
use python_jdftx.Common.Int.{ℤ, pos, negsuc, ◌+ℤ◌, ◌*ℤ◌, neg_ℤ}
use python_jdftx.Common.Options.{◌>>=◌}
use python_jdftx.Core.Grid.{Vector3, is_zero}
use python_jdftx.Electronic.Fields.{Matrix3, rem, init_symm_index}

-- `Diag`.
unfoldable pub diag3 : Vector3 ℕ → Matrix3 ℤ
diag3 s = record {
  row0 = record { x = pos s.x; y = pos 0; z = pos 0 };
  row1 = record { x = pos 0; y = pos s.y; z = pos 0 };
  row2 = record { x = pos 0; y = pos 0; z = pos s.z };
}

-- A row of a product: `ret(i,j) += m(i,k) * n(k,j)`.
unfoldable pub row_times : Vector3 ℤ → Matrix3 ℤ → Vector3 ℤ
row_times a n = record {
  x = pos 0 +ℤ a.x *ℤ n.row0.x +ℤ a.y *ℤ n.row1.x +ℤ a.z *ℤ n.row2.x;
  y = pos 0 +ℤ a.x *ℤ n.row0.y +ℤ a.y *ℤ n.row1.y +ℤ a.z *ℤ n.row2.y;
  z = pos 0 +ℤ a.x *ℤ n.row0.z +ℤ a.y *ℤ n.row1.z +ℤ a.z *ℤ n.row2.z;
}

unfoldable pub times_matrix : Matrix3 ℤ → Matrix3 ℤ → Matrix3 ℤ
times_matrix m n = record {
  row0 = row_times m.row0 n;
  row1 = row_times m.row1 n;
  row2 = row_times m.row2 n;
}

-- `/` of C, which leaves out what is behind the point.
unfoldable pub quotient : ℤ → ℕ → ℤ
quotient (pos n) s = pos (n / s)
quotient (negsuc n) s = neg_ℤ (pos (suc n / s))

-- `none` is "FFT box not commensurate with symmetries."
unfoldable pub divide : ℤ → ℕ → Option ℤ
divide a s = if is_zero (rem a s) then some (quotient a s) else none

unfoldable pub divide_row : Vector3 ℕ → Vector3 ℤ → Option (Vector3 ℤ)
divide_row s a = do
  x ← divide a.x s.x
  y ← divide a.y s.y
  z ← divide a.z s.z
  some (record { x = x; y = y; z = z })

unfoldable pub mesh_matrix : Vector3 ℕ → Matrix3 ℤ → Option (Matrix3 ℤ)
mesh_matrix s m = do
  let scaled = times_matrix (diag3 s) m
  row0 ← divide_row s scaled.row0
  row1 ← divide_row s scaled.row1
  row2 ← divide_row s scaled.row2
  some (record { row0 = row0; row1 = row1; row2 = row2 })

unfoldable pub check_fft_box : Vector3 ℕ → List (Matrix3 ℤ) → Option (List (Matrix3 ℤ))
check_fft_box s [] = some []
check_fft_box s (m ∷ ms) = do t ← mesh_matrix s m; ts ← check_fft_box s ms; some (t ∷ ts)

-- `setupMesh`: the array `symmIndex`, if the check lets it through.
unfoldable pub setup_mesh : Vector3 ℕ → List (Matrix3 ℤ) → Option (List ℕ)
setup_mesh s sym = do sym_mesh ← check_fft_box s sym; some (init_symm_index s sym_mesh)
