-- ===== src/Electronic/Matrix/Algebra/Transposes.antt =====
-- jdftx/electronic/matrix.cpp: pending transposes.
use python_jdftx.Common.{ℕ, ◌<◌, ◌≡◌, refl, ap, ◌∙◌}
use python_jdftx.Core.Number.{Double, ◌⊗◌}
use python_jdftx.Core.Complex.{
  Complex, IsExactArithmetic, conj, scale, scale-scale, conj-scale, conj-conj,
}
use python_jdftx.Electronic.Matrix.{Matrix, index}
use python_jdftx.Electronic.Matrix.Places.{index_columns, index_rows}
use python_jdftx.Electronic.Matrix.Blocks.{stores_hit}
use python_jdftx.Electronic.Matrix.Algebra.{
  TransOp, trans, conj_trans, conj_op, dagger, transpose, transposed, to_matrix,
}

module _ {R : Type 0} ⦃r : Double R⦄ where
  transposed_lem :
      (new : ℕ → Complex R) (op : TransOp) (factor : R) (m : Matrix (Complex R)) (i j : ℕ)
      → i < m.nc
      → j < m.nr
      → (transposed new op factor m).buffer (index m.nc i j)
        ≡ scale factor (conj_op op (m.buffer (index m.nr j i)))
  unfolding transposed
  transposed_lem new op factor m i j hi hj =
      let entry = λ (k l : ℕ). scale factor (conj_op op (m.buffer (index m.nr l k))) in
      stores_hit m.nc m.nr i j (index m.nc i j) (entry i j) (λ k l. index m.nc k l) entry
        (λ k l hk hl e.
          let same_row = index_rows m.nc k l i j hk hi e in
          let same_col = index_columns m.nc k l i j hk hi e in rw (same_row, same_col) refl)
        hi hj refl new

  -- A matrix of the same shape, with the entries of another one times a factor.
  pub record IsMultiple (factor : R) (m n : Matrix (Complex R)) : Type 0 where
    pub rows : n.nr ≡ m.nr
    pub cols : n.nc ≡ m.nc
    pub entries :
        (i j : ℕ)
        → i < m.nr
        → j < m.nc
        → n.buffer (index m.nr i j) ≡ scale factor (m.buffer (index m.nr i j))

  twice_lem :
      (new new2 : ℕ → Complex R) (op : TransOp) (a b : R) (m : Matrix (Complex R))
      → ((x : (Complex R)) → conj_op op (scale b (conj_op op x)) ≡ scale b x)
      → IsExactArithmetic R
      → IsMultiple (a ⊗ b) m (transposed new2 op a (transposed new op b m))
  unfolding transposed
  twice_lem new new2 op a b m twice laws = record {
    rows = refl;
    cols = refl;
    entries = λ i j hi hj.
        transposed_lem new2 op a (transposed new op b m) i j hi hj
        ∙ ap (λ x. scale a (conj_op op x)) (transposed_lem new op b m j i hj hi)
        ∙ ap (scale a) (twice (m.buffer (index m.nr i j)))
        ∙ scale-scale laws a b (m.buffer (index m.nr i j));
  }

  -- In exact arithmetic, the adjoint with a factor of the adjoint with a factor is the matrix
  -- times both factors, and so is the transpose of the transpose.
  pub to_matrix-IsMultiple :
      (new new2 : ℕ → Complex R) (a b : R) (m : Matrix (Complex R))
      → IsExactArithmetic R
      → IsMultiple (a ⊗ b) m (to_matrix new2 (dagger a (to_matrix new (dagger b m))))
        × IsMultiple (a ⊗ b) m (to_matrix new2 (transpose a (to_matrix new (transpose b m))))
  unfolding to_matrix dagger transpose conj_op
  to_matrix-IsMultiple new new2 a b m laws = (
    twice_lem new new2 conj_trans a b m
        (λ x. conj-scale laws b (conj x) ∙ ap (scale b) (conj-conj laws x)) laws,
    twice_lem new new2 trans a b m (λ x. refl) laws,
  )
