-- ===== src/Electronic/Matrix/Algebra.antt =====
-- jdftx/electronic/matrix.h and matrix.cpp: transposes, diagonal matrices and sums over matrices.
pub mod Transposes
pub mod Diagonals
use python_jdftx.Common.{
  ℕ, zero, suc, ◌+◌, ◌-◌, ◌*◌, ◌/◌, ◌≡◌, Bool, true, false, ◌&&◌, Option, none, some, ◌==◌,
  if◌then◌else◌,
}
use python_jdftx.Common.Loops.{loop}
use python_jdftx.Core.Number.{Double, ◌⊕◌, ◌⊗◌}
use python_jdftx.Core.Complex.{
  Complex, IsExactArithmetic, of_real, conj, add_complex, add_real, scale, scale-scale, conj-scale,
  conj-conj,
}
use python_jdftx.Electronic.Matrix.{Matrix, store, index}

pub record DiagMatrix (R : Type 0) : Type 0 where
  pub size : ℕ
  pub at : ℕ → R

-- CBLAS_TRANSPOSE, and a matrix with a pending scale and operation.
pub data TransOp : Type 0 where
  no_trans trans conj_trans : TransOp

pub record ScaledTransOp (R : Type 0) : Type 0 where
  pub mat : Matrix (Complex R)
  pub factor : R
  pub op : TransOp

unfoldable pub rows_of : {R : Type 0} → ScaledTransOp R → ℕ
rows_of m = elim m.op [ no_trans ↦ m.mat.nr | _ ↦ m.mat.nc ]

unfoldable pub cols_of : {R : Type 0} → ScaledTransOp R → ℕ
cols_of m = elim m.op [ no_trans ↦ m.mat.nc | _ ↦ m.mat.nr ]

module _ {R : Type 0} ⦃r : Double R⦄ where
  unfoldable pub conj_op : TransOp → Complex R → Complex R
  conj_op conj_trans a = conj a
  conj_op no_trans a = a
  conj_op trans a = a

  unfoldable pub dagger : R → Matrix (Complex R) → ScaledTransOp R
  dagger factor m = record { mat = m; factor = factor; op = conj_trans }

  unfoldable pub transpose : R → Matrix (Complex R) → ScaledTransOp R
  transpose factor m = record { mat = m; factor = factor; op = trans }

  -- `scale * mat`, which scales a copy of the whole buffer.
  unfoldable pub scaled_copy : R → Matrix (Complex R) → Matrix (Complex R)
  scaled_copy factor m = record m {
    buffer = loop (m.nr * m.nc) 0 (λ i out. store out i (scale factor (out i))) m.buffer;
  }

  -- The loops of `matrixScaledTransOp::operator matrix`.
  unfoldable pub transposed :
      (new : ℕ → Complex R) → TransOp → R → Matrix (Complex R) → Matrix (Complex R)
  transposed new op factor m = record {
    nr = m.nc;
    nc = m.nr;
    buffer =
        loop m.nc 0
          (λ i. loop m.nr 0 (λ j out.
            store out (index m.nc i j) (scale factor (conj_op op (m.buffer (index m.nr j i))))))
          new;
  }

  unfoldable pub to_matrix : (new : ℕ → Complex R) → ScaledTransOp R → Matrix (Complex R)
  to_matrix new m = elim m.op [
    | no_trans ↦ scaled_copy m.factor m.mat
    | trans ↦ transposed new trans m.factor m.mat
    | conj_trans ↦ transposed new conj_trans m.factor m.mat
  ]

  -- The constructor from a diagonal matrix.
  unfoldable pub from_diag : DiagMatrix R → Matrix (Complex R)
  from_diag d = record {
    nr = d.size;
    nc = d.size;
    buffer =
        loop d.size 0 (λ i out. store out (index d.size i i) (of_real (d.at i)))
          (λ _. of_real (r.lit 0));
  }

  unfoldable pub diag : (new : ℕ → R) → Matrix (Complex R) → Option (DiagMatrix R)
  diag new m =
      let d : DiagMatrix R = record {
        size = m.nr;
        at = loop m.nr 0 (λ i out. store out i (m.buffer (index m.nr i i)).x) new;
      } in
      if m.nr == m.nc then some d else none

  unfoldable pub trace : Matrix (Complex R) → Option (Complex R)
  trace m =
      if m.nr == m.nc
      then some
          (loop m.nr 0 (λ i sum. add_complex sum (m.buffer (index m.nr i i))) (of_real (r.lit 0)))
      else none

  unfoldable pub trace_diag : DiagMatrix R → R
  trace_diag d = loop d.size 0 (λ i sum. sum ⊕ d.at i) (r.lit 0)

  -- `y[i] += alpha * x[i]` on the diagonal.
  unfoldable pub axpy_diag : R → DiagMatrix R → Matrix (Complex R) → Option (Matrix (Complex R))
  axpy_diag alpha x y =
      let after : Matrix (Complex R) = record y {
        buffer =
            loop y.nr 0
              (λ i out.
                store out (index y.nr i i) (add_real (out (index y.nr i i)) (alpha ⊗ x.at i)))
              y.buffer;
      } in
      if x.size == y.nr && x.size == y.nc then some after else none

  -- `d * m`: eblas_zmuld on each column.
  unfoldable pub diag_times : DiagMatrix R → Matrix (Complex R) → Option (Matrix (Complex R))
  diag_times d m =
      let after : Matrix (Complex R) = record m {
        buffer =
            loop m.nc 0
              (λ j.
                loop m.nr 0
                  (λ i out. store out (index m.nr i j) (scale (d.at i) (out (index m.nr i j)))))
              m.buffer;
      } in
      if d.size == m.nr then some after else none

  -- `m * d`: eblas_zdscal on each column.
  unfoldable pub times_diag : Matrix (Complex R) → DiagMatrix R → Option (Matrix (Complex R))
  times_diag m d =
      let after : Matrix (Complex R) = record m {
        buffer =
            loop m.nc 0
              (λ j.
                loop m.nr 0
                  (λ i out. store out (index m.nr i j) (scale (d.at j) (out (index m.nr i j)))))
              m.buffer;
      } in
      if m.nc == d.size then some after else none

  unfoldable pub diag_times_diag : DiagMatrix R → DiagMatrix R → Option (DiagMatrix R)
  diag_times_diag d e =
      let after : DiagMatrix R = record d {
        at = loop d.size 0 (λ i out. store out i (out i ⊗ e.at i)) d.at;
      } in
      if d.size == e.size then some after else none
