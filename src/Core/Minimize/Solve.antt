-- ===== src/Core/Minimize/Solve.antt =====
-- jdftx/core/Minimize.h, `LinearSolvable::solve`: linear conjugate gradients for
-- hessian * state = rhs.
use python_jdftx.Common.{
  ℕ, zero, suc, ◌+◌, ◌≤◌, ◌≡◌, refl, sym, ap, ◌∙◌, inl, inr, Bool, true, false, if◌then◌else◌,
  arith, Bool-cases,
}
use python_jdftx.Core.Number.{Double, Space, ◌⊘◌, ◌≺◌}

-- The virtual functions of `LinearSolvable`; its only data is the vector `state`.
pub record LinearSolvable (R V : Type 0) : Type 0 where
  pub hessian : V → V
  pub precondition : V → V
  pub sync : R → R
  pub kill : ℕ → Bool

-- The variables of the loop.
pub record Residual (R V : Type 0) : Type 0 where
  pub state : V
  pub r : V
  pub z : V
  pub d : V
  pub rdotz : R
  pub rdotz_prev : R

pub record Solved (R V : Type 0) : Type 0 where
  pub converged : Bool
  pub iterations : ℕ
  pub last : Residual R V

module _ {R V : Type 0} ⦃r : Double R⦄ ⦃v : Space R V⦄ (obj : LinearSolvable R V)
    (n_iterations n_dim : ℕ) (knorm_threshold : R) where
  open r use {lit, neg, sqrt, fabs, is_zero}

  -- `rzNorm<p.knormThreshold`.
  abbrev pub is_small : R → Bool
  is_small rdotz = sqrt (fabs rdotz ⊘ lit n_dim) ≺ knorm_threshold

  -- One round of the main loop, up to its check.
  unfoldable pub solve_step : Residual R V → Residual R V
  solve_step s =
      let d =
        if is_zero s.rdotz_prev
        then s.z
        else v.axpy (lit 1) s.z (v.scale (s.rdotz ⊘ s.rdotz_prev) s.d) in
      let w = obj.hessian d in
      let alpha = s.rdotz ⊘ obj.sync (v.dot w d) in
      let rest = v.axpy (neg alpha) w s.r in
      let z = obj.precondition rest in
      record {
        state = v.axpy alpha d s.state;
        r = rest;
        z = z;
        d = d;
        rdotz = obj.sync (v.dot rest z);
        rdotz_prev = s.rdotz;
      }

  unfoldable pub solve_from : (left iter : ℕ) → Residual R V → Solved R V
  solve_from zero iter s = record { converged = false; iterations = iter; last = s }
  solve_from (suc left) iter s =
      let t = solve_step s in
      let rest = solve_from left (suc iter) t in
      if obj.kill iter
      then record { converged = false; iterations = iter; last = s }
      else if is_small t.rdotz
      then record { converged = true; iterations = iter; last = t }
      else rest

  abbrev pub initial : V → V → Residual R V
  initial rhs x =
      let rest = v.axpy (neg (lit 1)) (obj.hessian x) rhs in
      let z = obj.precondition rest in
      record {
        state = x;
        r = rest;
        z = z;
        d = rest;
        rdotz = obj.sync (v.dot rest z);
        rdotz_prev = lit 0;
      }

  unfoldable pub solve : V → V → Solved R V
  solve rhs x =
      let s = initial rhs x in
      if is_small s.rdotz
      then record { converged = true; iterations = 0; last = s }
      else solve_from n_iterations 0 s

  -- The hessian is linear, and sums can be taken in any order, as in exact arithmetic.
  pub record IsLinear : Type 0 where
    pub hessian_axpy :
        (a : R) (d x : V) → obj.hessian (v.axpy a d x) ≡ v.axpy a (obj.hessian d) (obj.hessian x)
    pub axpy_swap :
        (a : R) (w y x : V)
        → v.axpy (neg a) w (v.axpy (neg (lit 1)) y x) ≡ v.axpy (neg (lit 1)) (v.axpy a w y) x

  -- The residual and all that is computed from it belong to the state.
  pub record IsResidual (rhs : V) (s : Residual R V) : Type 0 where
    pub residual : s.r ≡ v.axpy (neg (lit 1)) (obj.hessian s.state) rhs
    pub preconditioned : s.z ≡ obj.precondition s.r
    pub product : s.rdotz ≡ obj.sync (v.dot s.r s.z)

  solve_step-IsResidual :
      (rhs : V) (s : Residual R V) → IsLinear → IsResidual rhs s → IsResidual rhs (solve_step s)
  unfolding solve_step
  solve_step-IsResidual rhs s linear h =
      let t = solve_step s in
      let alpha = s.rdotz ⊘ obj.sync (v.dot (obj.hessian t.d) t.d) in
      record {
        residual =
            ap (v.axpy (neg alpha) (obj.hessian t.d)) h.residual
            ∙ (linear.axpy_swap alpha (obj.hessian t.d) (obj.hessian s.state) rhs
                ∙ ap (λ (y : V). v.axpy (neg (lit 1)) y rhs)
                    (sym (linear.hessian_axpy alpha t.d s.state)));
        preconditioned = refl;
        product = refl;
      }

  -- The last residual is that of the state returned, it is small exactly if the run says that it
  -- converged, and no more iterations were made than allowed.
  pub record IsSolved (rhs : V) (m : Solved R V) : Type 0 where
    pub exact : IsResidual rhs m.last
    pub small : m.converged ≡ is_small m.last.rdotz
    pub within : m.iterations ≤ n_iterations

  solve_from-IsSolved :
      (rhs : V) (left iter : ℕ) (s : Residual R V)
      → IsLinear
      → IsResidual rhs s
      → is_small s.rdotz ≡ false
      → iter + left ≡ n_iterations
      → IsSolved rhs (solve_from left iter s)
  unfolding solve_from
  solve_from-IsSolved rhs zero iter s linear h large count = record {
    exact = h;
    small = sym large;
    within = omega arith;
  }
  solve_from-IsSolved rhs (suc left) iter s linear h large count =
      let t = solve_step s in
      let ht = solve_step-IsResidual rhs s linear h in
      elim (Bool-cases (obj.kill iter)) [
        | inl dead ↦
            rw (dead, solve_from) (record { exact = h; small = sym large; within = omega arith })
        | inr alive ↦ elim (Bool-cases (is_small t.rdotz)) [
          | inl done ↦
              rw (alive, done, solve_from)
                (record { exact = ht; small = sym done; within = omega arith })
          | inr on ↦
              rw (alive, on, solve_from)
                (solve_from-IsSolved rhs left (suc iter) t linear ht on (omega arith))
        ]
      ]

  -- With a linear hessian, in exact arithmetic, the residual with which solve ends is rhs -
  -- hessian * state, its norm is below the threshold exactly if the run says that it converged,
  -- and no more than nIterations are counted.
  pub solve-IsSolved : (rhs x : V) → IsLinear → IsSolved rhs (solve rhs x)
  unfolding solve
  solve-IsSolved rhs x linear =
      let s = initial rhs x in
      let h : IsResidual rhs s = record {
        residual = refl;
        preconditioned = refl;
        product = refl;
      } in
      elim (Bool-cases (is_small s.rdotz)) [
        | inl done ↦ rw (done, solve) (record { exact = h; small = sym done; within = omega arith })
        | inr on ↦
            rw (on, solve) (solve_from-IsSolved rhs n_iterations 0 s linear h on (omega arith))
      ]
