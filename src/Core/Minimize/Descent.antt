-- ===== src/Core/Minimize/Descent.antt =====
-- jdftx/core/Minimize.h, `Minimizable::minimize`: the nonlinear conjugate gradients and steepest
-- descent. The log output and the finite-difference test, which puts the state back, are left out.
use python_jdftx.Common.{ℕ, zero, suc, Bool, true, false, not, Option, none, some, if◌then◌else◌}
use python_jdftx.Core.Number.{Double, Space, ◌⊖◌, ◌⊘◌, ◌≺◌}
use python_jdftx.Core.Minimize.{
  MinimizeParams, Minimizable, energy_at, gradient_at, DirectionUpdateScheme, steepest_descent,
  lbfgs, polak_ribiere, fletcher_reeves, hestenes_stiefel,
}
use python_jdftx.Core.Minimize.Linmin.{Moved, linmin}
use python_jdftx.Core.Minimize.Convergence.{EdiffCheck, ediff_check, check_convergence}

-- Why a minimisation ends. The last two print the same message.
pub data Stop : Type 0 where
  gradient_converged : Stop
  energy_converged : Stop
  gradient_not_finite : Stop
  energy_not_finite : Stop
  failed_along_gradient : Stop
  out_of_iterations : Stop
  interrupted : Stop

pub record Minimized (R V X : Type 0) : Type 0 where
  pub why : Stop
  pub iterations : ℕ
  pub energy : R
  pub gradient : V
  pub state : X

-- The variables of the loop, with the state of the object.
pub record Search (R V X : Type 0) : Type 0 where
  pub state : X
  pub energy : R
  pub gradient : V
  pub gradient_prev : V
  pub direction : V
  pub force_gradient_direction : Bool
  pub alpha_t : R
  pub alpha : R
  pub norm_prev : R
  pub ediff : EdiffCheck R

-- The first half of an iteration: the end, or the norm of the gradient and what is known of it.
pub data Opened (R V X : Type 0) : Type 0 where
  over : Minimized R V X → Opened R V X
  running : R → V → Search R V X → Opened R V X

module _ {R V X : Type 0} ⦃r : Double R⦄ ⦃v : Space R V⦄ (obj : Minimizable R V X)
    (p : MinimizeParams R) where
  open r use {lit, sqrt, is_finite, is_zero}

  abbrev pub product : V → V → R
  product x y = obj.sync (v.dot x y)

  -- The checks on energy and gradient norm, the same in `minimize` and `lBFGS`.
  unfoldable pub stop_reason : (energy norm : R) → EdiffCheck R → Option Stop
  stop_reason energy norm ediff =
      if sqrt (norm ⊘ lit p.n_dim) ≺ p.knorm_threshold
      then some gradient_converged
      else if (check_convergence energy ediff).0
      then some energy_converged
      else if not (is_finite norm)
      then some gradient_not_finite
      else if not (is_finite energy)
      then some energy_not_finite
      else none

  -- "optional reporting/processing", after which the energy is that of the state again.
  unfoldable pub begin_iteration : ℕ → Search R V X → Search R V X
  begin_iteration iter s =
      let reported = obj.report iter s.state in
      let x = reported.1 in
      if reported.0
      then record s {
        state = x;
        energy = energy_at obj x;
        gradient = gradient_at obj x;
        force_gradient_direction = true;
      }
      else record s { state = x }

  -- `beta` by the scheme, before it is cut off at 0.
  unfoldable pub scheme_factor : DirectionUpdateScheme → (norm : R) → V → Search R V X → R
  scheme_factor fletcher_reeves norm kg s = norm ⊘ s.norm_prev
  scheme_factor polak_ribiere norm kg s = (norm ⊖ product s.gradient_prev kg) ⊘ s.norm_prev
  scheme_factor hestenes_stiefel norm kg s =
      (norm ⊖ product s.gradient_prev kg)
      ⊘ (product s.gradient s.direction ⊖ product s.direction s.gradient_prev)
  scheme_factor steepest_descent norm kg s = lit 0
  scheme_factor lbfgs norm kg s = lit 0

  unfoldable pub update_factor : (norm : R) → V → Search R V X → R
  update_factor norm kg s =
      let beta = scheme_factor p.dir_update_scheme norm kg s in
      if s.force_gradient_direction then lit 0 else if beta ≺ lit 0 then lit 0 else beta

  -- Behind the line minimisation: the next iteration, or none where the step failed along the
  -- gradient. A step that failed is undone.
  unfoldable pub after_linmin : (beta : R) → Search R V X → Moved R V X → Bool × Search R V X
  after_linmin beta s m =
      let y = obj.step m.state s.direction (r.neg m.alpha) in
      if m.success
      then (
        true,
        record s {
          state = m.state;
          energy = m.energy;
          gradient = m.gradient;
          alpha = m.alpha;
          alpha_t =
              if p.update_test_step_size
              then (if m.alpha ≺ p.alpha_t_min then p.alpha_t_start else m.alpha)
              else s.alpha_t;
        },
      )
      else (
        not (is_zero beta),
        record s {
          state = y;
          energy = energy_at obj y;
          gradient = gradient_at obj y;
          alpha = m.alpha;
          force_gradient_direction = not (is_zero beta);
        },
      )

  -- The search direction, and the line minimisation along it.
  unfoldable pub descend : (norm : R) → V → Search R V X → Bool × Search R V X
  descend norm kg s =
      let beta = update_factor norm kg s in
      let t = record s {
        direction = v.axpy (r.neg (lit 1)) kg (v.scale beta s.direction);
        gradient_prev = s.gradient;
        norm_prev = norm;
        force_gradient_direction = false;
        ediff = (check_convergence s.energy s.ediff).1;
      } in
      after_linmin beta t (linmin obj p t.direction t.alpha_t t.alpha t.energy t.gradient t.state)

  abbrev pub stopped : Stop → ℕ → Search R V X → Minimized R V X
  stopped why iter s = record {
    why = why;
    iterations = iter;
    energy = s.energy;
    gradient = s.gradient;
    state = s.state;
  }

  -- The first half of an iteration, up to its checks.
  unfoldable pub open_iteration : ℕ → Search R V X → Opened R V X
  open_iteration iter s =
      let t = begin_iteration iter s in
      let kg = obj.precondition t.state t.gradient in
      let norm = product t.gradient kg in
      if obj.kill iter
      then over (stopped interrupted iter s)
      else elim (stop_reason t.energy norm t.ediff) [
        | some why ↦ over (stopped why iter t)
        | none ↦ running norm kg t
      ]

  -- The loop from iteration `iter` on, with `left` iterations to go before `nIterations`.
  unfoldable pub search_from : (left iter : ℕ) → Search R V X → Minimized R V X
  search_from zero iter s = elim (open_iteration iter s) [
    | over result ↦ result
    | running norm kg t ↦ stopped out_of_iterations iter t
  ]
  search_from (suc left) iter s = elim (open_iteration iter s) [
    | over result ↦ result
    | running norm kg t ↦
        let next = descend norm kg t in
        elim (next.0) [
          | true ↦ search_from left (suc iter) next.1
          | false ↦ stopped failed_along_gradient iter next.1
        ]
  ]

  unfoldable pub minimize : X → Minimized R V X
  minimize x = search_from p.n_iterations 0 (record {
    state = x;
    energy = energy_at obj x;
    gradient = gradient_at obj x;
    gradient_prev = gradient_at obj x;
    direction = gradient_at obj x;
    force_gradient_direction = true;
    alpha_t = p.alpha_t_start;
    alpha = p.alpha_t_start;
    norm_prev = lit 0;
    ediff = ediff_check p.n_energy_diff p.energy_diff_threshold;
  })
