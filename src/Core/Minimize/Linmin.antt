-- ===== src/Core/Minimize/Linmin.antt =====
-- jdftx/core/Minimize_linmin.h: the line minimisations. Each moves the object along a direction,
-- and updates the energy, the gradient and the step size. The test step size is passed by value.
use python_jdftx.Common.{
  ℕ, zero, suc, Bool, true, false, not, ◌&&◌, ◌||◌, Option, none, some, if◌then◌else◌,
}
use python_jdftx.Core.Number.{Double, Space, ◌⊕◌, ◌⊖◌, ◌⊗◌, ◌⊘◌, ◌≺◌, ◌≼◌}
use python_jdftx.Core.Minimize.{
  MinimizeParams, Minimizable, energy_at, gradient_at, DirectionUpdateScheme, steepest_descent,
  lbfgs, LinminMethod, dir_update_recommended, relax, quad, cubic_wolfe,
}

-- What a line minimisation returns, and what it leaves in its reference arguments.
pub record Moved (R V X : Type 0) : Type 0 where
  pub success : Bool
  pub state : X
  pub alpha : R
  pub energy : R
  pub gradient : V

-- The end of the loop over test steps: it gives up at a step size below the threshold, or stops
-- where the curvature has the wrong sign, or has a step size for the actual step.
pub data Tested (R X : Type 0) : Type 0 where
  quit : X → (alpha_prev : R) → Tested R X
  wrong_curvature : X → (alpha : R) → Tested R X
  predicted : X → (alpha_prev alpha : R) → Tested R X

-- What follows from one test step: the end of the loop, or another round from a new size.
pub data Verdict (R X : Type 0) : Type 0 where
  finish : Tested R X → Verdict R X
  again : (alpha_t alpha : R) → Verdict R X

module _ {R V X : Type 0} ⦃r : Double R⦄ ⦃v : Space R V⦄ (obj : Minimizable R V X)
    (p : MinimizeParams R) where
  open r use {lit, sqrt, is_finite}

  -- The derivative of the energy along a direction.
  abbrev pub slope : V → V → R
  slope g d = obj.sync (v.dot g d)

  -- Giving up: the energy and the gradient are left as they were.
  abbrev pub failed : R → V → X → R → Moved R V X
  failed energy g y progress = record {
    success = false;
    state = y;
    alpha = progress;
    energy = energy;
    gradient = g;
  }

  unfoldable pub linmin_relax : V → R → R → R → V → X → Moved R V X
  linmin_relax d alpha_t alpha energy g x =
      let y = obj.step x d alpha_t in
      record {
        success = is_finite (energy_at obj y);
        state = y;
        alpha = alpha_t;
        energy = energy_at obj y;
        gradient = gradient_at obj y;
      }

  -- "Predict step size", and check whether it is reasonable.
  unfoldable pub judge_test : R → R → R → R → X → Verdict R X
  judge_test slope_0 energy alpha_t alpha y =
      let energy_t = energy_at obj y in
      let guess =
        (lit 1 ⊘ lit 2) ⊗ (alpha_t ⊗ alpha_t) ⊗ slope_0 ⊘ (alpha_t ⊗ slope_0 ⊕ energy ⊖ energy_t) in
      if not (is_finite energy_t)
      then again (alpha_t ⊗ p.alpha_t_reduce_factor) alpha
      else if guess ≺ lit 0
      then finish (wrong_curvature y guess)
      else if p.alpha_t_increase_factor ≺ guess ⊘ alpha_t
      then again (alpha_t ⊗ p.alpha_t_increase_factor) guess
      else if alpha_t ⊘ guess ≺ p.alpha_t_reduce_factor
      then again (alpha_t ⊗ p.alpha_t_reduce_factor) guess
      else finish (predicted y alpha_t guess)

  -- The loop over test steps; `alpha_prev` is the progress made so far.
  unfoldable pub test_steps : V → R → R → ℕ → (alpha_t alpha_prev alpha : R) → X → Tested R X
  test_steps d slope_0 energy zero alpha_t alpha_prev alpha x = predicted x alpha_prev alpha
  test_steps d slope_0 energy (suc n) alpha_t alpha_prev alpha x =
      let y = obj.step x d (alpha_t ⊖ alpha_prev) in
      elim (alpha_t ≺ p.alpha_t_min) [
        | true ↦ quit x alpha_prev
        | false ↦ elim (judge_test slope_0 energy alpha_t alpha y) [
          | finish t ↦ t
          | again alpha_t' alpha' ↦ test_steps d slope_0 energy n alpha_t' alpha_t alpha' y
        ]
      ]

  -- A step that left the domain, or that raised the energy.
  abbrev pub is_bad : (original energy : R) → Bool
  is_bad original energy = not (is_finite energy) || (original ≺ energy)

  -- The loop over actual steps, with energy and gradient as they stand, and its outcome.
  unfoldable pub actual_steps : V → R → ℕ → (alpha_prev alpha energy : R) → V → X → Moved R V X
  actual_steps d original zero alpha_prev alpha energy g x = record {
    success = not (is_bad original energy);
    state = x;
    alpha = alpha;
    energy = energy;
    gradient = g;
  }
  actual_steps d original (suc n) alpha_prev alpha energy g x =
      let y = obj.step x d (alpha ⊖ alpha_prev) in
      elim (is_bad original (energy_at obj y)) [
        | true ↦
            actual_steps d original n alpha (alpha ⊗ p.alpha_t_reduce_factor) (energy_at obj y)
              (gradient_at obj y) y
        | false ↦ record {
          success = true;
          state = y;
          alpha = alpha;
          energy = energy_at obj y;
          gradient = gradient_at obj y;
        }
      ]

  -- What follows the test steps. It is the energy before them that is tested for being finite.
  unfoldable pub after_test : V → R → V → ℕ → Tested R X → Moved R V X
  after_test d energy g n (quit y alpha_prev) = failed energy g y alpha_prev
  after_test d energy g n (wrong_curvature y guess) = record {
    success = true;
    state = y;
    alpha = guess;
    energy = energy_at obj y;
    gradient = gradient_at obj y;
  }
  after_test d energy g n (predicted y alpha_prev guess) =
      if not (is_finite energy)
      then failed energy g y alpha_prev
      else actual_steps d energy n alpha_prev guess energy g y

  unfoldable pub linmin_quad : V → R → R → R → V → X → Moved R V X
  linmin_quad d alpha_t alpha energy g x =
      let slope_0 = slope g d in
      let n = p.n_alpha_adjust_max in
      if lit 0 ≼ slope_0
      then failed energy g x (lit 0)
      else after_test d energy g n (test_steps d slope_0 energy n alpha_t (lit 0) alpha x)

  -- The minimum of the cubic through both ends of an interval, as a fraction of it, with its caps.
  unfoldable pub cubic_minimum : (slope_0 slope_1 energy_0 energy_1 : R) → R
  cubic_minimum slope_0 slope_1 energy_0 energy_1 =
      let rise = energy_1 ⊖ energy_0 in
      let a = lit 3 ⊗ (slope_0 ⊕ slope_1 ⊖ lit 2 ⊗ rise) in
      let b = lit 2 ⊗ slope_0 ⊕ slope_1 ⊖ lit 3 ⊗ rise in
      let disc = sqrt (b ⊗ b ⊖ a ⊗ slope_0) in
      let t = if lit 0 ≺ b then (b ⊕ disc) ⊘ a else slope_0 ⊘ (b ⊖ disc) in
      let energy_t = energy_0 ⊕ t ⊗ (slope_0 ⊕ t ⊗ (r.neg b ⊕ t ⊗ a ⊘ lit 3)) in
      let most = p.alpha_t_increase_factor in
      let least = lit 1 ⊖ most in
      let found =
        (lit 0 ≼ b ⊗ b ⊖ a ⊗ slope_0)
        && (is_finite t && ((energy_t ≼ energy_1) && (energy_t ≼ energy_0))) in
      let capped = if most ≺ t then most else t in
      if found
      then (if capped ≺ least then least else capped)
      else if slope_1 ≼ lit 0
      then most
      else least

  -- "Check if we're done (Wolfe conditions)": none, or the next step size with the end of the
  -- interval that is kept, its energy and its slope.
  unfoldable pub judge_cubic :
      (energy_0 slope_0 alpha alpha_prev energy_prev slope_prev energy slope_new : R)
      → Option (R × R × R × R)
  judge_cubic energy_0 slope_0 alpha alpha_prev energy_prev slope_prev energy slope_new =
      let width = alpha ⊖ alpha_prev in
      let fraction = cubic_minimum (slope_prev ⊗ width) (slope_new ⊗ width) energy_prev energy in
      let alpha_new = alpha_prev ⊕ fraction ⊗ width in
      if not (is_finite energy)
      then some (alpha_prev ⊕ p.alpha_t_reduce_factor ⊗ width, alpha_prev, energy_prev, slope_prev)
      else if (energy ≼ energy_0 ⊕ p.wolfe_energy ⊗ alpha ⊗ slope_0)
          && (p.wolfe_gradient ⊗ slope_0 ≼ slope_new)
      then none
      else if energy ≺ energy_prev
      then some (alpha_new, alpha, energy, slope_new)
      else some (alpha_new, alpha_prev, energy_prev, slope_prev)

  -- The loop over cubic steps, `n` of them before the last one.
  unfoldable pub cubic_steps :
      V
      → (energy_0 slope_0 : R) → ℕ
      → (alpha alpha_prev alpha_state energy_prev slope_prev : R) → X
      → Moved R V X
  cubic_steps d energy_0 slope_0 zero alpha alpha_prev alpha_state energy_prev slope_prev x =
      let y = obj.step x d (alpha ⊖ alpha_state) in
      record {
        success = not (is_bad energy_0 (energy_at obj y));
        state = y;
        alpha = alpha;
        energy = energy_at obj y;
        gradient = gradient_at obj y;
      }
  cubic_steps d energy_0 slope_0 (suc n) alpha alpha_prev alpha_state energy_prev slope_prev x =
      let y = obj.step x d (alpha ⊖ alpha_state) in
      elim (judge_cubic energy_0 slope_0 alpha alpha_prev energy_prev slope_prev (energy_at obj y)
        (slope (gradient_at obj y) d)) [
          | none ↦ record {
            success = true;
            state = y;
            alpha = alpha;
            energy = energy_at obj y;
            gradient = gradient_at obj y;
          }
          | some (alpha', alpha_prev', energy_prev', slope_prev') ↦
              cubic_steps d energy_0 slope_0 n alpha' alpha_prev' alpha energy_prev' slope_prev' y
        ]

  unfoldable pub linmin_cubic_wolfe : V → R → R → R → V → X → Moved R V X
  linmin_cubic_wolfe d alpha_t alpha energy g x =
      let slope_0 = slope g d in
      if lit 0 ≼ slope_0
      then failed energy g x (lit 0)
      else cubic_steps d energy slope_0 (suc p.n_alpha_adjust_max) alpha_t (lit 0) (lit 0) energy
          slope_0 x

  -- `getLinmin`.
  unfoldable pub chosen_method : DirectionUpdateScheme → LinminMethod → LinminMethod
  chosen_method steepest_descent dir_update_recommended = relax
  chosen_method lbfgs dir_update_recommended = cubic_wolfe
  chosen_method _ dir_update_recommended = quad
  chosen_method _ m = m

  unfoldable pub linmin_by : LinminMethod → V → R → R → R → V → X → Moved R V X
  linmin_by relax = linmin_relax
  linmin_by quad = linmin_quad
  linmin_by cubic_wolfe = linmin_cubic_wolfe
  linmin_by dir_update_recommended = linmin_quad

  abbrev pub linmin : V → R → R → R → V → X → Moved R V X
  linmin = linmin_by (chosen_method p.dir_update_scheme p.linmin_method)
