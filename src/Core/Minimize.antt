-- ===== src/Core/Minimize.antt =====
-- jdftx/core/MinimizeParams.h, and the interface `Minimizable` of jdftx/core/Minimize.h.
pub mod Convergence
pub mod Linmin
pub mod Contract
pub mod Rollback
pub mod Descent
pub mod Endings
pub mod Trails
pub mod Truth
pub mod Lbfgs
pub mod Solve
use python_jdftx.Common.{ℕ, Bool}
use python_jdftx.Core.Number.{Double, Space}

pub data DirectionUpdateScheme : Type 0 where
  polak_ribiere : DirectionUpdateScheme
  fletcher_reeves : DirectionUpdateScheme
  hestenes_stiefel : DirectionUpdateScheme
  lbfgs : DirectionUpdateScheme
  steepest_descent : DirectionUpdateScheme

pub data LinminMethod : Type 0 where
  dir_update_recommended : LinminMethod
  relax : LinminMethod
  quad : LinminMethod
  cubic_wolfe : LinminMethod

-- Without what only the log output reads.
pub record MinimizeParams (R : Type 0) : Type 0 where
  pub dir_update_scheme : DirectionUpdateScheme
  pub linmin_method : LinminMethod
  pub n_iterations : ℕ
  pub n_dim : ℕ
  pub history : ℕ
  pub knorm_threshold : R
  pub energy_diff_threshold : R
  pub n_energy_diff : ℕ
  pub alpha_t_start : R
  pub alpha_t_min : R
  pub update_test_step_size : Bool
  pub alpha_t_reduce_factor : R
  pub alpha_t_increase_factor : R
  pub n_alpha_adjust_max : ℕ
  pub wolfe_energy : R
  pub wolfe_gradient : R

-- The virtual functions of `Minimizable`, on an object whose state is of type X. `kill` is the
-- flag that a signal sets, as it is read in each iteration.
pub record Minimizable (R V X : Type 0) : Type 0 where
  pub step : X → V → R → X
  pub compute : X → R × V
  pub precondition : X → V → V
  pub report : ℕ → X → Bool × X
  pub constrain : V → V
  pub sync : R → R
  pub kill : ℕ → Bool

module _ {R V X : Type 0} (obj : Minimizable R V X) where
  -- `sync(compute(&g))`, and the gradient that it stores.
  abbrev pub energy_at : X → R
  energy_at x = obj.sync ((obj.compute x).0)

  abbrev pub gradient_at : X → V
  gradient_at x = (obj.compute x).1
