-- ===== src/Core/Minimize/Truth.antt =====
-- jdftx/core/Minimize.h: what a minimisation says of its end, and that its checks say no more than
-- what holds.
use python_jdftx.Common.{
  List, ℕ, ◌≤◌, ◌≡◌, refl, subst, inl, inr, true, false, some, arith, Bool-cases,
}
use python_jdftx.Core.Number.{Double, Space, ◌⊘◌, ◌≺◌}
use python_jdftx.Core.Minimize.{MinimizeParams, Minimizable, energy_at, gradient_at}
use python_jdftx.Core.Minimize.Convergence.{EdiffCheck, check_convergence}
use python_jdftx.Core.Minimize.Convergence.Runs.{IsSettled, check_convergence-IsSettled}
use python_jdftx.Core.Minimize.Trails.{Way, IsTrail, check_convergence-IsTrail, IsFailed}
use python_jdftx.Core.Minimize.Descent.{
  Stop, gradient_converged, energy_converged, gradient_not_finite, energy_not_finite,
  failed_along_gradient, out_of_iterations, interrupted, Minimized, product, stop_reason,
}

module _ {R V X : Type 0} ⦃r : Double R⦄ ⦃v : Space R V⦄ (obj : Minimizable R V X) where
  -- `report` says whether the state was modified.
  abbrev pub IsHonest : Type 0
  IsHonest = (iter : ℕ) (x : X) → (obj.report iter x).0 ≡ false → (obj.report iter x).1 ≡ x

  -- The square of the norm of the preconditioned gradient.
  abbrev pub norm_at : MinimizeParams R → X → R
  norm_at p x = product obj p (gradient_at obj x) (obj.precondition x (gradient_at obj x))

module _ {R V X : Type 0} ⦃r : Double R⦄ ⦃v : Space R V⦄ (obj : Minimizable R V X)
    (p : MinimizeParams R) (start : X) where
  -- What the reason of an end says of the state.
  unfoldable pub Holds : Stop → ℕ → X → Type 0
  Holds gradient_converged iter x =
      (r.sqrt (norm_at obj p x ⊘ r.lit p.n_dim) ≺ p.knorm_threshold) ≡ true
  Holds energy_converged iter x =
      (c : EdiffCheck R) × IsTrail obj p start c x × IsSettled (energy_at obj x) c
  Holds gradient_not_finite iter x = r.is_finite (norm_at obj p x) ≡ false
  Holds energy_not_finite iter x = r.is_finite (energy_at obj x) ≡ false
  Holds failed_along_gradient iter x = IsFailed obj p x
  Holds out_of_iterations iter x = iter ≡ p.n_iterations
  Holds interrupted iter x = obj.kill iter ≡ true

  -- Energy and gradient returned are those of the state that is left behind, to which the run has
  -- led, and it ended for the reason it gives, within the iterations allowed.
  pub record IsTrue (m : Minimized R V X) : Type 0 where
    pub energy : m.energy ≡ energy_at obj m.state
    pub gradient : m.gradient ≡ gradient_at obj m.state
    pub energies : List R
    pub path : Way obj p start energies m.state
    pub reason : Holds m.why m.iterations m.state
    pub within : m.iterations ≤ p.n_iterations

  pub stop_reason-Holds :
      (iter : ℕ) (x : X) (ediff : EdiffCheck R) (why : Stop)
      → IsTrail obj p start ediff x
      → stop_reason obj p (energy_at obj x) (norm_at obj p x) ediff ≡ some why
      → Holds why iter x
  unfolding stop_reason Holds
  stop_reason-Holds iter x ediff why trail h =
      let be = λ (w : Stop) (q : w ≡ why) (held : Holds w iter x).
        subst (λ (u : Stop). Holds u iter x) q held in
      elim (Bool-cases (r.sqrt (norm_at obj p x ⊘ r.lit p.n_dim) ≺ p.knorm_threshold)) [
        | inl small ↦ be gradient_converged (ground arith) small
        | inr large ↦ elim (Bool-cases (check_convergence (energy_at obj x) ediff).0) [
          | inl settled ↦ be energy_converged (ground arith) (
            (check_convergence (energy_at obj x) ediff).1,
            check_convergence-IsTrail obj p start (energy_at obj x) ediff x refl trail,
            check_convergence-IsSettled (energy_at obj x) ediff trail.run settled,
          )
          | inr moving ↦ elim (Bool-cases (r.is_finite (norm_at obj p x))) [
            | inr wild ↦ be gradient_not_finite (ground arith) wild
            | inl tame ↦ elim (Bool-cases (r.is_finite (energy_at obj x))) [
              | inr wild ↦ be energy_not_finite (ground arith) wild
              | inl fine ↦ absurd (ground arith)
            ]
          ]
        ]
      ]
