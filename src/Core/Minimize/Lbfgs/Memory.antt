-- ===== src/Core/Minimize/Lbfgs/Memory.antt =====
-- jdftx/core/Minimize_lBFGS.h: what holds at the end of a run.
use python_jdftx.Common.{
  ℕ, zero, suc, ◌+◌, ◌≤◌, ◌≡◌, refl, sym, ap, subst, ◌∙◌, inl, inr, ◌⊎◌, some, arith, Bool-cases,
  Option-cases,
}
use python_jdftx.Core.Number.{Double, Space}
use python_jdftx.Core.Minimize.{
  DirectionUpdateScheme, lbfgs, polak_ribiere, fletcher_reeves, hestenes_stiefel, steepest_descent,
  MinimizeParams, Minimizable,
}
use python_jdftx.Core.Minimize.Descent.{Stop, Minimized, product, stop_reason}
use python_jdftx.Core.Minimize.Truth.{IsHonest, norm_at, Holds, IsTrue, stop_reason-Holds}
use python_jdftx.Core.Minimize.Endings.{minimize-IsTrue}
use python_jdftx.Core.Minimize.Trails.{begin-IsTrail, check_convergence-IsTrail}
use python_jdftx.Core.Minimize.Lbfgs.{
  Bfgs, Stage, over, running, report_bfgs, stop_at_end, open_bfgs, bfgs_step, bfgs_from, l_bfgs,
  minimize_by,
}
use python_jdftx.Core.Minimize.Lbfgs.Steps.{
  IsReady, report_bfgs-IsReady, bfgs_step-IsReady, bfgs_step-IsFailed,
}

module _ {R V X : Type 0} ⦃r : Double R⦄ ⦃v : Space R V⦄ (obj : Minimizable R V X)
    (p : MinimizeParams R) (start : X) where
  -- The first half of an iteration: its end is true, or the next state is ready.
  Goes : ℕ → Stage R V X → Type 0
  Goes iter (over m) = iter ≤ p.n_iterations → IsTrue obj p start m
  Goes iter (running t) = IsReady obj p start t

  reason-Holds :
      (iter : ℕ) (t : Bfgs R V X) (why : Stop)
      → IsReady obj p start t
      → stop_reason obj p t.energy (product obj p t.gradient t.kg) t.ediff ≡ some why
      → Holds obj p start why iter t.state
  reason-Holds iter t why ready q =
      stop_reason-Holds obj p start iter t.state t.ediff why ready.trail (
        ap (λ (e : R). stop_reason obj p e (norm_at obj p t.state) t.ediff) (sym ready.energy)
        ∙ (ap
              (λ (g : V).
                stop_reason obj p t.energy (product obj p g (obj.precondition t.state g)) t.ediff)
              (sym ready.gradient)
            ∙ (ap (λ (kg : V). stop_reason obj p t.energy (product obj p t.gradient kg) t.ediff)
                  (sym ready.preconditioned)
                ∙ q)))

  open_bfgs-Goes :
      (iter : ℕ) (s : Bfgs R V X)
      → IsHonest obj
      → IsReady obj p start s
      → Goes iter (open_bfgs obj p iter s)
  unfolding open_bfgs stop_at_end Goes Holds
  open_bfgs-Goes iter s honest ready =
      let t = report_bfgs obj p iter s in
      let begun = report_bfgs-IsReady obj p start iter s honest ready in
      elim (Bool-cases (obj.kill iter)) [
        | inl dead ↦
            rw (dead, open_bfgs)
              (λ within. record {
                energy = ready.energy;
                gradient = ready.gradient;
                energies = ready.trail.energies;
                path = ready.trail.path;
                reason = dead;
                within = within;
              })
        | inr alive ↦
            elim (Option-cases
              (stop_reason obj p t.energy (product obj p t.gradient t.kg) t.ediff)) [
                | inl on ↦
                    rw (alive, on, open_bfgs)
                      (record {
                        energy = begun.energy;
                        gradient = begun.gradient;
                        preconditioned = begun.preconditioned;
                        trail =
                            check_convergence-IsTrail obj p start t.energy t.ediff t.state
                              begun.energy begun.trail;
                        bounded = begun.bounded;
                      })
                | inr (why, q) ↦
                    rw (alive, q, open_bfgs)
                      (λ within. record {
                        energy = begun.energy;
                        gradient = begun.gradient;
                        energies = begun.trail.energies;
                        path = begun.trail.path;
                        reason = reason-Holds iter t why begun q;
                        within = within;
                      })
              ]
      ]

  Stage-cases :
      (o : Stage R V X)
      → ((m : Minimized R V X) × (o ≡ over m)) ⊎ ((t : Bfgs R V X) × (o ≡ running t))
  Stage-cases (over m) = inl (m, refl)
  Stage-cases (running t) = inr (t, refl)

  bfgs_from-IsTrue :
      (left iter : ℕ) (s : Bfgs R V X)
      → IsHonest obj
      → 1 ≤ p.history
      → IsReady obj p start s
      → iter + left ≡ p.n_iterations
      → IsTrue obj p start (bfgs_from obj p left iter s)
  unfolding bfgs_from stop_at_end Goes Holds
  bfgs_from-IsTrue zero iter s honest space ready count =
      let goes = open_bfgs-Goes iter s honest ready in
      elim (Stage-cases (open_bfgs obj p iter s)) [
        | inl (m, q) ↦ rw (q, bfgs_from) (subst (Goes iter) q goes (omega arith))
        | inr (t, q) ↦
            let begun : IsReady obj p start t = subst (Goes iter) q goes in
            rw (q, bfgs_from)
              (record {
                energy = begun.energy;
                gradient = begun.gradient;
                energies = begun.trail.energies;
                path = begun.trail.path;
                reason = omega arith;
                within = omega arith;
              })
      ]
  bfgs_from-IsTrue (suc left) iter s honest space ready count =
      let goes = open_bfgs-Goes iter s honest ready in
      elim (Stage-cases (open_bfgs obj p iter s)) [
        | inl (m, q) ↦ rw (q, bfgs_from) (subst (Goes iter) q goes (omega arith))
        | inr (t, q) ↦
            let ready : IsReady obj p start t = subst (Goes iter) q goes in
            let next = bfgs_step-IsReady obj p start t space ready in
            elim (Bool-cases (bfgs_step obj p t).0) [
              | inl on ↦
                  rw (q, on, bfgs_from)
                    (bfgs_from-IsTrue left (suc iter) (bfgs_step obj p t).1 honest space next
                      (omega arith))
              | inr stuck ↦
                  rw (q, stuck, bfgs_from)
                    (record {
                      energy = next.energy;
                      gradient = next.gradient;
                      energies = next.trail.energies;
                      path = next.trail.path;
                      reason = bfgs_step-IsFailed obj p start t ready stuck;
                      within = omega arith;
                    })
            ]
      ]

  -- The same for `lBFGS`.
  pub l_bfgs-IsTrue : IsHonest obj → 1 ≤ p.history → IsTrue obj p start (l_bfgs obj p start)
  unfolding l_bfgs
  l_bfgs-IsTrue honest space =
      bfgs_from-IsTrue p.n_iterations 0 _ honest space
        (record {
          energy = refl;
          gradient = refl;
          preconditioned = refl;
          trail = begin-IsTrail obj p start;
          bounded = omega arith;
        })
        (omega arith)

  -- A minimisation by any scheme returns the energy and the gradient of the state that it leaves,
  -- to which reports and line minimisations, or such that were taken back, led from the first
  -- state, after no more iterations than allowed, and the reason that it gives holds there: a
  -- norm below the threshold; a number that is not finite; the last iteration; the kill flag; the
  -- last energies that it checked on that way, one more than nEnergyDiff, fall down to the one
  -- returned, each by no more than the threshold; or a line minimisation failed and was taken
  -- back, along the gradient or, in lBFGS, with no history left. report says whether it modified
  -- the state, and the history of lBFGS has room for one entry or more.
  pub minimize_by-IsTrue :
      (scheme : DirectionUpdateScheme)
      → IsHonest obj
      → 1 ≤ p.history
      → IsTrue obj p start (minimize_by obj p scheme start)
  unfolding minimize_by
  minimize_by-IsTrue lbfgs honest space = l_bfgs-IsTrue honest space
  minimize_by-IsTrue polak_ribiere honest space = minimize-IsTrue obj p start honest
  minimize_by-IsTrue fletcher_reeves honest space = minimize-IsTrue obj p start honest
  minimize_by-IsTrue hestenes_stiefel honest space = minimize-IsTrue obj p start honest
  minimize_by-IsTrue steepest_descent honest space = minimize-IsTrue obj p start honest
