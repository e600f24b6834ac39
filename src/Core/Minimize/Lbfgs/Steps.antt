-- ===== src/Core/Minimize/Lbfgs/Steps.antt =====
-- jdftx/core/Minimize_lBFGS.h: what holds of the history and of the state between iterations.
use python_jdftx.Common.{
  false, ℕ, suc, ◌≤◌, ◌≡◌, refl, sym, ap, ◌∙◌, inl, inr, List, [], ◌∷◌, arith, Bool-cases, length,
  length-append,
}
use python_jdftx.Core.Number.{Double, Space}
use python_jdftx.Core.Minimize.{MinimizeParams, Minimizable, energy_at, gradient_at}
use python_jdftx.Core.Minimize.Linmin.{linmin, chosen_method}
use python_jdftx.Core.Minimize.Contract.{linmin_by-IsCurrent}
use python_jdftx.Core.Minimize.Truth.{IsHonest}
use python_jdftx.Core.Minimize.Trails.{
  Try, reported, moved, taken_back, IsTrail, IsTrail-on, quasi_newton, IsFailed,
}
use python_jdftx.Core.Minimize.Lbfgs.{
  Change, Bfgs, newest_first, make_room, report_bfgs, undo_step, remember, bfgs_step,
  bfgs_direction,
}

module _ {R V X : Type 0} ⦃r : Double R⦄ ⦃v : Space R V⦄ (obj : Minimizable R V X)
    (p : MinimizeParams R) where
  -- One factor is pushed for each entry, so that none is popped off an empty stack.
  pub length-newest_first :
      (history : List (Change R V)) (d : V)
      → length (newest_first obj p history d).1 ≡ length history
  unfolding newest_first
  length-newest_first [] d = refl
  length-newest_first (h ∷ hs) d = ap suc (length-newest_first hs d)

  length-make_room :
      (history : List (Change R V))
      → 1 ≤ p.history
      → length history ≤ p.history
      → suc (length (make_room obj p history)) ≤ p.history
  unfolding make_room
  length-make_room [] room h = ground arith
  length-make_room (c ∷ cs) room h = ground arith

module _ {R V X : Type 0} ⦃r : Double R⦄ ⦃v : Space R V⦄ (obj : Minimizable R V X)
    (p : MinimizeParams R) (start : X) where
  -- What holds between iterations.
  pub record IsReady (s : Bfgs R V X) : Type 0 where
    pub energy : s.energy ≡ energy_at obj s.state
    pub gradient : s.gradient ≡ gradient_at obj s.state
    pub preconditioned : s.kg ≡ obj.precondition s.state s.gradient
    pub trail : IsTrail obj p start s.ediff s.state
    pub bounded : length s.history ≤ p.history

  pub report_bfgs-IsReady :
      (iter : ℕ) (s : Bfgs R V X) → IsHonest obj → IsReady s → IsReady (report_bfgs obj p iter s)
  unfolding report_bfgs
  report_bfgs-IsReady iter s honest ready =
      let on = IsTrail-on obj p ready.trail (reported iter ready.trail.path) in
      elim (Bool-cases (obj.report iter s.state).0) [
        | inl changed ↦
            rw (changed, report_bfgs)
              (record {
                energy = refl;
                gradient = refl;
                preconditioned = refl;
                trail = on;
                bounded = omega arith;
              })
        | inr kept ↦
            let same = honest iter s.state kept in
            rw (kept, report_bfgs)
              (record {
                energy = ready.energy ∙ ap (energy_at obj) (sym same);
                gradient = ready.gradient ∙ ap (gradient_at obj) (sym same);
                preconditioned =
                    ready.preconditioned ∙ ap (λ (x : X). obj.precondition x s.gradient) (sym same);
                trail = on;
                bounded = ready.bounded;
              })
      ]

  abbrev attempted : (s : Bfgs R V X) → IsReady s → Try obj p s.state (bfgs_direction obj p s)
  attempted s ready = record {
    alpha_t = p.alpha_t_start;
    alpha = s.alpha;
    energy = s.energy;
    gradient = s.gradient;
    current_energy = ready.energy;
    current_gradient = ready.gradient;
  }

  pub bfgs_step-IsReady :
      (s : Bfgs R V X) → 1 ≤ p.history → IsReady s → IsReady (bfgs_step obj p s).1
  unfolding bfgs_step remember undo_step
  bfgs_step-IsReady s space ready =
      let d = bfgs_direction obj p s in
      let room = make_room obj p s.history in
      let t = attempted s ready in
      let m = linmin obj p d p.alpha_t_start s.alpha s.energy s.gradient s.state in
      elim (Bool-cases m.success) [
        | inl done ↦
            let now =
              linmin_by-IsCurrent obj p (chosen_method obj p p.dir_update_scheme p.linmin_method) d
                p.alpha_t_start s.alpha s.energy s.gradient s.state ready.energy ready.gradient
                done in
            rw (done, bfgs_step, remember)
              (record {
                energy = now.energy;
                gradient = now.gradient;
                preconditioned = refl;
                trail = IsTrail-on obj p ready.trail (moved d t done ready.trail.path);
                bounded = omega (
                  arith,
                  length-append room (_ ∷ []),
                  length-make_room obj p s.history space ready.bounded,
                );
              })
        | inr fails ↦
            rw (fails, bfgs_step, undo_step)
              (record {
                energy = refl;
                gradient = refl;
                preconditioned = refl;
                trail = IsTrail-on obj p ready.trail (taken_back d t fails ready.trail.path);
                bounded = omega arith;
              })
      ]

  -- A step that does not go on has failed, with no history left.
  pub bfgs_step-IsFailed :
      (s : Bfgs R V X)
      → IsReady s
      → (bfgs_step obj p s).0 ≡ false
      → IsFailed obj p (bfgs_step obj p s).1.state
  unfolding bfgs_step undo_step
  bfgs_step-IsFailed s ready h =
      let d = bfgs_direction obj p s in
      let m = linmin obj p d p.alpha_t_start s.alpha s.energy s.gradient s.state in
      elim (Bool-cases m.success) [
        | inl done ↦ absurd (ground arith)
        | inr fails ↦ record {
          origin = s.state;
          direction = d;
          along =
              quasi_newton s (ready.preconditioned ∙ ap (obj.precondition s.state) ready.gradient)
                (ground arith) refl;
          attempt = attempted s ready;
          fails = fails;
          back = rw fails refl;
        }
      ]
