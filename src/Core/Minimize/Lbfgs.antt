-- ===== src/Core/Minimize/Lbfgs.antt =====
-- jdftx/core/Minimize_lBFGS.h: the limited-memory BFGS method. The list of the history has its
-- oldest entry first, a stack its top.
pub mod Steps
pub mod Memory
use python_jdftx.Common.{
  ℕ, zero, suc, Bool, true, false, not, List, [], ◌∷◌, ◌++◌, Option, none, some, if◌then◌else◌,
  length, drop, ◌==◌,
}
use python_jdftx.Core.Number.{Double, Space, ◌⊖◌, ◌⊗◌, ◌⊘◌}
use python_jdftx.Core.Minimize.{
  DirectionUpdateScheme, lbfgs, MinimizeParams, Minimizable, energy_at, gradient_at,
}
use python_jdftx.Core.Minimize.Linmin.{Moved, linmin}
use python_jdftx.Core.Minimize.Convergence.{EdiffCheck, ediff_check, check_convergence}
use python_jdftx.Core.Minimize.Descent.{
  Stop, failed_along_gradient, out_of_iterations, interrupted, Minimized, product, stop_reason,
  minimize,
}

-- `History`: a change of the variable, the change of its preconditioned residual, and 1/dot(s,y).
pub record Change (R V : Type 0) : Type 0 where
  pub s : V
  pub ky : V
  pub rho : R

pub record Bfgs (R V X : Type 0) : Type 0 where
  pub state : X
  pub energy : R
  pub gradient : V
  pub kg : V
  pub alpha : R
  pub history : List (Change R V)
  pub gamma : R
  pub ediff : EdiffCheck R

pub data Stage (R V X : Type 0) : Type 0 where
  over : Minimized R V X → Stage R V X
  running : Bfgs R V X → Stage R V X

module _ {R V X : Type 0} ⦃r : Double R⦄ ⦃v : Space R V⦄ (obj : Minimizable R V X)
    (p : MinimizeParams R) where
  open r use {lit, is_zero}

  -- The loop from the newest entry to the oldest, with the factors that it pushes.
  unfoldable pub newest_first : List (Change R V) → V → V × List R
  newest_first [] d = (d, [])
  newest_first (h ∷ hs) d =
      let before = newest_first hs d in
      let a = h.rho ⊗ product obj p h.s before.0 in (v.axpy (r.neg a) h.ky before.0, a ∷ before.1)

  -- The loop from the oldest entry to the newest, which pops them.
  unfoldable pub oldest_first : List (Change R V) → List R → V → V
  oldest_first [] stack d = d
  oldest_first (h ∷ hs) [] d = d
  oldest_first (h ∷ hs) (a ∷ stack) d =
      let b = h.rho ⊗ product obj p h.ky d in oldest_first hs stack (v.axpy (a ⊖ b) h.s d)

  unfoldable pub bfgs_direction : Bfgs R V X → V
  bfgs_direction s =
      let first = newest_first s.history s.kg in
      let scaled = if is_zero s.gamma then first.0 else v.scale s.gamma first.0 in
      v.scale (r.neg (lit 1)) (oldest_first s.history first.1 scaled)

  -- "if full, make room for the upcoming history entry".
  unfoldable pub make_room : List (Change R V) → List (Change R V)
  make_room history = if length history == p.history then drop 1 history else history

  unfoldable pub report_bfgs : ℕ → Bfgs R V X → Bfgs R V X
  report_bfgs iter s =
      let reported = obj.report iter s.state in
      let x = reported.1 in
      if reported.0
      then record s {
        state = x;
        energy = energy_at obj x;
        gradient = gradient_at obj x;
        kg = obj.precondition x (gradient_at obj x);
        history = [];
      }
      else record s { state = x }

  unfoldable pub stop_at_end : Stop → ℕ → Bfgs R V X → Minimized R V X
  stop_at_end why iter s = record {
    why = why;
    iterations = iter;
    energy = s.energy;
    gradient = s.gradient;
    state = s.state;
  }

  unfoldable pub open_bfgs : ℕ → Bfgs R V X → Stage R V X
  open_bfgs iter s =
      let t = report_bfgs iter s in
      if obj.kill iter
      then over (stop_at_end interrupted iter s)
      else elim (stop_reason obj p t.energy (product obj p t.gradient t.kg) t.ediff) [
        | some why ↦ over (stop_at_end why iter t)
        | none ↦ running (record t { ediff = (check_convergence t.energy t.ediff).1 })
      ]

  -- A line minimisation that failed is undone; the run goes on unless no history is left.
  unfoldable pub undo_step : V → List (Change R V) → Moved R V X → Bfgs R V X → Bool × Bfgs R V X
  undo_step d history m s =
      let y = obj.step m.state d (r.neg m.alpha) in
      let g = gradient_at obj y in
      (
        not (length history == 0),
        record s {
          state = y;
          energy = energy_at obj y;
          gradient = g;
          kg = obj.precondition y g;
          alpha = m.alpha;
          history = [];
          gamma = if length history == 0 then s.gamma else lit 0;
        },
      )

  -- "Update history".
  unfoldable pub remember : V → List (Change R V) → Moved R V X → Bfgs R V X → Bfgs R V X
  remember d history m s =
      let kg = obj.precondition m.state m.gradient in
      let change = v.scale m.alpha d in
      let ky = v.axpy (lit 1) kg (v.scale (r.neg (lit 1)) s.kg) in
      let y = v.axpy (lit 1) m.gradient (v.scale (r.neg (lit 1)) s.gradient) in
      let y_dot_s = product obj p y change in
      record s {
        state = m.state;
        energy = m.energy;
        gradient = m.gradient;
        kg = kg;
        alpha = m.alpha;
        history = history ++ (record { s = change; ky = ky; rho = lit 1 ⊘ y_dot_s } ∷ []);
        gamma = y_dot_s ⊘ product obj p y ky;
      }

  unfoldable pub bfgs_step : Bfgs R V X → Bool × Bfgs R V X
  bfgs_step s =
      let d = bfgs_direction s in
      let history = make_room s.history in
      let m = linmin obj p d p.alpha_t_start s.alpha s.energy s.gradient s.state in
      if m.success then (true, remember d history m s) else undo_step d history m s

  unfoldable pub bfgs_from : (left iter : ℕ) → Bfgs R V X → Minimized R V X
  bfgs_from zero iter s = elim (open_bfgs iter s) [
    | over result ↦ result
    | running t ↦ stop_at_end out_of_iterations iter t
  ]
  bfgs_from (suc left) iter s = elim (open_bfgs iter s) [
    | over result ↦ result
    | running t ↦
        let next = bfgs_step t in
        elim (next.0) [
          | true ↦ bfgs_from left (suc iter) next.1
          | false ↦ stop_at_end failed_along_gradient iter next.1
        ]
  ]

  unfoldable pub l_bfgs : X → Minimized R V X
  l_bfgs x =
      let g = gradient_at obj x in
      bfgs_from p.n_iterations 0 (record {
        state = x;
        energy = energy_at obj x;
        gradient = g;
        kg = obj.precondition x g;
        alpha = lit 0;
        history = [];
        gamma = lit 0;
        ediff = ediff_check p.n_energy_diff p.energy_diff_threshold;
      })

  -- `Minimizable::minimize`, which leaves one of the schemes to `lBFGS`.
  unfoldable pub minimize_by : DirectionUpdateScheme → X → Minimized R V X
  minimize_by lbfgs x = l_bfgs x
  minimize_by _ x = minimize obj p x
