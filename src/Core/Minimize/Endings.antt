-- ===== src/Core/Minimize/Endings.antt =====
-- jdftx/core/Minimize.h, `Minimizable::minimize`: what holds when a minimisation ends.
use python_jdftx.Common.{
  ℕ, zero, suc, ◌+◌, ◌≤◌, ◌≡◌, refl, sym, ap, subst, ◌∙◌, inl, inr, ◌⊎◌, true, false, some, arith,
  Bool-cases, Option-cases,
}
use python_jdftx.Core.Number.{Double, Space}
use python_jdftx.Core.Minimize.{MinimizeParams, Minimizable, energy_at, gradient_at}
use python_jdftx.Core.Minimize.Linmin.{Moved, chosen_method}
use python_jdftx.Core.Minimize.Contract.{IsCurrent, linmin_by-IsCurrent}
use python_jdftx.Core.Minimize.Trails.{
  Try, undone, reported, moved, taken_back, IsTrail, IsTrail-on, begin-IsTrail,
  check_convergence-IsTrail, conjugate, IsFailed,
}
use python_jdftx.Core.Minimize.Descent.{
  Minimized, Search, Opened, over, running, product, stop_reason, begin_iteration, after_linmin,
  descend, open_iteration, search_from, minimize, update_factor,
}
use python_jdftx.Core.Minimize.Truth.{IsHonest, norm_at, Holds, IsTrue, stop_reason-Holds}

module _ {R V X : Type 0} ⦃r : Double R⦄ ⦃v : Space R V⦄ (obj : Minimizable R V X)
    (p : MinimizeParams R) (start : X) where
  pub record IsFresh (s : Search R V X) : Type 0 where
    pub energy : s.energy ≡ energy_at obj s.state
    pub gradient : s.gradient ≡ gradient_at obj s.state
    pub trail : IsTrail obj p start s.ediff s.state

  begin_iteration-IsFresh :
      (iter : ℕ) (s : Search R V X)
      → IsHonest obj
      → IsFresh s
      → IsFresh (begin_iteration obj p iter s)
  unfolding begin_iteration
  begin_iteration-IsFresh iter s honest fresh =
      let on = IsTrail-on obj p fresh.trail (reported iter fresh.trail.path) in
      elim (Bool-cases (obj.report iter s.state).0) [
        | inl changed ↦
            rw (changed, begin_iteration) (record { energy = refl; gradient = refl; trail = on })
        | inr kept ↦
            let same = honest iter s.state kept in
            rw (kept, begin_iteration)
              (record {
                energy = fresh.energy ∙ ap (energy_at obj) (sym same);
                gradient = fresh.gradient ∙ ap (gradient_at obj) (sym same);
                trail = on;
              })
      ]

  after_linmin-IsFresh :
      (beta : R) (s : Search R V X) (m : Moved R V X)
      → (m.success ≡ true → IsCurrent obj p m)
      → (m.success ≡ true → IsTrail obj p start s.ediff m.state)
      → (m.success ≡ false → IsTrail obj p start s.ediff (undone obj p s.direction m))
      → IsFresh (after_linmin obj p beta s m).1
  unfolding after_linmin
  after_linmin-IsFresh beta s m current there back = elim (Bool-cases m.success) [
    | inl done ↦
        let c = current done in
        rw (done, after_linmin)
          (record { energy = c.energy; gradient = c.gradient; trail = there done })
    | inr failed ↦
        rw (failed, after_linmin) (record { energy = refl; gradient = refl; trail = back failed })
  ]

  -- A step that does not go on has failed, with a factor of 0.
  after_linmin-stuck :
      (beta : R) (s : Search R V X) (m : Moved R V X)
      → (after_linmin obj p beta s m).0 ≡ false
      → (m.success ≡ false)
        × (r.is_zero beta ≡ true)
        × ((after_linmin obj p beta s m).1.state ≡ undone obj p s.direction m)
  unfolding after_linmin
  after_linmin-stuck beta s m h = elim (Bool-cases m.success) [
    | inl done ↦ absurd (ground arith)
    | inr failed ↦ (failed, ground arith, ground arith)
  ]

  -- The direction of a step, and the line minimisation along it.
  abbrev along : (norm : R) → V → Search R V X → V
  along norm kg s =
      v.axpy (r.neg (r.lit 1)) kg (v.scale (update_factor obj p norm kg s) s.direction)

  abbrev attempted :
      (norm : R) (kg : V) (s : Search R V X) → IsFresh s → Try obj p s.state (along norm kg s)
  attempted norm kg s fresh = record {
    alpha_t = s.alpha_t;
    alpha = s.alpha;
    energy = s.energy;
    gradient = s.gradient;
    current_energy = fresh.energy;
    current_gradient = fresh.gradient;
  }

  descend-IsFresh :
      (norm : R) (kg : V) (s : Search R V X) → IsFresh s → IsFresh (descend obj p norm kg s).1
  unfolding descend
  descend-IsFresh norm kg s fresh =
      let trail =
        check_convergence-IsTrail obj p start s.energy s.ediff s.state fresh.energy fresh.trail in
      let t = attempted norm kg s fresh in
      after_linmin-IsFresh (update_factor obj p norm kg s) _ _
        (linmin_by-IsCurrent obj p (chosen_method obj p p.dir_update_scheme p.linmin_method) _ _ _ _
          _ _ fresh.energy fresh.gradient)
        (λ done. IsTrail-on obj p trail (moved (along norm kg s) t done trail.path))
        (λ failed. IsTrail-on obj p trail (taken_back (along norm kg s) t failed trail.path))

  descend-IsFailed :
      (norm : R) (kg : V) (s : Search R V X)
      → IsFresh s
      → kg ≡ obj.precondition s.state s.gradient
      → (descend obj p norm kg s).0 ≡ false
      → IsFailed obj p (descend obj p norm kg s).1.state
  unfolding descend
  descend-IsFailed norm kg s fresh same h =
      let beta = update_factor obj p norm kg s in
      let (fails, none, back) = after_linmin-stuck beta _ _ h in
      record {
        origin = s.state;
        direction = along norm kg s;
        along = conjugate beta s.direction none (
            ap (λ (k : V). v.axpy (r.neg (r.lit 1)) k (v.scale beta s.direction))
              (same ∙ ap (obj.precondition s.state) fresh.gradient));
        attempt = attempted norm kg s fresh;
        fails = fails;
        back = back;
      }

  -- The first half of an iteration: its end is true, or the search goes on afresh.
  Goes : ℕ → Opened R V X → Type 0
  Goes iter (over m) = iter ≤ p.n_iterations → IsTrue obj p start m
  Goes iter (running norm kg t) = IsFresh t × (kg ≡ obj.precondition t.state t.gradient)

  open_iteration-Goes :
      (iter : ℕ) (s : Search R V X)
      → IsHonest obj
      → IsFresh s
      → Goes iter (open_iteration obj p iter s)
  unfolding open_iteration Goes Holds
  open_iteration-Goes iter s honest fresh =
      let t = begin_iteration obj p iter s in
      let begun = begin_iteration-IsFresh iter s honest fresh in
      let kg = obj.precondition t.state t.gradient in
      let norm = product obj p t.gradient kg in
      elim (Bool-cases (obj.kill iter)) [
        | inl dead ↦
            rw (dead, open_iteration)
              (λ within. record {
                energy = fresh.energy;
                gradient = fresh.gradient;
                energies = fresh.trail.energies;
                path = fresh.trail.path;
                reason = dead;
                within = within;
              })
        | inr alive ↦ elim (Option-cases (stop_reason obj p t.energy norm t.ediff)) [
          | inl on ↦ rw (alive, on, open_iteration) (begun, refl)
          | inr (why, q) ↦
              rw (alive, q, open_iteration)
                (λ within. record {
                  energy = begun.energy;
                  gradient = begun.gradient;
                  energies = begun.trail.energies;
                  path = begun.trail.path;
                  reason = stop_reason-Holds obj p start iter t.state t.ediff why begun.trail (
                      subst
                        (λ (e : R). stop_reason obj p e (norm_at obj p t.state) t.ediff ≡ some why)
                        begun.energy
                        (subst
                          (λ (g : V).
                            stop_reason obj p t.energy
                              (product obj p g (obj.precondition t.state g)) t.ediff
                            ≡ some why)
                          begun.gradient q));
                  within = within;
                })
        ]
      ]

  Opened-cases :
      (o : Opened R V X)
      → ((m : Minimized R V X) × (o ≡ over m))
        ⊎ ((norm : R) × (kg : V) × (t : Search R V X) × (o ≡ running norm kg t))
  Opened-cases (over m) = inl (m, refl)
  Opened-cases (running norm kg t) = inr (norm, kg, t, refl)

  search_from-IsTrue :
      (left iter : ℕ) (s : Search R V X)
      → IsHonest obj
      → IsFresh s
      → iter + left ≡ p.n_iterations
      → IsTrue obj p start (search_from obj p left iter s)
  unfolding search_from Goes Holds
  search_from-IsTrue zero iter s honest fresh count =
      let goes = open_iteration-Goes iter s honest fresh in
      elim (Opened-cases (open_iteration obj p iter s)) [
        | inl (m, q) ↦ rw (q, search_from) (subst (Goes iter) q goes (omega arith))
        | inr (norm, kg, t, q) ↦
            let (begun, same) = subst (Goes iter) q goes in
            rw (q, search_from)
              (record {
                energy = begun.energy;
                gradient = begun.gradient;
                energies = begun.trail.energies;
                path = begun.trail.path;
                reason = omega arith;
                within = omega arith;
              })
      ]
  search_from-IsTrue (suc left) iter s honest fresh count =
      let goes = open_iteration-Goes iter s honest fresh in
      elim (Opened-cases (open_iteration obj p iter s)) [
        | inl (m, q) ↦ rw (q, search_from) (subst (Goes iter) q goes (omega arith))
        | inr (norm, kg, t, q) ↦
            let (begun, same) = subst (Goes iter) q goes in
            let next = descend-IsFresh norm kg t begun in
            elim (Bool-cases (descend obj p norm kg t).0) [
              | inl on ↦
                  rw (q, on, search_from)
                    (search_from-IsTrue left (suc iter) (descend obj p norm kg t).1 honest next
                      (omega arith))
              | inr stuck ↦
                  rw (q, stuck, search_from)
                    (record {
                      energy = next.energy;
                      gradient = next.gradient;
                      energies = next.trail.energies;
                      path = next.trail.path;
                      reason = descend-IsFailed norm kg t begun same stuck;
                      within = omega arith;
                    })
            ]
      ]

  -- The nonlinear conjugate gradients and the steepest descent end truthfully.
  pub minimize-IsTrue : IsHonest obj → IsTrue obj p start (minimize obj p start)
  unfolding minimize
  minimize-IsTrue honest =
      search_from-IsTrue p.n_iterations 0 _ honest
        (record { energy = refl; gradient = refl; trail = begin-IsTrail obj p start }) (omega arith)
