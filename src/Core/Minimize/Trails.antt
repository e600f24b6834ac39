-- ===== src/Core/Minimize/Trails.antt =====
-- jdftx/core/Minimize.h and Minimize_lBFGS.h: the states that a run comes through, the energies that
-- it checks, and what a step is that fails along the gradient.
use python_jdftx.Common.{
  ℕ, ◌+◌, ◌≡◌, refl, sym, ap, subst, ◌∙◌, inl, inr, true, false, List, [], ◌∷◌, ◌++◌, drop, length,
  ◌==◌, arith, Bool-cases, append_assoc,
}
use python_jdftx.Core.Number.{Double, Space, ◌≼◌}
use python_jdftx.Core.Minimize.{MinimizeParams, Minimizable, energy_at, gradient_at}
use python_jdftx.Core.Minimize.Linmin.{Moved, linmin}
use python_jdftx.Core.Minimize.Convergence.{
  EdiffCheck, ediff_check, last_of, check_fall, check_convergence,
}
use python_jdftx.Core.Minimize.Convergence.Runs.{IsRun, check_convergence-IsRun}
use python_jdftx.Core.Minimize.Lbfgs.{Bfgs, make_room, bfgs_direction}

-- The last entries of a list.
pub record IsRecent {ℓ} {A : Type ℓ} (recent all : List A) : Type ℓ where
  pub older : List A
  pub whole : all ≡ older ++ recent

IsRecent-append {ℓ} :
    {A : Type ℓ} (recent all : List A) (a : A)
    → IsRecent recent all
    → IsRecent (recent ++ (a ∷ [])) (all ++ (a ∷ []))
IsRecent-append recent all a h = record {
  older = h.older;
  whole = ap (λ xs. xs ++ (a ∷ [])) h.whole ∙ append_assoc h.older recent (a ∷ []);
}

IsRecent-drop {ℓ} :
    {A : Type ℓ} (recent all : List A) → IsRecent recent all → IsRecent (drop 1 recent) all
IsRecent-drop [] all h = h
IsRecent-drop (a ∷ recent) all h = record {
  older = h.older ++ (a ∷ []);
  whole = h.whole ∙ sym (append_assoc h.older (a ∷ []) recent);
}

module _ {R V X : Type 0} ⦃r : Double R⦄ ⦃v : Space R V⦄ (obj : Minimizable R V X)
    (p : MinimizeParams R) where
  -- A line minimisation from a state, with the energy and the gradient there.
  pub record Try (x : X) (d : V) : Type 0 where
    pub alpha_t : R
    pub alpha : R
    pub energy : R
    pub gradient : V
    pub current_energy : energy ≡ energy_at obj x
    pub current_gradient : gradient ≡ gradient_at obj x

  abbrev pub outcome : (x : X) (d : V) → Try x d → Moved R V X
  outcome x d t = linmin obj p d t.alpha_t t.alpha t.energy t.gradient x

  abbrev pub undone : (d : V) → Moved R V X → X
  undone d m = obj.step m.state d (r.neg m.alpha)

  -- How a run from `start` comes to a state, with the energies that it checks on the way.
  pub data Way (start : X) : List R → X → Type 0 where
    here : Way start [] start
    reported :
        {es : List R} {x : X} (iter : ℕ) → Way start es x → Way start es (obj.report iter x).1
    checked : {es : List R} {x : X} → Way start es x → Way start (es ++ (energy_at obj x ∷ [])) x
    moved :
        {es : List R} {x : X} (d : V) (t : Try x d)
        → (outcome x d t).success ≡ true
        → Way start es x
        → Way start es (outcome x d t).state
    taken_back :
        {es : List R} {x : X} (d : V) (t : Try x d)
        → (outcome x d t).success ≡ false
        → Way start es x
        → Way start es (undone d (outcome x d t))

  -- The check has the parameters of the minimisation, and keeps the last energies of the run.
  pub record IsTrail (start : X) (c : EdiffCheck R) (x : X) : Type 0 where
    pub n_diff : c.n_diff ≡ p.n_energy_diff
    pub threshold : c.threshold ≡ r.fabs p.energy_diff_threshold
    pub energies : List R
    pub path : Way start energies x
    pub recent : IsRecent c.past energies
    pub run : IsRun c

  -- A run begins with no energies.
  pub begin-IsTrail :
      (start : X) → IsTrail start (ediff_check p.n_energy_diff p.energy_diff_threshold) start
  begin-IsTrail start = record {
    n_diff = refl;
    threshold = refl;
    energies = [];
    path = here;
    recent = record { older = []; whole = refl };
    run = record { bounded = omega arith; falls = tt };
  }

  -- A run that goes on to another state.
  pub IsTrail-on :
      {start : X} {c : EdiffCheck R} {x y : X} (trail : IsTrail start c x)
      → Way start trail.energies y
      → IsTrail start c y
  IsTrail-on t on = record {
    n_diff = t.n_diff;
    threshold = t.threshold;
    energies = t.energies;
    path = on;
    recent = t.recent;
    run = t.run;
  }

  -- What the check keeps of its energies and the new one.
  check_convergence-IsRecent :
      (e : R) (c : EdiffCheck R) (es : List R)
      → IsRecent c.past es
      → IsRecent (check_convergence e c).1.past (es ++ (e ∷ []))
  unfolding check_convergence check_fall
  check_convergence-IsRecent e c es h = by_past c.past refl h
    where
      by_past :
          (past : List R)
          → c.past ≡ past
          → IsRecent past es
          → IsRecent (check_convergence e c).1.past (es ++ (e ∷ []))
      by_past [] q h = rw (q, check_convergence) (record { older = es; whole = refl })
      by_past (f ∷ fs) q h = elim (Bool-cases (last_of f fs ≼ e)) [
        | inl up ↦ rw (q, up, check_convergence) (record { older = es; whole = refl })
        | inr down ↦
            let longer = (f ∷ fs) ++ (e ∷ []) in
            let kept = IsRecent-append (f ∷ fs) es e h in
            elim (Bool-cases (length longer == c.n_diff + 2)) [
              | inl over ↦
                  rw (q, down, check_convergence)
                    (rw (q, over, check_fall) (IsRecent-drop longer (es ++ (e ∷ [])) kept))
              | inr fits ↦ rw (q, down, check_convergence) (rw (q, fits, check_fall) kept)
            ]
      ]

  check_convergence-same :
      (e : R) (c : EdiffCheck R)
      → ((check_convergence e c).1.n_diff ≡ c.n_diff)
        × ((check_convergence e c).1.threshold ≡ c.threshold)
  unfolding check_convergence check_fall
  check_convergence-same e c = (ground arith, ground arith)

  pub check_convergence-IsTrail :
      (start : X) (e : R) (c : EdiffCheck R) (x : X)
      → e ≡ energy_at obj x
      → IsTrail start c x
      → IsTrail start (check_convergence e c).1 x
  check_convergence-IsTrail start e c x at t =
      let (same_n, same_threshold) = check_convergence-same e c in
      record {
        n_diff = same_n ∙ t.n_diff;
        threshold = same_threshold ∙ t.threshold;
        energies = t.energies ++ (e ∷ []);
        path = subst (λ (f : R). Way start (t.energies ++ (f ∷ [])) x) (sym at) (checked t.path);
        recent = check_convergence-IsRecent e c t.energies t.recent;
        run = check_convergence-IsRun e c t.run;
      }

  -- A direction that is the gradient's, up to a factor `beta` that is 0, or the one of lBFGS where
  -- it has no history to drop.
  pub data IsAlong (x : X) (d : V) : Type 0 where
    conjugate :
        (beta : R) (d0 : V)
        → r.is_zero beta ≡ true
        → d ≡ v.axpy (r.neg (r.lit 1)) (obj.precondition x (gradient_at obj x)) (v.scale beta d0)
        → IsAlong x d
    quasi_newton :
        (s : Bfgs R V X)
        → s.kg ≡ obj.precondition x (gradient_at obj x)
        → length (make_room obj p s.history) ≡ 0
        → d ≡ bfgs_direction obj p s
        → IsAlong x d

  -- The state where a line minimisation along the gradient failed and was taken back.
  pub record IsFailed (y : X) : Type 0 where
    pub origin : X
    pub direction : V
    pub along : IsAlong origin direction
    pub attempt : Try origin direction
    pub fails : (outcome origin direction attempt).success ≡ false
    pub back : y ≡ undone direction (outcome origin direction attempt)
