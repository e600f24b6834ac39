-- ===== src/Core/Minimize/Contract.antt =====
-- jdftx/core/Minimize_linmin.h: what `minimize` relies on when it calls a line minimisation.
use python_jdftx.Common.{
  ℕ, zero, suc, ◌≡◌, refl, ap, ◌∙◌, ◌⊎◌, inl, inr, true, arith, Bool-cases, Option-cases,
}
use python_jdftx.Core.Number.{Double, Space, ◌⊖◌, ◌⊗◌, ◌≼◌}
use python_jdftx.Core.Minimize.{
  MinimizeParams, Minimizable, energy_at, gradient_at, LinminMethod, dir_update_recommended, relax,
  quad, cubic_wolfe,
}
use python_jdftx.Core.Minimize.Linmin.{
  Moved, Tested, quit, wrong_curvature, predicted, linmin_relax, test_steps, is_bad, actual_steps,
  linmin_quad, judge_cubic, cubic_steps, linmin_cubic_wolfe, linmin_by, slope, after_test,
}

module _ {R V X : Type 0} ⦃r : Double R⦄ ⦃v : Space R V⦄ (obj : Minimizable R V X)
    (p : MinimizeParams R) where
  -- Energy and gradient are those of the state.
  pub record IsCurrent (m : Moved R V X) : Type 0 where
    pub energy : m.energy ≡ energy_at obj m.state
    pub gradient : m.gradient ≡ gradient_at obj m.state

  cubic_steps-IsCurrent :
      (d : V) (e0 s0 : R) (n : ℕ) (a a' b e s : R) (x : X)
      → IsCurrent (cubic_steps obj p d e0 s0 n a a' b e s x)
  unfolding cubic_steps
  cubic_steps-IsCurrent d e0 s0 zero a a' b e s x = record { energy = refl; gradient = refl }
  cubic_steps-IsCurrent d e0 s0 (suc n) a a' b e s x =
      let y = obj.step x d (a ⊖ b) in
      elim (Option-cases
        (judge_cubic obj p e0 s0 a a' e s (energy_at obj y) (slope obj p (gradient_at obj y) d))) [
          | inl done ↦ rw (done, cubic_steps) (record { energy = refl; gradient = refl })
          | inr ((a2, a3, e2, s2), more) ↦
              rw (more, cubic_steps) (cubic_steps-IsCurrent d e0 s0 n a2 a3 a e2 s2 y)
        ]

  actual_steps-IsCurrent :
      (d : V) (e0 : R) (n : ℕ) (b a e : R) (g : V) (x : X)
      → e ≡ energy_at obj x
      → g ≡ gradient_at obj x
      → IsCurrent (actual_steps obj p d e0 n b a e g x)
  unfolding actual_steps
  actual_steps-IsCurrent d e0 zero b a e g x he hg = record { energy = he; gradient = hg }
  actual_steps-IsCurrent d e0 (suc n) b a e g x he hg =
      let y = obj.step x d (a ⊖ b) in
      elim (Bool-cases (is_bad obj p e0 (energy_at obj y))) [
        | inl bad ↦
            rw (bad, actual_steps)
              (actual_steps-IsCurrent d e0 n a (a ⊗ p.alpha_t_reduce_factor) (energy_at obj y)
                (gradient_at obj y) y refl refl)
        | inr good ↦ rw (good, actual_steps) (record { energy = refl; gradient = refl })
      ]

  -- At least one actual step is taken, or no step was taken at all.
  quad_steps-IsCurrent :
      (d : V) (e0 : R) (n : ℕ) (b a e : R) (g : V) (x : X)
      → IsCurrent (actual_steps obj p d e0 (suc n) b a e g x)
  unfolding actual_steps
  quad_steps-IsCurrent d e0 n b a e g x =
      let y = obj.step x d (a ⊖ b) in
      elim (Bool-cases (is_bad obj p e0 (energy_at obj y))) [
        | inl bad ↦
            rw (bad, actual_steps)
              (actual_steps-IsCurrent d e0 n a (a ⊗ p.alpha_t_reduce_factor) (energy_at obj y)
                (gradient_at obj y) y refl refl)
        | inr good ↦ rw (good, actual_steps) (record { energy = refl; gradient = refl })
      ]

  pub Tested-cases :
      (t : Tested R X)
      → ((y : X) × (b : R) × (t ≡ quit y b))
        ⊎ (((y : X) × (a : R) × (t ≡ wrong_curvature y a))
            ⊎ ((y : X) × (b : R) × (a : R) × (t ≡ predicted y b a)))
  Tested-cases (quit y b) = inl (y, b, refl)
  Tested-cases (wrong_curvature y a) = inr (inl (y, a, refl))
  Tested-cases (predicted y b a) = inr (inr (y, b, a, refl))

  abbrev ends_at : X → Tested R X → X
  ends_at x (quit y b) = y
  ends_at x (wrong_curvature y a) = y
  ends_at x (predicted y b a) = y

  linmin_relax-IsCurrent :
      (d : V) (t a e : R) (g : V) (x : X) → IsCurrent (linmin_relax obj p d t a e g x)
  unfolding linmin_relax
  linmin_relax-IsCurrent d t a e g x = record { energy = refl; gradient = refl }

  -- Without test steps nothing has moved yet.
  predicted-IsCurrent :
      (d : V) (s0 t b a e : R) (g : V) (x y : X) (b' a' : R) (n : ℕ)
      → e ≡ energy_at obj x
      → g ≡ gradient_at obj x
      → test_steps obj p d s0 e n t b a x ≡ predicted y b' a'
      → IsCurrent (actual_steps obj p d e n b' a' e g y)
  unfolding test_steps
  predicted-IsCurrent d s0 t b a e g x y b' a' zero he hg q =
      let same : x ≡ y = ap (λ (z : Tested R X). ends_at x z) q in
      actual_steps-IsCurrent d e zero b' a' e g y (he ∙ ap (energy_at obj) same)
        (hg ∙ ap (gradient_at obj) same)
  predicted-IsCurrent d s0 t b a e g x y b' a' (suc n) he hg q =
      quad_steps-IsCurrent d e n b' a' e g y

  linmin_quad-IsCurrent :
      (d : V) (t a e : R) (g : V) (x : X)
      → e ≡ energy_at obj x
      → g ≡ gradient_at obj x
      → (linmin_quad obj p d t a e g x).success ≡ true
      → IsCurrent (linmin_quad obj p d t a e g x)
  unfolding linmin_quad after_test
  linmin_quad-IsCurrent d t a e g x he hg success =
      let n = p.n_alpha_adjust_max in
      elim (Bool-cases (r.lit 0 ≼ slope obj p g d)) [
        | inl up ↦ absurd (ground arith)
        | inr down ↦
            elim (Tested-cases (test_steps obj p d (slope obj p g d) e n t (r.lit 0) a x)) [
              | inl (y, b, q) ↦ absurd (ground arith)
              | inr (inl (y, a', q)) ↦
                  rw (down, q, linmin_quad, after_test) (record { energy = refl; gradient = refl })
              | inr (inr (y, b, a', q)) ↦ elim (Bool-cases (r.is_finite e)) [
                | inr bad ↦ absurd (ground arith)
                | inl finite ↦
                    rw (down, q, finite, linmin_quad, after_test)
                      (predicted-IsCurrent d (slope obj p g d) t (r.lit 0) a e g x y b a' n he hg q)
              ]
            ]
      ]

  linmin_cubic_wolfe-IsCurrent :
      (d : V) (t a e : R) (g : V) (x : X)
      → e ≡ energy_at obj x
      → g ≡ gradient_at obj x
      → IsCurrent (linmin_cubic_wolfe obj p d t a e g x)
  unfolding linmin_cubic_wolfe
  linmin_cubic_wolfe-IsCurrent d t a e g x he hg = elim (Bool-cases (r.lit 0 ≼ slope obj p g d)) [
    | inl up ↦ rw (up, linmin_cubic_wolfe) (record { energy = he; gradient = hg })
    | inr down ↦
        rw (down, linmin_cubic_wolfe)
          (cubic_steps-IsCurrent d e (slope obj p g d) (suc p.n_alpha_adjust_max) t (r.lit 0)
            (r.lit 0) e (slope obj p g d) x)
  ]

  -- Every line minimisation that succeeds leaves the energy and the gradient of its last state.
  pub linmin_by-IsCurrent :
      (m : LinminMethod) (d : V) (t a e : R) (g : V) (x : X)
      → e ≡ energy_at obj x
      → g ≡ gradient_at obj x
      → (linmin_by obj p m d t a e g x).success ≡ true
      → IsCurrent (linmin_by obj p m d t a e g x)
  unfolding linmin_by
  linmin_by-IsCurrent relax d t a e g x he hg ok = linmin_relax-IsCurrent d t a e g x
  linmin_by-IsCurrent quad d t a e g x he hg ok = linmin_quad-IsCurrent d t a e g x he hg ok
  linmin_by-IsCurrent cubic_wolfe d t a e g x he hg ok =
      linmin_cubic_wolfe-IsCurrent d t a e g x he hg
  linmin_by-IsCurrent dir_update_recommended d t a e g x he hg ok =
      linmin_quad-IsCurrent d t a e g x he hg ok
