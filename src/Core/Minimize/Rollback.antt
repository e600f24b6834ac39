-- ===== src/Core/Minimize/Rollback.antt =====
-- jdftx/core/Minimize_linmin.h: "If the step fails, alpha MUST contain the total progress along dir
-- made by this step, so that minimize may reset it back to the original value".
use python_jdftx.Common.{
  ℕ, zero, suc, ◌≡◌, refl, sym, ap, subst, ◌∙◌, ◌⊎◌, inl, inr, true, false, arith, Bool-cases,
  Option-cases,
}
use python_jdftx.Core.Number.{Double, Space, ◌⊖◌, ◌⊗◌, ◌≺◌, ◌≼◌}
use python_jdftx.Core.Minimize.{
  MinimizeParams, Minimizable, energy_at, gradient_at, LinminMethod, dir_update_recommended, relax,
  quad, cubic_wolfe,
}
use python_jdftx.Core.Minimize.Linmin.{
  Moved, Tested, quit, wrong_curvature, predicted, Verdict, finish, again, linmin_relax, judge_test,
  test_steps, is_bad, actual_steps, linmin_quad, judge_cubic, cubic_steps, linmin_cubic_wolfe,
  linmin_by, slope, after_test,
}
use python_jdftx.Core.Minimize.Contract.{Tested-cases}

-- Steps along one direction add up, as in exact arithmetic, and no number is below itself.
pub record IsExact {R V X : Type 0} ⦃r : Double R⦄ (obj : Minimizable R V X) : Type 0 where
  pub step_zero : (x : X) (d : V) → obj.step x d (r.lit 0) ≡ x
  pub step_sub : (x : X) (d : V) (a b : R) → obj.step (obj.step x d a) d (b ⊖ a) ≡ obj.step x d b
  pub step_back : (x : X) (d : V) (a : R) → obj.step (obj.step x d a) d (r.neg a) ≡ x
  pub lt_irrefl : (a : R) → (a ≺ a) ≡ false

module _ {R V X : Type 0} ⦃r : Double R⦄ ⦃v : Space R V⦄ (obj : Minimizable R V X)
    (p : MinimizeParams R) (exact : IsExact obj) where
  -- The state is the one reached by a step of size `a`.
  abbrev IsAt : X → V → R → X → Type 0
  IsAt x d a y = y ≡ obj.step x d a

  IsAt-step : (x y : X) (d : V) (a b : R) → IsAt x d b y → IsAt x d a (obj.step y d (a ⊖ b))
  IsAt-step x y d a b h = rw h (exact.step_sub x d b a)

  cubic_steps-IsAt :
      (d : V) (e0 s0 : R) (n : ℕ) (a a' b e s : R) (x y : X)
      → IsAt x d b y
      → IsAt x d
          (cubic_steps obj p d e0 s0 n a a' b e s y).alpha
          (cubic_steps obj p d e0 s0 n a a' b e s y).state
  unfolding cubic_steps
  cubic_steps-IsAt d e0 s0 zero a a' b e s x y h = IsAt-step x y d a b h
  cubic_steps-IsAt d e0 s0 (suc n) a a' b e s x y h =
      let z = obj.step y d (a ⊖ b) in
      elim (Option-cases
        (judge_cubic obj p e0 s0 a a' e s (energy_at obj z) (slope obj p (gradient_at obj z) d))) [
          | inl done ↦ rw (done, cubic_steps) (IsAt-step x y d a b h)
          | inr ((a2, a3, e2, s2), more) ↦
              rw (more, cubic_steps)
                (cubic_steps-IsAt d e0 s0 n a2 a3 a e2 s2 x z (IsAt-step x y d a b h))
        ]

  linmin_cubic_wolfe-IsAt :
      (d : V) (t a e : R) (g : V) (x : X)
      → IsAt x d
          (linmin_cubic_wolfe obj p d t a e g x).alpha
          (linmin_cubic_wolfe obj p d t a e g x).state
  unfolding linmin_cubic_wolfe
  linmin_cubic_wolfe-IsAt d t a e g x = elim (Bool-cases (r.lit 0 ≼ slope obj p g d)) [
    | inl up ↦ rw (up, linmin_cubic_wolfe) (sym (exact.step_zero x d))
    | inr down ↦
        rw (down, linmin_cubic_wolfe)
          (cubic_steps-IsAt d e (slope obj p g d) (suc p.n_alpha_adjust_max) t (r.lit 0) (r.lit 0) e
            (slope obj p g d) x x (sym (exact.step_zero x d)))
  ]

  -- In exact arithmetic, a step back by the size that linminRelax or linminCubicWolfe reports
  -- leads to the state where it began, whether it succeeded or not.
  pub linmin_by-step_back :
      (m : LinminMethod) (d : V) (t a e : R) (g : V) (x : X)
      → (m ≡ relax) ⊎ (m ≡ cubic_wolfe)
      → let s = linmin_by obj p m d t a e g x in obj.step s.state d (r.neg s.alpha) ≡ x
  unfolding linmin_by linmin_relax
  linmin_by-step_back relax d t a e g x h = exact.step_back x d t
  linmin_by-step_back cubic_wolfe d t a e g x h =
      let s = linmin_cubic_wolfe obj p d t a e g x in
      rw (linmin_cubic_wolfe-IsAt d t a e g x) (exact.step_back x d s.alpha)
  linmin_by-step_back quad d t a e g x h = elim h [ inl q ↦ cc | inr q ↦ cc ]
  linmin_by-step_back dir_update_recommended d t a e g x h = elim h [ inl q ↦ cc | inr q ↦ cc ]

  -- The end of a line minimisation that reports another step size than the one it made.
  pub record IsShort (x : X) (d : V) (m : Moved R V X) : Type 0 where
    pub progress : R
    pub moved : IsAt x d progress m.state
    pub reported : m.alpha ≡ progress ⊗ p.alpha_t_reduce_factor

  actual_steps-IsShort :
      (d : V) (e0 : R) (n : ℕ) (b a e : R) (g : V) (x y : X)
      → IsAt x d b y
      → (n ≡ 0 → a ≡ b ⊗ p.alpha_t_reduce_factor)
      → (actual_steps obj p d e0 n b a e g y).success ≡ false
      → IsShort x d (actual_steps obj p d e0 n b a e g y)
  unfolding actual_steps
  actual_steps-IsShort d e0 zero b a e g x y h reduced fails = record {
    progress = b;
    moved = h;
    reported = reduced refl;
  }
  actual_steps-IsShort d e0 (suc n) b a e g x y h reduced fails =
      let z = obj.step y d (a ⊖ b) in
      elim (Bool-cases (is_bad obj p e0 (energy_at obj z))) [
        | inl bad ↦
            rw (bad, actual_steps)
              (actual_steps-IsShort d e0 n a (a ⊗ p.alpha_t_reduce_factor) (energy_at obj z)
                (gradient_at obj z) x z (IsAt-step x y d a b h) (λ idle. refl) (ground arith))
        | inr good ↦ absurd (ground arith)
      ]

  -- The state at each end of the test steps is where the progress so far leads.
  abbrev EndsAt : X → V → Tested R X → Type 0
  EndsAt x d (quit y b) = IsAt x d b y
  EndsAt x d (wrong_curvature y a) = Unit
  EndsAt x d (predicted y b a) = IsAt x d b y

  Verdict-EndsAt : X → V → R → X → Verdict R X → Type 0
  Verdict-EndsAt x d b y (finish t) = EndsAt x d t
  Verdict-EndsAt x d b y (again t a) = Unit

  Verdict-cases :
      (w : Verdict R X)
      → ((f : Tested R X) × (w ≡ finish f)) ⊎ ((t : R) × (a : R) × (w ≡ again t a))
  Verdict-cases (finish f) = inl (f, refl)
  Verdict-cases (again t a) = inr (t, a, refl)

  judge_test-EndsAt :
      (d : V) (s0 e t a : R) (x y : X)
      → IsAt x d t y
      → Verdict-EndsAt x d t y (judge_test obj p s0 e t a y)
  unfolding judge_test Verdict-EndsAt
  judge_test-EndsAt d s0 e t a x y h = ground arith

  test_steps-EndsAt :
      (d : V) (s0 e : R) (n : ℕ) (t b a : R) (x y : X)
      → IsAt x d b y
      → EndsAt x d (test_steps obj p d s0 e n t b a y)
  unfolding test_steps Verdict-EndsAt
  test_steps-EndsAt d s0 e zero t b a x y h = h
  test_steps-EndsAt d s0 e (suc n) t b a x y h =
      let z = obj.step y d (t ⊖ b) in
      let at = IsAt-step x y d t b h in
      let judged = judge_test-EndsAt d s0 e t a x z at in
      elim (Bool-cases (t ≺ p.alpha_t_min)) [
        | inl small ↦ rw (small, test_steps) h
        | inr large ↦ elim (Verdict-cases (judge_test obj p s0 e t a z)) [
          | inl (f, q) ↦ rw (large, q, test_steps) (subst (Verdict-EndsAt x d t z) q judged)
          | inr (t', a', q) ↦ rw (large, q, test_steps) (test_steps-EndsAt d s0 e n t' t a' x z at)
        ]
      ]

  -- In exact arithmetic, where linminQuad fails, a step back by the size that it reports leads to
  -- where it began, or it has moved by some size and reports that size times the reduction
  -- factor.
  pub linmin_quad-step_back :
      (d : V) (t a e : R) (g : V) (x : X)
      → (linmin_quad obj p d t a e g x).success ≡ false
      → (obj.step
            (linmin_quad obj p d t a e g x).state
            d
            (r.neg (linmin_quad obj p d t a e g x).alpha)
          ≡ x)
        ⊎ IsShort x d (linmin_quad obj p d t a e g x)
  unfolding linmin_quad after_test actual_steps
  linmin_quad-step_back d t a e g x fails =
      let n = p.n_alpha_adjust_max in
      let s0 = slope obj p g d in
      let at = test_steps-EndsAt d s0 e n t (r.lit 0) a x x (sym (exact.step_zero x d)) in
      elim (Bool-cases (r.lit 0 ≼ s0)) [
        | inl up ↦ inl (
            rw (up, linmin_quad)
              (ap (λ (y : X). obj.step y d (r.neg (r.lit 0))) (sym (exact.step_zero x d))
                ∙ exact.step_back x d (r.lit 0)))
        | inr down ↦ elim (Tested-cases obj p (test_steps obj p d s0 e n t (r.lit 0) a x)) [
          | inl (y, b, q) ↦
              inl (rw (down, q, linmin_quad, after_test) (back d b x y (subst (EndsAt x d) q at)))
          | inr (inl (y, a', q)) ↦ absurd (ground arith)
          | inr (inr (y, b, a', q)) ↦ elim (Bool-cases (r.is_finite e)) [
            | inr bad ↦ inl (
                rw (down, q, bad, linmin_quad, after_test) (back d b x y (subst (EndsAt x d) q at)))
            | inl finite ↦ inr (
                rw (down, q, finite, linmin_quad, after_test)
                  (actual_steps-IsShort d e n b a' e g x y (subst (EndsAt x d) q at)
                    (λ idle. absurd (stays n b a' y finite idle (ground arith))) (ground arith)))
          ]
        ]
      ]
    where
      back : (d : V) (b : R) (x y : X) → IsAt x d b y → obj.step y d (r.neg b) ≡ x
      back d b x y h = rw h (exact.step_back x d b)

      stays :
          (n : ℕ) (b a' : R) (y : X)
          → r.is_finite e ≡ true
          → n ≡ 0
          → (actual_steps obj p d e n b a' e g y).success ≡ false
          → ⊥
      stays zero b a' y finite idle h = ground (arith, exact.lt_irrefl e)
      stays (suc n) b a' y finite idle h = omega arith
