-- ===== src/Core/Minimize/Convergence/Runs.antt =====
-- jdftx/core/Minimize_linmin.h, `EdiffCheck`: the energies that it keeps, and when it is satisfied.
use python_jdftx.Common.{
  ◌+◌, ◌≤◌, ◌≡◌, refl, subst, true, false, List, [], ◌∷◌, ◌++◌, ◌==◌, length, length-append, drop,
  arith, Bool-cases, inl, inr,
}
use python_jdftx.Core.Number.{Double, ◌⊖◌, ◌≺◌, ◌≼◌}
use python_jdftx.Core.Minimize.Convergence.{
  EdiffCheck, last_of, falls_slowly, check_fall, check_convergence,
}

module _ {R : Type 0} ⦃r : Double R⦄ where
  -- Each energy is below the one before it.
  abbrev pub Falls : List R → Type 0
  Falls [] = Unit
  Falls (e ∷ []) = Unit
  Falls (e ∷ f ∷ es) = ((e ≼ f) ≡ false) × Falls (f ∷ es)

  -- No energy is further below the one before it than the threshold.
  abbrev pub IsSlow : R → List R → Type 0
  IsSlow t [] = Unit
  IsSlow t (e ∷ []) = Unit
  IsSlow t (e ∷ f ∷ es) = ((f ≺ e ⊖ t) ≡ false) × IsSlow t (f ∷ es)

  pub record IsRun (c : EdiffCheck R) : Type 0 where
    pub bounded : length c.past ≤ c.n_diff + 1
    pub falls : Falls c.past

  abbrev EndsIn : R → List R → Type 0
  EndsIn e [] = ⊥
  EndsIn e (f ∷ es) = last_of f es ≡ e

  -- As many differences as asked for, up to the last energy, are falls within the threshold.
  pub record IsSettled (e : R) (c : EdiffCheck R) : Type 0 where
    pub full : length c.past ≡ c.n_diff + 1
    pub falls : Falls c.past
    pub slow : IsSlow c.threshold c.past
    pub latest : EndsIn e c.past

  Falls-append :
      (f : R) (es : List R) (e : R)
      → Falls (f ∷ es)
      → (last_of f es ≼ e) ≡ false
      → Falls ((f ∷ es) ++ (e ∷ []))
  unfolding last_of
  Falls-append f [] e h k = (k, tt)
  Falls-append f (g ∷ es) e h k = (h.0, Falls-append g es e h.1 k)

  Falls-drop : (es : List R) → Falls es → Falls (drop 1 es)
  Falls-drop [] h = tt
  Falls-drop (e ∷ []) h = tt
  Falls-drop (e ∷ f ∷ es) h = h.1

  last_of-append : (f : R) (es : List R) (e : R) → last_of f (es ++ (e ∷ [])) ≡ e
  unfolding last_of
  last_of-append f [] e = refl
  last_of-append f (g ∷ es) e = last_of-append g es e

  EndsIn-drop : (f : R) (es : List R) (e : R) → EndsIn e (drop 1 (f ∷ (es ++ (e ∷ []))))
  unfolding last_of
  EndsIn-drop f [] e = refl
  EndsIn-drop f (g ∷ es) e = last_of-append g es e

  falls_slowly-IsSlow : (t : R) (es : List R) → falls_slowly t es ≡ true → IsSlow t es
  unfolding falls_slowly
  falls_slowly-IsSlow t [] h = tt
  falls_slowly-IsSlow t (e ∷ []) h = tt
  falls_slowly-IsSlow t (e ∷ f ∷ es) h =
      let rest = falls_slowly-IsSlow t (f ∷ es) (ground arith) in (ground arith, rest)

  check_fall-IsSettled :
      (e f : R) (es : List R) (c : EdiffCheck R)
      → c.past ≡ f ∷ es
      → IsRun c
      → (last_of f es ≼ e) ≡ false
      → IsRun (check_fall e c).1 × ((check_fall e c).0 ≡ true → IsSettled e (check_fall e c).1)
  unfolding check_fall
  check_fall-IsSettled e f es c past run below =
      let longer = (f ∷ es) ++ (e ∷ []) in
      let size = length-append es (e ∷ []) in
      let falls = Falls-append f es e (subst Falls past run.falls) below in
      let few = subst (λ (xs : List R). length xs ≤ c.n_diff + 1) past run.bounded in
      elim (Bool-cases (length longer == c.n_diff + 2)) [
        | inl over ↦
            let kept = drop 1 longer in
            rw (past, over, check_fall)
              ((
                record { bounded = ground arith; falls = Falls-drop longer falls },
                λ done. record {
                  full = ground arith;
                  falls = Falls-drop longer falls;
                  slow = falls_slowly-IsSlow c.threshold kept (ground arith);
                  latest = EndsIn-drop f es e;
                },
              ))
        | inr fits ↦
            rw (past, fits, check_fall)
              ((
                record { bounded = ground arith; falls = falls },
                λ done. record {
                  full = ground arith;
                  falls = falls;
                  slow = falls_slowly-IsSlow c.threshold longer (ground arith);
                  latest = last_of-append f es e;
                },
              ))
      ]

  -- Both for any energy, whether it is below the last one or not.
  check_convergence_lem :
      (e : R) (c : EdiffCheck R)
      → IsRun c
      → IsRun (check_convergence e c).1
        × ((check_convergence e c).0 ≡ true → IsSettled e (check_convergence e c).1)
  unfolding check_convergence
  check_convergence_lem e c run = by_past c.past refl
    where
      by_past :
          (past : List R)
          → c.past ≡ past
          → IsRun (check_convergence e c).1
            × ((check_convergence e c).0 ≡ true → IsSettled e (check_convergence e c).1)
      by_past [] q =
          rw (q, check_convergence) ((record { bounded = omega arith; falls = tt }, λ done. cc))
      by_past (f ∷ es) q = elim (Bool-cases (last_of f es ≼ e)) [
        | inl up ↦
            rw (q, up, check_convergence)
              ((record { bounded = omega arith; falls = tt }, λ done. cc))
        | inr down ↦ rw (q, down, check_convergence) (check_fall-IsSettled e f es c q run down)
      ]

  -- `checkConvergence` keeps falling energies only, one more than the differences that it checks at
  -- most.
  pub check_convergence-IsRun :
      (e : R) (c : EdiffCheck R) → IsRun c → IsRun (check_convergence e c).1
  check_convergence-IsRun e c run = (check_convergence_lem e c run).0

  -- Where `checkConvergence` is satisfied, with energies that fell before, it has as many
  -- differences as it was asked for, they end in the given energy, and each is a fall by no more
  -- than the threshold.
  pub check_convergence-IsSettled :
      (e : R) (c : EdiffCheck R)
      → IsRun c
      → (check_convergence e c).0 ≡ true
      → IsSettled e (check_convergence e c).1
  check_convergence-IsSettled e c run = (check_convergence_lem e c run).1
