-- ===== src/Core/Minimize/Convergence.antt =====
-- jdftx/core/Minimize_linmin.h, `EdiffCheck`, and jdftx/core/Pulay.h, `NormCheck`: the checks that
-- a run has converged. A deque is a list with its front first.
pub mod Runs
use python_jdftx.Common.{
  ℕ, zero, suc, ◌+◌, ◌-◌, ◌≤◌, ◌≡◌, refl, Bool, true, false, not, ◌&&◌, List, [], ◌∷◌, ◌++◌, ◌==◌,
  leb, if◌then◌else◌, length, length-append, drop, all, arith, Bool-cases, inl, inr, Option, none,
  some,
}
use python_jdftx.Core.Number.{Double, ◌⊖◌, ◌≺◌, ◌≼◌}

pub record EdiffCheck (R : Type 0) : Type 0 where
  pub n_diff : ℕ
  pub threshold : R
  pub past : List R

pub record NormCheck (R : Type 0) : Type 0 where
  pub n_check : ℕ
  pub threshold : R
  pub history : List Bool

module _ {R : Type 0} ⦃r : Double R⦄ where
  -- The constructor.
  abbrev pub ediff_check : ℕ → R → EdiffCheck R
  ediff_check n_diff threshold = record { n_diff = n_diff; threshold = r.fabs threshold; past = [] }

  -- `back()`, of a deque that is not empty.
  unfoldable pub last_of : R → List R → R
  last_of e [] = e
  last_of e (f ∷ es) = last_of f es

  -- `at(i+1) >= at(i)-threshold` for the places from the first on.
  unfoldable pub falls_slowly : R → List R → Bool
  falls_slowly threshold [] = true
  falls_slowly threshold (e ∷ []) = true
  falls_slowly threshold (e ∷ f ∷ es) = not (f ≺ e ⊖ threshold) && falls_slowly threshold (f ∷ es)

  -- `checkConvergence` for an energy that is below the last one.
  unfoldable pub check_fall : R → EdiffCheck R → Bool × EdiffCheck R
  check_fall e c =
      let longer = c.past ++ (e ∷ []) in
      let kept = if length longer == c.n_diff + 2 then drop 1 longer else longer in
      ((length kept == c.n_diff + 1) && falls_slowly c.threshold kept, record c { past = kept })

  unfoldable pub check_convergence : R → EdiffCheck R → Bool × EdiffCheck R
  check_convergence e c = elim c.past [
    | [] ↦ (false, record c { past = e ∷ [] })
    | f ∷ es ↦ if last_of f es ≼ e then (false, record c { past = e ∷ [] }) else check_fall e c
  ]

  abbrev pub norm_check : ℕ → R → NormCheck R
  norm_check n_check threshold = record {
    n_check = n_check;
    threshold = r.fabs threshold;
    history = [];
  }

  unfoldable pub check_norm : R → NormCheck R → Bool × NormCheck R
  check_norm norm c =
      let longer = c.history ++ ((r.fabs norm ≺ c.threshold) ∷ []) in
      let kept = if length longer == suc c.n_check then drop 1 longer else longer in
      ((length kept == c.n_check) && all (λ b. b) kept, record c { history = kept })
