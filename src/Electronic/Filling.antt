-- ===== src/Electronic/Filling.antt =====
-- jdftx/electronic/ElecInfo.cpp, `nElectronsFermi` and `findMu`: the chemical potential by bisection.
-- `tanh` is an argument, all states are on one process, and the output is left out. The loops take
-- fuel, and yield none without enough of it.
pub mod Bracket
use python_jdftx.Common.{
  ℕ, zero, suc, ◌+◌, ◌^◌, ◌<◌, ◌≡◌, ◌⊎◌, inl, inr, refl, sym, ap, ◌∙◌, Bool, true, false, List, [],
  ◌∷◌, Option, none, some, if◌then◌else◌, arith, Bool-cases,
}
use python_jdftx.Common.Options.{◌>>=◌}
use python_jdftx.Common.Whiles.{while_from}
use python_jdftx.Core.Number.{Double, ◌⊕◌, ◌⊖◌, ◌⊗◌, ◌⊘◌, ◌≺◌, ◌≼◌}

module _ {R : Type 0} ⦃r : Double R⦄ where
  unfoldable pub std_max : R → R → R
  std_max a b = if a ≺ b then b else a

  abbrev pub tenth : R
  tenth = r.lit 1 ⊘ r.lit 10

  abbrev pub half : R
  half = r.lit 1 ⊘ r.lit 2

  abbrev pub abs_tol : R
  abs_tol = r.lit 1 ⊘ r.lit (10 ^ 10)

  abbrev pub rel_tol : R
  rel_tol = r.lit 1 ⊘ r.lit (10 ^ 14)

  -- A state: its weight and its eigenvalues.
  module _ (tanh : R → R) (k_t : R) (states : List (R × List R)) where
    unfoldable pub fermi : (mu eps : R) → R
    fermi mu eps = half ⊗ (r.lit 1 ⊖ tanh ((half ⊘ k_t) ⊗ (eps ⊖ mu)))

    unfoldable pub add_bands : (mu weight : R) → List R → R → R
    add_bands mu weight [] n = n
    add_bands mu weight (eps ∷ bands) n = add_bands mu weight bands (n ⊕ weight ⊗ fermi mu eps)

    unfoldable pub add_states : (mu : R) → List (R × List R) → R → R
    add_states mu [] n = n
    add_states mu ((weight, bands) ∷ rest) n = add_states mu rest (add_bands mu weight bands n)

    unfoldable pub n_electrons_fermi : (mu : R) → R
    n_electrons_fermi mu = add_states mu states (r.lit 0)

    module _ (n_electrons : R) where
      unfoldable pub n_tol : R
      n_tol = std_max abs_tol (rel_tol ⊗ r.fabs n_electrons)

      -- The conditions of the two loops that look for a range.
      unfoldable pub above_range : R → Bool
      above_range mu = (n_electrons ⊕ n_tol) ≼ n_electrons_fermi mu

      unfoldable pub below_range : R → Bool
      below_range mu = n_electrons_fermi mu ≼ (n_electrons ⊖ n_tol)

      unfoldable pub mu_tol : (mu_min mu_max : R) → R
      mu_tol mu_min mu_max =
          std_max (abs_tol ⊗ k_t) (rel_tol ⊗ std_max (r.fabs mu_min) (r.fabs mu_max))

      unfoldable pub narrowed : R × R → R × R
      narrowed (mu_min, mu_max) =
          let mu = half ⊗ (mu_min ⊕ mu_max) in
          if n_electrons ≺ n_electrons_fermi mu then (mu_min, mu) else (mu, mu_max)

      unfoldable pub bisected : (fuel : ℕ) (mu_min mu_max : R) → Option (R × R)
      bisected fuel mu_min mu_max =
          while_from (λ range. mu_tol mu_min mu_max ≼ (range.1 ⊖ range.0)) narrowed fuel
            (mu_min, mu_max)

      unfoldable pub find_mu : (fuel : ℕ) → Option R
      find_mu fuel = do
        mu_min ← while_from above_range (λ mu. mu ⊖ tenth) fuel (r.neg tenth)
        mu_max ← while_from below_range (λ mu. mu ⊕ tenth) fuel (r.lit 0)
        range ← bisected fuel mu_min mu_max
        some (half ⊗ (range.0 ⊕ range.1))
