-- ===== src/Electronic/Filling/Bracket.antt =====
-- jdftx/electronic/ElecInfo.cpp, `findMu`: the range that it bisects holds the chemical potential, and
-- there may be none.
use python_jdftx.Common.{
  ℕ, ◌<◌, ◌≡◌, ◌⊎◌, inl, inr, refl, ap, ◌∙◌, Bool, true, false, List, Option, none, some,
  Bool-cases,
}
use python_jdftx.Common.Options.{◌>>=◌}
use python_jdftx.Common.Whiles.{
  while_from, repeated, IsFirst, while_from-IsFirst, while_from-endless, while_from-ends,
}
use python_jdftx.Core.Number.{Double, ◌⊕◌, ◌⊖◌, ◌⊗◌, ◌≺◌, ◌≼◌}
use python_jdftx.Electronic.Filling.{
  tenth, half, n_electrons_fermi, above_range, below_range, mu_tol, narrowed, bisected, find_mu,
  n_tol,
}

>>=-eq-none :
    {A B : Type 0} (o : Option A) (next : A → Option B)
    → ((a : A) → next a ≡ none)
    → (o >>= next) ≡ none
>>=-eq-none none next h = refl
>>=-eq-none (some a) next h = h a

module _ {R : Type 0} ⦃r : Double R⦄ (tanh : R → R) (k_t : R) (states : List (R × List R))
    (n_electrons : R) where
  abbrev pub electrons : R → R
  electrons = n_electrons_fermi tanh k_t states

  abbrev pub too_many : R → Bool
  too_many mu = (n_electrons ⊕ n_tol tanh k_t states n_electrons) ≼ electrons mu

  abbrev pub too_few : R → Bool
  too_few mu = electrons mu ≼ (n_electrons ⊖ n_tol tanh k_t states n_electrons)

  -- The lower end holds no more than the electrons asked for, or not so many as they and the
  -- tolerance; the upper end holds more than they, or more than they less the tolerance.
  pub record IsBracket (range : R × R) : Type 0 where
    pub low : (too_many range.0 ≡ false) ⊎ ((n_electrons ≺ electrons range.0) ≡ false)
    pub high : (too_few range.1 ≡ false) ⊎ ((n_electrons ≺ electrons range.1) ≡ true)

  narrowed-IsBracket :
      (range : R × R) → IsBracket range → IsBracket (narrowed tanh k_t states n_electrons range)
  unfolding narrowed
  narrowed-IsBracket (mu_min, mu_max) b =
      let mu = half ⊗ (mu_min ⊕ mu_max) in
      elim (Bool-cases (n_electrons ≺ electrons mu)) [
        | inl t ↦ rw t (record { low = b.low; high = inr t })
        | inr f ↦ rw f (record { low = inr f; high = b.high })
      ]

  pub record IsFound (fuel : ℕ) (tol : R) : Type 0 where
    pub range : R × R
    pub found : find_mu tanh k_t states n_electrons fuel ≡ some (half ⊗ (range.0 ⊕ range.1))
    pub close : (tol ≼ (range.1 ⊖ range.0)) ≡ false
    pub bracket : IsBracket range

  module _ (down up : ℕ) where
    abbrev pub start_min : R
    start_min = repeated too_many (λ mu. mu ⊖ tenth) down (r.neg tenth)

    abbrev pub start_max : R
    start_max = repeated too_few (λ mu. mu ⊕ tenth) up (r.lit 0)

    abbrev pub start_tol : R
    start_tol = mu_tol tanh k_t states n_electrons start_min start_max

    found :
        (fuel : ℕ) {lo hi : R} {range : R × R}
        → while_from too_many (λ mu. mu ⊖ tenth) fuel (r.neg tenth) ≡ some lo
        → while_from too_few (λ mu. mu ⊕ tenth) fuel (r.lit 0) ≡ some hi
        → bisected tanh k_t states n_electrons fuel lo hi ≡ some range
        → find_mu tanh k_t states n_electrons fuel ≡ some (half ⊗ (range.0 ⊕ range.1))
    unfolding find_mu above_range below_range
    found fuel {lo} {hi} {range} e f g =
        let middle = λ (range : R × R). some (half ⊗ (range.0 ⊕ range.1)) in
        let upper = while_from too_few (λ mu. mu ⊕ tenth) fuel (r.lit 0) in
        ap
          (λ o. o >>= (λ mu_min.
            upper
            >>= (λ mu_max. bisected tanh k_t states n_electrons fuel mu_min mu_max >>= middle)))
          e
        ∙ ap (λ o. o >>= (λ mu_max. bisected tanh k_t states n_electrons fuel lo mu_max >>= middle))
            f
        ∙ ap (λ o. o >>= middle) g

    -- Where steps down and up reach a range, and each bisection above the tolerance lowers some
    -- measure of the range: with more fuel than there are steps and than the measure, findMu
    -- returns the middle of a range closer than the tolerance, at whose lower end the states hold
    -- no more electrons than asked for, or fewer than these and nTol, and at whose upper end they
    -- hold more, or more than these less nTol.
    pub find_mu-IsFound :
        (fuel : ℕ) (size : R × R → ℕ)
        → IsFirst too_many (λ mu. mu ⊖ tenth) (r.neg tenth) down
        → IsFirst too_few (λ mu. mu ⊕ tenth) (r.lit 0) up
        → ((range : R × R)
            → (start_tol ≼ (range.1 ⊖ range.0)) ≡ true
            → size (narrowed tanh k_t states n_electrons range) < size range)
        → down < fuel
        → up < fuel
        → size (start_min, start_max) < fuel
        → IsFound fuel start_tol
    unfolding bisected
    find_mu-IsFound fuel size first_down first_up shrinks hd hu hs =
        let lower =
          while_from-IsFirst too_many (λ mu. mu ⊖ tenth) down fuel (r.neg tenth) first_down hd in
        let upper = while_from-IsFirst too_few (λ mu. mu ⊕ tenth) up fuel (r.lit 0) first_up hu in
        let goes = λ (range : R × R). start_tol ≼ (range.1 ⊖ range.0) in
        let (range, ends, close, bracket) =
          while_from-ends goes (narrowed tanh k_t states n_electrons) IsBracket size fuel
            (start_min, start_max) narrowed-IsBracket shrinks
            (record { low = inl first_down.at; high = inl first_up.at }) hs in
        record {
          range = range;
          found = found fuel lower upper ends;
          close = close;
          bracket = bracket;
        }

  -- Where no chemical potential brings the number of electrons close to the one that is asked for, as
  -- where the states cannot hold so many, findMu does not end.
  pub find_mu_endless :
      ((mu : R) → too_few mu ≡ true) → (fuel : ℕ) → find_mu tanh k_t states n_electrons fuel ≡ none
  unfolding find_mu above_range below_range
  find_mu_endless h fuel =
      let upper = while_from-endless too_few (λ mu. mu ⊕ tenth) h fuel (r.lit 0) in
      let rest = λ (mu_min mu_max : R).
        bisected tanh k_t states n_electrons fuel mu_min mu_max
        >>= (λ range. some (half ⊗ (range.0 ⊕ range.1))) in
      let lower = while_from too_many (λ mu. mu ⊖ tenth) fuel (r.neg tenth) in
      >>=-eq-none lower
        (λ mu_min. while_from too_few (λ mu. mu ⊕ tenth) fuel (r.lit 0) >>= rest mu_min)
        (λ mu_min. ap (λ o. o >>= rest mu_min) upper)
