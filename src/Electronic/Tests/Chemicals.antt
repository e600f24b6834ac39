-- ===== src/Electronic/Tests/Chemicals.antt =====
-- Chemical potentials in numbers with eleven decimal places, for a state whose band is half filled
-- from its eigenvalue on.
use python_jdftx.Common.{
  ℕ, zero, suc, ◌+◌, ◌-◌, ◌*◌, ◌/◌, ◌<◌, ◌≤◌, ◌≡◌, refl, true, List, [], ◌∷◌, none, ltb, leb, ◌==◌,
  if◌then◌else◌, inl, inr, Bool-cases, arith,
}
use python_jdftx.Common.Whiles.{repeated, IsFirst}
use python_jdftx.Core.Number.{Double, ◌⊕◌, ◌⊖◌}
use python_jdftx.Electronic.Filling.{
  tenth, std_max, fermi, add_bands, add_states, n_electrons_fermi, n_tol, above_range, below_range,
  mu_tol, narrowed, find_mu,
}
use python_jdftx.Electronic.Filling.Bracket.{
  too_many, too_few, IsFound, find_mu-IsFound, find_mu_endless,
}

instance decimals : Double ℕ
decimals = record {
  lit = λ n. 100000000000 * n;
  nan = 0;
  add = λ a b. a + b;
  sub = λ a b. a - b;
  mul = λ a b. a * b / 100000000000;
  div = λ a b. 100000000000 * a / b;
  neg = λ a. 0;
  sqrt = λ a. a;
  fabs = λ a. a;
  lt = ltb;
  le = leb;
  is_finite = λ a. true;
  is_zero = λ a. a == 0;
}

abbrev one : ℕ
one = 100000000000

abbrev step : ℕ → ℕ
step a = if a == 0 then 0 else one

abbrev band : List (ℕ × List ℕ)
band = (2 * one, 15000000000 ∷ []) ∷ []

abbrev width : ℕ × ℕ → ℕ
width (low, high) = high - low

abbrev half_electron : ℕ
half_electron = 50000000000

range_down : IsFirst (too_many step one band half_electron) (λ mu. mu ⊖ tenth) 0 0
unfolding repeated above_range n_electrons_fermi add_states add_bands fermi n_tol std_max decimals
range_down = record { before = λ j h. absurd (omega arith); at = refl }

range_up : IsFirst (too_few step one band half_electron) (λ mu. mu ⊕ tenth) 0 2
unfolding repeated below_range n_electrons_fermi add_states add_bands fermi n_tol std_max decimals
range_up = record {
  before = λ j h.
      elim j
          as (λ k.
            k < 2
            → too_few step one band half_electron
                (repeated (too_few step one band half_electron) (λ mu. mu ⊕ tenth) k 0)
              ≡ true) [
                | zero ↦ λ l. refl
                | suc k ↦ λ l. let first : 0 ≡ k = omega arith in rw (← first) refl
              ]
        h;
  at = refl;
}

width_shrinks :
    (range : ℕ × ℕ)
    → leb 10 (range.1 - range.0) ≡ true
    → width (narrowed step one band half_electron range) < width range
unfolding narrowed decimals
width_shrinks (low, high) h =
    let middle : 50000000000 * (low + high) / 100000000000 ≡ (low + high) / 2 = omega arith in
    elim (Bool-cases (
      ltb half_electron
        (n_electrons_fermi step one band (50000000000 * (low + high) / 100000000000)))) [
          | inl t ↦ rw t (ground arith)
          | inr f ↦ rw f (ground arith)
        ]

find_mu-IsFound_example : IsFound step one band half_electron 20000000001 10
unfolding mu_tol std_max repeated decimals
find_mu-IsFound_example =
    find_mu-IsFound step one band half_electron 0 2 20000000001 width range_down range_up
      width_shrinks (omega arith) (omega arith) (omega arith)

-- The band holds two electrons, and three are asked for.
three_above : (mu : ℕ) → too_few step one band 300000000000 mu ≡ true
unfolding below_range n_electrons_fermi add_states add_bands fermi n_tol std_max decimals
three_above mu =
    let t : ℕ = step (50000000000 * (15000000000 - mu) / 100000000000) in
    let few : 200000000000 * (50000000000 * (100000000000 - t) / 100000000000) / 100000000000
        ≤ 299999999990 =
      omega arith in
    ground arith

three_endless : find_mu step one band 300000000000 1000 ≡ none
three_endless = find_mu_endless step one band 300000000000 three_above 1000
