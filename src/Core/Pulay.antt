-- ===== src/Core/Pulay.antt =====
-- jdftx/core/Pulay.h: the mixing of self-consistent cycles by the overlaps of past residuals. The
-- inverse of a matrix belongs to LAPACK, and is an argument. A matrix is read by row and column.
pub mod Overlap
pub mod Files
use python_jdftx.Common.{
  ℕ, zero, suc, ◌+◌, ◌-◌, ◌*◌, ◌/◌, ◌%◌, Bool, true, false, ◌&&◌, ◌||◌, List, [], ◌∷◌, ◌++◌, Option,
  none, some, if◌then◌else◌, length, drop, get_elem?, leb, ltb, ◌==◌,
}
use python_jdftx.Core.Number.{Double, Space, ◌⊖◌}
use python_jdftx.Core.Minimize.Convergence.{
  EdiffCheck, ediff_check, check_convergence, NormCheck, norm_check, check_norm,
}

pub record PulayParams (R : Type 0) : Type 0 where
  pub n_iterations : ℕ
  pub history : ℕ
  pub energy_diff_threshold : R
  pub residual_threshold : R

abbrev pub Matrix : Type 0 → Type 0
Matrix R = ℕ → ℕ → R

-- The virtual functions of `Pulay`, on a system whose state is of type X, and `inv`, the inverse of
-- a matrix of a given size. `nothing` is the variable before anything is added to it.
pub record Mixed (R V X : Type 0) : Type 0 where
  pub cycle : R → X → R × List R × X
  pub get_variable : X → V
  pub set_variable : V → X → X
  pub precondition : V → V
  pub apply_metric : V → V
  pub nothing : V
  pub sync : R → R
  pub kill : ℕ → Bool
  pub inv : ℕ → Matrix R → Matrix R

-- The data of `Pulay`.
pub record Past (R V : Type 0) : Type 0 where
  pub variables : List V
  pub residuals : List V
  pub overlap : Matrix R

-- The variables of the loop.
pub record Cycle (R V X : Type 0) : Type 0 where
  pub system : X
  pub past : Past R V
  pub energy : R
  pub energy_change : R
  pub ediff : EdiffCheck R
  pub residual_check : NormCheck R
  pub extra_checks : List (NormCheck R)

module _ {R V X : Type 0} ⦃r : Double R⦄ ⦃v : Space R V⦄ (obj : Mixed R V X)
    (p : PulayParams R) where
  open r use {lit, neg, sqrt}

  -- `overlap.set(0,ndim-1, 0,ndim-1, overlap(1,ndim, 1,ndim))`.
  unfoldable pub shifted : ℕ → Matrix R → Matrix R
  shifted n overlap i j =
      if ltb i (n - 1) && ltb j (n - 1) then overlap (suc i) (suc j) else overlap i j

  -- "If history is full, remove oldest member".
  unfoldable pub remove_oldest : Past R V → Past R V
  remove_oldest s =
      let n = length s.residuals in
      if leb p.history n
      then record {
        variables = drop 1 s.variables;
        residuals = drop 1 s.residuals;
        overlap = if ltb 1 n then shifted n s.overlap else s.overlap;
      }
      else s

  -- The product of a residual with the metric applied to the last one.
  abbrev pub product_with : V → R → Option V → R
  product_with last old none = old
  product_with last old (some a) = v.dot a (obj.apply_metric last)

  -- "Update the overlap matrix", for the residuals with `last` at their end.
  unfoldable pub update_overlap : List V → V → Matrix R → Matrix R
  update_overlap residuals last overlap i j =
      let n = length residuals in
      if j + 1 == n
      then product_with last (overlap i j) (get_elem? residuals i)
      else if i + 1 == n
      then product_with last (overlap i j) (get_elem? residuals j)
      else overlap i j

  -- The overlaps with a row and a column that enforce normalisation.
  unfoldable pub bordered : ℕ → Matrix R → Matrix R
  bordered n overlap i j =
      if ltb i n && ltb j n then overlap i j else if (i == n) && (j == n) then lit 0 else lit 1

  -- The sum of past variables and residuals with their coefficients.
  unfoldable pub combine : (ℕ → R) → ℕ → List V → List V → V → V
  combine weight j [] residuals sum = sum
  combine weight j (x ∷ variables) [] sum = sum
  combine weight j (x ∷ variables) (y ∷ residuals) sum =
      combine weight (suc j) variables residuals
        (v.axpy (weight j) (obj.precondition y) (v.axpy (weight j) x sum))

  -- `NormCheck`s in their order, up to the first that finds convergence.
  unfoldable pub check_extras : List (NormCheck R) → List R → Bool × List (NormCheck R)
  check_extras [] values = (false, [])
  check_extras (c ∷ cs) [] = (false, c ∷ cs)
  check_extras (c ∷ cs) (x ∷ values) =
      let here = check_norm x c in
      let rest = check_extras cs values in
      if here.0 then (true, here.1 ∷ cs) else (rest.0, here.1 ∷ rest.1)

  unfoldable pub synced : List R → List R
  synced [] = []
  synced (x ∷ xs) = obj.sync x ∷ synced xs

  -- The part of a cycle up to the checks: the cycle itself and its residual.
  unfoldable pub run_cycle : Cycle R V X → Cycle R V X × R × List R
  run_cycle c =
      let past = remove_oldest c.past in
      let before = obj.get_variable c.system in
      let out = obj.cycle c.energy_change c.system in
      let energy = obj.sync out.0 in
      let residual = v.axpy (neg (lit 1)) before (obj.get_variable out.2) in
      (
        record c {
          system = out.2;
          past = record past {
            variables = past.variables ++ (before ∷ []);
            residuals = past.residuals ++ (residual ∷ []);
          };
          energy = energy;
          energy_change = energy ⊖ c.energy;
        },
        obj.sync (sqrt (v.dot residual residual)),
        synced out.1,
      )

  -- "Check for convergence": each check is made only while none before it has succeeded.
  unfoldable pub check_cycle : R → List R → Cycle R V X → Bool × Cycle R V X
  check_cycle residual_norm extra_values c =
      let e = check_convergence c.energy c.ediff in
      let n = check_norm residual_norm c.residual_check in
      let x = check_extras c.extra_checks extra_values in
      if e.0
      then (true, record c { ediff = e.1 })
      else if n.0
      then (true, record c { ediff = e.1; residual_check = n.1 })
      else (x.0, record c { ediff = e.1; residual_check = n.1; extra_checks = x.1 })

  -- "DIIS/Pulay mixing", for the residual at the end of the list.
  unfoldable pub mix : V → Cycle R V X → Cycle R V X
  mix last c =
      let n = length c.past.residuals in
      let overlap = update_overlap c.past.residuals last c.past.overlap in
      let weights = obj.inv (n + 1) (bordered n overlap) in
      let sum = combine (λ j. weights j n) 0 c.past.variables c.past.residuals obj.nothing in
      record c {
        past = record (c.past) { overlap = overlap };
        system = obj.set_variable sum c.system;
      }

  unfoldable pub last_residual : V → List V → V
  last_residual d [] = d
  last_residual d (x ∷ xs) = last_residual x xs

  -- One iteration of the loop: whether it ends, and what it leaves.
  unfoldable pub iterate : ℕ → Cycle R V X → Bool × Cycle R V X
  iterate iter c =
      let ran = run_cycle c in
      let checked = check_cycle ran.1 ran.2 ran.0 in
      let d = checked.1 in
      if checked.0 || obj.kill iter
      then (true, d)
      else (false, mix (last_residual obj.nothing d.past.residuals) d)

  unfoldable pub mix_from : (left iter : ℕ) → Cycle R V X → Cycle R V X
  mix_from zero iter c = c
  mix_from (suc left) iter c =
      let next = iterate iter c in
      elim (next.0) [ true ↦ next.1 | false ↦ mix_from left (suc iter) next.1 ]

  unfoldable pub norm_checks : List R → List (NormCheck R)
  norm_checks [] = []
  norm_checks (t ∷ ts) = norm_check 2 t ∷ norm_checks ts

  -- `Pulay::minimize`.
  unfoldable pub minimize_cycles : R → List R → Past R V → X → Cycle R V X
  minimize_cycles energy extra_thresholds past x =
      let e = obj.sync energy in
      mix_from p.n_iterations 0 (record {
        system = x;
        past = past;
        energy = e;
        energy_change = e ⊖ lit 0;
        ediff = (check_convergence e (ediff_check 2 p.energy_diff_threshold)).1;
        residual_check = norm_check 2 p.residual_threshold;
        extra_checks = norm_checks extra_thresholds;
      })
