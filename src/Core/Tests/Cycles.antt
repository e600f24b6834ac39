-- ===== src/Core/Tests/Cycles.antt =====
-- jdftx/core/Pulay.h on integers, in place of doubles and vectors.
use python_jdftx.Common.{◌≡◌, refl, false, arith, [], ◌∷◌, some, drop, ◌-◌}
use python_jdftx.Common.Int.{ℤ, pos, ◌+ℤ◌, ◌-ℤ◌, ◌*ℤ◌, neg_ℤ}
use python_jdftx.Core.Minimize.Convergence.{
  check_convergence, check_fall, check_norm, last_of, falls_slowly,
}
use python_jdftx.Core.Pulay.{
  Past, PulayParams, Mixed, Cycle, iterate, run_cycle, check_cycle, check_extras, synced, mix,
  combine, remove_oldest, shifted, update_overlap, last_residual, bordered,
}
use python_jdftx.Core.Pulay.Overlap.{IsKept, IsOverlap, iterate-IsKept}
use python_jdftx.Core.Pulay.Files.{save_state, load_state, load_state-save_state}
use python_jdftx.Core.Tests.Descents.{quotient, int_double, int_space}

cycles : Unit {0}
unfolding iterate run_cycle check_cycle check_extras synced mix combine remove_oldest shifted
    update_overlap last_residual bordered check_convergence check_fall check_norm last_of
    falls_slowly ◌+ℤ◌ ◌-ℤ◌ ◌*ℤ◌ neg_ℤ
cycles = tt

-- A cycle that halves its variable. The inverse of the overlaps is taken to be constant.
abbrev halving : Mixed ℤ ℤ ℤ
halving = record {
  cycle = λ change x. (x, [], quotient x (pos 2));
  get_variable = λ x. x;
  set_variable = λ y x. y;
  precondition = λ y. y;
  apply_metric = λ y. y;
  nothing = pos 0;
  sync = λ a. a;
  kill = λ iter. false;
  inv = λ n m i j. pos 1;
}

abbrev pulay_params : PulayParams ℤ
pulay_params = record {
  n_iterations = 3;
  history = 2;
  energy_diff_threshold = pos 0;
  residual_threshold = pos 1;
}

abbrev first_cycle : Cycle ℤ ℤ ℤ
first_cycle = record {
  system = pos 20;
  past = record { variables = []; residuals = []; overlap = λ i j. pos 0 };
  energy = pos 30;
  energy_change = pos 30;
  ediff = record { n_diff = 2; threshold = pos 0; past = [] };
  residual_check = record { n_check = 2; threshold = pos 1; history = [] };
  extra_checks = [];
}

first_cycle-IsKept : IsKept halving pulay_params first_cycle.past
unfolding IsOverlap
first_cycle-IsKept = record {
  paired = refl;
  bounded = omega arith;
  overlaps = λ i j a b le ha hb. cc;
}

first_cycle_goes_on : (iterate halving pulay_params 0 first_cycle).0 ≡ false
unfolding cycles
first_cycle_goes_on = refl

iterate-IsKept_example :
    IsKept halving pulay_params (iterate halving pulay_params 0 first_cycle).1.past
iterate-IsKept_example =
    iterate-IsKept halving pulay_params 0 first_cycle (omega arith) first_cycle-IsKept
      first_cycle_goes_on

load_state-save_state_example :
    (t : Past ℤ ℤ) × (load_state halving pulay_params
        (save_state halving pulay_params (pos 1 ∷ pos 2 ∷ pos 3 ∷ []) (pos 4 ∷ pos 5 ∷ pos 6 ∷ []))
        first_cycle.past
      ≡ some t)
    × (t.variables ≡ drop (3 - 2) (pos 1 ∷ pos 2 ∷ pos 3 ∷ []))
    × (t.residuals ≡ drop (3 - 2) (pos 4 ∷ pos 5 ∷ pos 6 ∷ []))
    × IsKept halving pulay_params t
load_state-save_state_example =
    load_state-save_state halving pulay_params (pos 1 ∷ pos 2 ∷ pos 3 ∷ [])
      (pos 4 ∷ pos 5 ∷ pos 6 ∷ []) first_cycle.past refl
