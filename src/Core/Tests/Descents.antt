-- ===== src/Core/Tests/Descents.antt =====
-- The optimisers on a parabola over the integers, in place of doubles and vectors.
use python_jdftx.Common.{
  ◌≡◌, refl, inl, ◌⊎◌, true, false, not, ◌/◌, arith, [], ◌∷◌, if◌then◌else◌, ◌||◌,
}
use python_jdftx.Common.Int.{
  ℤ, pos, negsuc, pos_part, neg_part, ◌+ℤ◌, ◌-ℤ◌, ◌*ℤ◌, neg_ℤ, ltb_ℤ, int_laws, neg_ℤ-mul,
  neg_ℤ_one,
}
use python_jdftx.Core.Number.{Double, Space}
use python_jdftx.Core.Minimize.{
  MinimizeParams, Minimizable, lbfgs, polak_ribiere, LinminMethod, relax, quad, cubic_wolfe,
}
use python_jdftx.Core.Minimize.Linmin.{
  Moved, linmin_by, linmin_relax, linmin_quad, linmin_cubic_wolfe, actual_steps, test_steps,
  judge_test, after_test, chosen_method, cubic_steps, judge_cubic, cubic_minimum,
}
use python_jdftx.Core.Minimize.Rollback.{
  IsExact, IsShort, linmin_by-step_back, linmin_quad-step_back,
}
use python_jdftx.Core.Minimize.Convergence.{
  EdiffCheck, check_convergence, check_fall, check_norm, last_of, falls_slowly,
}
use python_jdftx.Core.Minimize.Convergence.Runs.{IsRun}
use python_jdftx.Core.Minimize.Descent.{
  minimize, search_from, open_iteration, begin_iteration, stop_reason, descend, after_linmin,
  update_factor, scheme_factor, failed_along_gradient,
}
use python_jdftx.Core.Minimize.Truth.{IsTrue, IsHonest}
use python_jdftx.Core.Minimize.Lbfgs.{
  minimize_by, l_bfgs, bfgs_from, open_bfgs, report_bfgs, bfgs_step, remember, undo_step, make_room,
  bfgs_direction, newest_first, oldest_first, stop_at_end,
}
use python_jdftx.Core.Minimize.Lbfgs.Memory.{minimize_by-IsTrue}
use python_jdftx.Core.Minimize.Solve.{
  LinearSolvable, IsLinear, IsSolved, solve, solve_from, solve_step, solve-IsSolved,
}

-- Integers up to a thousand stand for the finite numbers; a quotient is rounded towards zero.
abbrev pub quotient : ℤ → ℤ → ℤ
quotient a b =
    if ltb_ℤ b (pos 0)
    then neg_ℤ (pos (pos_part a / neg_part b) -ℤ pos (neg_part a / neg_part b))
    else pos (pos_part a / pos_part b) -ℤ pos (neg_part a / pos_part b)

instance abbrev pub int_double : Double ℤ
int_double = record {
  lit = pos;
  nan = pos 5000;
  add = ◌+ℤ◌;
  sub = ◌-ℤ◌;
  mul = ◌*ℤ◌;
  div = quotient;
  neg = neg_ℤ;
  sqrt = λ a. a;
  fabs = λ a. if ltb_ℤ a (pos 0) then neg_ℤ a else a;
  lt = ltb_ℤ;
  le = λ a b. not (ltb_ℤ b a);
  is_finite = λ a. ltb_ℤ a (pos 1000);
  is_zero = λ a. not (ltb_ℤ a (pos 0) || ltb_ℤ (pos 0) a);
}

instance abbrev pub int_space : Space ℤ ℤ
int_space = record { dot = ◌*ℤ◌; axpy = λ a x y. y +ℤ a *ℤ x; scale = ◌*ℤ◌; randomize = λ x. x }

-- The energy is the square of the distance from 3; there is one direction.
abbrev parabola : Minimizable ℤ ℤ ℤ
parabola = record {
  step = λ x d a. x +ℤ a;
  compute = λ x. ((x -ℤ pos 3) *ℤ (x -ℤ pos 3), pos 2 *ℤ (x -ℤ pos 3));
  precondition = λ x g. g;
  report = λ iter x. (false, x);
  constrain = λ g. g;
  sync = λ a. a;
  kill = λ iter. false;
}

abbrev params : LinminMethod → MinimizeParams ℤ
params method = record {
  dir_update_scheme = polak_ribiere;
  linmin_method = method;
  n_iterations = 2;
  n_dim = 1;
  history = 2;
  knorm_threshold = pos 1;
  energy_diff_threshold = pos 0;
  n_energy_diff = 2;
  alpha_t_start = pos 40;
  alpha_t_min = pos 1;
  update_test_step_size = true;
  alpha_t_reduce_factor = pos 2;
  alpha_t_increase_factor = pos 3;
  n_alpha_adjust_max = 1;
  wolfe_energy = pos 1;
  wolfe_gradient = pos 1;
}

parabola-step_sub :
    (x d a b : ℤ) → parabola.step (parabola.step x d a) d (b -ℤ a) ≡ parabola.step x d b
parabola-step_sub x d a b = omega int_laws

parabola-IsExact : IsExact parabola
parabola-IsExact = record {
  step_zero = λ x d. omega int_laws;
  step_sub = parabola-step_sub;
  step_back = λ x d a. omega int_laws;
  lt_irrefl = λ a. ground arith;
}

program : Unit {0}
unfolding linmin_by linmin_relax linmin_quad linmin_cubic_wolfe actual_steps test_steps judge_test
    after_test chosen_method cubic_steps judge_cubic cubic_minimum check_convergence check_fall
    check_norm last_of falls_slowly minimize search_from open_iteration begin_iteration stop_reason
    descend after_linmin update_factor scheme_factor l_bfgs bfgs_from open_bfgs report_bfgs
    bfgs_step remember undo_step make_room bfgs_direction newest_first oldest_first stop_at_end
    solve solve_from solve_step ◌+ℤ◌ ◌-ℤ◌ ◌*ℤ◌ neg_ℤ
program = tt

-- The first step leaves the domain, and is undone.
relax_fails :
    (linmin_by parabola
      (params relax)
      relax
      (pos 1)
      (pos 40)
      (pos 0)
      (pos 9)
      (negsuc 5)
      (pos 0)).success
    ≡ false
unfolding program
relax_fails = refl

linmin_by-step_back_example :
    let s =
      linmin_by parabola (params relax) relax (pos 1) (pos 40) (pos 0) (pos 9) (negsuc 5) (pos 0) in
    parabola.step s.state (pos 1) (neg_ℤ s.alpha) ≡ pos 0
linmin_by-step_back_example =
    linmin_by-step_back parabola (params relax) parabola-IsExact relax (pos 1) (pos 40) (pos 0)
      (pos 9) (negsuc 5) (pos 0) (inl refl)

-- The test step leaves the domain, and the actual step raises the energy: it went up to 20, and
-- twice of that is reported.
abbrev quad_run : Moved ℤ ℤ ℤ
quad_run = linmin_quad parabola (params quad) (pos 1) (pos 40) (pos 20) (pos 9) (negsuc 5) (pos 0)

quad_fails : quad_run.success ≡ false
unfolding program
quad_fails = refl

quad_reports : (quad_run.state ≡ pos 20) × (quad_run.alpha ≡ pos 40)
unfolding program
quad_reports = (refl, refl)

linmin_quad-step_back_example :
    (parabola.step quad_run.state (pos 1) (neg_ℤ quad_run.alpha) ≡ pos 0)
    ⊎ IsShort parabola (params quad) parabola-IsExact (pos 0) (pos 1) quad_run
linmin_quad-step_back_example =
    linmin_quad-step_back parabola (params quad) parabola-IsExact (pos 1) (pos 40) (pos 20) (pos 9)
      (negsuc 5) (pos 0) quad_fails

parabola-IsHonest : IsHonest parabola
parabola-IsHonest iter x h = refl

minimize_runs : (minimize parabola (params relax) (pos 4)).why ≡ failed_along_gradient
unfolding program
minimize_runs = refl

minimize_stays : (minimize parabola (params relax) (pos 4)).state ≡ pos 4
unfolding program
minimize_stays = refl

minimize_by-IsTrue_example :
    IsTrue parabola
      (params cubic_wolfe)
      (pos 5)
      (minimize_by parabola (params cubic_wolfe) lbfgs (pos 5))
minimize_by-IsTrue_example =
    minimize_by-IsTrue parabola (params cubic_wolfe) (pos 5) lbfgs parabola-IsHonest (omega arith)

abbrev identity : LinearSolvable ℤ ℤ
identity = record { hessian = λ x. x; precondition = λ x. x; sync = λ a. a; kill = λ iter. false }

identity-axpy_swap :
    (a w y x : ℤ) → x +ℤ neg_ℤ (pos 1) *ℤ y +ℤ neg_ℤ a *ℤ w ≡ x +ℤ neg_ℤ (pos 1) *ℤ (y +ℤ a *ℤ w)
identity-axpy_swap a w y x =
    rw (neg_ℤ-mul a w, neg_ℤ_one y, neg_ℤ_one (y +ℤ a *ℤ w)) (omega int_laws)

identity-IsLinear : IsLinear identity 5 1 (pos 1)
identity-IsLinear = record { hessian_axpy = λ a d x. refl; axpy_swap = identity-axpy_swap }

solve_runs : (solve identity 5 1 (pos 1) (pos 7) (pos 0)).last.state ≡ pos 7
unfolding program
solve_runs = refl

solve-IsSolved_example :
    IsSolved identity 5 1 (pos 1) (pos 7) (solve identity 5 1 (pos 1) (pos 7) (pos 0))
solve-IsSolved_example = solve-IsSolved identity 5 1 (pos 1) (pos 7) (pos 0) identity-IsLinear

-- Energies that fall by 1 twice, with a threshold of 2.
abbrev falling : EdiffCheck ℤ
falling = record { n_diff = 2; threshold = pos 2; past = pos 9 ∷ pos 8 ∷ [] }

falling-IsRun : IsRun falling
falling-IsRun = record { bounded = omega arith; falls = (refl, tt) }

falling_settles : (check_convergence (pos 7) falling).0 ≡ true
unfolding program
falling_settles = refl
