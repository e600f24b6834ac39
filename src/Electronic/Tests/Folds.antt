-- ===== src/Electronic/Tests/Folds.antt =====
-- k-points in numbers with three binary digits behind the point.
use python_jdftx.Common.{
  ℕ, ◌+◌, ◌-◌, ◌*◌, ◌/◌, ◌%◌, ◌≡◌, refl, true, List, [], ◌∷◌, ltb, leb, ◌==◌, length, arith,
}
use python_jdftx.Common.Int.{pos}
use python_jdftx.Core.Number.{Double}
use python_jdftx.Core.Grid.{Vector3}
use python_jdftx.Electronic.Kmesh.Weights.{IsExactSum}
use python_jdftx.Electronic.Folding.{
  Point, is_normalized, sum_weights, fold_points, fold_point, each, IsDivisible, times, IsFolding,
  kpoints_fold-IsFolding,
}

instance fixed_doubles : Double ℕ
fixed_doubles = record {
  lit = λ n. 8 * n;
  nan = 0;
  add = λ a b. a + b;
  sub = λ a b. a - b;
  mul = λ a b. a * b / 8;
  div = λ a b. 8 * a / b;
  neg = λ a. a;
  sqrt = λ a. a;
  fabs = λ a. a;
  lt = ltb;
  le = leb;
  is_finite = λ a. true;
  is_zero = λ a. a == 0;
}

fixed-IsExactSum : IsExactSum ℕ
unfolding fixed_doubles
fixed-IsExactSum = record {
  add_zero = λ a. omega arith;
  add_comm = λ a b. omega arith;
  add_assoc = λ a b c. omega arith;
}

abbrev center : Vector3 ℕ
center = record { x = 0; y = 0; z = 0 }

abbrev corner : Vector3 ℕ
corner = record { x = 4; y = 4; z = 12 }

abbrev half_points : List (Point ℕ)
half_points =
    record { k = center; spin = pos 0; weight = 4 }
    ∷ record { k = corner; spin = pos 0; weight = 4 }
    ∷ []

abbrev plates : Vector3 ℕ
plates = record { x = 2; y = 1; z = 2 }

abbrev remainder : ℕ → ℕ → ℕ
remainder a b = a % b

half_points-normalized : is_normalized half_points ≡ true
unfolding is_normalized sum_weights fixed_doubles
half_points-normalized = refl

kpoints_fold-IsFolding_example : IsFolding remainder plates half_points
unfolding IsDivisible times fixed_doubles
kpoints_fold-IsFolding_example =
    kpoints_fold-IsFolding fixed-IsExactSum remainder plates half_points half_points-normalized
      (refl, (refl, tt))

fold_points_runs : length (fold_points remainder plates half_points) ≡ 8
unfolding fold_points fold_point each
fold_points_runs = refl
