-- ===== src/Electronic/Tests/Matrices.antt =====
-- Matrices of small numbers.
use native.Mathlib.Nat.{mul_comm, mul_assoc}
use python_jdftx.Common.{
  ℕ, ◌+◌, ◌*◌, ◌≡◌, refl, none, some, Bool, true, false, not, ltb, leb, ◌==◌, arith,
}
use python_jdftx.Common.Loops.{loop}
use python_jdftx.Core.Grid.Sizes.{ceildiv}
use python_jdftx.Electronic.Matrix.{
  Matrix, Span, index, delta, place, rows_asserted, cols_asserted, is_whole, get_loops, get_block,
  get_element,
}
use python_jdftx.Electronic.Matrix.Places.{Fits}
use python_jdftx.Electronic.Matrix.Checks.{IsLens, set_block-IsLens, IsOutside, get_block-IsOutside}
use python_jdftx.Core.Number.{Double}
use python_jdftx.Core.Complex.{Complex, IsExactArithmetic}
use python_jdftx.Electronic.Matrix.Algebra.{DiagMatrix, to_matrix, dagger, transpose}
use python_jdftx.Electronic.Matrix.Algebra.Transposes.{IsMultiple, to_matrix-IsMultiple}

abbrev counting : Matrix ℕ
counting = record { nr = 4; nc = 3; buffer = λ k. k }

abbrev unwritten : ℕ → ℕ
unwritten k = 99

abbrev odd_rows : Span
odd_rows = record { start = 1; step = 2; stop = 4 }

abbrev outer_cols : Span
outer_cols = record { start = 0; step = 2; stop = 3 }

abbrev late_cols : Span
late_cols = record { start = 3; step = 1; stop = 5 }

abbrev corners : Matrix ℕ
corners = record { nr = 2; nc = 2; buffer = λ k. k + 50 }

get_block_runs :
    elim (get_block unwritten counting odd_rows outer_cols) [
      | some b ↦ get_element b 1 1
      | none ↦ none
    ]
    ≡ some 11
unfolding get_block get_loops get_element is_whole rows_asserted cols_asserted delta place index
    ceildiv loop
get_block_runs = refl

odd_rows-Fits : Fits 4 odd_rows
odd_rows-Fits = record { filled = omega arith; within = omega arith; steps = omega arith }

outer_cols-Fits : Fits 3 outer_cols
outer_cols-Fits = record { filled = omega arith; within = omega arith; steps = omega arith }

set_block-IsLens_example : IsLens unwritten counting odd_rows outer_cols corners
unfolding delta ceildiv
set_block-IsLens_example =
    set_block-IsLens unwritten counting odd_rows outer_cols corners odd_rows-Fits outer_cols-Fits
      refl refl

get_block-IsOutside_example : IsOutside unwritten counting odd_rows late_cols
get_block-IsOutside_example =
    get_block-IsOutside unwritten counting odd_rows late_cols odd_rows-Fits (omega arith)
      (omega arith) (omega arith)

-- Numbers with a sign: the product of the sizes, and of the signs.
abbrev xor : Bool → Bool → Bool
xor true b = not b
xor false b = b

abbrev signed_mul : ℕ × Bool → ℕ × Bool → ℕ × Bool
signed_mul a b = (a.0 * b.0, xor a.1 b.1)

instance abbrev signed : Double (ℕ × Bool)
signed = record {
  lit = λ n. (n, false);
  nan = (5000, false);
  add = λ a b. a;
  sub = λ a b. a;
  mul = signed_mul;
  div = λ a b. a;
  neg = λ a. (a.0, not a.1);
  sqrt = λ a. a;
  fabs = λ a. (a.0, false);
  lt = λ a b. ltb a.0 b.0;
  le = λ a b. leb a.0 b.0;
  is_finite = λ a. true;
  is_zero = λ a. a.0 == 0;
}

pair_eq : {a c : ℕ} {b d : Bool} → a ≡ c → b ≡ d → ◌≡◌ {A = ℕ × Bool} (a, b) (c, d)
pair_eq e f = λ i. (e i, f i)

xor_comm : (a b : Bool) → xor a b ≡ xor b a
xor_comm true true = refl
xor_comm true false = refl
xor_comm false true = refl
xor_comm false false = refl

xor_assoc : (a b c : Bool) → xor (xor a b) c ≡ xor a (xor b c)
xor_assoc true true true = refl
xor_assoc true true false = refl
xor_assoc true false c = refl
xor_assoc false b c = refl

not-xor : (a b : Bool) → not (xor a b) ≡ xor (not a) b
not-xor true true = refl
not-xor true false = refl
not-xor false b = refl

not-not : (a : Bool) → not (not a) ≡ a
not-not true = refl
not-not false = refl

signed-IsExactArithmetic : IsExactArithmetic (ℕ × Bool)
signed-IsExactArithmetic = record {
  mul_comm = λ a b. pair_eq (mul_comm a.0 b.0) (xor_comm a.1 b.1);
  mul_assoc = λ a b c. pair_eq (mul_assoc a.0 b.0 c.0) (xor_assoc a.1 b.1 c.1);
  neg_mul = λ a b. pair_eq refl (not-xor a.1 b.1);
  neg_neg = λ a. pair_eq refl (not-not a.1);
}

abbrev plus : ℕ → ℕ × Bool
plus n = (n, false)

abbrev tall : Matrix (Complex (ℕ × Bool))
tall = record { nr = 3; nc = 2; buffer = λ k. record { x = plus k; y = (k + 1, true) } }

abbrev blank : ℕ → Complex (ℕ × Bool)
blank k = record { x = plus 0; y = plus 0 }

to_matrix-IsMultiple_example :
    IsMultiple
      (plus 6)
      tall
      (to_matrix blank (dagger (plus 2) (to_matrix blank (dagger (plus 3) tall))))
    × IsMultiple
        (plus 6)
        tall
        (to_matrix blank (transpose (plus 2) (to_matrix blank (transpose (plus 3) tall))))
to_matrix-IsMultiple_example =
    to_matrix-IsMultiple blank blank (plus 2) (plus 3) tall signed-IsExactArithmetic

abbrev three : DiagMatrix (ℕ × Bool)
three = record { size = 3; at = λ k. (k + 2, true) }

abbrev two : DiagMatrix (ℕ × Bool)
two = record { size = 2; at = λ k. plus (k + 7) }
