-- ===== src/Core/Tests/Boxes.antt =====
-- Loops over the points of a box, and the choice of its size.
use python_jdftx.Common.{ℕ, List, length, ◌≡◌, ◌+◌, ◌/◌, ◌-◌, refl, none, some, [], ◌∷◌, arith}
use python_jdftx.Common.Int.{ℤ, pos, negsuc, ◌+ℤ◌, ◌-ℤ◌}
use python_jdftx.Core.Tasks.{size_mod}
use python_jdftx.Core.Grid.{
  Vector3, full_loop_from, point_at, next_r, r_loop_from, r_loop, next_full, next_half, g_loop_from,
  g_point, full_loop, half_loop, full_g_index, half_g_index, centered, wrap,
}
use python_jdftx.Core.Grid.Divisors.{gcd, gcd_reduce}
use python_jdftx.Core.Grid.Sizes.{
  basis_size, suitable_basis, entry_suitable, fallback, least_scale, raise_scale, ceildiv,
  next_suitable, fft_suitable, strip,
}
use python_jdftx.Core.Grid.Sizes.Smooth.{IsDecided, fft_suitable-IsSmooth}
use python_jdftx.Core.Grid.Sizes.Search.{IsClosest, next_suitable-IsClosest}
use python_jdftx.Core.Grid.Sizes.Basis.{IsSized, basis_size-IsSized}
use python_jdftx.Core.Grid.Loops.{tabulate, full_loop_empty, loops-tabulate, g_index-point_at}

abbrev box : Vector3 ℕ
box = record { x = 2; y = 3; z = 4 }

program : Unit {0}
unfolding point_at next_r r_loop_from r_loop next_full next_half g_loop_from g_point full_loop
    half_loop full_loop_from centered wrap ◌+ℤ◌ ◌-ℤ◌
program = tt

full_loop_runs :
    full_loop box 3 6 9
    ≡ some (
        (6, record { x = pos 0; y = pos 1; z = pos 2 })
        ∷ (7, record { x = pos 0; y = pos 1; z = negsuc 0 })
        ∷ (8, record { x = pos 0; y = negsuc 0; z = pos 0 })
        ∷ [])
unfolding program
full_loop_runs = refl

loops-tabulate_example :
    (r_loop box 6 9 ≡ tabulate (point_at 4 3) (9 - 6) 6)
    × (full_loop box (9 - 6) 6 9 ≡ some (tabulate (λ i. g_point box (point_at 4 3 i)) (9 - 6) 6))
    × (half_loop box 6 9 ≡ tabulate (λ i. g_point box (point_at (4 / 2 + 1) 3 i)) (9 - 6) 6)
loops-tabulate_example =
    loops-tabulate box 6 9 (omega arith) (omega arith) (omega arith) (omega arith) (omega arith)
      (omega arith)

full_loop_empty_example :
    (full_loop box 100 6 6 ≡ none)
    × ((visits : List (ℕ × Vector3 ℤ)) × (full_loop box size_mod 6 6 ≡ some visits)
        × (length visits ≡ size_mod))
full_loop_empty_example = full_loop_empty box 100 6 (omega arith) (omega arith)

g_index-point_at_example :
    (full_g_index box (g_point box (point_at 4 3 23)) ≡ pos 23)
    × (half_g_index box (g_point box (point_at (4 / 2 + 1) 3 17)) ≡ pos 17)
g_index-point_at_example =
    g_index-point_at box 23 17 (omega arith) (omega arith) (omega arith) (omega arith)

fft_suitable-IsSmooth_example : IsDecided 60 54
fft_suitable-IsSmooth_example = fft_suitable-IsSmooth 60 54 (omega arith) (omega arith)

-- From 22 the search goes on to 24, and ends there.
next_suitable-IsClosest_example : IsClosest 22 22
next_suitable-IsClosest_example = next_suitable-IsClosest 22 22 (omega arith) refl (omega arith)

abbrev hexagonal : Vector3 ℕ
hexagonal = record { x = 1; y = 1; z = 0 }

abbrev smallest : Vector3 ℕ
smallest = record { x = 13; y = 21; z = 5 }

basis_size_runs : basis_size 39 smallest hexagonal ≡ some (record { x = 24; y = 24; z = 0 })
unfolding basis_size suitable_basis entry_suitable fallback least_scale raise_scale ceildiv
    next_suitable fft_suitable strip
basis_size_runs = refl

basis_size-IsSized_example : IsSized 39 smallest hexagonal
basis_size-IsSized_example =
    basis_size-IsSized 39 smallest hexagonal (omega arith) (omega arith) (omega arith) (omega arith)
      (omega arith)

abbrev stretched : Vector3 ℕ
stretched = record { x = 12; y = 18; z = 0 }

gcd_reduce_runs : gcd_reduce 19 stretched ≡ some (record { x = 2; y = 3; z = 0 })
unfolding gcd_reduce gcd
gcd_reduce_runs = refl
