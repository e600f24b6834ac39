-- ===== src/Electronic/Tests/Meshes.antt =====
-- A ring of four k-points under the inversion, shared by two processes.
use python_jdftx.Common.{
  ℕ, zero, suc, ◌+◌, ◌-◌, ◌*◌, ◌/◌, ◌%◌, ◌≡◌, ◌<◌, ◌≤◌, inl, inr, refl, ap, ◌∙◌, Bool, true, false,
  List, [], ◌∷◌, some, ltb, leb, ◌==◌, if◌then◌else◌, length, In, Bool-cases, arith,
}
use python_jdftx.Common.Int.{pos}
use python_jdftx.Common.Loops.{loop}
use python_jdftx.Core.Number.{Double}
use python_jdftx.Core.Tasks.{TaskDivision, init, start_of, stop_of, stop_at, stops_from}
use python_jdftx.Electronic.Kmesh.{
  kmap_pack, unpack_src, unpack_inverted, unpack_sym, min_entry, Lookup, map_to, map_symmetries,
  map_inversions, map_sources, process_map, insert_source, sources_of, reduced_index, QuantumNumber,
  add_weight, sources_at, collect, reduced_entry, reduce_kmesh,
}
use python_jdftx.Electronic.Kmesh.Packing.{kmap_unpack-pack}
use python_jdftx.Electronic.Kmesh.Sources.{Arrives}
use python_jdftx.Electronic.Kmesh.Processes.{IsMinimum, IsSynced, synced-IsSynced}
use python_jdftx.Electronic.Kmesh.Roots.{IsClosed}
use python_jdftx.Electronic.Kmesh.Weights.{IsExactSum, total, weight_sum}
use python_jdftx.Electronic.Kmesh.Reduction.{IsReached, reduce_kmesh-IsReached}
use python_jdftx.Electronic.States.{
  spin_z, kpoints_reduce, IsExactWeight, states_weight, kpoints_reduce-total,
}

kmap_unpack-pack_example :
    (unpack_src (kmap_pack 5 true 3) ≡ 5)
    × (unpack_inverted (kmap_pack 5 true 3) ≡ true)
    × (unpack_sym (kmap_pack 5 true 3) ≡ 3)
kmap_unpack-pack_example = kmap_unpack-pack 5 true 3 (omega arith) (omega arith)

-- The identity is the one symmetry.
abbrev ring : Lookup ℕ
ring i inverted m = some (if inverted then (4 - i) % 4 else i)

abbrev signs : List Bool
signs = false ∷ true ∷ []

abbrev one_symmetry : List ℕ
one_symmetry = 1 ∷ []

abbrev first_half : TaskDivision
first_half = record { start_mine = 0; stop_mine = 2; stop_arr = 2 ∷ 4 ∷ [] }

abbrev second_half : TaskDivision
second_half = record { start_mine = 2; stop_mine = 4; stop_arr = 2 ∷ 4 ∷ [] }

abbrev all_points : TaskDivision
all_points = record { start_mine = 0; stop_mine = 4; stop_arr = 4 ∷ [] }

abbrev half_map : ℕ → ℕ → ℕ
half_map zero = map_sources ring signs one_symmetry first_half
half_map (suc j) = map_sources ring signs one_symmetry second_half

abbrev ring_map : ℕ → ℕ
ring_map d = min_entry (half_map 0 d) (half_map 1 d)

half_map-made : (j : ℕ) → j < 2 → process_map ring signs one_symmetry 4 2 j ≡ some (half_map j)
unfolding process_map init start_of stop_of stop_at stops_from
half_map-made zero h = refl
half_map-made (suc zero) h = refl
half_map-made (suc (suc j)) h = absurd (omega arith)

least_of_two : (f : ℕ → ℕ) → IsMinimum 2 f (min_entry (f 0) (f 1))
unfolding min_entry
least_of_two f = elim (Bool-cases (ltb (f 1) (f 0))) [
  | inl less ↦ rw less (record {
    low = λ j h.
        elim j as (λ i. i < 2 → f 1 ≤ f i) [
          | zero ↦ λ k. ground arith
          | suc i ↦ λ k. let one : 1 ≡ suc i = omega arith in rw (← one) (omega arith)
        ]
          h;
    attained = (1, omega arith, refl);
  })
  | inr more ↦ rw more (record {
    low = λ j h.
        elim j as (λ i. i < 2 → f 0 ≤ f i) [
          | zero ↦ λ k. omega arith
          | suc i ↦ λ k. let one : 1 ≡ suc i = omega arith in rw (← one) (ground arith)
        ]
          h;
    attained = (0, omega arith, refl);
  })
]

ring_map-IsSynced : IsSynced ring signs one_symmetry 4 2 ring_map
ring_map-IsSynced = record {
  maps = half_map;
  made = half_map-made;
  least = λ d. least_of_two (λ j. half_map j d);
}

alone-IsSynced :
    IsSynced ring signs one_symmetry 4 1 (map_sources ring signs one_symmetry all_points)
unfolding process_map init start_of stop_of stop_at stops_from
alone-IsSynced = record {
  maps = λ j. map_sources ring signs one_symmetry all_points;
  made = λ j h. let first : 0 ≡ j = omega arith in rw (← first) refl;
  least = λ d. record { low = λ j h. omega arith; attained = (0, omega arith, refl) };
}

synced-IsSynced_example : ring_map 3 ≡ map_sources ring signs one_symmetry all_points 3
synced-IsSynced_example =
    synced-IsSynced ring signs one_symmetry 4 2 1 ring_map
      (map_sources ring signs one_symmetry all_points) (omega arith) (omega arith) (omega arith)
      (omega arith) (omega arith) (omega arith) ring_map-IsSynced alone-IsSynced 3

sign_listed : (b : Bool) → In b signs
sign_listed false = inl refl
sign_listed true = inr (inl refl)

ring_step :
    (s d : ℕ) (b : Bool)
    → (if b then (4 - s) % 4 else s) ≡ d
    → (v : ℕ) × Arrives ring signs one_symmetry s d v
ring_step s d b e = (
  kmap_pack s b 0,
  record {
    inverted = b;
    place = 0;
    symmetry = 1;
    listed = sign_listed b;
    at = refl;
    leads = ap some e;
    packed = refl;
  },
)

some_inj : (a b : ℕ) → some a ≡ some b → a ≡ b
some_inj a b e = cc

ring_end :
    (s d v : ℕ)
    → (a : Arrives ring signs one_symmetry s d v) → (if a.inverted then (4 - s) % 4 else s) ≡ d
ring_end s d v a = some_inj _ d a.leads

ring_composed :
    (b c : Bool) (s t d : ℕ)
    → s < 4
    → (if b then (4 - s) % 4 else s) ≡ t
    → (if c then (4 - t) % 4 else t) ≡ d
    → (v : ℕ) × Arrives ring signs one_symmetry s d v
ring_composed false false s t d h e f = ring_step s d false (e ∙ f)
ring_composed false true s t d h e f = ring_step s d true (omega arith)
ring_composed true false s t d h e f = ring_step s d true (e ∙ f)
ring_composed true true s t d h e f = ring_step s d false (omega arith)

ring-IsClosed : IsClosed ring signs one_symmetry 4
ring-IsClosed = record {
  identity = λ d h. ring_step d d false refl;
  composed = λ s t d u w h k m a b.
      ring_composed a.inverted b.inverted s t d h (ring_end s t u a) (ring_end t d w b);
}

instance whole_doubles : Double ℕ
whole_doubles = record {
  lit = λ n. n;
  nan = 0;
  add = λ a b. a + b;
  sub = λ a b. a - b;
  mul = λ a b. a * b;
  div = λ a b. a / b;
  neg = λ a. a;
  sqrt = λ a. a;
  fabs = λ a. a;
  lt = ltb;
  le = leb;
  is_finite = λ a. true;
  is_zero = λ a. a == 0;
}

whole-IsExactSum : IsExactSum ℕ
unfolding whole_doubles
whole-IsExactSum = record {
  add_zero = λ a. omega arith;
  add_comm = λ a b. omega arith;
  add_assoc = λ a b c. omega arith;
}

abbrev ring_points : ℕ → QuantumNumber ℕ ℕ
ring_points i = record { k = i; spin = pos 0; weight = 10 + i }

reduce_kmesh-IsReached_example :
    IsReached ring signs one_symmetry 4 ring_points (reduce_kmesh ring_points 4 ring_map signs) 3
reduce_kmesh-IsReached_example =
    reduce_kmesh-IsReached ring signs one_symmetry 4 (omega arith) (omega arith) 2 ring_map
      (omega arith) (omega arith) ring_points 3 ring-IsClosed ring_map-IsSynced (omega arith)

whole-IsExactWeight : IsExactWeight ℕ
unfolding whole_doubles
whole-IsExactWeight = record { mul_one = λ a. omega arith; mul_two = λ a. omega arith }

kpoints_reduce-total_example : total (kpoints_reduce spin_z ring_points 4 ring_map signs) ≡ 92
unfolding weight_sum states_weight whole_doubles
kpoints_reduce-total_example =
    kpoints_reduce-total whole-IsExactSum whole-IsExactWeight ring signs one_symmetry 4 spin_z
      ring_points 2 ring_map (omega arith) (omega arith) (omega arith) (omega arith) ring-IsClosed
      ring_map-IsSynced

reduce_kmesh_runs :
    (length (reduce_kmesh ring_points 4 ring_map signs).q_red ≡ 3)
    × ((reduce_kmesh ring_points 4 ring_map signs).kmap 3 ≡ 384)
unfolding reduce_kmesh sources_of insert_source collect add_weight sources_at reduced_index
    reduced_entry kmap_pack unpack_src unpack_inverted unpack_sym min_entry map_sources
    map_inversions map_symmetries map_to loop
reduce_kmesh_runs = (refl, refl)
