-- ===== src/Electronic/Kmesh.antt =====
-- jdftx/electronic/Symmetries.cpp, `reduceKmesh`: the map from k-points to their sources under the
-- symmetries, made by several processes, and the reduction to the sources. Which k-point a transformed
-- one is (PeriodicLookup, a search over doubles) and the minimum over the processes (MPI) are
-- arguments. The warning about a mesh that the symmetries
-- do not keep is output and left out, as is the mode without symmetries, which keeps the mesh.
pub mod Packing
pub mod Sources
pub mod Processes
pub mod Roots
pub mod Weights
pub mod Reduction
use Prim.Native.Nat.{bit_and, bit_or}
use python_jdftx.Common.{
  ℕ, zero, suc, ◌+◌, ◌-◌, ◌*◌, ◌/◌, ◌%◌, ◌^◌, Bool, true, false, not, List, [], ◌∷◌, Option, none,
  some, ltb, ◌==◌, if◌then◌else◌, any, length,
}
use python_jdftx.Common.Int.{ℤ}
use python_jdftx.Common.Loops.{loop}
use python_jdftx.Core.Number.{Double, ◌⊕◌}
use python_jdftx.Core.Tasks.{size_mod, TaskDivision, init}

-- `kmapPack` and `kmapUnpack`; whether a k-point is inverted stands for the sign of `invert`.
unfoldable pub kmap_pack : (i_src : ℕ) (inverted : Bool) (i_sym : ℕ) → ℕ
kmap_pack i_src inverted i_sym =
    bit_or (bit_or ((i_src * 2 ^ 8) % size_mod) ((if inverted then 1 else 0) * 2 ^ 7)) i_sym

unfoldable pub unpack_src : ℕ → ℕ
unpack_src kmap = kmap / 2 ^ 8

unfoldable pub unpack_inverted : ℕ → Bool
unpack_inverted kmap = not (bit_and 0x80 kmap == 0)

unfoldable pub unpack_sym : ℕ → ℕ
unpack_sym kmap = bit_and 0x7f kmap

-- `~0ULL` and std::min.
abbrev pub unmapped : ℕ
unmapped = size_mod - 1

unfoldable pub min_entry : ℕ → ℕ → ℕ
min_entry a b = if ltb b a then b else a

-- Both signs, unless the inversion is among the symmetries.
unfoldable pub inversions : {M : Type 0} → (M → Bool) → List M → List Bool
inversions is_inversion sym = if any is_inversion sym then false ∷ [] else false ∷ true ∷ []

-- Where the k-point `i_src` goes, inverted or not, under a symmetry.
abbrev pub Lookup : Type 0 → Type 0
Lookup M = (i_src : ℕ) (inverted : Bool) → M → Option ℕ

module _ {M : Type 0} (find : Lookup M) where
  -- `kmap[iDest] = std::min(kmap[iDest], kmapPack(iSrc, invert, iSym))`, if there is a destination.
  unfoldable pub map_to : Option ℕ → ℕ → (ℕ → ℕ) → ℕ → ℕ
  map_to none packed kmap = kmap
  map_to (some i_dest) packed kmap =
      λ d. if d == i_dest then min_entry (kmap i_dest) packed else kmap d

  unfoldable pub map_symmetries :
      (i_src : ℕ) (inverted : Bool) (i_sym : ℕ) → List M → (ℕ → ℕ) → ℕ → ℕ
  map_symmetries i_src inverted i_sym [] kmap = kmap
  map_symmetries i_src inverted i_sym (m ∷ sym) kmap =
      map_symmetries i_src inverted (suc i_sym) sym
        (map_to (find i_src inverted m) (kmap_pack i_src inverted i_sym) kmap)

  unfoldable pub map_inversions : (i_src : ℕ) → List Bool → List M → (ℕ → ℕ) → ℕ → ℕ
  map_inversions i_src [] sym kmap = kmap
  map_inversions i_src (inverted ∷ rest) sym kmap =
      map_inversions i_src rest sym (map_symmetries i_src inverted 0 sym kmap)

  -- The loop of one process over its share of the k-points.
  unfoldable pub map_sources : (invert_list : List Bool) → List M → TaskDivision → ℕ → ℕ
  map_sources invert_list sym d =
      loop (d.stop_mine - d.start_mine) d.start_mine (λ i_src. map_inversions i_src invert_list sym)
        (λ _. unmapped)

  unfoldable pub process_map :
      (invert_list : List Bool) → List M → (n n_procs i_proc : ℕ) → Option (ℕ → ℕ)
  process_map invert_list sym n n_procs i_proc = elim (init n n_procs i_proc) [
    | none ↦ none
    | some d ↦ some (map_sources invert_list sym d)
  ]

-- `iSrcMap`: the sources in ascending order, whose places are the reduced indices.
unfoldable pub insert_source : ℕ → List ℕ → List ℕ
insert_source s [] = s ∷ []
insert_source s (x ∷ xs) =
    let rest = insert_source s xs in
    if ltb s x then s ∷ x ∷ xs else if s == x then x ∷ xs else x ∷ rest

-- The sources of the first `n` entries.
unfoldable pub sources_of : (kmap : ℕ → ℕ) (n : ℕ) → List ℕ
sources_of kmap zero = []
sources_of kmap (suc n) = insert_source (unpack_src (kmap n)) (sources_of kmap n)

unfoldable pub reduced_index : List ℕ → ℕ → ℕ
reduced_index [] s = 0
reduced_index (x ∷ xs) s = if x == s then 0 else suc (reduced_index xs s)

-- A wave vector, of a type `K` of vectors, with a spin and a weight.
pub record QuantumNumber (K R : Type 0) : Type 0 where
  pub k : K
  pub spin : ℤ
  pub weight : R

module _ {K R : Type 0} ⦃r : Double R⦄ where
  unfoldable pub add_weight : ℕ → R → List (QuantumNumber K R) → List (QuantumNumber K R)
  add_weight i w [] = []
  add_weight zero w (q ∷ qs) = record q { weight = q.weight ⊕ w } ∷ qs
  add_weight (suc i) w (q ∷ qs) = q ∷ add_weight i w qs

  unfoldable pub sources_at : (ℕ → QuantumNumber K R) → List ℕ → List (QuantumNumber K R)
  sources_at qnums [] = []
  sources_at qnums (s ∷ ss) = qnums s ∷ sources_at qnums ss

  -- "accumulate weights", over the first `n` k-points.
  unfoldable pub collect :
      (ℕ → QuantumNumber K R) → (kmap : ℕ → ℕ) (sources : List ℕ) (n : ℕ) → List (QuantumNumber K R)
  collect qnums kmap sources zero = sources_at qnums sources
  collect qnums kmap sources (suc n) =
      let before = collect qnums kmap sources n in
      let i_src = unpack_src (kmap n) in
      if n == i_src
      then before
      else add_weight (reduced_index sources i_src) (qnums n).weight before

-- "Update iSrc in map with the reduced value".
unfoldable pub reduced_entry : List ℕ → ℕ → ℕ
reduced_entry sources kmap =
    kmap_pack (reduced_index sources (unpack_src kmap)) (unpack_inverted kmap) (unpack_sym kmap)

-- Whether an entry among the first `n` is inverted.
unfoldable pub used_inversion : (kmap : ℕ → ℕ) (n : ℕ) → Bool
used_inversion kmap zero = false
used_inversion kmap (suc n) =
    let rest = used_inversion kmap n in if unpack_inverted (kmap n) then true else rest

pub record Reduced (K R : Type 0) : Type 0 where
  pub q_red : List (QuantumNumber K R)
  pub kmap : ℕ → ℕ
  pub kpoint_invert_list : List Bool

-- The part of reduceKmesh behind the synchronisation, for a mesh of `n` k-points.
unfoldable pub reduce_kmesh :
    {K R : Type 0} ⦃r : Double R⦄
    → (ℕ → QuantumNumber K R)
    → (n : ℕ) (kmap : ℕ → ℕ) → (invert_list : List Bool) → Reduced K R
reduce_kmesh qnums n kmap invert_list =
    let sources = sources_of kmap n in
    record {
      q_red = collect qnums kmap sources n;
      kmap = λ d. reduced_entry sources (kmap d);
      kpoint_invert_list = if used_inversion kmap n then invert_list else false ∷ [];
    }
