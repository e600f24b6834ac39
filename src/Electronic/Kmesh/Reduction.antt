-- ===== src/Electronic/Kmesh/Reduction.antt =====
-- jdftx/electronic/Symmetries.cpp, `reduceKmesh`: the reduced mesh and the map that it leaves for the
-- k-points.
use python_jdftx.Common.{
  ℕ, zero, suc, ◌*◌, ◌^◌, ◌<◌, ◌≤◌, ◌≡◌, inl, inr, sym, ap, subst, ◌∙◌, Bool, true, false, List,
  some, length, get_elem?, In, arith, Bool-cases, ℕ_discrete,
}
use python_jdftx.Core.Tasks.{size_mod}
use python_jdftx.Core.Number.{Double}
use python_jdftx.Common.Places.{get_elem?-bound}
use python_jdftx.Electronic.Kmesh.{
  unpack_src, unpack_inverted, unpack_sym, Lookup, sources_of, reduced_index, reduced_entry,
  used_inversion, QuantumNumber, Reduced, reduce_kmesh,
}
use python_jdftx.Electronic.Kmesh.Packing.{bit_and_low, kmap_unpack-pack}
use python_jdftx.Electronic.Kmesh.Sources.{Arrives, IsLeastEntry}
use python_jdftx.Electronic.Kmesh.Processes.{IsSynced, synced-IsLeastEntry}
use python_jdftx.Electronic.Kmesh.Roots.{
  IsClosed, source-Arrives, entries-IsRetraction, length-sources_of, sources_of-In,
  reduced_index-bound,
}
use python_jdftx.Electronic.Kmesh.Weights.{
  IsExactSum, total, weight_sum, reduced_found, total-reduce_kmesh,
}

unused-inversion :
    (kmap : ℕ → ℕ) (n d : ℕ)
    → used_inversion kmap n ≡ false
    → d < n
    → unpack_inverted (kmap d) ≡ false
unfolding used_inversion
unused-inversion kmap zero d e h = absurd (omega arith)
unused-inversion kmap (suc n) d e h = elim (Bool-cases (unpack_inverted (kmap n))) [
  | inl t ↦ let j : true ≡ false = rw t at e in cc
  | inr f ↦
      let rest : used_inversion kmap n ≡ false = rw f at e in
      elim (ℕ_discrete d n) [
        | yes same ↦ rw same f
        | no differs ↦ unused-inversion kmap n d rest (omega arith)
      ]
]

unpack_sym-bound : (v : ℕ) → unpack_sym v < 2 ^ 7
unfolding unpack_sym
unpack_sym-bound v = omega (arith, bit_and_low v)

-- The reduced entry names the place of the source, and keeps the operation.
record IsRenumbered (sources : List ℕ) (v : ℕ) : Type 0 where
  src : unpack_src (reduced_entry sources v) ≡ reduced_index sources (unpack_src v)
  inverted : unpack_inverted (reduced_entry sources v) ≡ unpack_inverted v
  place : unpack_sym (reduced_entry sources v) ≡ unpack_sym v

reduced_entry-IsRenumbered :
    (kmap : ℕ → ℕ) (n d : ℕ) → n < 2 ^ 56 → d < n → IsRenumbered (sources_of kmap n) (kmap d)
unfolding reduced_entry
reduced_entry-IsRenumbered kmap n d few h =
    let sources = sources_of kmap n in
    let i = reduced_index sources (unpack_src (kmap d)) in
    let bound : i < 2 ^ 56 = omega (
      arith,
      reduced_index-bound sources (unpack_src (kmap d)) (sources_of-In kmap n d h),
      length-sources_of kmap n,
    ) in
    let (a, b, c) =
      kmap_unpack-pack i (unpack_inverted (kmap d)) (unpack_sym (kmap d)) bound
        (unpack_sym-bound (kmap d)) in
    record { src = a; inverted = b; place = c }

module _ {M : Type 0} (find : Lookup M) (inverts : List Bool) (sym_list : List M) (n : ℕ) where
  -- The entry of the k-point `d`, unpacked: a reduced k-point, and an operation that is listed and
  -- leads from its source to `d`.
  pub record IsReached {K R : Type 0} (qnums : ℕ → QuantumNumber K R) (red : Reduced K R) (d : ℕ)
      : Type 0 where
    pub source : ℕ
    pub symmetry : M
    pub point : QuantumNumber K R
    pub found : get_elem? red.q_red (unpack_src (red.kmap d)) ≡ some point
    pub wave : point.k ≡ (qnums source).k
    pub at : get_elem? sym_list (unpack_sym (red.kmap d)) ≡ some symmetry
    pub listed : In (unpack_inverted (red.kmap d)) red.kpoint_invert_list
    pub leads : find source (unpack_inverted (red.kmap d)) symmetry ≡ some d

  module _ (few : n < 2 ^ 56) (small : length sym_list ≤ 2 ^ 7) where
    -- An entry unpacks to its operation.
    Arrives-unpacked :
        (s d v : ℕ)
        → s < n
        → (a : Arrives find inverts sym_list s d v)
        → (unpack_inverted v ≡ a.inverted) × (unpack_sym v ≡ a.place)
    Arrives-unpacked s d v h a =
        let place = get_elem?-bound sym_list a.place a.symmetry a.at in
        let (x, i, y) = kmap_unpack-pack s a.inverted a.place (omega arith) (omega arith) in
        (ap unpack_inverted a.packed ∙ i, ap unpack_sym a.packed ∙ y)

    module _ {K R : Type 0} ⦃r : Double R⦄ where
      reduce_kmesh-listed :
          (qnums : ℕ → QuantumNumber K R) (kmap : ℕ → ℕ) (d : ℕ)
          → d < n
          → In (unpack_inverted (kmap d)) inverts
          → In (unpack_inverted (kmap d)) (reduce_kmesh qnums n kmap inverts).kpoint_invert_list
      unfolding reduce_kmesh
      reduce_kmesh-listed qnums kmap d h i = elim (Bool-cases (used_inversion kmap n)) [
        | inl t ↦ rw t i
        | inr f ↦ rw f (inl (unused-inversion kmap n d f h))
      ]

      reached :
          (qnums : ℕ → QuantumNumber K R) (kmap : ℕ → ℕ) (d : ℕ)
          → IsClosed find inverts sym_list n
          → IsLeastEntry find inverts sym_list n d (kmap d)
          → d < n
          → IsReached qnums (reduce_kmesh qnums n kmap inverts) d
      unfolding reduce_kmesh reduced_entry
      reached qnums kmap d closed entry h =
          let s = unpack_src (kmap d) in
          let (below, a) =
            source-Arrives find inverts sym_list n few small closed d (kmap d) h entry in
          let (inverted, place) = Arrives-unpacked s d (kmap d) (omega arith) a in
          let new = reduced_entry-IsRenumbered kmap n d few h in
          let (q, found, wave) = reduced_found qnums kmap n d inverts h in
          let red = reduce_kmesh qnums n kmap inverts in
          record {
            source = s;
            symmetry = a.symmetry;
            point = q;
            found = subst (λ i. get_elem? red.q_red i ≡ some q) (sym new.src) found;
            wave = wave;
            at = subst (λ i. get_elem? sym_list i ≡ some a.symmetry) (sym (new.place ∙ place)) a.at;
            listed =
                subst (λ b. In b red.kpoint_invert_list) (sym new.inverted)
                  (reduce_kmesh-listed qnums kmap d h
                    (subst (λ b. In b inverts) (sym inverted) a.listed));
            leads =
                subst (λ b. find s b a.symmetry ≡ some d) (sym (new.inverted ∙ inverted)) a.leads;
          }

      module _ (p : ℕ) (kmap : ℕ → ℕ) (pos : 0 < p) (fits : n * p < size_mod) where
        -- With fewer than 2 ^ 56 k-points, at most 128 symmetries, operations that form a group,
        -- and products of k-points and processes that fit into size_t: the entry of each k-point
        -- in the map that reduceKmesh leaves holds the place of a reduced k-point, and an
        -- operation that leads from the source of that k-point to this one, its sign in the list
        -- of inversions.
        pub reduce_kmesh-IsReached :
            (qnums : ℕ → QuantumNumber K R) (d : ℕ)
            → IsClosed find inverts sym_list n
            → IsSynced find inverts sym_list n p kmap
            → d < n
            → IsReached qnums (reduce_kmesh qnums n kmap inverts) d
        reduce_kmesh-IsReached qnums d closed synced h =
            reached qnums kmap d closed
              (synced-IsLeastEntry find inverts sym_list n p kmap pos fits synced d) h

        -- Under symmetries that form a group, and with sums that do not round, the weights of the
        -- reduced k-points add up to those of the mesh.
        pub reduce_kmesh-total :
            (qnums : ℕ → QuantumNumber K R)
            → IsClosed find inverts sym_list n
            → IsSynced find inverts sym_list n p kmap
            → IsExactSum R
            → total (reduce_kmesh qnums n kmap inverts).q_red ≡ weight_sum qnums n
        reduce_kmesh-total qnums closed synced laws = total-reduce_kmesh laws qnums kmap n inverts (
            entries-IsRetraction find inverts sym_list n few small kmap closed
              (synced-IsLeastEntry find inverts sym_list n p kmap pos fits synced))
