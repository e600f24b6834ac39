-- ===== src/Electronic/Kmesh/Processes.antt =====
-- jdftx/electronic/Symmetries.cpp, `reduceKmesh`: the k-point map behind the synchronisation of the
-- processes.
use python_jdftx.Common.{
  ℕ, ◌*◌, ◌^◌, ◌<◌, ◌≤◌, ◌≡◌, ◌⊎◌, inl, inr, sym, ap, ◌∙◌, subst, Bool, List, Option, none, some,
  length, arith,
}
use python_jdftx.Common.Places.{get_elem?-bound}
use python_jdftx.Core.Tasks.{size_mod, TaskDivision, init}
use python_jdftx.Core.Tasks.Division.{init-IsWithin, owner_found}
use python_jdftx.Electronic.Kmesh.{unmapped, Lookup, map_sources, process_map}
use python_jdftx.Electronic.Kmesh.Packing.{kmap_pack_bound}
use python_jdftx.Electronic.Kmesh.Sources.{
  Arrives, IsLeastEntry, map_sources-Stems, map_sources-low,
}

-- What allReduce with ReduceMin leaves on every process.
pub record IsMinimum (p : ℕ) (value : ℕ → ℕ) (v : ℕ) : Type 0 where
  pub low : (j : ℕ) → j < p → v ≤ value j
  pub attained : (j : ℕ) × (j < p) × (v ≡ value j)

module _ {M : Type 0} (find : Lookup M) (inverts : List Bool) (sym_list : List M) (n : ℕ) where
  -- `p` processes made their maps and synchronised them.
  pub record IsSynced (p : ℕ) (kmap : ℕ → ℕ) : Type 0 where
    pub maps : ℕ → ℕ → ℕ
    pub made : (j : ℕ) → j < p → process_map find inverts sym_list n p j ≡ some (maps j)
    pub least : (d : ℕ) → IsMinimum p (λ j. maps j d) (kmap d)

  process_map-map_sources :
      (p j : ℕ) (d : TaskDivision)
      → init n p j ≡ some d
      → process_map find inverts sym_list n p j ≡ some (map_sources find inverts sym_list d)
  unfolding process_map
  process_map-map_sources p j d e =
      ap {B = Option (ℕ → ℕ)}
        (λ o. elim o [ none ↦ none | some s ↦ some (map_sources find inverts sym_list s) ]) e

  module _ (few : n < 2 ^ 56) (small : length sym_list ≤ 2 ^ 7) where
    Arrives-bound : (s d v : ℕ) → s < n → Arrives find inverts sym_list s d v → v ≤ unmapped
    Arrives-bound s d v h a =
        let place = get_elem?-bound sym_list a.place a.symmetry a.at in
        omega (arith, a.packed, kmap_pack_bound s a.inverted a.place (omega arith) (omega arith))

    entry_bound : (d v : ℕ) → IsLeastEntry find inverts sym_list n d v → v ≤ unmapped
    entry_bound d v a = elim a.attained [
      | inl e ↦ omega arith
      | inr (s, h, b) ↦ Arrives-bound s d v h b
    ]

    entry-le :
        (d v w : ℕ)
        → IsLeastEntry find inverts sym_list n d v
        → IsLeastEntry find inverts sym_list n d w
        → v ≤ w
    entry-le d v w a b = elim b.attained [
      | inl e ↦ omega (arith, entry_bound d v a)
      | inr (s, h, c) ↦ a.low s w h c
    ]

  made-map_sources :
      (p : ℕ) (kmap : ℕ → ℕ) (y : IsSynced p kmap) (j : ℕ) (d : TaskDivision)
      → j < p
      → init n p j ≡ some d
      → y.maps j ≡ map_sources find inverts sym_list d
  made-map_sources p kmap y j d h e =
      let one = y.made j h in let two = process_map-map_sources p j d e in cc

  -- The synchronised entry of a k-point is the least packed operation that leads there.
  pub synced-IsLeastEntry :
      (p : ℕ) (kmap : ℕ → ℕ)
      → 0 < p
      → n * p < size_mod
      → IsSynced p kmap
      → (d : ℕ) → IsLeastEntry find inverts sym_list n d (kmap d)
  synced-IsLeastEntry p kmap pos fits y d =
      let least = y.least d in
      record {
        low = λ s u h a.
            let o = owner_found n p pos fits s h in
            let same =
              ap (λ f. f d) (made-map_sources p kmap y o.process o.division o.inside o.found) in
            let under = least.low o.process o.inside in
            let over = map_sources-low find inverts sym_list o.division s d u o.above o.below a in
            omega arith;
        attained =
            let (j, h, e) = least.attained in
            let (dv, found, within) = init-IsWithin n p pos fits j h in
            let same : kmap d ≡ map_sources find inverts sym_list dv d =
              e ∙ ap (λ f. f d) (made-map_sources p kmap y j dv h found) in
            subst (λ x. (x ≡ unmapped) ⊎ ((s : ℕ) × (s < n) × Arrives find inverts sym_list s d x))
              (sym same)
              (map_sources-Stems find inverts sym_list n dv within.ordered within.ends d);
      }

  -- The map of the k-points behind the synchronisation is the same for any two numbers of
  -- processes whose products with the k-points fit into size_t, for fewer than 2 ^ 56 k-points
  -- and at most 128 symmetries.
  pub synced-IsSynced :
      (p q : ℕ) (one two : ℕ → ℕ)
      → n < 2 ^ 56
      → length sym_list ≤ 2 ^ 7
      → 0 < p
      → n * p < size_mod
      → 0 < q
      → n * q < size_mod
      → IsSynced p one
      → IsSynced q two
      → (d : ℕ) → one d ≡ two d
  synced-IsSynced p q one two few small pos fits pos_q fits_q y z d =
      let a = synced-IsLeastEntry p one pos fits y d in
      let b = synced-IsLeastEntry q two pos_q fits_q z d in
      let below = entry-le few small d (one d) (two d) a b in
      let above = entry-le few small d (two d) (one d) b a in omega arith
