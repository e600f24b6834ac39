-- ===== src/Electronic/Kmesh/Sources.antt =====
-- jdftx/electronic/Symmetries.cpp, `reduceKmesh`: an entry of the k-point map is the least of the
-- operations that lead there.
use python_jdftx.Common.{
  ℕ, zero, suc, ◌+◌, ◌-◌, ◌<◌, ◌≤◌, ◌≡◌, ◌⊎◌, inl, inr, refl, sym, ap, ◌∙◌, subst, Bool, true, List,
  [], ◌∷◌, Option, none, some, ltb, ◌==◌, In, get_elem?, arith, Bool-cases,
}
use python_jdftx.Common.Loops.{loop_keeps, loop_hits}
use python_jdftx.Core.Tasks.{TaskDivision}
use python_jdftx.Electronic.Kmesh.{
  kmap_pack, unmapped, min_entry, Lookup, map_to, map_symmetries, map_inversions, map_sources,
}

module _ {M : Type 0} (find : Lookup M) (inverts : List Bool) (sym_list : List M) where
  -- An operation that leads from the k-point `s` to `d`, and its packed form.
  pub record Arrives (s d v : ℕ) : Type 0 where
    pub inverted : Bool
    pub place : ℕ
    pub symmetry : M
    pub listed : In inverted inverts
    pub at : get_elem? sym_list place ≡ some symmetry
    pub leads : find s inverted symmetry ≡ some d
    pub packed : v ≡ kmap_pack s inverted place

  -- The least of the operations from the first `n` k-points.
  pub record IsLeastEntry (n d v : ℕ) : Type 0 where
    pub low : (s u : ℕ) → s < n → Arrives s d u → v ≤ u
    pub attained : (v ≡ unmapped) ⊎ ((s : ℕ) × (s < n) × Arrives s d v)

  -- The entries of a map are unmapped or come from one of the first `n` k-points.
  abbrev Stems : (n : ℕ) → (ℕ → ℕ) → Type 0
  Stems n kmap = (d : ℕ) → (kmap d ≡ unmapped) ⊎ ((s : ℕ) × (s < n) × Arrives s d (kmap d))

  map_to-low : (o : Option ℕ) (v u d : ℕ) (kmap : ℕ → ℕ) → kmap d ≤ u → map_to find o v kmap d ≤ u
  unfolding map_to min_entry
  map_to-low none v u d kmap h = h
  map_to-low (some e) v u d kmap h = elim (Bool-cases (d == e)) [
    | inl q ↦
        let same : d ≡ e = ground arith in
        let there : kmap e ≤ u = subst (λ x. kmap x ≤ u) same h in rw q (ground arith)
    | inr q ↦ rw q h
  ]

  map_to-hit : (v d : ℕ) (kmap : ℕ → ℕ) → map_to find (some d) v kmap d ≤ v
  unfolding map_to min_entry
  map_to-hit v d kmap = let same : (d == d) ≡ true = ground arith in rw same (ground arith)

  map_to-Stems :
      (n s : ℕ) (o : Option ℕ) (v : ℕ) (kmap : ℕ → ℕ)
      → s < n
      → ((d : ℕ) → o ≡ some d → Arrives s d v)
      → Stems n kmap
      → Stems n (map_to find o v kmap)
  unfolding map_to min_entry
  map_to-Stems n s none v kmap h a stems = stems
  map_to-Stems n s (some e) v kmap h a stems = λ d. elim (Bool-cases (d == e)) [
    | inl q ↦ elim (Bool-cases (ltb v (kmap e))) [
      | inl less ↦
          let same : d ≡ e = ground arith in rw (q, less) (inr (s, h, a d (ap some (sym same))))
      | inr more ↦
          let same : d ≡ e = ground arith in
          rw (q, more)
            (subst (λ x. (kmap x ≡ unmapped) ⊎ ((s : ℕ) × (s < n) × Arrives s d (kmap x))) same
              (stems d))
    ]
    | inr q ↦ rw q (stems d)
  ]

  -- The symmetries from place `i` on.
  abbrev Rest : ℕ → List M → Type 0
  Rest i rest = (k : ℕ) (m : M) → get_elem? rest k ≡ some m → get_elem? sym_list (i + k) ≡ some m

  tail-Rest : (i : ℕ) (m : M) (rest : List M) → Rest i (m ∷ rest) → Rest (suc i) rest
  tail-Rest i m rest h k x e =
      let shift : i + suc k ≡ suc i + k = omega arith in
      subst (λ p. get_elem? sym_list p ≡ some x) shift (h (suc k) x e)

  head-Rest : (i : ℕ) (m : M) (rest : List M) → Rest i (m ∷ rest) → get_elem? sym_list i ≡ some m
  head-Rest i m rest h =
      let stay : i + 0 ≡ i = omega arith in
      subst (λ p. get_elem? sym_list p ≡ some m) stay (h 0 m refl)

  map_symmetries-low :
      (s : ℕ) (b : Bool) (i : ℕ) (rest : List M) (u d : ℕ) (kmap : ℕ → ℕ)
      → kmap d ≤ u
      → map_symmetries find s b i rest kmap d ≤ u
  unfolding map_symmetries
  map_symmetries-low s b i [] u d kmap h = h
  map_symmetries-low s b i (m ∷ rest) u d kmap h =
      map_symmetries-low s b (suc i) rest u d _
        (map_to-low (find s b m) (kmap_pack s b i) u d kmap h)

  map_symmetries-hit :
      (s : ℕ) (b : Bool) (i k : ℕ) (rest : List M) (m : M) (d : ℕ) (kmap : ℕ → ℕ)
      → get_elem? rest k ≡ some m
      → find s b m ≡ some d
      → map_symmetries find s b i rest kmap d ≤ kmap_pack s b (i + k)
  unfolding map_symmetries
  map_symmetries-hit s b i k [] m d kmap e leads = cc
  map_symmetries-hit s b i zero (x ∷ rest) m d kmap e leads =
      let same : x ≡ m = cc in
      let goes : find s b x ≡ some d = ap (find s b) same ∙ leads in
      let now : map_to find (find s b x) (kmap_pack s b i) kmap d ≤ kmap_pack s b i =
        subst (λ o. map_to find o (kmap_pack s b i) kmap d ≤ kmap_pack s b i) (sym goes)
          (map_to-hit (kmap_pack s b i) d kmap) in
      let stay : i ≡ i + 0 = omega arith in
      subst
        (λ p.
          map_symmetries find s b (suc i) rest (map_to find (find s b x) (kmap_pack s b i) kmap) d
          ≤ kmap_pack s b p)
        stay (map_symmetries-low s b (suc i) rest (kmap_pack s b i) d _ now)
  map_symmetries-hit s b i (suc k) (x ∷ rest) m d kmap e leads =
      let shift : suc i + k ≡ i + suc k = omega arith in
      subst
        (λ p.
          map_symmetries find s b (suc i) rest (map_to find (find s b x) (kmap_pack s b i) kmap) d
          ≤ kmap_pack s b p)
        shift (map_symmetries-hit s b (suc i) k rest m d _ e leads)

  map_symmetries-Stems :
      (n s : ℕ) (b : Bool) (i : ℕ) (rest : List M) (kmap : ℕ → ℕ)
      → s < n
      → In b inverts
      → Rest i rest
      → Stems n kmap
      → Stems n (map_symmetries find s b i rest kmap)
  unfolding map_symmetries
  map_symmetries-Stems n s b i [] kmap h listed places stems = stems
  map_symmetries-Stems n s b i (m ∷ rest) kmap h listed places stems =
      map_symmetries-Stems n s b (suc i) rest _ h listed (tail-Rest i m rest places) (
        map_to-Stems n s (find s b m) (kmap_pack s b i) kmap h
          (λ d e. record {
            inverted = b;
            place = i;
            symmetry = m;
            listed = listed;
            at = head-Rest i m rest places;
            leads = e;
            packed = refl;
          })
          stems)

  map_inversions-low :
      (s : ℕ) (bs : List Bool) (u d : ℕ) (kmap : ℕ → ℕ)
      → kmap d ≤ u
      → map_inversions find s bs sym_list kmap d ≤ u
  unfolding map_inversions
  map_inversions-low s [] u d kmap h = h
  map_inversions-low s (b ∷ bs) u d kmap h =
      map_inversions-low s bs u d _ (map_symmetries-low s b 0 sym_list u d kmap h)

  map_inversions-hit :
      (s : ℕ) (bs : List Bool) (b : Bool) (k : ℕ) (m : M) (d : ℕ) (kmap : ℕ → ℕ)
      → In b bs
      → get_elem? sym_list k ≡ some m
      → find s b m ≡ some d
      → map_inversions find s bs sym_list kmap d ≤ kmap_pack s b k
  unfolding map_inversions
  map_inversions-hit s [] b k m d kmap i e leads = absurd i
  map_inversions-hit s (x ∷ bs) b k m d kmap (inl same) e leads =
      let goes : find s x m ≡ some d = ap (λ c. find s c m) (sym same) ∙ leads in
      let now = map_symmetries-hit s x 0 k sym_list m d kmap e goes in
      let stay : 0 + k ≡ k = omega arith in
      let packed : kmap_pack s x (0 + k) ≡ kmap_pack s b k =
        ap (kmap_pack s x) stay ∙ ap (λ c. kmap_pack s c k) (sym same) in
      map_inversions-low s bs (kmap_pack s b k) d _ (omega arith)
  map_inversions-hit s (x ∷ bs) b k m d kmap (inr i) e leads =
      map_inversions-hit s bs b k m d _ i e leads

  map_inversions-Stems :
      (n s : ℕ) (bs : List Bool) (kmap : ℕ → ℕ)
      → s < n
      → ((b : Bool) → In b bs → In b inverts)
      → Stems n kmap
      → Stems n (map_inversions find s bs sym_list kmap)
  unfolding map_inversions
  map_inversions-Stems n s [] kmap h listed stems = stems
  map_inversions-Stems n s (b ∷ bs) kmap h listed stems =
      map_inversions-Stems n s bs _ h (λ c i. listed c (inr i))
        (map_symmetries-Stems n s b 0 sym_list kmap h (listed b (inl refl))
          (λ k m e.
            let stay : k ≡ 0 + k = omega arith in subst (λ p. get_elem? sym_list p ≡ some m) stay e)
          stems)

  -- What a process with a share of the first `n` k-points comes to.
  pub map_sources-Stems :
      (n : ℕ) (d : TaskDivision)
      → d.start_mine ≤ d.stop_mine
      → d.stop_mine ≤ n
      → Stems n (map_sources find inverts sym_list d)
  unfolding map_sources
  map_sources-Stems n d ordered ends =
      loop_keeps (Stems n) (λ s. map_inversions find s inverts sym_list)
        (d.stop_mine - d.start_mine) d.start_mine n (omega arith)
        (λ s h kmap stems. map_inversions-Stems n s inverts kmap h (λ b i. i) stems) (λ _. unmapped)
        (λ e. inl refl)

  pub map_sources-low :
      (d : TaskDivision) (s e u : ℕ)
      → d.start_mine ≤ s
      → s < d.stop_mine
      → Arrives s e u
      → map_sources find inverts sym_list d e ≤ u
  unfolding map_sources
  map_sources-low d s e u above below a =
      loop_hits {S = ℕ → ℕ} (λ kmap. kmap e ≤ u) (λ s. map_inversions find s inverts sym_list)
        (d.stop_mine - d.start_mine) d.start_mine d.stop_mine s (omega arith) above (omega arith)
        (λ k h kmap low. map_inversions-low k inverts u e kmap low)
        (λ kmap.
          let now =
            map_inversions-hit s inverts a.inverted a.place a.symmetry e kmap a.listed a.at
              a.leads in
          omega (arith, a.packed))
        (λ _. unmapped)
