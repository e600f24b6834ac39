-- ===== src/Electronic/Kmesh/Weights.antt =====
-- jdftx/electronic/Symmetries.cpp, `reduceKmesh`: the reduced k-points and their weights.
use python_jdftx.Common.{
  ℕ, zero, suc, ◌<◌, ◌≤◌, ◌≡◌, inl, inr, refl, sym, ap, subst, ◌∙◌, Bool, List, [], ◌∷◌, ◌++◌, some,
  length, get_elem?, ◌==◌, if◌then◌else◌, In, arith, Bool-cases,
}
use python_jdftx.Core.Number.{Double, ◌⊕◌}
use python_jdftx.Electronic.Kmesh.{
  unpack_src, insert_source, sources_of, reduced_index, QuantumNumber, add_weight, sources_at,
  collect, reduce_kmesh,
}
use python_jdftx.Electronic.Kmesh.Roots.{
  IsRetraction, insert_source_old, insert_source_new, sources_of-Ascending, sources_of-In,
  In-sources_of, reduced_index-bound,
}

-- A sum of doubles without rounding.
pub record IsExactSum (R : Type 0) ⦃r : Double R⦄ : Type 0 where
  pub add_zero : (a : R) → a ⊕ r.lit 0 ≡ a
  pub add_comm : (a b : R) → a ⊕ b ≡ b ⊕ a
  pub add_assoc : (a b c : R) → (a ⊕ b) ⊕ c ≡ a ⊕ (b ⊕ c)

module _ {R : Type 0} ⦃r : Double R⦄ (laws : IsExactSum R) where
  turn : (a b c : R) → (a ⊕ b) ⊕ c ≡ (a ⊕ c) ⊕ b
  turn a b c =
      laws.add_assoc a b c ∙ ap (λ x. a ⊕ x) (laws.add_comm b c) ∙ sym (laws.add_assoc a c b)

module _ {K R : Type 0} ⦃r : Double R⦄ where
  unfoldable pub total : List (QuantumNumber K R) → R
  total [] = r.lit 0
  total (q ∷ qs) = total qs ⊕ q.weight

  -- The weights of the first `n` k-points.
  unfoldable pub weight_sum : (ℕ → QuantumNumber K R) → ℕ → R
  weight_sum qnums zero = r.lit 0
  weight_sum qnums (suc n) = weight_sum qnums n ⊕ (qnums n).weight

  length-add_weight :
      (i : ℕ) (w : R) (qs : List (QuantumNumber K R)) → length (add_weight i w qs) ≡ length qs
  unfolding add_weight
  length-add_weight i w [] = refl
  length-add_weight zero w (q ∷ qs) = refl
  length-add_weight (suc i) w (q ∷ qs) = ap suc (length-add_weight i w qs)

  get_elem?-add_weight :
      (i j : ℕ) (w : R) (qs : List (QuantumNumber K R)) (q : QuantumNumber K R)
      → get_elem? qs j ≡ some q
      → (p : QuantumNumber K R) × (get_elem? (add_weight i w qs) j ≡ some p) × (p.k ≡ q.k)
  unfolding add_weight
  get_elem?-add_weight i j w [] q e = (q, e, refl)
  get_elem?-add_weight zero zero w (x ∷ qs) q e =
      let same : x ≡ q = cc in (record x { weight = x.weight ⊕ w }, refl, ap (λ y. y.k) same)
  get_elem?-add_weight zero (suc j) w (x ∷ qs) q e = (q, e, refl)
  get_elem?-add_weight (suc i) zero w (x ∷ qs) q e = (q, e, refl)
  get_elem?-add_weight (suc i) (suc j) w (x ∷ qs) q e = get_elem?-add_weight i j w qs q e

  length-sources_at :
      (qnums : ℕ → QuantumNumber K R) (ss : List ℕ) → length (sources_at qnums ss) ≡ length ss
  unfolding sources_at
  length-sources_at qnums [] = refl
  length-sources_at qnums (s ∷ ss) = ap suc (length-sources_at qnums ss)

  -- There is one reduced k-point for each source.
  pub length-collect :
      (qnums : ℕ → QuantumNumber K R) (kmap : ℕ → ℕ) (ss : List ℕ) (n : ℕ)
      → length (collect qnums kmap ss n) ≡ length ss
  unfolding collect
  length-collect qnums kmap ss zero = length-sources_at qnums ss
  length-collect qnums kmap ss (suc n) = elim (Bool-cases (n == unpack_src (kmap n))) [
    | inl own ↦ rw own (length-collect qnums kmap ss n)
    | inr other ↦ rw other (
        length-add_weight (reduced_index ss (unpack_src (kmap n))) (qnums n).weight
          (collect qnums kmap ss n)
        ∙ length-collect qnums kmap ss n)
  ]

  get_elem?-sources_at :
      (qnums : ℕ → QuantumNumber K R) (ss : List ℕ) (s : ℕ)
      → In s ss
      → get_elem? (sources_at qnums ss) (reduced_index ss s) ≡ some (qnums s)
  unfolding sources_at reduced_index
  get_elem?-sources_at qnums [] s i = absurd i
  get_elem?-sources_at qnums (x ∷ ss) s i = elim (Bool-cases (x == s)) [
    | inl same ↦ let e : x ≡ s = ground arith in rw same (ap (λ y. some (qnums y)) e)
    | inr differs ↦
        rw differs
          (elim i [ inl e ↦ absurd (ground arith) | inr k ↦ get_elem?-sources_at qnums ss s k ])
  ]

  get_elem?-collect :
      (qnums : ℕ → QuantumNumber K R) (kmap : ℕ → ℕ) (ss : List ℕ) (n j : ℕ) (q : QuantumNumber K R)
      → get_elem? (sources_at qnums ss) j ≡ some q
      → (p : QuantumNumber K R) × (get_elem? (collect qnums kmap ss n) j ≡ some p) × (p.k ≡ q.k)
  unfolding collect
  get_elem?-collect qnums kmap ss zero j q e = (q, e, refl)
  get_elem?-collect qnums kmap ss (suc n) j q e =
      let (p, f, same) = get_elem?-collect qnums kmap ss n j q e in
      elim (Bool-cases (n == unpack_src (kmap n))) [
        | inl own ↦ rw own (p, f, same)
        | inr other ↦
            let (o, g, kept) =
              get_elem?-add_weight (reduced_index ss (unpack_src (kmap n))) j (qnums n).weight
                (collect qnums kmap ss n) p f in
            rw other (o, g, kept ∙ same)
      ]

  -- The weights of the k-points with another source.
  others : (ℕ → QuantumNumber K R) → (kmap : ℕ → ℕ) → ℕ → R
  others qnums kmap zero = r.lit 0
  others qnums kmap (suc n) =
      let rest = others qnums kmap n in
      if n == unpack_src (kmap n) then rest else rest ⊕ (qnums n).weight

  -- The reduced k-point of a source has its wave vector.
  pub reduced_found :
      (qnums : ℕ → QuantumNumber K R) (kmap : ℕ → ℕ) (n d : ℕ) (invert_list : List Bool)
      → d < n
      → (q : QuantumNumber K R) × (get_elem?
            (reduce_kmesh qnums n kmap invert_list).q_red
            (reduced_index (sources_of kmap n) (unpack_src (kmap d)))
          ≡ some q)
        × (q.k ≡ (qnums (unpack_src (kmap d))).k)
  unfolding reduce_kmesh
  reduced_found qnums kmap n d invert_list h =
      let s = unpack_src (kmap d) in
      get_elem?-collect qnums kmap (sources_of kmap n) n (reduced_index (sources_of kmap n) s)
        (qnums s) (get_elem?-sources_at qnums (sources_of kmap n) s (sources_of-In kmap n d h))

  module _ (laws : IsExactSum R) where
    pub total-append : (xs ys : List (QuantumNumber K R)) → total (xs ++ ys) ≡ total ys ⊕ total xs
    unfolding total
    total-append [] ys = sym (laws.add_zero (total ys))
    total-append (x ∷ xs) ys =
        ap (λ a. a ⊕ x.weight) (total-append xs ys) ∙ laws.add_assoc (total ys) (total xs) x.weight

    total-add_weight :
        (i : ℕ) (w : R) (qs : List (QuantumNumber K R))
        → i < length qs
        → total (add_weight i w qs) ≡ total qs ⊕ w
    unfolding total add_weight
    total-add_weight i w [] h = absurd (omega arith)
    total-add_weight zero w (q ∷ qs) h = sym (laws.add_assoc (total qs) q.weight w)
    total-add_weight (suc i) w (q ∷ qs) h =
        ap (λ x. x ⊕ q.weight) (total-add_weight i w qs (omega arith))
        ∙ turn laws (total qs) w q.weight

    total-sources_at :
        (qnums : ℕ → QuantumNumber K R) (ss : List ℕ) (s : ℕ)
        → total (sources_at qnums (ss ++ (s ∷ []))) ≡ total (sources_at qnums ss) ⊕ (qnums s).weight
    unfolding total sources_at
    total-sources_at qnums [] s = refl
    total-sources_at qnums (x ∷ ss) s =
        ap (λ a. a ⊕ (qnums x).weight) (total-sources_at qnums ss s)
        ∙ turn laws (total (sources_at qnums ss)) (qnums s).weight (qnums x).weight

    total-collect :
        (qnums : ℕ → QuantumNumber K R) (kmap : ℕ → ℕ) (ss : List ℕ) (n : ℕ)
        → ((d : ℕ) → d < n → In (unpack_src (kmap d)) ss)
        → total (collect qnums kmap ss n) ≡ total (sources_at qnums ss) ⊕ others qnums kmap n
    unfolding collect others
    total-collect qnums kmap ss zero h = sym (laws.add_zero (total (sources_at qnums ss)))
    total-collect qnums kmap ss (suc n) h =
        let before = total-collect qnums kmap ss n (λ d k. h d (omega arith)) in
        let i = reduced_index ss (unpack_src (kmap n)) in
        let w = (qnums n).weight in
        elim (Bool-cases (n == unpack_src (kmap n))) [
          | inl own ↦ rw own before
          | inr other ↦ rw other (
              total-add_weight i w (collect qnums kmap ss n) (
                omega (
                  arith,
                  length-collect qnums kmap ss n,
                  reduced_index-bound ss (unpack_src (kmap n)) (h n (omega arith)),
                ))
              ∙ ap (λ x. x ⊕ w) before
              ∙ laws.add_assoc (total (sources_at qnums ss)) (others qnums kmap n) w)
        ]

    total-sources_of :
        (qnums : ℕ → QuantumNumber K R) (kmap : ℕ → ℕ) (n k : ℕ)
        → IsRetraction n kmap
        → k ≤ n
        → total (sources_at qnums (sources_of kmap k)) ⊕ others qnums kmap k ≡ weight_sum qnums k
    unfolding sources_of others weight_sum total sources_at
    total-sources_of qnums kmap n zero ret h = laws.add_zero (r.lit 0)
    total-sources_of qnums kmap n (suc k) ret h =
        let before = total-sources_of qnums kmap n k ret (omega arith) in
        let s = unpack_src (kmap k) in
        let ss = sources_of kmap k in
        let w = (qnums k).weight in
        elim (Bool-cases (k == unpack_src (kmap k))) [
          | inl own ↦
              let same : k ≡ s = ground arith in
              let last : insert_source s ss ≡ ss ++ (k ∷ []) =
                subst (λ x. insert_source x ss ≡ ss ++ (k ∷ [])) same
                  (insert_source_new k ss (λ y i.
                    let (d, below, e) = In-sources_of kmap k y i in
                    omega (arith, ret.low d (omega arith)))) in
              rw own (
                ap (λ l. total (sources_at qnums l) ⊕ others qnums kmap k) last
                ∙ ap (λ x. x ⊕ others qnums kmap k) (total-sources_at qnums ss k)
                ∙ turn laws (total (sources_at qnums ss)) w (others qnums kmap k)
                ∙ ap (λ x. x ⊕ w) before)
          | inr other ↦
              let below = ret.low k (omega arith) in
              let less : s < k = ground arith in
              let listed : In s ss =
                subst (λ x. In x ss) (ret.fixed k (omega arith)) (sources_of-In kmap k s less) in
              rw other (
                ap (λ l. total (sources_at qnums l) ⊕ (others qnums kmap k ⊕ w))
                  (insert_source_old 0 s ss (sources_of-Ascending kmap k) listed)
                ∙ sym (laws.add_assoc (total (sources_at qnums ss)) (others qnums kmap k) w)
                ∙ ap (λ x. x ⊕ w) before)
        ]

    -- The reduced k-points have the weights of the mesh.
    pub total-reduce_kmesh :
        (qnums : ℕ → QuantumNumber K R) (kmap : ℕ → ℕ) (n : ℕ) (invert_list : List Bool)
        → IsRetraction n kmap
        → total (reduce_kmesh qnums n kmap invert_list).q_red ≡ weight_sum qnums n
    unfolding reduce_kmesh
    total-reduce_kmesh qnums kmap n invert_list ret =
        total-collect qnums kmap (sources_of kmap n) n (λ d h. sources_of-In kmap n d h)
        ∙ total-sources_of qnums kmap n n ret (omega arith)
