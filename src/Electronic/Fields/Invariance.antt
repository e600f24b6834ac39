-- ===== src/Electronic/Fields/Invariance.antt =====
-- jdftx/electronic/Symmetries.cpp, `symmetrize` on what `initSymmIndex` left: the field is the same
-- at all points that the symmetries lead to one another.
use native.Mathlib.Nat.{mul-div_cancel_left, mul-le-mul_left}
use python_jdftx.Common.{
  ℕ, suc, ◌+◌, ◌*◌, ◌/◌, ◌<◌, ◌≤◌, ◌≡◌, ◌≢◌, inl, inr, refl, sym, ap, ◌∙◌, subst, Bool, false, List,
  [], ◌∷◌, some, length, get_elem?, In, ◌==◌, if◌then◌else◌, arith, Bool-cases,
}
use python_jdftx.Common.Places.{In-get_elem?, get_elem?-bound}
use python_jdftx.Common.Int.{ℤ}
use python_jdftx.Common.Loops.{loop}
use python_jdftx.Core.Number.{Double, ◌⊕◌, ◌⊗◌, ◌⊘◌}
use python_jdftx.Core.Grid.{Vector3}
use python_jdftx.Core.Tasks.{size_mod}
use python_jdftx.Electronic.Fields.{
  Matrix3, Found, visit, init_symm_index, data_of, class_sum, eblas_symmetrize, symmetrize,
}
use python_jdftx.Electronic.Fields.Classes.{images, flat, IsGroup, IsSorted}
use python_jdftx.Electronic.Fields.Partition.{start-IsSorted, visits-IsSorted}
use python_jdftx.Electronic.Fields.Visits.{moves, visit_all-loop}
use python_jdftx.Electronic.Fields.Averages.{mean, eblas_symmetrize-mean}
use python_jdftx.Electronic.Fields.Arrays.{
  length-images, length-flat, get_elem?-flat, read_found, In-class, sorted-IsApart,
}

smaller_product : (n a b w : ℕ) → 0 < n → a ≤ b → n * b < w → (n * a < w) × (a < w)
smaller_product n a b w pos h fits =
    let left : n * a ≤ n * b = mul-le-mul_left n h in
    let right : b ≤ n * b = grind arith in (omega arith, omega arith)

single-In : (ps : List ℕ) (p q : ℕ) → length ps ≡ 1 → In p ps → In q ps → p ≡ q
single-In [] p q e i j = absurd i
single-In (x ∷ []) p q e (inl i) (inl j) = omega arith
single-In (x ∷ []) p q e (inr i) j = absurd i
single-In (x ∷ []) p q e i (inr j) = absurd j
single-In (x ∷ y ∷ ps) p q e i j = absurd (omega arith)

module _ (s : Vector3 ℕ) (ms : List (Matrix3 ℤ)) where
  abbrev pub nr : ℕ
  nr = s.z * (s.y * s.x)

  -- What initSymmIndex leaves.
  init_symm_index-IsSorted :
      IsGroup (moves s) ms nr
      → (f : Found) × (firsts : List ℕ) × IsSorted (moves s) ms nr nr f firsts
        × (init_symm_index s ms ≡ (if length ms == 1 then [] else f.symm_index_vec))
  unfolding init_symm_index
  init_symm_index-IsSorted group =
      let empty : Found = record { symm_index_vec = []; done = λ i. false } in
      let start = start-IsSorted (moves s) ms nr group empty refl (λ p. refl) in
      let (firsts, sorted) =
        visits-IsSorted (moves s) ms nr group nr 0 empty [] (omega arith) start in
      let all : 0 + nr ≡ nr = omega arith in
      let run = loop nr 0 (λ i. visit (λ m. moves s m i) ms i) empty in
      (
        run,
        firsts,
        subst (λ k. IsSorted (moves s) ms nr k run firsts) all sorted,
        ap (λ (f : Found). if length ms == 1 then [] else f.symm_index_vec)
            (visit_all-loop s ms empty),
      )

module _ {R : Type 0} ⦃r : Double R⦄ where
  -- The sum of the values at some points.
  unfoldable pub sum_over : (ℕ → R) → R → List ℕ → R
  sum_over x acc [] = acc
  sum_over x acc (p ∷ ps) = sum_over x (acc ⊕ x p) ps

  loop-sum_over :
      (x : ℕ → R) (ps : List ℕ) (read : ℕ → ℕ) (j : ℕ) (acc : R)
      → ((k : ℕ) (v : ℕ) → get_elem? ps k ≡ some v → read (j + k) ≡ v)
      → loop (length ps) j (λ k total. total ⊕ x (read k)) acc ≡ sum_over x acc ps
  unfolding loop sum_over
  loop-sum_over x [] read j acc same = refl
  loop-sum_over x (p ∷ ps) read j acc same =
      let start : j ≡ j + 0 = omega arith in
      let here : read j ≡ p = ap read start ∙ same 0 p refl in
      ap (λ v. loop (length ps) (suc j) (λ k total. total ⊕ x (read k)) (acc ⊕ x v)) here
      ∙ loop-sum_over x ps read (suc j) (acc ⊕ x p) (λ k v e.
        let next : suc j + k ≡ j + suc k = omega arith in ap read next ∙ same (suc k) v e)

  -- The mean over the images of `i`, each as often as matrices lead there.
  abbrev pub orbit_mean : (s : Vector3 ℕ) (ms : List (Matrix3 ℤ)) (i : ℕ) → (ℕ → R) → R
  orbit_mean s ms i x = sum_over x (r.lit 0) (images (moves s) ms i) ⊗ (r.lit 1 ⊘ r.lit (length ms))

  mean-orbit_mean :
      (s : Vector3 ℕ) (ms : List (Matrix3 ℤ)) (outside : ℕ → ℕ) (firsts : List ℕ) (a i : ℕ)
      (x : ℕ → R)
      → get_elem? firsts a ≡ some i
      → mean (length ms) (data_of outside (flat (moves s) ms firsts)) a x ≡ orbit_mean s ms i x
  unfolding class_sum
  mean-orbit_mean s ms outside firsts a i x at =
      let read = λ (j : ℕ). data_of outside (flat (moves s) ms firsts) (length ms * a + j) in
      let size = length-images (moves s) ms i in
      let sum = loop-sum_over x (images (moves s) ms i) read 0 (r.lit 0) (λ k v e.
        let h : k < length ms =
          omega (arith, get_elem?-bound (images (moves s) ms i) k v e, size) in
        let start : 0 + k ≡ k = omega arith in
        ap read start
        ∙ read_found (moves s) ms outside firsts a i at (length ms * a + k) v
            (get_elem?-flat (moves s) ms firsts a i k at h ∙ e)) in
      ap (λ v. v ⊗ (r.lit 1 ⊘ r.lit (length ms)))
        (ap (λ n. loop n 0 (λ k total. total ⊕ x (read k)) (r.lit 0)) (sym size) ∙ sum)

  -- What symmetrize leaves at the points of one class.
  pub record IsAveraged (s : Vector3 ℕ) (ms : List (Matrix3 ℤ)) (x y : ℕ → R) (p : ℕ) : Type 0 where
    pub first : ℕ
    pub within : first < nr s ms
    pub member : In p (images (moves s) ms first)
    pub averaged : (q : ℕ) → In q (images (moves s) ms first) → y q ≡ orbit_mean s ms first x

  module _ (s : Vector3 ℕ) (ms : List (Matrix3 ℤ)) (n_procs : ℕ) (should_thread : Bool)
      (outside : ℕ → ℕ) where
    -- The field behind initSymmIndex and symmetrize.
    abbrev pub symmetrized : (ℕ → R) → ℕ → R
    symmetrized = symmetrize n_procs should_thread outside (length ms) (init_symm_index s ms)

    module _ (group : IsGroup (moves s) ms (nr s ms)) (procs : 0 < n_procs)
        (fits : n_procs * nr s ms < size_mod) where
      sorted-IsAveraged :
          (x : ℕ → R) (p : ℕ) (f : Found) (firsts : List ℕ)
          → length ms ≢ 1
          → p < nr s ms
          → IsSorted (moves s) ms (nr s ms) (nr s ms) f firsts
          → IsAveraged s ms x
              (eblas_symmetrize n_procs should_thread
                (length (flat (moves s) ms firsts) / length ms)
                (length ms)
                (data_of outside (flat (moves s) ms firsts))
                x)
              p
      sorted-IsAveraged x p f firsts several h sorted =
          let (i, listed, member) = sorted.found p (sorted.covered p h) in
          let (a, at) = In-get_elem? firsts i listed in
          let bound = get_elem?-bound firsts a i at in
          let (k, some_image) = In-get_elem? (images (moves s) ms i) p member in
          let filled : 0 < length ms = omega (
            arith,
            get_elem?-bound (images (moves s) ms i) k p some_image,
            length-images (moves s) ms i,
          ) in
          let count : length (flat (moves s) ms firsts) / length ms ≡ length firsts =
            ap (λ n. n / length ms) (length-flat (moves s) ms firsts)
            ∙ mul-div_cancel_left (length firsts) filled in
          let few : length firsts ≤ nr s ms = sorted.few in
          let (room, small) =
            smaller_product n_procs (length firsts) (nr s ms) size_mod procs few fits in
          record {
            first = i;
            within = sorted.below i listed;
            member = member;
            averaged = λ q l.
                ap
                  (λ n.
                    eblas_symmetrize n_procs should_thread n (length ms)
                      (data_of outside (flat (moves s) ms firsts)) x q)
                  count
                ∙ eblas_symmetrize-mean n_procs should_thread (length firsts) (length ms)
                    (data_of outside (flat (moves s) ms firsts)) x a q procs room small
                    (sorted-IsApart (moves s) ms outside sorted) bound
                    (In-class (moves s) ms outside firsts a i at q l)
                ∙ mean-orbit_mean s ms outside firsts a i x at;
          }

      -- Where the symmetries form a group of more than one matrix on the points of the box, and the
      -- product of processors and points fits into size_t: after initSymmIndex and symmetrize, all
      -- points to which the matrices lead from some point hold the mean of the old values at them.
      pub symmetrize-IsAveraged :
          (x : ℕ → R) (p : ℕ) → length ms ≢ 1 → p < nr s ms → IsAveraged s ms x (symmetrized x) p
      unfolding symmetrize
      symmetrize-IsAveraged x p several h =
          let (f, firsts, sorted, left) = init_symm_index-IsSorted s ms group in
          let more : (length ms == 1) ≡ false = ground arith in
          let array : init_symm_index s ms ≡ flat (moves s) ms firsts =
            left ∙ ap (λ b. if b then [] else f.symm_index_vec) more ∙ sorted.array in
          rw (more, array) (sorted-IsAveraged x p f firsts several h sorted)

      -- Where the symmetries form a group on the points of the box, and the product of processors and
      -- points fits into size_t: symmetrize makes the field the same at points to which the matrices
      -- lead from one another.
      pub symmetrize_invariant :
          (x : ℕ → R) (p q : ℕ)
          → p < nr s ms
          → In q (images (moves s) ms p)
          → symmetrized x p ≡ symmetrized x q
      unfolding symmetrize
      symmetrize_invariant x p q h l = elim (Bool-cases (length ms == 1)) [
        | inl alone ↦
            let one : length ms ≡ 1 = ground arith in
            let same : p ≡ q =
              single-In (images (moves s) ms p) p q (length-images (moves s) ms p ∙ one)
                (group.stays p h) l in
            ap (symmetrized x) same
        | inr more ↦
            let several : length ms ≢ 1 = λ e. ground arith in
            let a = symmetrize-IsAveraged x p several h in
            a.averaged p a.member
            ∙ sym (a.averaged q (group.follows a.first p q a.within a.member l))
      ]
