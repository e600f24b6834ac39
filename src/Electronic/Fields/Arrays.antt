-- ===== src/Electronic/Fields/Arrays.antt =====
-- jdftx/electronic/Symmetries.cpp: how `symmetrize` reads the classes from the array of `initSymmIndex`.
use python_jdftx.Common.{
  ℕ, zero, suc, ◌+◌, ◌*◌, ◌<◌, ◌≡◌, refl, sym, ap, ◌∙◌, subst, List, [], ◌∷◌, ◌++◌, map, none, some,
  length, length-append, get_elem?, In, arith,
}
use python_jdftx.Common.Places.{
  get_elem?-In, In-get_elem?, get_elem?-bound, get_elem?-found, get_elem?-append_left,
  get_elem?-append_right,
}
use python_jdftx.Electronic.Fields.{Found, data_of}
use python_jdftx.Electronic.Fields.Classes.{images, flat, IsSorted}
use python_jdftx.Electronic.Fields.Averages.{OfClass, IsApart}

module _ {M : Type 0} (act : M → ℕ → ℕ) (ms : List M) where
  pub length-images : (i : ℕ) → length (images act ms i) ≡ length ms
  length-images i = length-map ms
    where
      length-map : (rest : List M) → length (map (λ m. act m i) rest) ≡ length rest
      length-map [] = refl
      length-map (m ∷ rest) = ap suc (length-map rest)

  pub length-flat : (firsts : List ℕ) → length (flat act ms firsts) ≡ length ms * length firsts
  unfolding flat
  length-flat [] = omega arith
  length-flat (i ∷ firsts) =
      let more : length ms + length ms * length firsts ≡ length ms * suc (length firsts) =
        grind arith in
      length-append (images act ms i) (flat act ms firsts)
      ∙ ap (λ k. k + length (flat act ms firsts)) (length-images i)
      ∙ ap (λ k. length ms + k) (length-flat firsts)
      ∙ more

  -- The images of the first point of a class stand side by side.
  pub get_elem?-flat :
      (firsts : List ℕ) (a i j : ℕ)
      → get_elem? firsts a ≡ some i
      → j < length ms
      → get_elem? (flat act ms firsts) (length ms * a + j) ≡ get_elem? (images act ms i) j
  unfolding flat
  get_elem?-flat [] a i j e h = cc
  get_elem?-flat (x ∷ firsts) zero i j e h =
      let same : x ≡ i = cc in
      let place : length ms * 0 + j ≡ j = omega arith in
      let inside : j < length (images act ms x) = omega (arith, length-images x) in
      ap (get_elem? (images act ms x ++ flat act ms firsts)) place
      ∙ get_elem?-append_left (images act ms x) (flat act ms firsts) j inside
      ∙ ap (λ k. get_elem? (images act ms k) j) same
  get_elem?-flat (x ∷ firsts) (suc a) i j e h =
      let behind : length ms * suc a + j ≡ length (images act ms x) + (length ms * a + j) =
        grind (arith, length-images x) in
      get_elem?-append_right (images act ms x) (flat act ms firsts) (length ms * a + j)
        (length ms * suc a + j) behind
      ∙ get_elem?-flat firsts a i j e h

  module _ (outside : ℕ → ℕ) (firsts : List ℕ) (a i : ℕ) (at : get_elem? firsts a ≡ some i) where
    pub read_found :
        (k v : ℕ)
        → get_elem? (flat act ms firsts) k ≡ some v
        → data_of outside (flat act ms firsts) k ≡ v
    unfolding data_of
    read_found k v e = ap {B = ℕ} (λ o. elim o [ some w ↦ w | none ↦ outside k ]) e

    class-In :
        (p : ℕ)
        → OfClass (length ms) (data_of outside (flat act ms firsts)) a p
        → In p (images act ms i)
    class-In p (j, h, e) =
        let (v, found) = get_elem?-found (images act ms i) j (omega (arith, length-images i)) in
        let read = read_found (length ms * a + j) v (get_elem?-flat firsts a i j at h ∙ found) in
        let same : v ≡ p = omega arith in
        subst (λ q. In q (images act ms i)) same (get_elem?-In (images act ms i) j v found)

    pub In-class :
        (p : ℕ)
        → In p (images act ms i)
        → OfClass (length ms) (data_of outside (flat act ms firsts)) a p
    In-class p l =
        let (j, found) = In-get_elem? (images act ms i) p l in
        let h : j < length ms =
          omega (arith, length-images i, get_elem?-bound (images act ms i) j p found) in
        (j, h, sym (read_found (length ms * a + j) p (get_elem?-flat firsts a i j at h ∙ found)))

  module _ {nr : ℕ} (outside : ℕ → ℕ) {f : Found} {firsts : List ℕ}
      (sorted : IsSorted act ms nr nr f firsts) where
    pub sorted-IsApart : IsApart (length ms) (data_of outside (flat act ms firsts)) (length firsts)
    sorted-IsApart a b p ha hb one two =
        let (i, first) = get_elem?-found firsts a ha in
        let (j, second) = get_elem?-found firsts b hb in
        sorted.apart a b i j p first second (class-In outside firsts a i first p one)
          (class-In outside firsts b j second p two)
