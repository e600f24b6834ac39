-- ===== src/Electronic/Fields/Classes.antt =====
-- jdftx/electronic/Symmetries.cpp, `initSymmIndex`: the classes of points that the symmetries lead to
-- one another.
use python_jdftx.Common.{
  ℕ, ◌<◌, ◌≤◌, ◌≡◌, ◌⊎◌, inl, inr, refl, sym, ap, ◌∙◌, true, List, [], ◌∷◌, ◌++◌, append-nil,
  append_assoc, map, some, length, get_elem?, In, ◌==◌, arith, Bool-cases,
}
use python_jdftx.Electronic.Fields.{Found, mark, mark_images}

module _ {M : Type 0} (act : M → ℕ → ℕ) (ms : List M) where
  -- `p` is one of the images of `i`.
  abbrev pub images : ℕ → List ℕ
  images i = map (λ m. act m i) ms

  -- The arrays of several classes, one behind the other.
  unfoldable pub flat : List ℕ → List ℕ
  flat [] = []
  flat (i ∷ is) = images i ++ flat is

  pub flat-append : (is : List ℕ) (i : ℕ) → flat (is ++ (i ∷ [])) ≡ flat is ++ images i
  unfolding flat
  flat-append [] i = append-nil (images i)
  flat-append (x ∷ is) i =
      ap (λ l. images x ++ l) (flat-append is i)
      ∙ sym (append_assoc (images x) (flat is) (images i))

  module _ (nr : ℕ) where
    -- Within the box, the symmetries lead to one another as those of a group do.
    pub record IsGroup : Type 0 where
      pub within : (i p : ℕ) → i < nr → In p (images i) → p < nr
      pub stays : (i : ℕ) → i < nr → In i (images i)
      pub returns : (i p : ℕ) → i < nr → In p (images i) → In i (images p)
      pub follows : (i p q : ℕ) → i < nr → In p (images i) → In q (images p) → In q (images i)

    -- After the visits of the first `k` points: the first points of the classes, in the array one
    -- after the other, with the points of different classes apart.
    pub record IsSorted (k : ℕ) (f : Found) (firsts : List ℕ) : Type 0 where
      pub array : f.symm_index_vec ≡ flat firsts
      pub below : (i : ℕ) → In i firsts → i < nr
      pub apart :
          (a b i j p : ℕ)
          → get_elem? firsts a ≡ some i
          → get_elem? firsts b ≡ some j
          → In p (images i)
          → In p (images j)
          → a ≡ b
      pub found : (p : ℕ) → f.done p ≡ true → (i : ℕ) × In i firsts × In p (images i)
      pub marked : (i p : ℕ) → In i firsts → In p (images i) → f.done p ≡ true
      pub few : length firsts ≤ k
      pub covered : (p : ℕ) → p < k → f.done p ≡ true

  -- What marking the images of `i` does.
  pub mark_images-array :
      (i : ℕ) (rest : List M) (f : Found)
      → (mark_images (λ m. act m i) rest f).symm_index_vec
        ≡ f.symm_index_vec ++ map (λ m. act m i) rest
  unfolding mark_images mark
  mark_images-array i [] f = sym (append-nil f.symm_index_vec)
  mark_images-array i (m ∷ rest) f =
      mark_images-array i rest (mark (act m i) f)
      ∙ append_assoc f.symm_index_vec (act m i ∷ []) (map (λ m. act m i) rest)

  pub mark_images-kept :
      (i p : ℕ) (rest : List M) (f : Found)
      → f.done p ≡ true
      → (mark_images (λ m. act m i) rest f).done p ≡ true
  unfolding mark_images mark
  mark_images-kept i p [] f e = e
  mark_images-kept i p (m ∷ rest) f e =
      let now : (mark (act m i) f).done p ≡ true = elim (Bool-cases (p == act m i)) [
        | inl same ↦ rw same refl
        | inr other ↦ rw other e
      ] in
      mark_images-kept i p rest (mark (act m i) f) now

  pub mark_images-hit :
      (i p : ℕ) (rest : List M) (f : Found)
      → In p (map (λ m. act m i) rest)
      → (mark_images (λ m. act m i) rest f).done p ≡ true
  unfolding mark_images mark
  mark_images-hit i p [] f h = absurd h
  mark_images-hit i p (m ∷ rest) f (inl e) =
      let same : (p == act m i) ≡ true = ground arith in
      let now : (mark (act m i) f).done p ≡ true = rw same refl in
      mark_images-kept i p rest (mark (act m i) f) now
  mark_images-hit i p (m ∷ rest) f (inr h) = mark_images-hit i p rest (mark (act m i) f) h

  pub mark_images-only :
      (i p : ℕ) (rest : List M) (f : Found)
      → (mark_images (λ m. act m i) rest f).done p ≡ true
      → (f.done p ≡ true) ⊎ In p (map (λ m. act m i) rest)
  unfolding mark_images mark
  mark_images-only i p [] f e = inl e
  mark_images-only i p (m ∷ rest) f e = elim (mark_images-only i p rest (mark (act m i) f) e) [
    | inr k ↦ inr (inr k)
    | inl k ↦ elim (Bool-cases (p == act m i)) [
      | inl same ↦ inr (inl (ground arith))
      | inr other ↦ inl (rw other at k)
    ]
  ]
