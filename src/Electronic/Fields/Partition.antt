-- ===== src/Electronic/Fields/Partition.antt =====
-- jdftx/electronic/Symmetries.cpp, `initSymmIndex`: its visits sort the points into classes.
use python_jdftx.Common.{
  ℕ, zero, suc, ◌+◌, ◌<◌, ◌≤◌, ◌≡◌, inl, inr, refl, sym, ap, ◌∙◌, subst, true, false, List, [], ◌∷◌,
  ◌++◌, length-append, In, arith, Bool-cases, ℕ_discrete,
}
use python_jdftx.Common.Places.{In-append, append-In, get_elem?-In, get_elem?-last}
use python_jdftx.Common.Loops.{loop}
use python_jdftx.Electronic.Fields.{Found, mark_images, visit}
use python_jdftx.Electronic.Fields.Classes.{
  images, IsGroup, flat, flat-append, IsSorted, mark_images-array, mark_images-kept,
  mark_images-hit, mark_images-only,
}

module _ {M : Type 0} (act : M → ℕ → ℕ) (ms : List M) (nr : ℕ) (group : IsGroup act ms nr) where
  pub start-IsSorted :
      (f : Found) → f.symm_index_vec ≡ [] → ((p : ℕ) → f.done p ≡ false) → IsSorted act ms nr 0 f []
  unfolding flat
  start-IsSorted f empty fresh = record {
    array = empty;
    below = λ i h. absurd h;
    apart = λ a b i j p e. cc;
    found = λ p e. let no_mark = fresh p in cc;
    marked = λ i p h. absurd h;
    few = omega arith;
    covered = λ p h. absurd (omega arith);
  }

  -- A point that is done is one of a class that is there.
  visited-IsSorted :
      (k : ℕ) (f : Found) (firsts : List ℕ)
      → f.done k ≡ true
      → IsSorted act ms nr k f firsts
      → IsSorted act ms nr (suc k) f firsts
  visited-IsSorted k f firsts e s = record {
    array = s.array;
    below = s.below;
    apart = s.apart;
    found = s.found;
    marked = s.marked;
    few = omega (arith, s.few);
    covered = λ p h. elim (ℕ_discrete p k) [
      | yes same ↦ rw same e
      | no other ↦ s.covered p (omega arith)
    ];
  }

  -- A new class has no point of an old one.
  apart_new :
      (k j p : ℕ) (f : Found) (firsts : List ℕ)
      → k < nr
      → f.done k ≡ false
      → IsSorted act ms nr k f firsts
      → In j firsts
      → In p (images act ms k)
      → In p (images act ms j)
      → ⊥
  apart_new k j p f firsts h fresh s listed one two =
      let small = s.below j listed in
      let back = group.returns k p h one in
      let old = s.marked j k listed (group.follows j p k small two back) in cc

  new-IsSorted :
      (k : ℕ) (f : Found) (firsts : List ℕ)
      → k < nr
      → f.done k ≡ false
      → IsSorted act ms nr k f firsts
      → IsSorted act ms nr (suc k) (mark_images (λ m. act m k) ms f) (firsts ++ (k ∷ []))
  new-IsSorted k f firsts h fresh s = record {
    array =
        mark_images-array act ms k ms f
        ∙ ap (λ l. l ++ images act ms k) s.array
        ∙ sym (flat-append act ms firsts k);
    below = λ i l. elim (In-append i firsts (k ∷ []) l) [
      | inl old ↦ s.below i old
      | inr (inl e) ↦ omega arith
      | inr (inr e) ↦ absurd e
    ];
    apart = λ a b i j p e g one two. elim (get_elem?-last firsts k i a e) [
      | inl old ↦ elim (get_elem?-last firsts k j b g) [
        | inl older ↦ s.apart a b i j p old older one two
        | inr (place, same) ↦ absurd (
            apart_new k i p f firsts h fresh s (get_elem?-In firsts a i old)
              (subst (λ q. In p (images act ms q)) same two) one)
      ]
      | inr (place, same) ↦ elim (get_elem?-last firsts k j b g) [
        | inl older ↦ absurd (
            apart_new k j p f firsts h fresh s (get_elem?-In firsts b j older)
              (subst (λ q. In p (images act ms q)) same one) two)
        | inr (other, equal) ↦ omega arith
      ]
    ];
    found = λ p e. elim (mark_images-only act ms k p ms f e) [
      | inl old ↦ let (i, l, m) = s.found p old in (i, append-In i firsts (k ∷ []) (inl l), m)
      | inr new ↦ (k, append-In k firsts (k ∷ []) (inr (inl refl)), new)
    ];
    marked = λ i p l m. elim (In-append i firsts (k ∷ []) l) [
      | inl old ↦ mark_images-kept act ms k p ms f (s.marked i p old m)
      | inr (inl e) ↦ mark_images-hit act ms k p ms f (subst (λ q. In p (images act ms q)) e m)
      | inr (inr e) ↦ absurd e
    ];
    few = omega (arith, s.few, length-append firsts (k ∷ []));
    covered = λ p l. elim (ℕ_discrete p k) [
      | yes same ↦ rw same (mark_images-hit act ms k k ms f (group.stays k h))
      | no other ↦ mark_images-kept act ms k p ms f (s.covered p (omega arith))
    ];
  }

  pub visit-IsSorted :
      (k : ℕ) (f : Found) (firsts : List ℕ)
      → k < nr
      → IsSorted act ms nr k f firsts
      → (more : List ℕ) × IsSorted act ms nr (suc k) (visit (λ m. act m k) ms k f) more
  unfolding visit
  visit-IsSorted k f firsts h s = elim (Bool-cases (f.done k)) [
    | inl old ↦ (firsts, rw old (visited-IsSorted k f firsts old s))
    | inr fresh ↦ (firsts ++ (k ∷ []), rw fresh (new-IsSorted k f firsts h fresh s))
  ]

  pub visits-IsSorted :
      (count k : ℕ) (f : Found) (firsts : List ℕ)
      → k + count ≤ nr
      → IsSorted act ms nr k f firsts
      → (more : List ℕ) × IsSorted act ms nr
          (k + count)
          (loop count k (λ i. visit (λ m. act m i) ms i) f)
          more
  unfolding loop
  visits-IsSorted zero k f firsts h s =
      let same : k ≡ k + 0 = omega arith in
      (firsts, subst (λ n. IsSorted act ms nr n f firsts) same s)
  visits-IsSorted (suc count) k f firsts h s =
      let (next, t) = visit-IsSorted k f firsts (omega arith) s in
      let (more, u) =
        visits-IsSorted count (suc k) (visit (λ m. act m k) ms k f) next (omega arith) t in
      let same : suc k + count ≡ k + suc count = omega arith in
      (
        more,
        subst
            (λ n.
              IsSorted act ms nr n
                (loop count (suc k) (λ i. visit (λ m. act m i) ms i) (visit (λ m. act m k) ms k f))
                more)
            same u,
      )
