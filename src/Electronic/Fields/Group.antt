-- ===== src/Electronic/Fields/Group.antt =====
-- jdftx/electronic/Symmetries.cpp: on a box that passed `checkFFTbox`, a group of symmetries acts on
-- the points as a group.
use python_jdftx.Common.{
  ℕ, ◌*◌, ◌<◌, ◌≡◌, refl, sym, ap, subst, ◌∙◌, List, [], ◌∷◌, map, some, In, inl, inr, arith,
}
use python_jdftx.Common.Int.{ℤ}
use python_jdftx.Core.Grid.{Vector3}
use python_jdftx.Electronic.Fields.{Matrix3}
use python_jdftx.Electronic.Fields.Box.{diag3, times_matrix, check_fft_box}
use python_jdftx.Electronic.Fields.Commensurate.{IsMesh, check_fft_box-from, check_fft_box-to}
use python_jdftx.Electronic.Fields.Residues.{moves-within}
use python_jdftx.Electronic.Fields.Visits.{moves}
use python_jdftx.Electronic.Fields.Classes.{IsGroup}
use python_jdftx.Electronic.Fields.Products.{moves-product, product-IsMesh, moves_identity}

-- The symmetries hold the identity, products and inverses.
pub record IsMatrixGroup (ms : List (Matrix3 ℤ)) : Type 0 where
  pub identity : In (diag3 (record { x = 1; y = 1; z = 1 })) ms
  pub product : (k m : Matrix3 ℤ) → In k ms → In m ms → In (times_matrix k m) ms
  pub inverse :
      (m : Matrix3 ℤ)
      → In m ms
      → (k : Matrix3 ℤ) × In k ms × (times_matrix k m ≡ diag3 (record { x = 1; y = 1; z = 1 }))

module _ {A B : Type 0} (f : A → B) where
  In-map : (xs : List A) (b : B) → In b (map f xs) → (a : A) × In a xs × (b ≡ f a)
  In-map [] b i = absurd i
  In-map (x ∷ xs) b (inl e) = (x, inl refl, e)
  In-map (x ∷ xs) b (inr i) = let (a, l, e) = In-map xs b i in (a, inr l, e)

  pub map-In : (xs : List A) (a : A) (b : B) → In a xs → b ≡ f a → In b (map f xs)
  map-In [] a b i e = absurd i
  map-In (x ∷ xs) a b (inl same) e = inl (e ∙ ap f same)
  map-In (x ∷ xs) a b (inr i) e = inr (map-In xs a b i e)

module _ (s : Vector3 ℕ) (hx : 0 < s.x) (hy : 0 < s.y) (hz : 0 < s.z) where
  module _ (ms ts : List (Matrix3 ℤ)) (checked : check_fft_box s ms ≡ some ts)
      (group : IsMatrixGroup ms) where
    -- The image of an image is an image.
    product-In :
        (k t : Matrix3 ℤ) (i : ℕ)
        → In k ts
        → In t ts
        → (r : Matrix3 ℤ) × In r ts × (moves s k (moves s t i) ≡ moves s r i)
    product-In k t i hk ht =
        let (a, la, one) = check_fft_box-from s ms ts k checked hk in
        let (b, lb, two) = check_fft_box-from s ms ts t checked ht in
        let (r, lr, whole) =
          check_fft_box-to s ms ts (times_matrix a b) checked (group.product a b la lb) in
        let same = product-IsMesh s hx hy hz a b k t r one two whole in
        (r, lr, moves-product s hx hy hz a k t i one ∙ ap (λ m. moves s m i) (sym same))

    -- A move can be taken back.
    inverse-In :
        (t : Matrix3 ℤ) (i : ℕ)
        → i < s.z * (s.y * s.x)
        → In t ts
        → (k : Matrix3 ℤ) × In k ts × (moves s k (moves s t i) ≡ i)
    inverse-In t i h ht =
        let (b, lb, two) = check_fft_box-from s ms ts t checked ht in
        let (a, la, inverse) = group.inverse b lb in
        let (k, lk, one) = check_fft_box-to s ms ts a checked la in
        let (r, lr, whole) =
          check_fft_box-to s ms ts (times_matrix a b) checked (group.product a b la lb) in
        let same = product-IsMesh s hx hy hz a b k t r one two whole in
        (
          k,
          lk,
          moves-product s hx hy hz a k t i one
              ∙ ap (λ m. moves s m i) (sym same)
              ∙ moves_identity s hx hy hz r i h (subst (λ m. IsMesh s m r) inverse whole),
        )

    -- On a box that a group of symmetries is commensurate with, their matrices for the points of the
    -- box lead the points to one another as a group does.
    pub check_fft_box-IsGroup : IsGroup (moves s) ts (s.z * (s.y * s.x))
    check_fft_box-IsGroup = record {
      within = λ i p h l.
          let (t, lt, e) = In-map (λ m. moves s m i) ts p l in
          omega (arith, moves-within s hx hy hz t i);
      stays = λ i h.
          let (t, lt, mesh) =
            check_fft_box-to s ms ts (diag3 (record { x = 1; y = 1; z = 1 })) checked
              group.identity in
          map-In (λ m. moves s m i) ts t i lt (sym (moves_identity s hx hy hz t i h mesh));
      returns = λ i p h l.
          let (t, lt, e) = In-map (λ m. moves s m i) ts p l in
          let (k, lk, back) = inverse-In t i h lt in
          map-In (λ m. moves s m p) ts k i lk (sym (ap (moves s k) e ∙ back));
      follows = λ i p q h l n.
          let (t, lt, e) = In-map (λ m. moves s m i) ts p l in
          let (k, lk, g) = In-map (λ m. moves s m p) ts q n in
          let (r, lr, whole) = product-In k t i lk lt in
          map-In (λ m. moves s m i) ts r q lr (g ∙ ap (moves s k) e ∙ whole);
    }
