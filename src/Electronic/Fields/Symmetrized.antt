-- ===== src/Electronic/Fields/Symmetrized.antt =====
-- jdftx/electronic/Symmetries.cpp, `setupMesh` and `symmetrize` of a scalar field: together they make
-- the field one that a group of symmetries leaves alone.
use python_jdftx.Common.{
  ℕ, suc, ◌*◌, ◌<◌, ◌≡◌, ◌≢◌, refl, sym, ap, subst, ◌∙◌, Bool, List, [], ◌∷◌, some, length, In, inl,
  inr,
}
use python_jdftx.Common.Int.{ℤ}
use python_jdftx.Common.Options.{>>=-eq-some}
use python_jdftx.Core.Number.{Double}
use python_jdftx.Core.Tasks.{size_mod}
use python_jdftx.Core.Grid.{Vector3}
use python_jdftx.Electronic.Fields.{Matrix3, init_symm_index, symmetrize}
use python_jdftx.Electronic.Fields.Box.{mesh_matrix, check_fft_box, setup_mesh}
use python_jdftx.Electronic.Fields.Group.{IsMatrixGroup, check_fft_box-IsGroup, map-In}
use python_jdftx.Electronic.Fields.Invariance.{
  IsAveraged, symmetrize-IsAveraged, symmetrize_invariant,
}
use python_jdftx.Electronic.Fields.Visits.{moves}

length-check_fft_box :
    (s : Vector3 ℕ) (ms ts : List (Matrix3 ℤ))
    → check_fft_box s ms ≡ some ts
    → length ts ≡ length ms
unfolding check_fft_box
length-check_fft_box s [] ts e = let same : [] ≡ ts = cc in ap length (sym same)
length-check_fft_box s (m ∷ ms) ts e =
    let (t, mesh, e1) = >>=-eq-some (mesh_matrix s m) _ ts e in
    let (rest, more, e2) = >>=-eq-some (check_fft_box s ms) _ ts e1 in
    let same : t ∷ rest ≡ ts = cc in
    ap length (sym same) ∙ ap suc (length-check_fft_box s ms rest more)

mesh_matrix-In :
    (s : Vector3 ℕ) (ms ts : List (Matrix3 ℤ)) (m t : Matrix3 ℤ)
    → check_fft_box s ms ≡ some ts
    → In m ms
    → mesh_matrix s m ≡ some t
    → In t ts
unfolding check_fft_box
mesh_matrix-In s [] ts m t e i f = absurd i
mesh_matrix-In s (n ∷ ms) ts m t e i f =
    let (u, mesh, e1) = >>=-eq-some (mesh_matrix s n) _ ts e in
    let (rest, more, e2) = >>=-eq-some (check_fft_box s ms) _ ts e1 in
    let same : u ∷ rest ≡ ts = cc in
    elim i [
      | inl equal ↦
          let one : t ≡ u = let both = ap (mesh_matrix s) equal in cc in
          let j : In t (u ∷ rest) = inl one in subst (λ l. In t l) same j
      | inr k ↦
          let j : In t (u ∷ rest) = inr (mesh_matrix-In s ms rest m t more k f) in
          subst (λ l. In t l) same j
    ]

module _ {R : Type 0} ⦃r : Double R⦄ (s : Vector3 ℕ) (sym_list : List (Matrix3 ℤ)) (index : List ℕ)
    (n_procs : ℕ) (should_thread : Bool) (outside : ℕ → ℕ) where
  -- The field that `symmetrize` leaves.
  abbrev pub field : (ℕ → R) → ℕ → R
  field = symmetrize n_procs should_thread outside (length sym_list) index

  module _ (hx : 0 < s.x) (hy : 0 < s.y) (hz : 0 < s.z) (made : setup_mesh s sym_list ≡ some index)
      (group : IsMatrixGroup sym_list) (procs : 0 < n_procs)
      (fits : n_procs * (s.z * (s.y * s.x)) < size_mod) where
    -- With sides of the box that are not 0, symmetries that form a group and pass the check of
    -- the box, and a product of processors and points that fits into size_t: the field that
    -- symmetrize leaves has the same value at a point and at its image under a symmetry.
    pub symmetrize-mesh_matrix :
        (x : ℕ → R) (p : ℕ) (m t : Matrix3 ℤ)
        → p < s.z * (s.y * s.x)
        → In m sym_list
        → mesh_matrix s m ≡ some t
        → field x (moves s t p) ≡ field x p
    unfolding setup_mesh
    symmetrize-mesh_matrix x p m t h l mesh =
        let (ts, checked, e) = >>=-eq-some (check_fft_box s sym_list) _ index made in
        let left : init_symm_index s ts ≡ index = cc in
        let size = length-check_fft_box s sym_list ts checked in
        let whole = check_fft_box-IsGroup s hx hy hz sym_list ts checked group in
        let lt = mesh_matrix-In s sym_list ts m t checked l mesh in
        let image = map-In (λ k. moves s k p) ts t (moves s t p) lt refl in
        let same =
          symmetrize_invariant s ts n_procs should_thread outside whole procs fits x p (moves s t p)
            h image in
        subst
          (λ n.
            symmetrize n_procs should_thread outside n index x (moves s t p)
            ≡ symmetrize n_procs should_thread outside n index x p)
          size
          (subst
            (λ a.
              symmetrize n_procs should_thread outside (length ts) a x (moves s t p)
              ≡ symmetrize n_procs should_thread outside (length ts) a x p)
            left (sym same))

    -- With sides of the box that are not 0, symmetries that form a group of more than one and
    -- pass the check of the box, and a product of processors and points that fits into size_t:
    -- each point of the box is one of those to which the symmetries lead from some point, which
    -- all get the mean of the old values there.
    pub symmetrize-IsMean :
        (x : ℕ → R) (p : ℕ)
        → length sym_list ≢ 1
        → p < s.z * (s.y * s.x)
        → (ts : List (Matrix3 ℤ)) × (check_fft_box s sym_list ≡ some ts)
          × IsAveraged s ts x (field x) p
    unfolding setup_mesh
    symmetrize-IsMean x p several h =
        let (ts, checked, e) = >>=-eq-some (check_fft_box s sym_list) _ index made in
        let left : init_symm_index s ts ≡ index = cc in
        let size = length-check_fft_box s sym_list ts checked in
        let more : length ts ≢ 1 = λ one. several (sym size ∙ one) in
        let whole = check_fft_box-IsGroup s hx hy hz sym_list ts checked group in
        let mean =
          symmetrize-IsAveraged s ts n_procs should_thread outside whole procs fits x p more h in
        (
          ts,
          checked,
          subst (λ n. IsAveraged s ts x (symmetrize n_procs should_thread outside n index x) p) size
              (subst
                (λ a.
                  IsAveraged s ts x (symmetrize n_procs should_thread outside (length ts) a x) p)
                left mean),
        )
