-- ===== src/Electronic/Fields.antt =====
-- jdftx/electronic/Symmetries.cpp, `sortSymmetries`, `checkFFTbox` up to the truncation center,
-- `initSymmIndex` and `symmetrize` of a scalar field, with `eblas_symmetrize` of
-- jdftx/core/BlasExtra.cpp and the matrices of jdftx/core/matrix3.h that they use. Integers do not
-- overflow. What stands behind the end of an array is an argument. The log output is left out.
pub mod Classes
pub mod Partition
pub mod Visits
pub mod Box
pub mod Commensurate
pub mod Residues
pub mod Rows
pub mod Products
pub mod Group
pub mod Symmetrized
pub mod Averages
pub mod Arrays
pub mod Invariance
use python_jdftx.Common.{
  ℕ, zero, suc, ◌+◌, ◌-◌, ◌*◌, ◌/◌, ◌%◌, ◌^◌, Bool, true, false, ◌&&◌, List, [], ◌∷◌, ◌++◌, Option,
  none, some, ltb, ◌==◌, if◌then◌else◌, length, get_elem?,
}
use python_jdftx.Common.Int.{ℤ, pos, negsuc, pos_part, neg_part, sub_ℕ, ◌+ℤ◌, ◌*ℤ◌, neg_ℤ}
use python_jdftx.Common.Loops.{loop}
use python_jdftx.Core.Number.{Double, ◌⊕◌, ◌⊗◌, ◌⊘◌}
use python_jdftx.Core.Grid.{Vector3, full_r_index, full_g_index}
use python_jdftx.Core.Threads.{thread_launch}

-- matrix3, by its rows.
pub record Matrix3 (A : Type 0) : Type 0 where
  pub row0 : Vector3 A
  pub row1 : Vector3 A
  pub row2 : Vector3 A

unfoldable pub times_row : Vector3 ℤ → Vector3 ℤ → ℤ
times_row a v = pos 0 +ℤ a.x *ℤ v.x +ℤ a.y *ℤ v.y +ℤ a.z *ℤ v.z

unfoldable pub times_vector : Matrix3 ℤ → Vector3 ℤ → Vector3 ℤ
times_vector m v = record { x = times_row m.row0 v; y = times_row m.row1 v; z = times_row m.row2 v }

-- `%` of C, whose sign is that of the first number.
unfoldable pub rem : ℤ → ℕ → ℤ
rem (pos n) s = pos (n % s)
rem (negsuc n) s = neg_ℤ (pos (suc n % s))

-- `index2` of initSymmIndex.
unfoldable pub image : Vector3 ℕ → Vector3 ℤ → Matrix3 ℤ → ℕ
image s r m =
    let r_new = times_vector m r in
    pos_part
      (full_g_index s (record { x = rem r_new.x s.x; y = rem r_new.y s.y; z = rem r_new.z s.z }))

-- `symmIndexVec` and `done`.
pub record Found : Type 0 where
  pub symm_index_vec : List ℕ
  pub done : ℕ → Bool

unfoldable pub mark : ℕ → Found → Found
mark index2 f = record {
  symm_index_vec = f.symm_index_vec ++ (index2 ∷ []);
  done = λ i. if i == index2 then true else f.done i;
}

module _ {M : Type 0} (to : M → ℕ) where
  unfoldable pub mark_images : List M → Found → Found
  mark_images [] f = f
  mark_images (m ∷ ms) f = mark_images ms (mark (to m) f)

  unfoldable pub visit : List M → (index : ℕ) → Found → Found
  visit ms index f = let marked = mark_images ms f in if f.done index then f else marked

abbrev pub grid_point : (x y z : ℕ) → Vector3 ℤ
grid_point x y z = record { x = pos x; y = pos y; z = pos z }

unfoldable pub visit_all : Vector3 ℕ → List (Matrix3 ℤ) → Found → Found
visit_all s sym_mesh = loop s.x 0 (λ x. loop s.y 0 (λ y. loop s.z 0 (λ z.
    visit (image s (grid_point x y z)) sym_mesh
      (pos_part (full_r_index s.z s.y (grid_point x y z))))))

-- The array `symmIndex`, empty where initSymmIndex returns early.
unfoldable pub init_symm_index : Vector3 ℕ → List (Matrix3 ℤ) → List ℕ
init_symm_index s sym_mesh =
    if length sym_mesh == 1
    then []
    else (visit_all s sym_mesh (record { symm_index_vec = []; done = λ i. false })).symm_index_vec

-- An array as the code reads it.
unfoldable pub data_of : (outside : ℕ → ℕ) → List ℕ → ℕ → ℕ
data_of outside xs k = elim (get_elem? xs k) [ some v ↦ v | none ↦ outside k ]

unfoldable pub write : {A : Type 0} → ℕ → A → (ℕ → A) → ℕ → A
write at v x = λ i. if i == at then v else x i

module _ {R : Type 0} ⦃r : Double R⦄ where
  -- The body of eblas_symmetrize_sub: the mean over class `i`, written to its points.
  unfoldable pub class_sum : (n : ℕ) (symm_index : ℕ → ℕ) (i : ℕ) (x : ℕ → R) → R
  class_sum n symm_index i x = loop n 0 (λ j x_sum. x_sum ⊕ x (symm_index (n * i + j))) (r.lit 0)

  unfoldable pub average_class : (n : ℕ) (symm_index : ℕ → ℕ) (i : ℕ) → (ℕ → R) → ℕ → R
  average_class n symm_index i x =
      let x_sum = class_sum n symm_index i x ⊗ (r.lit 1 ⊘ r.lit n) in
      loop n 0 (λ j. write (symm_index (n * i + j)) x_sum) x

  unfoldable pub eblas_symmetrize_sub : (n : ℕ) (symm_index : ℕ → ℕ) → ℕ × ℕ → (ℕ → R) → ℕ → R
  eblas_symmetrize_sub n symm_index (i_start, i_stop) x =
      loop (i_stop - i_start) i_start (average_class n symm_index) x

  -- The calls of a launch, one after the other.
  unfoldable pub run_calls : (n : ℕ) (symm_index : ℕ → ℕ) → List (ℕ × ℕ) → (ℕ → R) → ℕ → R
  run_calls n symm_index [] x = x
  run_calls n symm_index (call ∷ calls) x =
      run_calls n symm_index calls (eblas_symmetrize_sub n symm_index call x)

  unfoldable pub eblas_symmetrize :
      (n_procs_available : ℕ) (should_thread : Bool) (n_classes n : ℕ) (symm_index : ℕ → ℕ)
      → (ℕ → R)
      → ℕ
      → R
  eblas_symmetrize n_procs_available should_thread n_classes n symm_index =
      run_calls n symm_index
        (thread_launch (if ltb (n_classes * n) 10000 then 1 else 0) n_procs_available should_thread
          n_classes).calls

  unfoldable pub symmetrize :
      (n_procs_available : ℕ) (should_thread : Bool) (outside : ℕ → ℕ) (n_sym : ℕ)
      (symm_index : List ℕ)
      → (ℕ → R)
      → ℕ
      → R
  symmetrize n_procs_available should_thread outside n_sym symm_index x =
      if n_sym == 1
      then x
      else eblas_symmetrize n_procs_available should_thread (length symm_index / n_sym) n_sym
          (data_of outside symm_index) x
