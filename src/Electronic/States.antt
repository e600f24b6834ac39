-- ===== src/Electronic/States.antt =====
-- jdftx/electronic/ElecInfo.cpp, `kpointsReduce`, and the types of spin of ElecInfo.h: the electronic
-- states behind the reduction of the k-points. Only the output is left out.
use python_jdftx.Common.{
  ℕ, ◌*◌, ◌^◌, ◌<◌, ◌≤◌, length, ◌≡◌, refl, ap, ◌∙◌, sym, Bool, List, [], ◌∷◌, ◌++◌,
}
use python_jdftx.Common.Int.{ℤ, pos, negsuc}
use python_jdftx.Core.Number.{Double, ◌⊕◌, ◌⊗◌}
use python_jdftx.Electronic.Kmesh.{QuantumNumber, Lookup, reduce_kmesh}
use python_jdftx.Core.Tasks.{size_mod}
use python_jdftx.Electronic.Kmesh.Processes.{IsSynced}
use python_jdftx.Electronic.Kmesh.Roots.{IsClosed}
use python_jdftx.Electronic.Kmesh.Reduction.{reduce_kmesh-total}
use python_jdftx.Electronic.Kmesh.Weights.{IsExactSum, total, total-append, weight_sum}

pub data SpinType : Type 0 where
  spin_none : SpinType
  spin_z : SpinType
  spin_vector : SpinType
  spin_orbit : SpinType

module _ {R : Type 0} ⦃r : Double R⦄ where
  -- The greatest occupation of a state.
  unfoldable pub spin_weight : SpinType → R
  spin_weight spin_none = r.lit 2
  spin_weight spin_z = r.lit 1
  spin_weight spin_vector = r.lit 1
  spin_weight spin_orbit = r.lit 1

module _ {K R : Type 0} where
  unfoldable pub with_spin : ℤ → List (QuantumNumber K R) → List (QuantumNumber K R)
  with_spin s [] = []
  with_spin s (q ∷ qs) = record q { spin = s } ∷ with_spin s qs

module _ {K R : Type 0} ⦃r : Double R⦄ where
  unfoldable pub times_weight : R → List (QuantumNumber K R) → List (QuantumNumber K R)
  times_weight w [] = []
  times_weight w (q ∷ qs) = record q { weight = q.weight ⊗ w } ∷ times_weight w qs

  -- The second copy of the k-points is the one that reduceKmesh returned.
  unfoldable pub spin_states :
      SpinType → (weighted q_red : List (QuantumNumber K R)) → List (QuantumNumber K R)
  spin_states spin_none weighted q_red = weighted
  spin_states spin_z weighted q_red = with_spin (pos 1) weighted ++ with_spin (negsuc 0) q_red
  spin_states spin_vector weighted q_red = weighted
  spin_states spin_orbit weighted q_red = weighted

  unfoldable pub kpoints_reduce :
      SpinType
      → (ℕ → QuantumNumber K R)
      → (n : ℕ) (kmap : ℕ → ℕ) → List Bool
      → List (QuantumNumber K R)
  kpoints_reduce spin_type qnums n kmap invert_list =
      let q_red = (reduce_kmesh qnums n kmap invert_list).q_red in
      spin_states spin_type (times_weight (spin_weight spin_type) q_red) q_red

-- Products with the two weights of a state.
pub record IsExactWeight (R : Type 0) ⦃r : Double R⦄ : Type 0 where
  pub mul_one : (a : R) → a ⊗ r.lit 1 ≡ a
  pub mul_two : (a : R) → a ⊗ r.lit 2 ≡ a ⊕ a

-- What the states of a mesh of total weight `w` weigh together: twice that if the spins are collinear.
unfoldable pub states_weight : {R : Type 0} ⦃r : Double R⦄ → SpinType → R → R
states_weight spin_none w = w ⊕ w
states_weight spin_z w = w ⊕ w
states_weight spin_vector w = w
states_weight spin_orbit w = w

module _ {R : Type 0} ⦃r : Double R⦄ (laws : IsExactSum R) where
  swap_middle : (a b c d : R) → (a ⊕ b) ⊕ (c ⊕ d) ≡ (a ⊕ c) ⊕ (b ⊕ d)
  swap_middle a b c d =
      laws.add_assoc a b (c ⊕ d)
      ∙ ap (λ x. a ⊕ x)
          (sym (laws.add_assoc b c d) ∙ ap (λ x. x ⊕ d) (laws.add_comm b c) ∙ laws.add_assoc c b d)
      ∙ sym (laws.add_assoc a c (b ⊕ d))

module _ {K R : Type 0} ⦃r : Double R⦄ where
  total-with_spin : (s : ℤ) (qs : List (QuantumNumber K R)) → total (with_spin s qs) ≡ total qs
  unfolding total with_spin
  total-with_spin s [] = refl
  total-with_spin s (q ∷ qs) = ap (λ x. x ⊕ q.weight) (total-with_spin s qs)

  module _ (laws : IsExactSum R) (weights : IsExactWeight R) where
    total-times_one : (qs : List (QuantumNumber K R)) → total (times_weight (r.lit 1) qs) ≡ total qs
    unfolding total times_weight
    total-times_one [] = refl
    total-times_one (q ∷ qs) =
        ap (λ x. x ⊕ (q.weight ⊗ r.lit 1)) (total-times_one qs)
        ∙ ap (λ x. total qs ⊕ x) (weights.mul_one q.weight)

    total-times_two :
        (qs : List (QuantumNumber K R)) → total (times_weight (r.lit 2) qs) ≡ total qs ⊕ total qs
    unfolding total times_weight
    total-times_two [] = sym (laws.add_zero (r.lit 0))
    total-times_two (q ∷ qs) =
        ap (λ x. x ⊕ (q.weight ⊗ r.lit 2)) (total-times_two qs)
        ∙ ap (λ x. (total qs ⊕ total qs) ⊕ x) (weights.mul_two q.weight)
        ∙ swap_middle laws (total qs) (total qs) q.weight q.weight

    total-spin_states :
        (t : SpinType) (qs : List (QuantumNumber K R))
        → total (spin_states t (times_weight (spin_weight t) qs) qs) ≡ states_weight t (total qs)
    unfolding spin_states spin_weight states_weight
    total-spin_states spin_none qs = total-times_two qs
    total-spin_states spin_z qs =
        let one = times_weight (r.lit 1) qs in
        total-append laws (with_spin (pos 1) one) (with_spin (negsuc 0) qs)
        ∙ ap (λ x. x ⊕ total (with_spin (pos 1) one)) (total-with_spin (negsuc 0) qs)
        ∙ ap (λ x. total qs ⊕ x) (total-with_spin (pos 1) one ∙ total-times_one qs)
    total-spin_states spin_vector qs = total-times_one qs
    total-spin_states spin_orbit qs = total-times_one qs

    module _ {M : Type 0} (find : Lookup M) (inverts : List Bool) (sym_list : List M) (n : ℕ) where
      -- With fewer than 2 ^ 56 k-points, at most 128 symmetries, operations that form a group,
      -- and products of k-points and processes that fit into size_t, and with exact sums and
      -- products: the states that kpointsReduce makes of a mesh weigh together twice as much as
      -- its k-points if the spins are collinear, whether or not they are states of their own, and
      -- else as much.
      pub kpoints_reduce-total :
          (t : SpinType) (qnums : ℕ → QuantumNumber K R) (p : ℕ) (kmap : ℕ → ℕ)
          → n < 2 ^ 56
          → length sym_list ≤ 2 ^ 7
          → 0 < p
          → n * p < size_mod
          → IsClosed find inverts sym_list n
          → IsSynced find inverts sym_list n p kmap
          → total (kpoints_reduce t qnums n kmap inverts) ≡ states_weight t (weight_sum qnums n)
      unfolding kpoints_reduce
      kpoints_reduce-total t qnums p kmap few small some_process fits closed synced =
          total-spin_states t (reduce_kmesh qnums n kmap inverts).q_red
          ∙ ap (states_weight t) (
              reduce_kmesh-total find inverts sym_list n few small p kmap some_process fits qnums
                closed synced laws)
