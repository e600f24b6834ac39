-- ===== src/Core/Tasks/Stops.antt =====
-- core/MPIUtil.cpp, `TaskDivision`: the list of its stops, and the search in it.
use python_jdftx.Common.{
  ℕ, zero, suc, ◌+◌, ◌≤◌, ◌<◌, ◌≡◌, inl, inr, refl, ap, some, arith, ltb, length, get_elem?,
  Bool-cases, ℕ_discrete,
}
use python_jdftx.Core.Tasks.{
  TaskDivision, stop_at, stops_from, start_of, stop_of, init, upper_bound,
}

pub length-stops_from : (n p count i : ℕ) → length (stops_from n p count i) ≡ count
unfolding stops_from
length-stops_from n p zero i = refl
length-stops_from n p (suc count) i = ap suc (length-stops_from n p count (suc i))

get_elem?-stops_from :
    (n p count i j k : ℕ)
    → i + j ≡ k
    → j < count
    → get_elem? (stops_from n p count i) j ≡ some (stop_at n p k)
unfolding stops_from
get_elem?-stops_from n p zero i j k e h = absurd (omega arith)
get_elem?-stops_from n p (suc count) i zero k e h =
    let same : i ≡ k = omega arith in ap (λ x. some (stop_at n p x)) same
get_elem?-stops_from n p (suc count) i (suc j) k e h =
    get_elem?-stops_from n p count (suc i) j k (omega arith) (omega arith)

-- Where process `j` starts.
unfoldable pub lower : ℕ → ℕ → ℕ → ℕ
lower n p zero = 0
lower n p (suc j) = stop_at n p j

unfoldable pub share : ℕ → ℕ → ℕ → TaskDivision
share n p j = record {
  start_mine = lower n p j;
  stop_mine = stop_at n p j;
  stop_arr = stops_from n p p 0;
}

pub init-share : (n p j : ℕ) → j < p → init n p j ≡ some (share n p j)
unfolding init share lower start_of stop_of
init-share n p zero h = ground (arith, get_elem?-stops_from n p p 0 0 0 (omega arith) h)
init-share n p (suc j) h = ground (
  arith,
  get_elem?-stops_from n p p 0 j j (omega arith) (omega arith),
  get_elem?-stops_from n p p 0 (suc j) (suc j) (omega arith) h,
)

-- Below the place that `upper_bound` finds the array holds at most `q`, and there more than `q`.
pub record Bounds (n p count i q w : ℕ) : Type 0 where
  pub inside : w ≤ count
  pub before : (j : ℕ) → i ≤ j → j < i + w → stop_at n p j ≤ q
  pub at : (j : ℕ) → j ≡ i + w → w < count → q < stop_at n p j

pub upper_bound-Bounds :
    (n p count i q : ℕ) → Bounds n p count i q (upper_bound q (stops_from n p count i))
unfolding upper_bound stops_from
upper_bound-Bounds n p zero i q = record {
  inside = omega arith;
  before = λ j h k. absurd (omega arith);
  at = λ j e h. absurd (omega arith);
}
upper_bound-Bounds n p (suc count) i q =
    let deeper = upper_bound-Bounds n p count (suc i) q in
    elim (Bool-cases (ltb q (stop_at n p i))) [
      | inl here ↦ rw here (record {
        inside = omega arith;
        before = λ j h k. absurd (omega arith);
        at = λ j e _. let same : i ≡ j = omega arith in rw (← same) (ground arith);
      })
      | inr above ↦ rw above (record {
        inside = omega (arith, deeper.inside);
        before = λ j h k. elim (ℕ_discrete i j) [
          | yes same ↦ rw (← same) (ground arith)
          | no differs ↦ deeper.before j (omega arith) (omega arith)
        ];
        at = λ j e h. deeper.at j (omega arith) (omega arith);
      })
    ]
