-- ===== src/Core/Tasks/Division.antt =====
-- core/MPIUtil.cpp, class `TaskDivision`: every task has one owner, on which all processes agree,
-- and the shares differ by at most one task. The products must fit into size_t.
use native.Mathlib.Nat.{
  mod-eq_of_lt, le-div_iff_mul-le, div-lt_iff_lt-mul, div-mul-le_self, lt-div-mul-add,
  mul-div_cancel, zero-div,
}
use python_jdftx.Common.{
  ℕ, zero, suc, ◌+◌, ◌-◌, ◌*◌, ◌/◌, ◌≤◌, ◌<◌, ◌≡◌, ◌↔◌, inl, inr, sym, ap, ◌∙◌, true, some, arith,
  ltb, length, Bool-cases, dec_lt,
}
use python_jdftx.Core.Tasks.{
  TaskDivision, size_mod, stop_at, stops_from, init, is_mine, upper_bound, whose,
}
use python_jdftx.Core.Tasks.Stops.{
  length-stops_from, init-share, lower, share, Bounds, upper_bound-Bounds,
}

module _ (n p : ℕ) (pos : 0 < p) (fits : n * p < size_mod) where
  stop_at_exact : (i : ℕ) → i < p → stop_at n p i ≡ (n * (i + 1)) / p
  unfolding stop_at
  stop_at_exact i h = ap (λ x. x / p) (mod-eq_of_lt (grind arith))

  stop_at_mono : (i j : ℕ) → i ≤ j → j < p → stop_at n p i ≤ stop_at n p j
  stop_at_mono i j h k = rw (stop_at_exact i (omega arith)) (
      rw (stop_at_exact j k)
        ((le-div_iff_mul-le pos).1 (grind (arith, div-mul-le_self (n * (i + 1)) p))))

  stop_at_last : (i : ℕ) → i + 1 ≡ p → stop_at n p i ≡ n
  stop_at_last i e = stop_at_exact i (omega arith) ∙ rw e (mul-div_cancel n pos)

  -- Process `w` is given task `q`.
  record Owns (w q : ℕ) : Type 0 where
    inside : w < p
    above : lower n p w ≤ q
    below : q < stop_at n p w

  lower-le : (w q : ℕ) → ((j : ℕ) → j < w → stop_at n p j ≤ q) → lower n p w ≤ q
  unfolding lower
  lower-le zero q h = omega arith
  lower-le (suc w) q h = h w (omega arith)

  stop_at-le-lower : (i j : ℕ) → i < j → j < p → stop_at n p i ≤ lower n p j
  unfolding lower
  stop_at-le-lower i zero h k = absurd (omega arith)
  stop_at-le-lower i (suc j) h k = stop_at_mono i j (omega arith) (omega arith)

  Owns-unique : (v w q : ℕ) → Owns v q → Owns w q → v ≡ w
  Owns-unique v w q a b = elim (dec_lt v w) [
    | yes less ↦ absurd (omega (arith, stop_at-le-lower v w less b.inside, a.below, b.above))
    | no above ↦ elim (dec_lt w v) [
      | yes less ↦ absurd (omega (arith, stop_at-le-lower w v less a.inside, b.below, a.above))
      | no below ↦ omega arith
    ]
  ]

  whose_alone : (q : ℕ) → q < n → p ≡ 1 → Owns 0 q
  unfolding lower
  whose_alone q h e = record {
    inside = pos;
    above = omega arith;
    below = omega (arith, stop_at_last 0 (omega arith));
  }

  whose_found : (q w : ℕ) → q < n → Bounds n p p 0 q w → Owns w q
  whose_found q w h b = elim (dec_lt w p) [
    | yes inside ↦ record {
      inside = inside;
      above = lower-le w q (λ j k. b.before j (omega arith) (omega arith));
      below = b.at w (omega arith) inside;
    }
    | no outside ↦
        let last : p - 1 + 1 ≡ p = omega arith in
        absurd (
          omega (
            arith,
            stop_at_last (p - 1) last,
            b.before (p - 1) (omega arith) (omega (arith, b.inside)),
          ))
  ]

  -- `whose` names the process whose share holds the task.
  whose-Owns : (j q : ℕ) → q < n → Owns (whose (share n p j) q) q
  unfolding whose share
  whose-Owns j q h = elim (Bool-cases (ltb 1 (length (stops_from n p p 0)))) [
    | inl several ↦
        rw several
          (whose_found q (upper_bound q (stops_from n p p 0)) h (upper_bound-Bounds n p p 0 q))
    | inr alone ↦ rw alone (whose_alone q h (ground (arith, length-stops_from n p p 0)))
  ]

  is_mine-Owns : (j q : ℕ) → j < p → (is_mine (share n p j) q ≡ true) ↔ Owns j q
  unfolding is_mine share
  is_mine-Owns j q h = (
    λ e. record { inside = h; above = ground arith; below = ground arith },
    λ o. ground (arith, o.above, o.below),
  )

  -- Where the product of tasks and processes fits into size_t, init succeeds on every process, a
  -- task is isMine on a process exactly if whose names that process there, and what whose names
  -- is a process.
  pub init-owner :
      (j q : ℕ)
      → j < p
      → q < n
      → (d : TaskDivision) × (init n p j ≡ some d)
        × ((is_mine d q ≡ true) ↔ (whose d q ≡ j))
        × (whose d q < p)
  init-owner j q hj hq =
      let owner = whose-Owns j q hq in
      (
        share n p j,
        init-share n p j hj,
        (
          λ mine. Owns-unique (whose (share n p j) q) j q owner ((is_mine-Owns j q hj).0 mine),
          λ e. (is_mine-Owns j q hj).1 (rw e at owner),
        ),
        owner.inside,
      )

  lower_exact : (j : ℕ) → j < p → lower n p j ≡ (n * j) / p
  unfolding lower
  lower_exact zero h = sym (ap (λ x. x / p) (omega arith) ∙ zero-div p)
  lower_exact (suc j) h = stop_at_exact j (omega arith) ∙ ap (λ x. (n * x) / p) (omega arith)

  quotient_step_low : (a : ℕ) → a / p + n / p ≤ (a + n) / p
  quotient_step_low a =
      (le-div_iff_mul-le pos).1 (grind (arith, div-mul-le_self a p, div-mul-le_self n p))

  quotient_step_high : (a : ℕ) → (a + n) / p ≤ a / p + n / p + 1
  quotient_step_high a =
      let less : (a + n) / p < a / p + n / p + 2 =
        (div-lt_iff_lt-mul pos).1
          (grind (arith, lt-div-mul-add {a = a} pos, lt-div-mul-add {a = n} pos)) in
      omega arith

  -- Where the product of tasks and processes fits into size_t, the share of each process holds
  -- the mean number of tasks (rounded down), or one more.
  pub init_balanced :
      (j : ℕ)
      → j < p
      → (d : TaskDivision) × (init n p j ≡ some d)
        × (d.start_mine + n / p ≤ d.stop_mine)
        × (d.stop_mine ≤ d.start_mine + n / p + 1)
  unfolding share
  init_balanced j h =
      let next : stop_at n p j ≡ (n * j + n) / p =
        stop_at_exact j h ∙ ap (λ x. x / p) (omega arith) in
      let from = lower_exact j h in
      (
        share n p j,
        init-share n p j h,
        omega (arith, next, from, quotient_step_low (n * j)),
        omega (arith, next, from, quotient_step_high (n * j)),
      )

  -- The share of a process lies within the tasks.
  pub record IsWithin (d : TaskDivision) : Type 0 where
    pub ordered : d.start_mine ≤ d.stop_mine
    pub ends : d.stop_mine ≤ n

  lower-le_stop : (j : ℕ) → j < p → lower n p j ≤ stop_at n p j
  unfolding lower
  lower-le_stop zero h = omega arith
  lower-le_stop (suc j) h = stop_at_mono j (suc j) (omega arith) h

  pub init-IsWithin : (j : ℕ) → j < p → (d : TaskDivision) × (init n p j ≡ some d) × IsWithin d
  unfolding share
  init-IsWithin j h =
      let last : p - 1 + 1 ≡ p = omega arith in
      let end = stop_at_mono j (p - 1) (omega arith) (omega arith) in
      (
        share n p j,
        init-share n p j h,
        record { ordered = lower-le_stop j h; ends = omega (arith, stop_at_last (p - 1) last) },
      )

  -- The process that has a task in its share.
  pub record HasOwner (q : ℕ) : Type 0 where
    pub process : ℕ
    pub division : TaskDivision
    pub inside : process < p
    pub found : init n p process ≡ some division
    pub above : division.start_mine ≤ q
    pub below : q < division.stop_mine

  pub owner_found : (q : ℕ) → q < n → HasOwner q
  unfolding share
  owner_found q h =
      let j = whose (share n p 0) q in
      let o = whose-Owns 0 q h in
      record {
        process = j;
        division = share n p j;
        inside = o.inside;
        found = init-share n p j o.inside;
        above = o.above;
        below = o.below;
      }
