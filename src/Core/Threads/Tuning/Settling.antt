-- ===== src/Core/Threads/Tuning/Settling.antt =====
-- core/AutoThreadCount.cpp: the search settles.
use python_jdftx.Common.{
  refl, ℕ, zero, suc, ◌+◌, ◌-◌, ◌*◌, ◌<◌, ◌≡◌, ◌⊎◌, inl, inr, ◌≤◌, Bool, if◌then◌else◌, true, false,
  List, [], ◌∷◌, arith, get_or, set, replicate, length, length-replicate,
}
use python_jdftx.Core.Threads.Tuning.{
  Clock, AutoThreadCount, construct, get_thread_count, submit_time, tuned_launch, tuned_launches,
}
use python_jdftx.Core.Threads.Tuning.Validity.{
  IsValid, get_thread_count_settled, get_thread_count-Gets, submit_time-IsValid,
}

-- How many tries are missing.
deficit : ℕ → List ℕ → ℕ
deficit min_stats [] = 0
deficit min_stats (c ∷ cs) = (min_stats - c) + deficit min_stats cs

deficit-set :
    (m : ℕ) (cs : List ℕ) (i : ℕ)
    → i < length cs
    → get_or cs i 0 < m
    → deficit m (set cs i (get_or cs i 0 + 1)) < deficit m cs
unfolding deficit
deficit-set m [] i h k = absurd (omega arith)
deficit-set m (c ∷ cs) zero h k = omega arith
deficit-set m (c ∷ cs) (suc i) h k = omega (arith, deficit-set m cs i (omega arith) k)

-- One try more of any thread count leaves no more of them missing.
deficit-set-le :
    (m : ℕ) (cs : List ℕ) (i : ℕ) → deficit m (set cs i (get_or cs i 0 + 1)) ≤ deficit m cs
unfolding deficit
deficit-set-le m [] i = omega arith
deficit-set-le m (c ∷ cs) zero = omega arith
deficit-set-le m (c ∷ cs) (suc i) = omega (arith, deficit-set-le m cs i)

-- The launches at which threading is on.
unfoldable pub threaded : {A : Type 0} → List (Bool × A) → ℕ
threaded [] = 0
threaded ((should_thread, a) ∷ ts) =
    let rest = threaded ts in if should_thread then suc rest else rest

deficit-replicate : (m n : ℕ) → deficit m (replicate n 0) ≡ n * m
unfolding deficit
deficit-replicate m zero = omega arith
deficit-replicate m (suc n) = grind (arith, deficit-replicate m n)

module _ (clock : Clock) where
  -- A launch settles the search, or fills in a missing try.
  record Advances (a b : AutoThreadCount clock) : Type 0 where
    valid : IsValid clock b
    same_stats : b.min_stats ≡ a.min_stats
    progress : (b.settled ≡ true) ⊎ (deficit a.min_stats b.count < deficit a.min_stats a.count)

  tuned_launch-Advances :
      (a : AutoThreadCount clock) (t : clock.Time)
      → IsValid clock a
      → Advances a (tuned_launch clock true a t)
  unfolding tuned_launch submit_time
  tuned_launch-Advances a t v =
      let n = (get_thread_count clock true a).0 in
      let b = (get_thread_count clock true a).1 in
      let g = get_thread_count-Gets clock a v in
      record {
        valid = submit_time-IsValid clock b n t g.valid;
        same_stats = g.same_stats;
        progress = elim g.progress [
          | inl done ↦ inl done
          | inr (_, same, few) ↦ inr (
              rw same (
                deficit-set a.min_stats a.count (n - 1) (omega (arith, g.pos, g.le, v.counts)) few))
        ];
      }

  -- A launch while threading is suspended is one with one thread, and is counted as such.
  record Waits (a b : AutoThreadCount clock) : Type 0 where
    valid : IsValid clock b
    same_stats : b.min_stats ≡ a.min_stats
    no_worse : deficit a.min_stats b.count ≤ deficit a.min_stats a.count

  tuned_launch-Waits :
      (a : AutoThreadCount clock) (t : clock.Time)
      → IsValid clock a
      → Waits a (tuned_launch clock false a t)
  unfolding tuned_launch submit_time get_thread_count
  tuned_launch-Waits a t v = record {
    valid = submit_time-IsValid clock a 1 t v;
    same_stats = refl;
    no_worse = deficit-set-le a.min_stats a.count 0;
  }

  tuned_launch_settled :
      (should_thread : Bool) (a : AutoThreadCount clock) (t : clock.Time)
      → a.settled ≡ true
      → (tuned_launch clock should_thread a t).settled ≡ true
  unfolding tuned_launch submit_time get_thread_count
  tuned_launch_settled true a t h = rw (get_thread_count_settled clock a h) h
  tuned_launch_settled false a t h = h

  tuned_launches_settled :
      (a : AutoThreadCount clock) (ts : List (Bool × clock.Time))
      → a.settled ≡ true
      → (tuned_launches clock a ts).settled ≡ true
  unfolding tuned_launches
  tuned_launches_settled a [] h = h
  tuned_launches_settled a ((on, t) ∷ ts) h =
      tuned_launches_settled (tuned_launch clock on a t) ts (tuned_launch_settled on a t h)

  tuned_launches_settle :
      (a : AutoThreadCount clock) (ts : List (Bool × clock.Time))
      → IsValid clock a
      → deficit a.min_stats a.count < threaded ts
      → (tuned_launches clock a ts).settled ≡ true
  unfolding tuned_launches threaded
  tuned_launches_settle a [] v h = absurd (omega arith)
  tuned_launches_settle a ((true, t) ∷ ts) v h =
      let step = tuned_launch-Advances a t v in
      elim step.progress [
        | inl done ↦ tuned_launches_settled (tuned_launch clock true a t) ts done
        | inr less ↦
            tuned_launches_settle (tuned_launch clock true a t) ts step.valid
              (rw step.same_stats (omega arith))
      ]
  tuned_launches_settle a ((false, t) ∷ ts) v h =
      let step = tuned_launch-Waits a t v in
      tuned_launches_settle (tuned_launch clock false a t) ts step.valid
        (rw step.same_stats (omega (arith, step.no_worse)))

  -- With a processor and a minimum of one thread or more, the search for the best thread count
  -- has settled after more launches with operator threading on than minStats for each processor,
  -- whatever the running times were and however many launches came in between while threading was
  -- suspended.
  pub construct_settles :
      (n_procs min_threads min_stats : ℕ) (ts : List (Bool × clock.Time))
      → 0 < n_procs
      → 0 < min_threads
      → n_procs * min_stats < threaded ts
      → (tuned_launches clock (construct clock n_procs min_threads min_stats) ts).settled ≡ true
  unfolding construct
  construct_settles n_procs min_threads min_stats ts h k l =
      tuned_launches_settle (construct clock n_procs min_threads min_stats) ts
        (record {
          times = length-replicate n_procs clock.time_max;
          counts = length-replicate n_procs 0;
          min_pos = k;
          max_pos = h;
          opt_pos = λ e. cc;
          opt_le = λ e. cc;
        })
        (omega (arith, deficit-replicate min_stats n_procs))
