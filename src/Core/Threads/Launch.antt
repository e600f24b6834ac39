-- ===== src/Core/Threads/Launch.antt =====
-- core/Thread.h: a threaded loop visits each index once, unless there is nothing to do.
use native.Mathlib.Nat.{
  mod-eq_of_lt, le-div_iff_mul-le, div-mul-le_self, mul-div_cancel_left, zero-div,
}
use python_jdftx.Common.{
  ℕ, zero, suc, ◌+◌, ◌-◌, ◌*◌, ◌/◌, ◌%◌, ◌≤◌, ◌<◌, ◌≡◌, refl, sym, ap, ◌∙◌, ◌∷◌, ◌++◌, arith,
  length, length-append,
}
use python_jdftx.Core.Tasks.{size_mod}
use python_jdftx.Core.Threads.{
  job_start, job_stop, launches, count_from, interval, visits, threaded_loop,
}

count_from-append : (m n i : ℕ) → count_from (m + n) i ≡ count_from m i ++ count_from n (i + m)
unfolding count_from
count_from-append zero n i =
    let a : zero + n ≡ n = omega arith in let b : i + zero ≡ i = omega arith in rw a (rw b)
count_from-append (suc m) n i =
    let a : suc m + n ≡ suc (m + n) = omega arith in
    let b : i + suc m ≡ suc i + m = omega arith in
    rw a (rw b (ap (◌∷◌ i) (count_from-append m n (suc i))))

interval-append : (a b c : ℕ) → a ≤ b → b ≤ c → interval a b ++ interval b c ≡ interval a c
interval-append a b c h k =
    let whole : (b - a) + (c - b) ≡ c - a = omega arith in
    let middle : a + (b - a) ≡ b = omega arith in
    sym (ap (λ n. count_from n a) (sym whole) ∙ count_from-append (b - a) (c - b) a ∙ rw middle)

module _ (n jobs : ℕ) (pos : 0 < n) (some_jobs : 0 < jobs) (fits : n * jobs < size_mod) where
  -- Where the share of thread `t` starts, and that of the one before it stops.
  edge : ℕ → ℕ
  edge t = (t * jobs) / n

  job_start-edge : (t : ℕ) → t ≤ n → job_start n jobs t ≡ edge t
  unfolding job_start edge
  job_start-edge t h =
      let exact : (t * jobs) % size_mod ≡ t * jobs = mod-eq_of_lt (grind arith) in
      ground (arith, exact)

  job_stop-edge : (t : ℕ) → t < n → job_stop n jobs t ≡ edge (suc t)
  unfolding job_stop edge
  job_stop-edge t h =
      let next : t + 1 ≡ suc t = omega arith in
      let exact : (suc t * jobs) % size_mod ≡ suc t * jobs = mod-eq_of_lt (grind arith) in
      rw next (ground (arith, exact))

  edge_mono : (t u : ℕ) → t ≤ u → edge t ≤ edge u
  unfolding edge
  edge_mono t u h = (le-div_iff_mul-le pos).1 (grind (arith, div-mul-le_self (t * jobs) n))

  visits-launches :
      (count t : ℕ)
      → t + count ≤ n
      → visits (launches n jobs count t) ≡ interval (edge t) (edge (t + count))
  unfolding visits launches
  visits-launches zero t h =
      let same : t + 0 ≡ t = omega arith in
      let none_left : edge t - edge t ≡ 0 = omega arith in
      rw same (rw none_left (unfold count_from in refl))
  visits-launches (suc count) t h =
      let next : t + suc count ≡ suc t + count = omega arith in
      rw (job_start-edge t (omega arith)) (
        rw (job_stop-edge t (omega arith)) (
          rw (visits-launches count (suc t) (omega arith)) (
            rw next (
              interval-append (edge t) (edge (suc t)) (edge (suc t + count))
                (edge_mono t (suc t) (omega arith))
                (edge_mono (suc t) (suc t + count) (omega arith))))))

  edge_start : edge 0 ≡ 0
  unfolding edge
  edge_start = ap (λ x. x / n) (omega arith) ∙ zero-div n

  edge_end : edge (0 + n) ≡ jobs
  unfolding edge
  edge_end = ap (λ x. (x * jobs) / n) (omega arith) ∙ mul-div_cancel_left jobs pos

  -- The threads of a loop of one iteration or more visit every index once, in order if taken
  -- thread by thread, where the product of threads and iterations fits into size_t.
  pub threaded_loop_visits : threaded_loop n jobs ≡ interval 0 jobs
  unfolding threaded_loop
  threaded_loop_visits = visits-launches n 0 (omega arith) ∙ rw edge_start (rw edge_end)

length-count_from : (n i : ℕ) → length (count_from n i) ≡ n
unfolding count_from
length-count_from zero i = refl
length-count_from (suc n) i = ap suc (length-count_from n (suc i))

visits_empty : (n count t : ℕ) → t + count ≡ n → count ≤ length (visits (launches n 0 count t))
unfolding visits launches job_start job_stop
visits_empty n zero t h = omega arith
visits_empty n (suc count) t h = omega (
  arith,
  length-append (interval t n) (visits (launches n 0 count (suc t))),
  length-count_from (n - t) t,
  visits_empty n count (suc t) (omega arith),
)

-- A threaded loop of no iterations calls its function all the same, once for each thread at
-- least.
pub threaded_loop_empty : (n : ℕ) → n ≤ length (threaded_loop n 0)
unfolding threaded_loop
threaded_loop_empty n = visits_empty n n 0 (omega arith)
