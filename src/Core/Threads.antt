-- ===== src/Core/Threads.antt =====
-- core/Thread.h: `threadLaunch` and `threadedLoop`; core/AutoThreadCount.cpp: the switch that
-- keeps launches from nesting, and the search for the best number of threads.
pub mod Launch
pub mod Tuning
use python_jdftx.Common.{
  ℕ, zero, suc, ◌+◌, ◌-◌, ◌*◌, ◌/◌, ◌%◌, Bool, true, false, List, [], ◌∷◌, ◌++◌, ltb, ◌==◌,
  if◌then◌else◌,
}
use python_jdftx.Core.Tasks.{size_mod}

-- `if(nThreads<=0) nThreads = shouldThreadOperators() ? nProcsAvailable : 1`; the requested
-- number is 0 where it is not positive.
unfoldable pub thread_count : ℕ → Bool → ℕ → ℕ
thread_count requested should_thread n_procs_available =
    if requested == 0 then (if should_thread then n_procs_available else 1) else requested

-- `i1` and `i2` of thread `t`.
unfoldable pub job_start : ℕ → ℕ → ℕ → ℕ
job_start n_threads n_jobs t = if ltb 0 n_jobs then ((t * n_jobs) % size_mod) / n_threads else t

unfoldable pub job_stop : ℕ → ℕ → ℕ → ℕ
job_stop n_threads n_jobs t =
    if ltb 0 n_jobs then (((t + 1) * n_jobs) % size_mod) / n_threads else n_threads

-- The calls `(*func)(i1, i2, args...)` of `threadLaunch`, for `count` threads from `t` on, one
-- entry to a thread.
unfoldable pub launches : ℕ → ℕ → ℕ → ℕ → List (ℕ × ℕ)
launches n_threads n_jobs zero t = []
launches n_threads n_jobs (suc count) t =
    (job_start n_threads n_jobs t, job_stop n_threads n_jobs t)
    ∷ launches n_threads n_jobs count (suc t)

-- `threadLaunch`: the switch `threadOperators` as the function sees it and as it is left, and the
-- calls.
pub record Launched : Type 0 where
  pub during : Bool
  pub after : Bool
  pub calls : List (ℕ × ℕ)

unfoldable pub thread_launch : ℕ → ℕ → Bool → ℕ → Launched
thread_launch requested n_procs_available should_thread n_jobs =
    let n = thread_count requested should_thread n_procs_available in
    record {
      during = if ltb 1 n then false else should_thread;
      after = if ltb 1 n then true else should_thread;
      calls = launches n n_jobs n 0;
    }

-- `for(size_t i=iMin; i<iMax; i++)` of `threadedLoop_sub`: the indices it visits.
unfoldable pub count_from : ℕ → ℕ → List ℕ
count_from zero i = []
count_from (suc count) i = i ∷ count_from count (suc i)

abbrev pub interval : ℕ → ℕ → List ℕ
interval i_min i_max = count_from (i_max - i_min) i_min

-- The indices for which `threadedLoop` calls its function, thread by thread.
unfoldable pub visits : List (ℕ × ℕ) → List ℕ
visits [] = []
visits ((i1, i2) ∷ calls) = interval i1 i2 ++ visits calls

unfoldable pub threaded_loop : ℕ → ℕ → List ℕ
threaded_loop n_threads n_iter = visits (launches n_threads n_iter n_threads 0)
