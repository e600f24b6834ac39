-- ===== src/Core/Threads/Tuning.antt =====
-- core/AutoThreadCount.cpp: the search for the number of threads at which a routine runs fastest.
-- The type of times is a parameter, with the operations that the source uses on doubles.
pub mod Validity
pub mod Settling
use python_jdftx.Common.{
  ℕ, zero, suc, ◌+◌, ◌-◌, ◌*◌, Bool, true, false, ◌&&◌, not, List, [], ◌∷◌, ltb, ◌==◌,
  if◌then◌else◌, get_or, set, replicate,
}

pub record Clock : Type 1 where
  pub Time : Type 0
  -- DBL_MAX
  pub time_max : Time
  -- operator>
  pub later : Time → Time → Bool
  -- `(time*count + runTime)/(count+1)`
  pub average : Time → ℕ → Time → Time

-- Where the search stops: at a thread count that needs more tries, at one beyond which more
-- threads are a burden, or behind the last one.
pub data Search : Type 0 where
  try best : ℕ → Search
  exhausted : Search

module _ (clock : Clock) where
  open clock use {Time, time_max, later, average}

  pub record AutoThreadCount : Type 0 where
    pub time : List Time
    pub count : List ℕ
    pub min_threads : ℕ
    pub n_max : ℕ
    pub n_opt : ℕ
    pub min_stats : ℕ
    pub settled : Bool

  -- The constructor. Its `if(minThreads>nMax) minThreads=nMax` assigns to the parameter, which
  -- hides the member; `nOpt` is not set before the search settles.
  unfoldable pub construct : (n_procs_available min_threads min_stats : ℕ) → AutoThreadCount
  construct n_procs_available min_threads min_stats = record {
    time = replicate n_procs_available time_max;
    count = replicate n_procs_available 0;
    min_threads = min_threads;
    n_max = n_procs_available;
    n_opt = 0;
    min_stats = min_stats;
    settled = false;
  }

  -- The loop of `getThreadCount`, with `rounds` values of `i` left.
  unfoldable pub search_from : AutoThreadCount → ℕ → ℕ → Search
  search_from a zero i = exhausted
  search_from a (suc rounds) i =
      let next = search_from a rounds (i + 1) in
      if ltb (get_or a.count i 0) a.min_stats
      then try (i + 1)
      else if not (i == 0) && later (get_or a.time i time_max) (get_or a.time (i - 1) time_max)
      then best i
      else next

  unfoldable pub settle : AutoThreadCount → ℕ → ℕ × AutoThreadCount
  settle a n = (n, record a { n_opt = n; settled = true })

  -- The return statements of `getThreadCount`, by where the search stops.
  unfoldable pub conclude : AutoThreadCount → Search → ℕ × AutoThreadCount
  conclude a (try n) = (n, a)
  conclude a (best n) = settle a n
  conclude a exhausted = settle a a.n_max

  -- `getThreadCount`, where `should_thread` is what `shouldThreadOperators` returns.
  unfoldable pub get_thread_count : Bool → AutoThreadCount → ℕ × AutoThreadCount
  get_thread_count should_thread a =
      if not should_thread
      then (1, a)
      else if a.settled
      then (a.n_opt, a)
      else conclude a (search_from a (a.n_max - (a.min_threads - 1)) (a.min_threads - 1))

  unfoldable pub submit_time : AutoThreadCount → ℕ → Time → AutoThreadCount
  submit_time a n_threads run_time =
      let i = n_threads - 1 in
      record a {
        time = set a.time i (average (get_or a.time i time_max) (get_or a.count i 0) run_time);
        count = set a.count i (get_or a.count i 0 + 1);
      }

  -- `threadLaunch(AutoThreadCount*, ...)`, as far as it changes the object.
  unfoldable pub tuned_launch : Bool → AutoThreadCount → Time → AutoThreadCount
  tuned_launch should_thread a run_time =
      let (n_threads, b) = get_thread_count should_thread a in submit_time b n_threads run_time

  -- One launch after the other, each with its running time and with what `shouldThreadOperators`
  -- returns at that time.
  unfoldable pub tuned_launches : AutoThreadCount → List (Bool × Time) → AutoThreadCount
  tuned_launches a [] = a
  tuned_launches a ((should_thread, t) ∷ ts) = tuned_launches (tuned_launch should_thread a t) ts
