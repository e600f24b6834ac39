-- ===== src/Core/Tests.antt =====
-- The routines of jdftx/core on concrete inputs, and their theorems there.
mod Descents
mod Cycles
mod Boxes
mod Buffers
use python_jdftx.Common.{
  ℕ, ◌+◌, ◌*◌, ◌/◌, ◌<◌, ◌≤◌, ◌≡◌, ◌↔◌, refl, true, false, [], ◌∷◌, some, arith, ltb, length,
}
use python_jdftx.Core.Tasks.{
  TaskDivision, init, stops_from, stop_at, start_of, stop_of, is_mine, whose,
}
use python_jdftx.Core.Tasks.Division.{init-owner, init_balanced}
use python_jdftx.Core.Threads.{
  threaded_loop, launches, job_start, job_stop, visits, count_from, interval,
}
use python_jdftx.Core.Threads.Launch.{threaded_loop_visits, threaded_loop_empty}
use python_jdftx.Core.Threads.Tuning.{
  Clock, AutoThreadCount, construct, get_thread_count, submit_time, search_from, conclude, settle,
  tuned_launch, tuned_launches,
}
use python_jdftx.Core.Threads.Tuning.Validity.{IsValid, get_thread_count_bounds}
use python_jdftx.Core.Threads.Tuning.Settling.{threaded, construct_settles}
use python_jdftx.Core.Text.{
  codes, trim, trim_end, trim_start, find_last_not_blank, find_first_not_blank,
}
use python_jdftx.Core.Text.Trim.{TrimsTo, trim-TrimsTo}

trim_runs : trim (codes " \t two words\r\n") ≡ codes "two words"
unfolding trim trim_end trim_start find_last_not_blank find_first_not_blank
trim_runs = refl

init_runs :
    init 10 4 2 ≡ some (record { start_mine = 5; stop_mine = 7; stop_arr = 2 ∷ 5 ∷ 7 ∷ 10 ∷ [] })
unfolding init stops_from stop_at start_of stop_of
init_runs = refl

init-owner_example :
    (d : TaskDivision) × (init 10 4 2 ≡ some d)
    × ((is_mine d 6 ≡ true) ↔ (whose d 6 ≡ 2))
    × (whose d 6 < 4)
init-owner_example = init-owner 10 4 (omega arith) (omega arith) 2 6 (omega arith) (omega arith)

init_balanced_example :
    (d : TaskDivision) × (init 10 4 2 ≡ some d)
    × (d.start_mine + 10 / 4 ≤ d.stop_mine)
    × (d.stop_mine ≤ d.start_mine + 10 / 4 + 1)
init_balanced_example = init_balanced 10 4 (omega arith) (omega arith) 2 (omega arith)

threaded_loop_visits_example : threaded_loop 3 7 ≡ interval 0 7
threaded_loop_visits_example = threaded_loop_visits 3 7 (omega arith) (omega arith) (omega arith)

-- Three threads with nothing to do call the function six times.
threaded_loop_zero : threaded_loop 3 0 ≡ 0 ∷ 1 ∷ 2 ∷ 1 ∷ 2 ∷ 2 ∷ []
unfolding threaded_loop launches job_start job_stop visits count_from
threaded_loop_zero = refl

threaded_loop_empty_example : 3 ≤ length (threaded_loop 3 0)
threaded_loop_empty_example = threaded_loop_empty 3

-- Running times in whole microseconds.
abbrev microseconds : Clock
microseconds = record {
  Time = ℕ;
  time_max = 1000000;
  later = λ a b. ltb b a;
  average = λ a n b. (a * n + b) / (n + 1);
}

construct_settles_example :
    (tuned_launches microseconds
      (construct microseconds 2 1 1)
      ((true, 9) ∷ (false, 7) ∷ (true, 5) ∷ (true, 5) ∷ [])).settled
    ≡ true
construct_settles_example =
    construct_settles microseconds 2 1 1 ((true, 9) ∷ (false, 7) ∷ (true, 5) ∷ (true, 5) ∷ [])
      (omega arith) (omega arith) (unfold threaded in omega arith)

-- The second of two processors slows the routine down, so one is the best.
tuning_runs :
    (tuned_launches microseconds
      (construct microseconds 2 1 1)
      ((true, 5) ∷ (true, 9) ∷ (true, 5) ∷ [])).n_opt
    ≡ 1
unfolding tuned_launches construct tuned_launch get_thread_count submit_time search_from conclude
    settle
tuning_runs = refl

abbrev fresh : AutoThreadCount microseconds
fresh = record {
  time = 1000000 ∷ 1000000 ∷ [];
  count = 0 ∷ 0 ∷ [];
  min_threads = 1;
  n_max = 2;
  n_opt = 0;
  min_stats = 1;
  settled = false;
}

fresh-IsValid : IsValid microseconds fresh
fresh-IsValid = record {
  times = refl;
  counts = refl;
  min_pos = omega arith;
  max_pos = omega arith;
  opt_pos = λ e. cc;
  opt_le = λ e. cc;
}

get_thread_count_bounds_example :
    let (n, b) = get_thread_count microseconds true fresh in
    (0 < n) × (n ≤ length b.count) × (n ≤ length b.time) × IsValid microseconds b
get_thread_count_bounds_example = get_thread_count_bounds microseconds true fresh fresh-IsValid
