-- ===== src/Core/Tasks.antt =====
-- core/MPIUtil.h and MPIUtil.cpp, class `TaskDivision`: tasks split over the processes; and
-- core/Thread.h: jobs split over the threads of one process.
pub mod Stops
pub mod Division
use python_jdftx.Common.{
  ℕ, zero, suc, ◌+◌, ◌-◌, ◌*◌, ◌/◌, ◌%◌, ◌^◌, Bool, true, false, ◌&&◌, List, [], ◌∷◌, ◌++◌, Option,
  none, some, leb, ltb, ◌==◌, if◌then◌else◌, length, get_elem?,
}

-- size_t has 64 bits.
abbrev pub size_mod : ℕ
size_mod = 2 ^ 64

-- `startMine`, `stopMine` and `stopArr`.
pub record TaskDivision : Type 0 where
  pub start_mine : ℕ
  pub stop_mine : ℕ
  pub stop_arr : List ℕ

-- `(nTasks * (iProc+1)) / nProcesses()`
unfoldable pub stop_at : ℕ → ℕ → ℕ → ℕ
stop_at n_tasks n_procs i = ((n_tasks * (i + 1)) % size_mod) / n_procs

-- The loop that fills `stopArr`, for `count` processes from `i` on.
unfoldable pub stops_from : ℕ → ℕ → ℕ → ℕ → List ℕ
stops_from n_tasks n_procs zero i = []
stops_from n_tasks n_procs (suc count) i =
    stop_at n_tasks n_procs i ∷ stops_from n_tasks n_procs count (suc i)

-- `start(iProc)` and `stop(iProc)`; there is nothing to read outside the array.
unfoldable pub start_of : List ℕ → ℕ → Option ℕ
start_of stop_arr zero = some 0
start_of stop_arr (suc i) = get_elem? stop_arr i

unfoldable pub stop_of : List ℕ → ℕ → Option ℕ
stop_of stop_arr i = get_elem? stop_arr i

-- The constructor with no MPIUtil pointer.
unfoldable pub undivided : ℕ → TaskDivision
undivided n_tasks = record { start_mine = 0; stop_mine = n_tasks; stop_arr = n_tasks ∷ [] }

-- `TaskDivision::init`, on process `i_proc` of `n_procs`.
unfoldable pub init : ℕ → ℕ → ℕ → Option TaskDivision
init n_tasks n_procs i_proc =
    let stops = stops_from n_tasks n_procs n_procs 0 in
    elim (start_of stops i_proc) [
      | none ↦ none
      | some a ↦ elim (stop_of stops i_proc) [
        | none ↦ none
        | some b ↦ some (record { start_mine = a; stop_mine = b; stop_arr = stops })
      ]
    ]

unfoldable pub is_mine : TaskDivision → ℕ → Bool
is_mine d task = leb d.start_mine task && ltb task d.stop_mine

-- std::upper_bound, less the begin of the array: the place of the first element above `q`.
unfoldable pub upper_bound : ℕ → List ℕ → ℕ
upper_bound q [] = 0
upper_bound q (x ∷ xs) = if ltb q x then 0 else suc (upper_bound q xs)

unfoldable pub whose : TaskDivision → ℕ → ℕ
whose d q = if ltb 1 (length d.stop_arr) then upper_bound q d.stop_arr else 0
