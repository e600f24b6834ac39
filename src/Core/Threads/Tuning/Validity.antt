-- ===== src/Core/Threads/Tuning/Validity.antt =====
-- core/AutoThreadCount.cpp: every thread count handed out is usable.
use python_jdftx.Common.{
  ℕ, zero, suc, ◌+◌, ◌-◌, ◌≤◌, ◌<◌, ◌≡◌, ◌⊎◌, inl, inr, refl, ◌∙◌, Bool, true, false, ◌&&◌, not,
  arith, ltb, ◌==◌, get_or, length, length-set, Bool-cases,
}
use python_jdftx.Core.Threads.Tuning.{
  Clock, Search, try, best, exhausted, AutoThreadCount, search_from, settle, conclude,
  get_thread_count, submit_time,
}

module _ (clock : Clock) where
  pub record IsValid (a : AutoThreadCount clock) : Type 0 where
    pub times : length a.time ≡ a.n_max
    pub counts : length a.count ≡ a.n_max
    pub min_pos : 0 < a.min_threads
    pub max_pos : 0 < a.n_max
    pub opt_pos : a.settled ≡ true → 0 < a.n_opt
    pub opt_le : a.settled ≡ true → a.n_opt ≤ a.n_max

  -- What the search may find.
  IsFound : AutoThreadCount clock → Search → Type 0
  IsFound a (try n) = (0 < n) × (n ≤ a.n_max) × (get_or a.count (n - 1) 0 < a.min_stats)
  IsFound a (best n) = (0 < n) × (n ≤ a.n_max)
  IsFound a exhausted = Unit {0}

  search_from-IsFound :
      (a : AutoThreadCount clock) (rounds i : ℕ)
      → (0 < rounds → i + rounds ≤ a.n_max)
      → IsFound a (search_from clock a rounds i)
  unfolding search_from IsFound
  search_from-IsFound a zero i h = tt
  search_from-IsFound a (suc rounds) i h =
      let same : i + 1 - 1 ≡ i = omega arith in
      let slower =
        not (i == 0)
        && clock.later (get_or a.time i clock.time_max) (get_or a.time (i - 1) clock.time_max) in
      elim (Bool-cases (ltb (get_or a.count i 0) a.min_stats)) [
        | inl few ↦ rw few (omega arith, omega (arith, h (omega arith)), rw same (ground arith))
        | inr enough ↦ elim (Bool-cases slower) [
          | inl burden ↦ rw enough (rw burden (ground arith, omega (arith, h (omega arith))))
          | inr helps ↦ rw enough (
              rw helps (search_from-IsFound a rounds (i + 1) (λ _. omega (arith, h (omega arith)))))
        ]
      ]

  -- What a call of `getThreadCount` may do to the object, where `n` is its result.
  pub record Gets (a : AutoThreadCount clock) (n : ℕ) (b : AutoThreadCount clock) : Type 0 where
    pub pos : 0 < n
    pub le : n ≤ a.n_max
    pub valid : IsValid b
    pub same_max : b.n_max ≡ a.n_max
    pub same_stats : b.min_stats ≡ a.min_stats
    pub progress :
        (b.settled ≡ true)
        ⊎ ((b.settled ≡ false) × (b.count ≡ a.count) × (get_or a.count (n - 1) 0 < a.min_stats))

  settle-Gets :
      (a : AutoThreadCount clock) (n : ℕ)
      → IsValid a
      → 0 < n
      → n ≤ a.n_max
      → Gets a n (settle clock a n).1
  unfolding settle
  settle-Gets a n v h k = record {
    pos = h;
    le = k;
    valid = record {
      times = v.times;
      counts = v.counts;
      min_pos = v.min_pos;
      max_pos = v.max_pos;
      opt_pos = λ _. h;
      opt_le = λ _. k;
    };
    same_max = refl;
    same_stats = refl;
    progress = inl refl;
  }

  found-Gets :
      (a : AutoThreadCount clock) (s : Search)
      → IsValid a
      → a.settled ≡ false
      → IsFound a s
      → Gets a (conclude clock a s).0 (conclude clock a s).1
  unfolding IsFound conclude settle
  found-Gets a (try n) v open' (h, k, few) = record {
    pos = h;
    le = k;
    valid = v;
    same_max = refl;
    same_stats = refl;
    progress = inr (open', refl, few);
  }
  found-Gets a (best n) v open' (h, k) = settle-Gets a n v h k
  found-Gets a exhausted v open' _ = settle-Gets a a.n_max v v.max_pos (omega arith)

  pub get_thread_count_settled :
      (a : AutoThreadCount clock) → a.settled ≡ true → get_thread_count clock true a ≡ (a.n_opt, a)
  unfolding get_thread_count
  get_thread_count_settled a h = ground arith

  get_thread_count_open :
      (a : AutoThreadCount clock)
      → a.settled ≡ false
      → get_thread_count clock true a
        ≡ conclude clock a (search_from clock a (a.n_max - (a.min_threads - 1)) (a.min_threads - 1))
  unfolding get_thread_count
  get_thread_count_open a h = ground arith

  pub get_thread_count-Gets :
      (a : AutoThreadCount clock)
      → IsValid a
      → Gets a (get_thread_count clock true a).0 (get_thread_count clock true a).1
  get_thread_count-Gets a v = elim (Bool-cases a.settled) [
    | inl done ↦ rw (get_thread_count_settled a done) (record {
      pos = v.opt_pos done;
      le = v.opt_le done;
      valid = v;
      same_max = refl;
      same_stats = refl;
      progress = inl done;
    })
    | inr open' ↦ rw (get_thread_count_open a open') (
        found-Gets a _ v open' (
          search_from-IsFound a (a.n_max - (a.min_threads - 1)) (a.min_threads - 1)
            (λ some_left. omega (arith, v.min_pos))))
  ]

  pub submit_time-IsValid :
      (a : AutoThreadCount clock) (n : ℕ) (t : clock.Time)
      → IsValid a
      → IsValid (submit_time clock a n t)
  unfolding submit_time
  submit_time-IsValid a n t v = record {
    times = length-set a.time (n - 1) _ ∙ v.times;
    counts = length-set a.count (n - 1) _ ∙ v.counts;
    min_pos = v.min_pos;
    max_pos = v.max_pos;
    opt_pos = v.opt_pos;
    opt_le = v.opt_le;
  }

  -- Of a valid object getThreadCount returns a count from 1 up to the length of both arrays, so
  -- that submitTime writes inside them, and leaves it valid.
  pub get_thread_count_bounds :
      (should_thread : Bool) (a : AutoThreadCount clock)
      → IsValid a
      → let (n, b) = get_thread_count clock should_thread a in
        (0 < n) × (n ≤ length b.count) × (n ≤ length b.time) × IsValid b
  get_thread_count_bounds true a v =
      let g = get_thread_count-Gets a v in
      (
        g.pos,
        omega (arith, g.le, g.same_max, g.valid.counts),
        omega (arith, g.le, g.same_max, g.valid.times),
        g.valid,
      )
  get_thread_count_bounds false a v =
      unfold get_thread_count in
      (omega arith, omega (arith, v.max_pos, v.counts), omega (arith, v.max_pos, v.times), v)
