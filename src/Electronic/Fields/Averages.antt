-- ===== src/Electronic/Fields/Averages.antt =====
-- jdftx/core/BlasExtra.cpp, `eblas_symmetrize`: the means over classes that have no point in common.
use python_jdftx.Common.{
  ℕ, zero, suc, ◌+◌, ◌-◌, ◌*◌, ◌<◌, ◌≤◌, ◌≡◌, ◌⊎◌, inl, inr, refl, sym, ap, ◌∙◌, subst, Bool, true,
  false, List, [], ◌∷◌, ◌++◌, In, ◌==◌, ltb, if◌then◌else◌, arith, Bool-cases, ℕ_discrete,
}
use python_jdftx.Common.Loops.{loop, loop_keeps, loop_hits}
use python_jdftx.Core.Number.{Double, ◌⊕◌, ◌⊗◌, ◌⊘◌}
use python_jdftx.Core.Tasks.{size_mod}
use python_jdftx.Core.Threads.{
  thread_count, thread_launch, count_from, interval, visits, launches, threaded_loop,
}
use python_jdftx.Core.Threads.Launch.{threaded_loop_visits}
use python_jdftx.Electronic.Fields.{
  write, class_sum, average_class, eblas_symmetrize_sub, run_calls, eblas_symmetrize,
}

-- No entry occurs twice.
pub Distinct : List ℕ → Type 0
Distinct [] = Unit
Distinct (x ∷ xs) = ¬ In x xs × Distinct xs

module _ (n : ℕ) (symm_index : ℕ → ℕ) where
  -- `p` is a point of class `i`.
  abbrev pub OfClass : (i p : ℕ) → Type 0
  OfClass i p = (j : ℕ) × (j < n) × (p ≡ symm_index (n * i + j))

  -- The first `n_classes` classes have no point in common.
  abbrev pub IsApart : ℕ → Type 0
  IsApart n_classes =
      (a b p : ℕ) → a < n_classes → b < n_classes → OfClass a p → OfClass b p → a ≡ b

  module _ {R : Type 0} ⦃r : Double R⦄ where
    abbrev pub mean : (i : ℕ) → (ℕ → R) → R
    mean i x = class_sum n symm_index i x ⊗ (r.lit 1 ⊘ r.lit n)

    write-same : (at p : ℕ) (v : R) (x : ℕ → R) → p ≡ at → write at v x p ≡ v
    unfolding write
    write-same at p v x e = let same : (p == at) ≡ true = ground arith in rw same refl

    average_class-hit :
        (i p : ℕ) (x : ℕ → R) → OfClass i p → average_class n symm_index i x p ≡ mean i x
    unfolding average_class write
    average_class-hit i p x (j, below, e) =
        let v = mean i x in
        loop_hits {S = ℕ → R} (λ y. y p ≡ v) (λ j. write (symm_index (n * i + j)) v) n 0 n j
          (omega arith) (omega arith) (omega arith)
          (λ k h y same. elim (Bool-cases (p == symm_index (n * i + k))) [
            | inl t ↦ rw t refl
            | inr f ↦ rw f same
          ])
          (λ y. write-same (symm_index (n * i + j)) p v y e) x

    average_class-miss :
        (i p : ℕ) (x : ℕ → R) → ¬ OfClass i p → average_class n symm_index i x p ≡ x p
    unfolding average_class write
    average_class-miss i p x misses =
        let v = mean i x in
        loop_keeps {S = ℕ → R} (λ y. y p ≡ x p) (λ j. write (symm_index (n * i + j)) v) n 0 n
          (omega arith)
          (λ k h y same. elim (Bool-cases (p == symm_index (n * i + k))) [
            | inl t ↦
                let here : p ≡ symm_index (n * i + k) = ground arith in absurd (misses (k, h, here))
            | inr f ↦ rw f same
          ])
          x refl

    sum_cong :
        (i count j : ℕ) (a : R) (x y : ℕ → R)
        → j + count ≤ n
        → ((p : ℕ) → OfClass i p → x p ≡ y p)
        → loop count j (λ k x_sum. x_sum ⊕ x (symm_index (n * i + k))) a
          ≡ loop count j (λ k x_sum. x_sum ⊕ y (symm_index (n * i + k))) a
    unfolding loop
    sum_cong i zero j a x y h same = refl
    sum_cong i (suc count) j a x y h same =
        let here = same (symm_index (n * i + j)) (j, omega arith, refl) in
        ap (λ v. loop count (suc j) (λ k x_sum. x_sum ⊕ x (symm_index (n * i + k))) (a ⊕ v)) here
        ∙ sum_cong i count (suc j) (a ⊕ y (symm_index (n * i + j))) x y (omega arith) same

    mean_cong : (i : ℕ) (x y : ℕ → R) → ((p : ℕ) → OfClass i p → x p ≡ y p) → mean i x ≡ mean i y
    unfolding class_sum
    mean_cong i x y same =
        ap (λ v. v ⊗ (r.lit 1 ⊘ r.lit n)) (sum_cong i n 0 (r.lit 0) x y (omega arith) same)

    -- The classes in some order.
    unfoldable pub run_classes : List ℕ → (ℕ → R) → ℕ → R
    run_classes [] x = x
    run_classes (i ∷ order) x = run_classes order (average_class n symm_index i x)

    run_classes-miss :
        (order : List ℕ) (x : ℕ → R) (p : ℕ)
        → ((i : ℕ) → In i order → ¬ OfClass i p)
        → run_classes order x p ≡ x p
    unfolding run_classes
    run_classes-miss [] x p misses = refl
    run_classes-miss (i ∷ order) x p misses =
        run_classes-miss order (average_class n symm_index i x) p (λ j h. misses j (inr h))
        ∙ average_class-miss i p x (misses i (inl refl))

    -- In whatever order classes with no common point are taken, each gets the mean of its old values.
    pub run_classes-mean :
        (n_classes : ℕ) (order : List ℕ) (x : ℕ → R) (c p : ℕ)
        → IsApart n_classes
        → Distinct order
        → ((i : ℕ) → In i order → i < n_classes)
        → In c order
        → OfClass c p
        → run_classes order x p ≡ mean c x
    unfolding run_classes Distinct
    run_classes-mean n_classes [] x c p apart once below listed here = absurd listed
    run_classes-mean n_classes (i ∷ order) x c p apart once below (inl e) here =
        run_classes-miss order (average_class n symm_index i x) p (λ j h k. once.0 (
          let same =
            apart j i p (below j (inr h)) (below i (inl refl)) k
              (subst (λ d. OfClass d p) e here) in
          subst (λ d. In d order) same h))
        ∙ average_class-hit i p x (subst (λ d. OfClass d p) e here)
        ∙ ap (λ d. mean d x) (sym e)
    run_classes-mean n_classes (i ∷ order) x c p apart once below (inr listed) here =
        run_classes-mean n_classes order (average_class n symm_index i x) c p apart once.1
          (λ j h. below j (inr h)) listed here
        ∙ mean_cong c (average_class n symm_index i x) x (λ q k. average_class-miss i q x (λ l.
          once.0 (
            let same = apart c i q (below c (inr listed)) (below i (inl refl)) k l in
            subst (λ d. In d order) same listed)))

    run_classes-append :
        (xs ys : List ℕ) (x : ℕ → R) → run_classes (xs ++ ys) x ≡ run_classes ys (run_classes xs x)
    unfolding run_classes
    run_classes-append [] ys x = refl
    run_classes-append (i ∷ xs) ys x = run_classes-append xs ys (average_class n symm_index i x)

    loop-run_classes :
        (count i : ℕ) (x : ℕ → R)
        → loop count i (average_class n symm_index) x ≡ run_classes (count_from count i) x
    unfolding loop run_classes count_from
    loop-run_classes zero i x = refl
    loop-run_classes (suc count) i x =
        loop-run_classes count (suc i) (average_class n symm_index i x)

    run_calls-run_classes :
        (calls : List (ℕ × ℕ)) (x : ℕ → R)
        → run_calls n symm_index calls x ≡ run_classes (visits calls) x
    unfolding run_calls eblas_symmetrize_sub visits run_classes
    run_calls-run_classes [] x = refl
    run_calls-run_classes ((i1, i2) ∷ calls) x =
        ap (run_calls n symm_index calls) (loop-run_classes (i2 - i1) i1 x)
        ∙ run_calls-run_classes calls (run_classes (interval i1 i2) x)
        ∙ sym (run_classes-append (interval i1 i2) (visits calls) x)

count_from-In : (count i k : ℕ) → In k (count_from count i) → (i ≤ k) × (k < i + count)
unfolding count_from
count_from-In zero i k h = absurd h
count_from-In (suc count) i k (inl e) = (omega arith, omega arith)
count_from-In (suc count) i k (inr h) =
    let (low, high) = count_from-In count (suc i) k h in (omega arith, omega arith)

In-count_from : (count i k : ℕ) → i ≤ k → k < i + count → In k (count_from count i)
unfolding count_from
In-count_from zero i k low high = absurd (omega arith)
In-count_from (suc count) i k low high = elim (ℕ_discrete k i) [
  | yes e ↦ inl e
  | no d ↦ inr (In-count_from count (suc i) k (omega arith) (omega arith))
]

count_from-Distinct : (count i : ℕ) → Distinct (count_from count i)
unfolding count_from Distinct
count_from-Distinct zero i = tt
count_from-Distinct (suc count) i = (
  λ h. let (low, high) = count_from-In count (suc i) i h in omega arith,
  count_from-Distinct count (suc i),
)

visits_all :
    (n_threads n_jobs : ℕ)
    → 0 < n_threads
    → 0 < n_jobs
    → n_threads * n_jobs < size_mod
    → visits (launches n_threads n_jobs n_threads 0) ≡ interval 0 n_jobs
unfolding threaded_loop
visits_all n_threads n_jobs pos jobs fits = threaded_loop_visits n_threads n_jobs pos jobs fits

thread_count_cases :
    (single should_thread : Bool) (n_procs : ℕ)
    → (thread_count (if single then 1 else 0) should_thread n_procs ≡ 1)
      ⊎ (thread_count (if single then 1 else 0) should_thread n_procs ≡ n_procs)
unfolding thread_count
thread_count_cases true should_thread n_procs = inl refl
thread_count_cases false true n_procs = inr refl
thread_count_cases false false n_procs = inl refl

-- The threads of eblas_symmetrize give every class the mean of its old values.
pub eblas_symmetrize-mean :
    {R : Type 0} ⦃r : Double R⦄ (n_procs : ℕ) (should_thread : Bool) (n_classes n : ℕ)
    → (symm_index : ℕ → ℕ) (x : ℕ → R) (c p : ℕ) → 0 < n_procs
    → n_procs * n_classes < size_mod
    → n_classes < size_mod
    → IsApart n symm_index n_classes
    → c < n_classes
    → OfClass n symm_index c p
    → eblas_symmetrize n_procs should_thread n_classes n symm_index x p ≡ mean n symm_index c x
unfolding eblas_symmetrize thread_launch
eblas_symmetrize-mean n_procs should_thread n_classes n symm_index x c p procs fits small apart h
      here =
    let requested : ℕ = if ltb (n_classes * n) 10000 then 1 else 0 in
    let threads : ℕ = thread_count requested should_thread n_procs in
    let either = thread_count_cases (ltb (n_classes * n) 10000) should_thread n_procs in
    let pos : 0 < threads = elim either [ inl e ↦ omega arith | inr e ↦ omega arith ] in
    let room : threads * n_classes < size_mod = elim either [
      | inl e ↦ rw e (omega arith)
      | inr e ↦ rw e fits
    ] in
    let order = visits_all threads n_classes pos (omega arith) room in
    ap (λ f. f p) (run_calls-run_classes n symm_index (launches threads n_classes threads 0) x)
    ∙ ap (λ o. run_classes n symm_index o x p) order
    ∙ run_classes-mean n symm_index n_classes (interval 0 n_classes) x c p apart
        (count_from-Distinct (n_classes - 0) 0)
        (λ i l. let (low, high) = count_from-In (n_classes - 0) 0 i l in omega arith)
        (In-count_from (n_classes - 0) 0 c (omega arith) (omega arith)) here
