-- ===== src/Commands/Execution/Passes.antt =====
-- commands/parser.cpp, `parse`: what `encountered` counts in the passes.
use python_jdftx.Common.{
  ℕ, zero, suc, ◌+◌, ◌≤◌, ◌<◌, ◌≡◌, inl, inr, refl, ap, ◌∙◌, true, false, [], ◌∷◌, some, arith,
  ◌==◌, Bool-cases, In, if◌then◌else◌,
}
use python_jdftx.Core.Outcome.{Bytes}
use python_jdftx.Core.Text.{text_eq}
use python_jdftx.Commands.Command.{Command}
use python_jdftx.Commands.Input.{Entries}
use python_jdftx.Commands.Schedule.{Slot, Table, find_slot}
use python_jdftx.Commands.Execution.{
  Processed, State, run_input, run_default, run_defaults, run_passes, known_entries, run_all,
}
use python_jdftx.Commands.Execution.Counts.{
  HasKeys, occurrences, executions, find_slot_cong, find_slot_name, find_slot-In, IsStable, is_due,
  run_input-IsStable, run_input-encountered, run_default-IsStable, run_default-encountered,
  run_defaults-IsStable,
}

module _ {E : Type 0} (process : Command → Bytes → E → E × Processed) (table : Table) (key : Bytes)
    (slot : Slot) (found : find_slot key table ≡ some slot) where
  -- Defaults that are not due change no count.
  run_defaults-done :
      (pass : ℕ) (slots : Table) (s : State process)
      → HasKeys table slots
      → IsStable s.encountered
      → is_due process table pass slot (s.encountered key) ≡ false
      → (run_defaults process pass slots s).encountered key ≡ s.encountered key
  unfolding run_defaults
  run_defaults-done pass [] s keys stable done = refl
  run_defaults-done pass (x ∷ slots) s keys stable done =
      let step =
        run_default-encountered process table pass x slot key s (keys x (inl refl)) found stable in
      let same : (run_default process pass x s).encountered key ≡ s.encountered key =
        ground arith in
      run_defaults-done pass slots (run_default process pass x s) (λ y i. keys y (inr i))
        (run_default-IsStable process table pass x s stable)
        (ap (is_due process table pass slot) same ∙ done)
      ∙ same

  -- The default that is due is counted once.
  run_defaults-due :
      (pass : ℕ) (slots : Table) (s : State process)
      → HasKeys table slots
      → IsStable s.encountered
      → In slot slots
      → is_due process table pass slot (s.encountered key) ≡ true
      → (run_defaults process pass slots s).encountered key ≡ suc (s.encountered key)
  unfolding run_defaults
  run_defaults-due pass [] s keys stable i due = absurd i
  run_defaults-due pass (x ∷ slots) s keys stable i due =
      let step =
        run_default-encountered process table pass x slot key s (keys x (inl refl)) found stable in
      let stable' = run_default-IsStable process table pass x s stable in
      let keys' : HasKeys table slots = λ y j. keys y (inr j) in
      let next = run_default process pass x s in
      elim (Bool-cases (text_eq x.command.name key)) [
        | inl same ↦
            let once : next.encountered key ≡ suc (s.encountered key) = ground arith in
            let done : is_due process table pass slot (next.encountered key) ≡ false =
              ground arith in
            run_defaults-done pass slots next keys' stable' done ∙ once
        | inr other ↦
            let kept : next.encountered key ≡ s.encountered key = ground arith in
            let named = find_slot_name key table slot found in
            elim i [
              | inl e ↦ absurd (ground (arith, ap (λ (y : Slot). text_eq y.command.name key) e))
              | inr j ↦
                  run_defaults-due pass slots next keys' stable' j
                    (ap (is_due process table pass slot) kept ∙ due)
                  ∙ ap suc kept
            ]
      ]

  -- The counts after one pass.
  run_pass-encountered :
      (pass : ℕ) (input : Entries) (s : State process)
      → HasKeys table table
      → IsStable s.encountered
      → (run_defaults process pass table (run_input process table pass input s)).encountered key ≡ (
          if slot.pass == pass
          then (if (s.encountered key + occurrences key input) == 0
              then (if slot.command.has_default then 1 else 0)
              else s.encountered key + occurrences key input)
          else s.encountered key)
  run_pass-encountered pass input s keys stable =
      let t = run_input process table pass input s in
      let given = run_input-encountered process table pass input key slot s found in
      let stable' = run_input-IsStable process table pass input s stable in
      elim (Bool-cases (is_due process table pass slot (t.encountered key))) [
        | inl due ↦
            let ran =
              run_defaults-due pass table t keys stable' (find_slot-In key table slot found) due in
            ground arith
        | inr done ↦ let kept = run_defaults-done pass table t keys stable' done in ground arith
      ]

  -- A command is counted in its own pass only.
  pub run_passes-encountered :
      (count pass : ℕ) (input : Entries) (s : State process)
      → HasKeys table table
      → IsStable s.encountered
      → (pass ≤ slot.pass → s.encountered key ≡ 0)
      → (slot.pass < pass → s.encountered key ≡ executions slot.command key input)
      → slot.pass < pass + count
      → (run_passes process table input count pass s).encountered key
        ≡ executions slot.command key input
  unfolding run_passes executions
  run_passes-encountered zero pass input s keys stable before after within = after (omega arith)
  run_passes-encountered (suc count) pass input s keys stable before after within =
      let step = run_pass-encountered pass input s keys stable in
      run_passes-encountered count (suc pass) input
        (run_defaults process pass table (run_input process table pass input s)) keys
        (run_defaults-IsStable process table pass table _
          (run_input-IsStable process table pass input s stable))
        (λ h. ground arith) (λ h. ground arith) (omega arith)

  occurrences-known :
      (input : Entries)
      → occurrences key (known_entries process table input) ≡ occurrences key input
  unfolding occurrences known_entries
  occurrences-known [] = refl
  occurrences-known ((name, params) ∷ input) =
      ground (arith, occurrences-known input, find_slot_cong name key table)

  executions-known :
      (input : Entries)
      → executions slot.command key (known_entries process table input)
        ≡ executions slot.command key input
  unfolding executions
  executions-known input = ground (arith, occurrences-known input)

  -- A command of a map whose names differ, with a pass among those that are run, is counted as
  -- often as the input gives it, in any case of its name, or else once if it has a default.
  pub run_all-executions :
      (n_passes : ℕ) (input : Entries) (e : E)
      → HasKeys table table
      → slot.pass ≤ n_passes
      → (run_all process n_passes table input e).encountered key ≡ executions slot.command key input
  unfolding run_all
  run_all-executions n_passes input e keys within =
      run_passes-encountered (suc n_passes) 0 (known_entries process table input) _ keys
        (λ a b h. refl) (λ h. refl) (λ h. absurd (omega arith)) (omega arith)
      ∙ executions-known input
