-- ===== src/Commands/Execution/Soundness.antt =====
-- commands/parser.cpp, `parse`: an input that is accepted is consistent.
use python_jdftx.Common.{
  ℕ, zero, suc, ◌≡◌, inl, inr, refl, sym, subst, Bool, true, false, ◌&&◌, List, [], ◌∷◌, ◌++◌, some,
  arith, ltb, ◌==◌, Bool-cases, Option-cases, not,
}
use python_jdftx.Core.Outcome.{Bytes}
use python_jdftx.Core.Text.{trim}
use python_jdftx.Commands.Command.{Command}
use python_jdftx.Commands.Input.{Entries, is_nil}
use python_jdftx.Commands.Schedule.{Slot, Table, find_slot}
use python_jdftx.Commands.Execution.{
  Processed, State, increment, unsatisfied, incompatible, check_and_process, safe_process,
  check_empty, process_errors, run_entry, run_input, run_default, run_defaults, run_passes,
  missing_dependencies, issued_more_than_once, without_parameters,
}
use python_jdftx.Commands.Execution.Counts.{
  HasKeys, find_slot-In, IsStable, run_entry-IsStable, run_default-IsStable, run_input-IsStable,
  run_defaults-IsStable, check_empty-encountered, safe_process-encountered,
}
use python_jdftx.Commands.Execution.Checks.{
  IsAllowed, IsSound, increment-IsSound, append-eq_nil, unsatisfied-eq_nil, incompatible-eq_nil,
}

module _ {E : Type 0} (process : Command → Bytes → E → E × Processed) where
  -- Errors are never taken back, and a command that is not allowed reports one.
  pub check_and_process-clean :
      (c : Command) (params : Bytes) (s : State process)
      → (check_and_process process c params s).errors ≡ []
      → (s.errors ≡ []) × IsAllowed c s.encountered
  unfolding check_and_process
  check_and_process-clean c params s h =
      split (unsatisfied s.encountered c.requires) refl
        (not c.allow_multiple && ltb 1 (s.encountered c.name)) refl h
    where
      split :
          (missing : List Bytes)
          → unsatisfied s.encountered c.requires ≡ missing
          → (twice : Bool) → (not c.allow_multiple && ltb 1 (s.encountered c.name)) ≡ twice
          → (check_and_process process c params s).errors ≡ []
          → (s.errors ≡ []) × IsAllowed c s.encountered
      split (r ∷ rs) e twice e' h =
          let last =
            append-eq_nil s.errors ((c, missing_dependencies (r ∷ rs)) ∷ []) (ground arith) in
          absurd (cc last.1)
      split [] e true e' h =
          let last = append-eq_nil s.errors ((c, issued_more_than_once) ∷ []) (ground arith) in
          absurd (cc last.1)
      split [] e false e' h =
          let all : (s.errors ++ incompatible c s.encountered c.forbids)
                ++ process_errors c (process c params s.everything).1
              ≡ [] =
            ground arith in
          let (first, last) = append-eq_nil _ _ all in
          let (clean, none_forbidden) = append-eq_nil _ _ first in
          (
            clean,
            record {
              satisfied = unsatisfied-eq_nil s.encountered c.requires e;
              single = λ only. ground arith;
              free = incompatible-eq_nil c s.encountered c.forbids none_forbidden;
            },
          )

  pub safe_process_lem :
      (c : Command) (params : Bytes) (s : State process)
      → safe_process process c params s
        ≡ check_and_process process c params
            (record s { encountered = increment c.name s.encountered })
  unfolding safe_process
  safe_process_lem c params s = refl

  -- A state without errors has sound counts.
  abbrev pub IsGood : Table → State process → Type 0
  IsGood table s = s.errors ≡ [] → IsSound table s.encountered

  module _ (table : Table) where
    safe_process-IsGood :
        (x : Slot) (params : Bytes) (s : State process)
        → find_slot x.command.name table ≡ some x
        → IsStable s.encountered
        → IsGood table s
        → IsGood table (safe_process process x.command params s)
    safe_process-IsGood x params s own stable good h =
        let (clean, allowed) =
          check_and_process-clean x.command params
            (record s { encountered = increment x.command.name s.encountered })
            (subst (λ (u : State process). u.errors ≡ []) (safe_process_lem x.command params s)
              h) in
        subst (IsSound table) (sym (safe_process-encountered process x.command params s))
          (increment-IsSound table x s.encountered own stable allowed (good clean))

    check_empty-IsGood :
        (c : Command) (params : Bytes) (s : State process)
        → IsGood table s
        → IsGood table (check_empty process c params s)
    unfolding check_empty
    check_empty-IsGood c params s good =
        elim (Bool-cases (is_nil (trim params) && not (is_nil c.empty_param_error))) [
          | inl empty ↦ λ h.
              let last = append-eq_nil s.errors ((c, without_parameters) ∷ []) (ground arith) in
              absurd (cc last.1)
          | inr given ↦ rw given good
        ]

    run_entry-IsGood :
        (pass : ℕ) (entry : Bytes × Bytes) (s : State process)
        → HasKeys table table
        → IsStable s.encountered
        → IsGood table s
        → IsGood table (run_entry process table pass entry s)
    unfolding run_entry
    run_entry-IsGood pass (name, params) s keys stable good =
        elim (Option-cases (find_slot name table)) [
          | inl absent ↦ rw (absent, run_entry) good
          | inr (x, at) ↦ elim (Bool-cases (x.pass == pass)) [
            | inl now ↦
                rw (at, now, run_entry)
                  (safe_process-IsGood x (params ++ b' ' ∷ [])
                    (check_empty process x.command params s) (keys x (find_slot-In name table x at))
                    (rw (check_empty-encountered process x.command params s) stable)
                    (check_empty-IsGood x.command params s good))
            | inr later ↦ rw (at, later, run_entry) good
          ]
        ]

    run_input-IsGood :
        (pass : ℕ) (input : Entries) (s : State process)
        → HasKeys table table
        → IsStable s.encountered
        → IsGood table s
        → IsGood table (run_input process table pass input s)
    unfolding run_input
    run_input-IsGood pass [] s keys stable good = good
    run_input-IsGood pass (entry ∷ input) s keys stable good =
        run_input-IsGood pass input (run_entry process table pass entry s) keys
          (run_entry-IsStable process table pass entry s stable)
          (run_entry-IsGood pass entry s keys stable good)

    run_default-IsGood :
        (pass : ℕ) (x : Slot) (s : State process)
        → find_slot x.command.name table ≡ some x
        → IsStable s.encountered
        → IsGood table s
        → IsGood table (run_default process pass x s)
    unfolding run_default
    run_default-IsGood pass x s own stable good =
        elim (Bool-cases
          ((x.pass == pass) && (x.command.has_default && (s.encountered x.command.name == 0)))) [
            | inl due ↦ rw due (safe_process-IsGood x [] s own stable good)
            | inr done ↦ rw done good
          ]

    run_defaults-IsGood :
        (pass : ℕ) (slots : Table) (s : State process)
        → HasKeys table slots
        → IsStable s.encountered
        → IsGood table s
        → IsGood table (run_defaults process pass slots s)
    unfolding run_defaults
    run_defaults-IsGood pass [] s keys stable good = good
    run_defaults-IsGood pass (x ∷ slots) s keys stable good =
        run_defaults-IsGood pass slots (run_default process pass x s) (λ y i. keys y (inr i))
          (run_default-IsStable process table pass x s stable)
          (run_default-IsGood pass x s (keys x (inl refl)) stable good)

    pub run_passes-IsGood :
        (count pass : ℕ) (input : Entries) (s : State process)
        → HasKeys table table
        → IsStable s.encountered
        → IsGood table s
        → IsGood table (run_passes process table input count pass s)
    unfolding run_passes
    run_passes-IsGood zero pass input s keys stable good = good
    run_passes-IsGood (suc count) pass input s keys stable good =
        let t = run_input process table pass input s in
        let stable' = run_input-IsStable process table pass input s stable in
        run_passes-IsGood count (suc pass) input (run_defaults process pass table t) keys
          (run_defaults-IsStable process table pass table t stable')
          (run_defaults-IsGood pass table t keys stable'
            (run_input-IsGood pass input s keys stable good))
