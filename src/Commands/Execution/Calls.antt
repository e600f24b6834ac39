-- ===== src/Commands/Execution/Calls.antt =====
-- commands/parser.cpp, `parse`: how often `process` of a command is called. It is run on a `process`
-- that does the same and notes the name of its command as well.
use python_jdftx.Common.{
  ℕ, zero, suc, ◌+◌, ◌<◌, ◌≡◌, inl, inr, refl, sym, ap, ◌∙◌, Bool, true, false, not, ◌&&◌, List, [],
  ◌∷◌, ◌++◌, some, arith, ltb, ◌==◌, Bool-cases, Option-cases, if◌then◌else◌, length, ==_iff, subst,
}
use python_jdftx.Core.Outcome.{Bytes, ok}
use python_jdftx.Core.Text.{text_eq, trim}
use python_jdftx.Commands.Command.{Command}
use python_jdftx.Commands.Input.{Entries, is_nil}
use python_jdftx.Commands.Schedule.{Slot, Table, find_slot, int_max}
use python_jdftx.Commands.Schedule.Forbids.{processed_command_map, processed_command_map-IsWithin}
use python_jdftx.Commands.Execution.{
  Processed, State, increment, unsatisfied, check_and_process, safe_process, check_empty, run_entry,
  run_input, run_default, run_defaults, run_passes, known_entries, unknown_names, run_all, parse,
  missing_dependencies, issued_more_than_once, without_parameters,
}
use python_jdftx.Commands.Execution.Counts.{HasKeys, executions, find_slot-In}
use python_jdftx.Commands.Execution.Passes.{run_all-executions}
use python_jdftx.Commands.Execution.Checks.{append-eq_nil}
use python_jdftx.Commands.Execution.Soundness.{check_and_process-clean, safe_process_lem}
use python_jdftx.Commands.Execution.Acceptance.{length-eq_zero}

-- How often a name stands in a list, in any case.
unfoldable pub calls : Bytes → List Bytes → ℕ
calls key [] = 0
calls key (name ∷ names) = let rest = calls key names in if text_eq name key then suc rest else rest

module _ {E : Type 0} (process : Command → Bytes → E → E × Processed) where
  abbrev pub noted : Command → Bytes → E × List Bytes → (E × List Bytes) × Processed
  noted c params (e, names) = let r = process c params e in ((r.0, c.name ∷ names), r.1)

  module _ (key : Bytes) where
    -- As long as there are no errors, the calls are those that were counted.
    abbrev IsCounted : State noted → Type 0
    IsCounted s = s.errors ≡ [] → calls key s.everything.1 ≡ s.encountered key

    check_and_process-calls :
        (c : Command) (params : Bytes) (s : State noted)
        → (check_and_process noted c params s).errors ≡ []
        → ((check_and_process noted c params s).everything.1 ≡ c.name ∷ s.everything.1)
          × ((check_and_process noted c params s).encountered ≡ s.encountered)
    unfolding check_and_process
    check_and_process-calls c params s h =
        split (unsatisfied s.encountered c.requires) refl
          (not c.allow_multiple && ltb 1 (s.encountered c.name)) refl h
      where
        split :
            (missing : List Bytes)
            → unsatisfied s.encountered c.requires ≡ missing
            → (twice : Bool) → (not c.allow_multiple && ltb 1 (s.encountered c.name)) ≡ twice
            → (check_and_process noted c params s).errors ≡ []
            → ((check_and_process noted c params s).everything.1 ≡ c.name ∷ s.everything.1)
              × ((check_and_process noted c params s).encountered ≡ s.encountered)
        split (r ∷ rs) e twice e' h =
            let last =
              append-eq_nil s.errors ((c, missing_dependencies (r ∷ rs)) ∷ []) (ground arith) in
            absurd (cc last.1)
        split [] e true e' h =
            let last = append-eq_nil s.errors ((c, issued_more_than_once) ∷ []) (ground arith) in
            absurd (cc last.1)
        split [] e false e' h = rw (e, e', check_and_process) (refl, refl)

    safe_process-IsCounted :
        (c : Command) (params : Bytes) (s : State noted)
        → IsCounted s
        → IsCounted (safe_process noted c params s)
    unfolding calls
    safe_process-IsCounted c params s counted =
        let t : State noted = record s { encountered = increment c.name s.encountered } in
        subst IsCounted (sym (safe_process_lem noted c params s)) (λ h.
          let before = counted (check_and_process-clean noted c params t h).0 in
          let (called, same) = check_and_process-calls c params t h in
          rw (called, same) (ground arith))

    check_empty-IsCounted :
        (c : Command) (params : Bytes) (s : State noted)
        → IsCounted s
        → IsCounted (check_empty noted c params s)
    unfolding check_empty
    check_empty-IsCounted c params s counted =
        elim (Bool-cases (is_nil (trim params) && not (is_nil c.empty_param_error))) [
          | inl empty ↦ λ h.
              let last = append-eq_nil s.errors ((c, without_parameters) ∷ []) (ground arith) in
              absurd (cc last.1)
          | inr given ↦ rw given counted
        ]

    module _ (table : Table) where
      run_entry-IsCounted :
          (pass : ℕ) (entry : Bytes × Bytes) (s : State noted)
          → IsCounted s
          → IsCounted (run_entry noted table pass entry s)
      unfolding run_entry
      run_entry-IsCounted pass (name, params) s counted =
          elim (Option-cases (find_slot name table)) [
            | inl absent ↦ rw (absent, run_entry) counted
            | inr (x, at) ↦ elim (Bool-cases (x.pass == pass)) [
              | inl now ↦
                  rw (at, now, run_entry)
                    (safe_process-IsCounted x.command (params ++ b' ' ∷ [])
                      (check_empty noted x.command params s)
                      (check_empty-IsCounted x.command params s counted))
              | inr later ↦ rw (at, later, run_entry) counted
            ]
          ]

      run_input-IsCounted :
          (pass : ℕ) (input : Entries) (s : State noted)
          → IsCounted s
          → IsCounted (run_input noted table pass input s)
      unfolding run_input
      run_input-IsCounted pass [] s counted = counted
      run_input-IsCounted pass (entry ∷ input) s counted =
          run_input-IsCounted pass input (run_entry noted table pass entry s)
            (run_entry-IsCounted pass entry s counted)

      run_defaults-IsCounted :
          (pass : ℕ) (slots : Table) (s : State noted)
          → IsCounted s
          → IsCounted (run_defaults noted pass slots s)
      unfolding run_defaults run_default
      run_defaults-IsCounted pass [] s counted = counted
      run_defaults-IsCounted pass (x ∷ slots) s counted =
          run_defaults-IsCounted pass slots (run_default noted pass x s)
            (elim (Bool-cases (
              (x.pass == pass) && (x.command.has_default && (s.encountered x.command.name == 0)))) [
                | inl due ↦ rw due (safe_process-IsCounted x.command [] s counted)
                | inr done ↦ rw done counted
              ])

      run_passes-IsCounted :
          (count pass : ℕ) (input : Entries) (s : State noted)
          → IsCounted s
          → IsCounted (run_passes noted table input count pass s)
      unfolding run_passes
      run_passes-IsCounted zero pass input s counted = counted
      run_passes-IsCounted (suc count) pass input s counted =
          run_passes-IsCounted count (suc pass) input
            (run_defaults noted pass table (run_input noted table pass input s))
            (run_defaults-IsCounted pass table (run_input noted table pass input s)
              (run_input-IsCounted pass input s counted))

      run_all-IsCounted :
          (n_passes : ℕ) (input : Entries) (e : E)
          → IsCounted (run_all noted n_passes table input (e, []))
      unfolding run_all calls
      run_all-IsCounted n_passes input e =
          run_passes-IsCounted (suc n_passes) 0 (known_entries noted table input) _ (λ h. refl)

  -- Where parse accepts an input, with a map of fewer than INT_MAX commands whose names differ,
  -- it has called process of each command of the map as often as the input gives the command, in
  -- any case of its name, or else once if it has a default; the calls are those that a process
  -- notes which does the same as any given one.
  pub parse-calls :
      (commands : List Command) (n_passes : ℕ) (table : Table) (input : Entries) (e result : E)
      (names : List Bytes) (key : Bytes) (slot : Slot)
      → length commands < int_max
      → processed_command_map commands ≡ ok (n_passes, table)
      → HasKeys table table
      → parse noted commands input (e, []) ≡ ok (result, names)
      → find_slot key table ≡ some slot
      → calls key names ≡ executions slot.command key input
  unfolding parse
  parse-calls commands n_passes table input e result names key slot small ordered keys accepted at =
      let within = processed_command_map-IsWithin commands n_passes table small ordered in
      let s = run_all noted n_passes table input (e, []) in
      elim (Bool-cases (length (unknown_names noted table input []) + length s.errors == 0)) [
        | inl clean ↦
            let total =
              (==_iff (length (unknown_names noted table input []) + length s.errors) 0).0 clean in
            let none_left = length-eq_zero s.errors (omega arith) in
            let last : s.everything.1 ≡ names = ground arith in
            ap (calls key) (sym last)
            ∙ run_all-IsCounted key table n_passes input e none_left
            ∙ run_all-executions noted table key slot at n_passes input (e, []) keys
                (within slot (find_slot-In key table slot at))
        | inr failed ↦ absurd (ground arith)
      ]
