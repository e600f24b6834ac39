-- ===== src/Commands/Execution/Acceptance.antt =====
-- commands/parser.cpp, `parse`: an input that is accepted is consistent.
use python_jdftx.Common.{
  ℕ, suc, ◌+◌, ◌≤◌, ◌<◌, ◌≡◌, ◌≢◌, inl, inr, refl, ap, ◌∙◌, false, List, [], ◌∷◌, some, arith, ◌==◌,
  Bool-cases, Option-cases, In, ==_iff, length,
}
use python_jdftx.Core.Outcome.{Bytes, ok}
use python_jdftx.Commands.Command.{Command, insert_name}
use python_jdftx.Commands.Input.{Entries}
use python_jdftx.Commands.Schedule.Forbids.{processed_command_map, processed_command_map-IsWithin}
use python_jdftx.Commands.Schedule.{Slot, Table, find_slot, int_max}
use python_jdftx.Commands.Execution.{Processed, run_all, known_entries, unknown_names, parse}
use python_jdftx.Commands.Execution.Counts.{HasKeys, find_slot-In, executions}
use python_jdftx.Commands.Execution.Passes.{run_all-executions}
use python_jdftx.Commands.Execution.Checks.{IsSound}
use python_jdftx.Commands.Execution.Soundness.{run_passes-IsGood}

pub length-eq_zero {ℓ} : {A : Type ℓ} (xs : List A) → length xs ≡ 0 → xs ≡ []
length-eq_zero [] h = refl
length-eq_zero (x ∷ xs) h = absurd (omega arith)

length-insert_name : (name : Bytes) (ns : List Bytes) → 1 ≤ length (insert_name name ns)
unfolding insert_name
length-insert_name name [] = omega arith
length-insert_name name (n ∷ ns) = ground arith

length-insert_name-le : (name : Bytes) (ns : List Bytes) → length ns ≤ length (insert_name name ns)
unfolding insert_name
length-insert_name-le name [] = omega arith
length-insert_name-le name (n ∷ ns) = ground (arith, length-insert_name-le name ns)

-- What an input and the map of commands have in common: each entry names a command, what a command
-- that is run requires is run as well, a command is repeated only if it may be, and of two
-- commands that forbid each other one at most is run.
pub record IsConsistent (table : Table) (input : Entries) : Type 0 where
  pub known :
      (name params : Bytes) → In (name, params) input → (s : Slot) × (find_slot name table ≡ some s)
  pub required :
      (a b : Slot) (r : Bytes)
      → In a table
      → executions a.command a.command.name input ≢ 0
      → In r a.command.requires
      → find_slot r table ≡ some b
      → executions b.command r input ≢ 0
  pub once :
      (a : Slot)
      → In a table
      → a.command.allow_multiple ≡ false
      → executions a.command a.command.name input ≤ 1
  pub compatible :
      (a b : Slot) (of_a of_b : Bytes)
      → In a table
      → In b table
      → In of_a a.command.forbids
      → In of_b b.command.forbids
      → find_slot of_a table ≡ some b
      → find_slot of_b table ≡ some a
      → executions a.command a.command.name input ≢ 0
      → executions b.command b.command.name input ≡ 0

module _ {E : Type 0} (process : Command → Bytes → E → E × Processed) where
  -- The set of unknown names never shrinks, and stays empty only if all names are known.
  length-unknown_names :
      (table : Table) (input : Entries) (unknown : List Bytes)
      → length unknown ≤ length (unknown_names process table input unknown)
  unfolding unknown_names
  length-unknown_names table [] unknown = omega arith
  length-unknown_names table ((name, params) ∷ input) unknown = ground (
    arith,
    length-unknown_names table input unknown,
    length-insert_name-le name unknown,
    length-unknown_names table input (insert_name name unknown),
  )

  unknown_names-empty :
      (table : Table) (input : Entries)
      → length (unknown_names process table input []) ≡ 0
      → (name params : Bytes) → In (name, params) input
      → (s : Slot) × (find_slot name table ≡ some s)
  unfolding unknown_names
  unknown_names-empty table [] h name params i = absurd i
  unknown_names-empty table ((name', params') ∷ input) h name params i =
      elim (Option-cases (find_slot name' table)) [
        | inl absent ↦
            let grown = length-unknown_names table input (insert_name name' []) in
            absurd (ground (arith, length-insert_name name' []))
        | inr (s, at) ↦ elim i [
          | inl e ↦ (s, ap (λ (p : Bytes × Bytes). find_slot p.0 table) e ∙ at)
          | inr j ↦ unknown_names-empty table input (ground arith) name params j
        ]
      ]

  run_all-IsSound :
      (n_passes : ℕ) (table : Table) (input : Entries) (e : E)
      → HasKeys table table
      → (run_all process n_passes table input e).errors ≡ []
      → IsSound table (run_all process n_passes table input e).encountered
  unfolding run_all
  run_all-IsSound n_passes table input e keys clean =
      run_passes-IsGood process table (suc n_passes) 0 (known_entries process table input) _ keys
        (λ a b h. refl)
        (λ h. record {
          required = λ a known ran r i. absurd (ran refl);
          once = λ a known only. omega arith;
          compatible = λ a b of_a of_b ia ib known_a known_b at_b at_a ran. refl;
        })
        clean

  -- Counts that are sound, and as many as the input asks for.
  IsConsistent-of_IsSound :
      (n_passes : ℕ) (table : Table) (input : Entries) (e : E)
      → HasKeys table table
      → ((s : Slot) → In s table → s.pass ≤ n_passes)
      → length (unknown_names process table input []) ≡ 0
      → (run_all process n_passes table input e).errors ≡ []
      → IsConsistent table input
  IsConsistent-of_IsSound n_passes table input e keys within all_known clean =
      let sound = run_all-IsSound n_passes table input e keys clean in
      record {
        known = unknown_names-empty table input all_known;
        required = λ a b r i ran j at.
            rw (← counted r b at) (sound.required a (keys a i) (rw (own a i) ran) r j);
        once = λ a i only. rw (← own a i) (sound.once a (keys a i) only);
        compatible = λ a b of_a of_b ia ib ja jb at_b at_a ran. rw (← own b ib) (
            sound.compatible a b of_a of_b ja jb (keys a ia) (keys b ib) at_b at_a
              (rw (own a ia) ran));
      }
    where
      counted :
          (key : Bytes) (s : Slot)
          → find_slot key table ≡ some s
          → (run_all process n_passes table input e).encountered key
            ≡ executions s.command key input
      counted key s at =
          run_all-executions process table key s at n_passes input e keys
            (within s (find_slot-In key table s at))

      own :
          (s : Slot)
          → In s table
          → (run_all process n_passes table input e).encountered s.command.name
            ≡ executions s.command s.command.name input
      own s i = counted s.command.name s (keys s i)

  -- An input that parse accepts is consistent: each of its entries names a command, all that is
  -- required by a command that is run is run as well, a command that may not be repeated is run
  -- once at most, and two commands that forbid each other are not both run; the map of commands
  -- is one whose names differ, of fewer than INT_MAX commands.
  pub parse-IsConsistent :
      (commands : List Command) (n_passes : ℕ) (table : Table) (input : Entries) (e result : E)
      → length commands < int_max
      → processed_command_map commands ≡ ok (n_passes, table)
      → HasKeys table table
      → parse process commands input e ≡ ok result
      → IsConsistent table input
  unfolding parse
  parse-IsConsistent commands n_passes table input e result small ordered keys accepted =
      let within = processed_command_map-IsWithin commands n_passes table small ordered in
      let s = run_all process n_passes table input e in
      elim (Bool-cases (length (unknown_names process table input []) + length s.errors == 0)) [
        | inl clean ↦
            let total =
              (==_iff (length (unknown_names process table input []) + length s.errors) 0).0
                clean in
            IsConsistent-of_IsSound n_passes table input e keys within (omega arith)
              (length-eq_zero s.errors (omega arith))
        | inr failed ↦ absurd (ground arith)
      ]
