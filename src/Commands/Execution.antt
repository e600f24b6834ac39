-- ===== src/Commands/Execution.antt =====
-- commands/parser.cpp, `safeProcess` and `parse`: the commands of an input are run in the passes
-- of the schedule, with defaults for those that the input leaves out, and errors are collected.
-- What `process` of a command does is an argument.
pub mod Counts
pub mod Passes
pub mod Checks
pub mod Soundness
pub mod Acceptance
pub mod Calls
use python_jdftx.Common.{
  ℕ, zero, suc, ◌+◌, not, ◌&&◌, List, [], ◌∷◌, ◌++◌, Option, none, some, ltb, ◌==◌, if◌then◌else◌,
  length,
}
use python_jdftx.Core.Outcome.{Bytes, Outcome, ok, die, ◌>>=◌, parsing_failed}
use python_jdftx.Core.Text.{text_eq, trim}
use python_jdftx.Commands.Command.{Command, insert_name}
use python_jdftx.Commands.Input.{Entries, is_nil}
use python_jdftx.Commands.Schedule.Forbids.{processed_command_map}
use python_jdftx.Commands.Schedule.{Slot, Table, find_slot}

-- What a call of `process` comes to: the text it left unread (none where the stream is at its
-- end), or the message that it threw.
pub data Processed : Type 0 where
  finished : Option Bytes → Processed
  threw : Bytes → Processed

-- The messages that `safeProcess` and `parse` collect, by what they say.
pub data ParseError : Type 0 where
  without_parameters : ParseError
  missing_dependencies : List Bytes → ParseError
  issued_more_than_once : ParseError
  incompatible_with : Bytes → ParseError
  extra_arguments : Bytes → ParseError
  process_failed : Bytes → ParseError

-- map<string,int>: a key that is missing reads as 0.
abbrev pub Counts : Type 0
Counts = Bytes → ℕ

-- `encountered[name]++`.
abbrev pub increment : Bytes → Counts → Counts
increment name counts = λ key. if text_eq name key then suc (counts key) else counts key

-- `unsatisfiedDeps`.
unfoldable pub unsatisfied : Counts → List Bytes → List Bytes
unsatisfied counts [] = []
unsatisfied counts (r ∷ rs) =
    if counts r == 0 then r ∷ unsatisfied counts rs else unsatisfied counts rs

-- The loop over `c.forbids`.
unfoldable pub incompatible : Command → Counts → List Bytes → List (Command × ParseError)
incompatible c counts [] = []
incompatible c counts (f ∷ fs) =
    if counts f == 0
    then incompatible c counts fs
    else (c, incompatible_with f) ∷ incompatible c counts fs

-- `ParamList::getRemainder`.
abbrev pub get_remainder : Option Bytes → Bytes
get_remainder none = []
get_remainder (some rest) = trim rest

-- The end of the `try` block, and its `catch`.
unfoldable pub process_errors : Command → Processed → List (Command × ParseError)
process_errors c (threw message) = (c, process_failed message) ∷ []
process_errors c (finished unread) =
    let remainder = get_remainder unread in
    if is_nil remainder then [] else (c, extra_arguments remainder) ∷ []

module _ {E : Type 0} (process : Command → Bytes → E → E × Processed) where
  -- Everything, `encountered` and `errors`.
  pub record State : Type 0 where
    pub everything : E
    pub encountered : Counts
    pub errors : List (Command × ParseError)

  abbrev pub add_errors : List (Command × ParseError) → State → State
  add_errors new s = record s { errors = s.errors ++ new }

  abbrev pub run_process : Command → Bytes → State → State
  run_process c params s =
      let r = process c params s.everything in
      record s { everything = r.0; errors = s.errors ++ process_errors c r.1 }

  -- `safeProcess` behind the update of the count.
  unfoldable pub check_and_process : Command → Bytes → State → State
  check_and_process c params s = elim (unsatisfied s.encountered c.requires) [
    | r ∷ rs ↦ add_errors ((c, missing_dependencies (r ∷ rs)) ∷ []) s
    | [] ↦
        if not c.allow_multiple && ltb 1 (s.encountered c.name)
        then add_errors ((c, issued_more_than_once) ∷ []) s
        else run_process c params (add_errors (incompatible c s.encountered c.forbids) s)
  ]

  unfoldable pub safe_process : Command → Bytes → State → State
  safe_process c params s =
      check_and_process c params (record s { encountered = increment c.name s.encountered })

  -- The check for an empty parameter list.
  unfoldable pub check_empty : Command → Bytes → State → State
  check_empty c params s =
      if is_nil (trim params) && not (is_nil c.empty_param_error)
      then add_errors ((c, without_parameters) ∷ []) s
      else s

  -- `cmap[input[i].first]`, where it is marked for this pass.
  unfoldable pub run_entry : Table → ℕ → Bytes × Bytes → State → State
  run_entry table pass (name, params) s = elim (find_slot name table) [
    | none ↦ s
    | some slot ↦
        let c = slot.command in
        if slot.pass == pass
        then safe_process c (params ++ b' ' ∷ []) (check_empty c params s)
        else s
  ]

  unfoldable pub run_input : Table → ℕ → Entries → State → State
  run_input table pass [] s = s
  run_input table pass (entry ∷ input) s = run_input table pass input (run_entry table pass entry s)

  unfoldable pub run_default : ℕ → Slot → State → State
  run_default pass slot s =
      let c = slot.command in
      if slot.pass == pass && (c.has_default && (s.encountered c.name == 0))
      then safe_process c [] s
      else s

  -- "Run defaults where necessary".
  unfoldable pub run_defaults : ℕ → Table → State → State
  run_defaults pass [] s = s
  run_defaults pass (slot ∷ slots) s = run_defaults pass slots (run_default pass slot s)

  -- The passes from `pass` on, `count` of them.
  unfoldable pub run_passes : Table → Entries → (count : ℕ) → (pass : ℕ) → State → State
  run_passes table input zero pass s = s
  run_passes table input (suc count) pass s =
      run_passes table input count (suc pass)
        (run_defaults pass table (run_input table pass input s))

  -- "First check for, take note of, and remove unknown commands".
  unfoldable pub known_entries : Table → Entries → Entries
  known_entries table [] = []
  known_entries table ((name, params) ∷ input) = elim (find_slot name table) [
    | none ↦ known_entries table input
    | some slot ↦ (name, params) ∷ known_entries table input
  ]

  unfoldable pub unknown_names : Table → Entries → List Bytes → List Bytes
  unknown_names table [] unknown = unknown
  unknown_names table ((name, params) ∷ input) unknown = elim (find_slot name table) [
    | none ↦ unknown_names table input (insert_name name unknown)
    | some slot ↦ unknown_names table input unknown
  ]

  abbrev pub initial_state : E → State
  initial_state e = record { everything = e; encountered = λ key. 0; errors = [] }

  -- The loop over the passes 0 to `nPasses`.
  unfoldable pub run_all : ℕ → Table → Entries → E → State
  run_all n_passes table input e =
      run_passes table (known_entries table input) (suc n_passes) 0 (initial_state e)

  -- `parse`, up to the report of a success.
  unfoldable pub parse : List Command → Entries → E → Outcome E
  parse commands input e = processed_command_map commands >>= λ (n_passes, table).
      let unknown = unknown_names table input [] in
      let s = run_all n_passes table input e in
      let total = length unknown + length s.errors in
      if total == 0 then ok s.everything else die (parsing_failed total)
