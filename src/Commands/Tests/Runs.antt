-- ===== src/Commands/Tests/Runs.antt =====
-- Inputs run against a map of commands.
use python_jdftx.Common.{some, ◌≡◌, inl, inr, refl, Bool, true, false, List, [], ◌∷◌, none, arith}
use python_jdftx.Core.Outcome.{Bytes, ok, die, parsing_failed}
use python_jdftx.Core.Text.{
  codes, text_eq, trim, trim_end, trim_start, find_first_not_blank, find_last_not_blank,
}
use python_jdftx.Commands.Command.{Command, insert_name, text_less, to_lower}
use python_jdftx.Commands.Input.{Entries}
use python_jdftx.Commands.Schedule.Forbids.{
  processed_command_map, make_forbids_mutual, forbid_all, forbid_back_at, forbid_back,
  check_forbids, get_dependencies, insert_all,
}
use python_jdftx.Commands.Schedule.{
  Table, find_slot, requirements_ready, sweep, assign_passes, process_command_map,
}
use python_jdftx.Commands.Execution.{
  Processed, finished, parse, run_all, run_passes, run_defaults, run_default, run_input, run_entry,
  check_empty, safe_process, check_and_process, unsatisfied, incompatible, process_errors,
  known_entries, unknown_names,
}
use python_jdftx.Commands.Execution.Counts.{HasKeys, executions, occurrences}
use python_jdftx.Commands.Execution.Calls.{noted, calls, parse-calls}
use python_jdftx.Commands.Execution.Acceptance.{IsConsistent, parse-IsConsistent}

abbrev named : Bytes → List Bytes → Bool → Command
named name requires has_default = record {
  name = name;
  section = codes "jdftx";
  requires = requires;
  forbids = [];
  allow_multiple = false;
  has_default = has_default;
  empty_param_error = [];
}

abbrev wavefunction : Command
wavefunction = named (codes "wf") (codes "basis" ∷ []) false

abbrev basis : Command
basis = named (codes "basis") [] true

abbrev commands : List Command
commands = basis ∷ wavefunction ∷ []

abbrev slots : Table
slots = record { pass = 0; command = basis } ∷ record { pass = 1; command = wavefunction } ∷ []

-- Each command appends its name to what was done.
abbrev log : Command → Bytes → List Bytes → List Bytes × Processed
log c params done = (c.name ∷ done, finished none)

abbrev input : Entries
input = (codes "WF", codes " x") ∷ []

program : Unit {0}
unfolding processed_command_map make_forbids_mutual forbid_all forbid_back_at forbid_back
    check_forbids get_dependencies insert_all text_less to_lower process_command_map assign_passes
    sweep requirements_ready find_slot text_eq parse run_all run_passes run_defaults run_default
    run_input run_entry check_empty safe_process check_and_process unsatisfied incompatible
    process_errors known_entries unknown_names insert_name executions occurrences trim trim_end
    trim_start find_first_not_blank find_last_not_blank
program = tt

ordered : processed_command_map commands ≡ ok (1, slots)
unfolding program
ordered = refl

slots-HasKeys : HasKeys slots slots
unfolding program
slots-HasKeys s (inl e) = rw e refl
slots-HasKeys s (inr (inl e)) = rw e refl
slots-HasKeys s (inr (inr i)) = absurd i

-- The default of the requirement is run before the command that was given.
parse_runs : parse log commands input [] ≡ ok (codes "wf" ∷ codes "basis" ∷ [])
unfolding program
parse_runs = refl

parse_unknown : parse log commands ((codes "wfs", []) ∷ []) [] ≡ die (parsing_failed 1)
unfolding program
parse_unknown = refl

parse_repeated :
    parse log commands ((codes "wf", []) ∷ (codes "wf", []) ∷ []) [] ≡ die (parsing_failed 1)
unfolding program
parse_repeated = refl

-- A `process` that does nothing.
abbrev idle : Command → Bytes → Unit {0} → Unit {0} × Processed
idle c params done = (tt, finished none)

noted_runs : parse (noted idle) commands input (tt, []) ≡ ok (tt, codes "wf" ∷ codes "basis" ∷ [])
unfolding program
noted_runs = refl

basis_found : find_slot (codes "Basis") slots ≡ some (record { pass = 0; command = basis })
unfolding program
basis_found = refl

parse-calls_example :
    calls (codes "Basis") (codes "wf" ∷ codes "basis" ∷ []) ≡ executions basis (codes "Basis") input
parse-calls_example =
    parse-calls idle commands 1 slots input tt tt (codes "wf" ∷ codes "basis" ∷ []) (codes "Basis")
      (record { pass = 0; command = basis }) (omega arith) ordered slots-HasKeys noted_runs
      basis_found

parse-IsConsistent_example : IsConsistent slots input
parse-IsConsistent_example =
    parse-IsConsistent log commands 1 slots input [] (codes "wf" ∷ codes "basis" ∷ []) (omega arith)
      ordered slots-HasKeys parse_runs
