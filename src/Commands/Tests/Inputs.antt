-- ===== src/Commands/Tests/Inputs.antt =====
-- Reading input files.
use python_jdftx.Common.{
  ◌≡◌, ◌≢◌, ◌⊎◌, refl, [], ◌∷◌, Option, none, some, arith, if◌then◌else◌, All, all, ◌&&◌, not, ◌==◌,
  length, true,
}
use python_jdftx.Core.Outcome.{Bytes, ok, die, no_fuel, unterminated_variable, cyclic_include}
use python_jdftx.Core.Text.{
  codes, trim, trim_end, trim_start, find_last_not_blank, find_first_not_blank, text_eq, same_bytes,
  before_first, find_first_of,
}
use python_jdftx.Commands.Input.{
  World, environment_substitute, substitute_at, find_open, find_char, read_input_file, read_file,
  open_file, read_lines, run_line, read_line, lookup_file, clean_line, continued, lines_of, Entries,
}
use python_jdftx.Commands.Input.Broadcast.{IsLine, serialize, deserialize, deserialize-serialize}
use python_jdftx.Commands.Input.Environment.{
  IsPlain, reference, environment_substitute_ends, environment_substitute_loops,
}
use python_jdftx.Commands.Input.Includes.{read_input_file_ends}

-- `HOME` is set, and nothing else.
abbrev home_only : Bytes → Option Bytes
home_only name = if same_bytes name (codes "HOME") then some (codes "/root") else none

home_only-IsPlain : IsPlain home_only
home_only-IsPlain name value h = ground arith

abbrev no_env : Bytes → Option Bytes
no_env name = none

abbrev world : World
world = record {
  getenv = home_only;
  files =
      (codes "a.in", codes "# two files\nlattice Cubic \\\n 5\ninclude b.in\n")
      ∷ (codes "b.in", codes "ion ${HOME} 0 # comment\n")
      ∷ (codes "loop.in", codes "include LOOP.in\n")
      ∷ [];
  stdin = [];
}

program : Unit {0}
unfolding environment_substitute substitute_at find_open find_char read_input_file read_file
    open_file read_lines run_line read_line lookup_file clean_line continued lines_of trim trim_end
    trim_start find_last_not_blank find_first_not_blank text_eq before_first find_first_of
program = tt

read_runs :
    read_input_file world 9 5 (codes "a.in")
    ≡ ok ((codes "lattice", codes " Cubic  5") ∷ (codes "ion", codes " /root 0") ∷ [])
unfolding program
read_runs = refl

-- The stack of files is searched with case-insensitive comparison.
read_cyclic : read_input_file world 9 5 (codes "loop.in") ≡ die (cyclic_include (codes "LOOP.in"))
unfolding program
read_cyclic = refl

environment_substitute_ends_example :
    ((t : Bytes) × (environment_substitute home_only 3 (codes "${HOME}/x${A}") ≡ ok t)
      × (find_open t ≡ none))
    ⊎ ((v : Bytes) × (environment_substitute home_only 3 (codes "${HOME}/x${A}")
          ≡ die (unterminated_variable v)))
environment_substitute_ends_example =
    environment_substitute_ends home_only home_only-IsPlain 3 (codes "${HOME}/x${A}") (omega arith)

-- `A` names itself.
abbrev self_only : Bytes → Option Bytes
self_only name = some (reference name)

environment_substitute_loops_example :
    environment_substitute self_only 7 (reference (codes "A")) ≡ no_fuel
environment_substitute_loops_example =
    environment_substitute_loops self_only (codes "A") (unfold find_char in refl) refl 7

read_input_file_ends_example : read_input_file world 9 5 (codes "a.in") ≢ no_fuel
read_input_file_ends_example =
    read_input_file_ends world 9 home_only-IsPlain (omega arith) (omega arith) (codes "a.in") 5
      (omega arith)

abbrev sent : Entries
sent = (codes "ion", codes " H 0 0 0") ∷ []

-- A Boolean test for texts of one line.
IsLine-of_test : (s : Bytes) → all (λ c. not (c == b'\n') && not (c == 0)) s ≡ true → IsLine s
IsLine-of_test [] h = tt
IsLine-of_test (c ∷ s) h =
    let rest = IsLine-of_test s (ground arith) in ((λ q. ground arith, λ q. ground arith), rest)

sent-IsLine : All (λ p. IsLine p.0 × IsLine p.1) sent
sent-IsLine = ((IsLine-of_test (codes "ion") refl, IsLine-of_test (codes " H 0 0 0") refl), tt)

deserialize-serialize_example : deserialize (length sent) (serialize sent) ≡ sent
deserialize-serialize_example = deserialize-serialize sent sent-IsLine
