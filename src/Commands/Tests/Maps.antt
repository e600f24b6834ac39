-- ===== src/Commands/Tests/Maps.antt =====
-- Maps of commands.
use python_jdftx.Common.{
  ℕ, ◌<◌, ◌≡◌, ◌≢◌, inl, inr, refl, false, List, [], ◌∷◌, some, arith, In, length,
}
use python_jdftx.Core.Outcome.{Bytes, ok, die, no_fuel, cyclic_dependency}
use python_jdftx.Core.Text.{codes, text_eq}
use python_jdftx.Commands.Command.{Command, find_command, update_command_map, text_less}
use python_jdftx.Commands.Schedule.{
  Table, find_slot, requirements_ready, sweep, assign_passes, process_command_map,
}
use python_jdftx.Commands.Schedule.Order.{IsOrdered, process_command_map-IsOrdered}
use python_jdftx.Commands.Schedule.Ranking.{IsRanked}
use python_jdftx.Commands.Schedule.Progress.{process_command_map_ends, process_command_map_accepts}

abbrev pub command : Bytes → List Bytes → Command
command name requires = record {
  name = name;
  section = codes "jdftx";
  requires = requires;
  forbids = [];
  allow_multiple = false;
  has_default = false;
  empty_param_error = [];
}

abbrev lattice : Command
lattice = command (codes "lattice") []

abbrev ion_species : Command
ion_species = command (codes "ion-species") []

abbrev ion : Command
ion = command (codes "ion") (codes "ion-species" ∷ codes "lattice" ∷ [])

abbrev pub commands : List Command
commands = ion ∷ ion_species ∷ lattice ∷ []

abbrev ordered : Table
ordered =
    record { pass = 1; command = ion }
    ∷ record { pass = 0; command = ion_species }
    ∷ record { pass = 0; command = lattice }
    ∷ []

program : Unit {0}
unfolding process_command_map assign_passes sweep requirements_ready find_slot text_eq find_command
    update_command_map text_less
program = tt

process_runs : process_command_map commands ≡ ok (1, ordered)
unfolding program
process_runs = refl

process_cyclic :
    process_command_map
      (command (codes "a") (codes "b" ∷ []) ∷ command (codes "b") (codes "a" ∷ []) ∷ [])
    ≡ die (cyclic_dependency (codes "a" ∷ codes "b" ∷ []))
unfolding program
process_cyclic = refl

process_command_map-IsOrdered_example : IsOrdered commands 1 ordered
process_command_map-IsOrdered_example =
    process_command_map-IsOrdered commands 1 ordered (omega arith) process_runs

process_command_map_ends_example : process_command_map commands ≢ no_fuel
process_command_map_ends_example = process_command_map_ends commands

-- The number of requirements ranks these commands.
abbrev rank : Command → ℕ
rank c = length c.requires

commands-IsRanked : IsRanked rank commands
unfolding program
commands-IsRanked c (inl e) r i = ranked r (rw e at i)
  where
    ranked :
        (r : Bytes)
        → In r ion.requires
        → (d : Command) × (find_command r commands ≡ some d) × (rank d < rank c)
    ranked r (inl e') = (ion_species, rw e', rw e (omega arith))
    ranked r (inr (inl e')) = (lattice, rw e', rw e (omega arith))
    ranked r (inr (inr i)) = absurd i
commands-IsRanked c (inr (inl e)) r i = absurd (rw e at i)
commands-IsRanked c (inr (inr (inl e))) r i = absurd (rw e at i)
commands-IsRanked c (inr (inr (inr i))) r _ = absurd i

process_command_map_accepts_example :
    (last : ℕ) × (t : Table) × (process_command_map commands ≡ ok (last, t))
process_command_map_accepts_example =
    process_command_map_accepts rank commands commands-IsRanked (omega arith)
