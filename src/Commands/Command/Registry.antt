-- ===== src/Commands/Command/Registry.antt =====
-- commands/command.cpp: the map of commands after one more is registered.
use python_jdftx.Common.{◌≡◌, refl, List, [], ◌∷◌, some, arith, if◌then◌else◌}
use python_jdftx.Core.Outcome.{Bytes}
use python_jdftx.Core.Text.{text_eq, text_eq_trans, text_eq_sym}
use python_jdftx.Commands.Command.{Command, find_command, update_command_map}

-- A name finds the command registered last under it, and any other name what it found before.
pub find_command-update :
    (c : Command) (name : Bytes) (cs : List Command)
    → find_command name (update_command_map c cs)
      ≡ (if text_eq c.name name then some c else find_command name cs)
unfolding find_command update_command_map
find_command-update c name [] = refl
find_command-update c name (d ∷ ds) = ground (
  arith,
  text_eq_trans d.name c.name name,
  text_eq_trans c.name d.name name,
  text_eq_trans d.name name c.name,
  text_eq_sym d.name c.name,
  text_eq_sym c.name name,
  find_command-update c name ds,
)
