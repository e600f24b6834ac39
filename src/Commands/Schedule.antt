-- ===== src/Commands/Schedule.antt =====
-- commands/parser.cpp, the first half of the constructor of `ProcessedCommandMap`: each command
-- is given the number of the pass in which `parse` runs it, behind all that it requires.
pub mod Sweep
pub mod Placement
pub mod Order
pub mod Ranking
pub mod Progress
pub mod Forbids
use python_jdftx.Common.{
  ℕ, zero, suc, ◌+◌, Bool, true, false, List, [], ◌∷◌, ◌++◌, map, Option, none, some, leb, ltb,
  ◌==◌, if◌then◌else◌, length,
}
use python_jdftx.Core.Outcome.{
  Bytes, Outcome, ok, die, no_fuel, ◌>>=◌, invalid_requirement, cyclic_dependency,
}
use python_jdftx.Core.Text.{text_eq}
use python_jdftx.Commands.Command.{Command}

-- INT_MAX, the number of a command that has no pass yet.
abbrev pub int_max : ℕ
int_max = 2147483647

-- One value of the map: pair<int,Command*>.
pub record Slot : Type 0 where
  pub pass : ℕ
  pub command : Command

abbrev pub Table : Type 0
Table = List Slot

unfoldable pub find_slot : Bytes → Table → Option Slot
find_slot name [] = none
find_slot name (s ∷ ss) = if text_eq s.command.name name then some s else find_slot name ss

-- The loop over `ci.requires`: whether each has a pass before `n`. `die` at one that is no command.
unfoldable pub requirements_ready : ℕ → Table → Bytes → List Bytes → Outcome Bool
requirements_ready n table by [] = ok true
requirements_ready n table by (r ∷ rs) = elim (find_slot r table) [
  | none ↦ die (invalid_requirement r by)
  | some j ↦ if leb n j.pass then ok false else requirements_ready n table by rs
]

-- The loop over the map in pass `n`, at the slots `after`; those before have been visited. It
-- counts the commands that got their pass and those that still wait.
unfoldable pub sweep : ℕ → Table → Table → ℕ → ℕ → Outcome (Table × ℕ × ℕ)
sweep n before [] processed remaining = ok (before, processed, remaining)
sweep n before (s ∷ after) processed remaining =
    let c = s.command in
    let kept = sweep n (before ++ s ∷ []) after processed remaining in
    let waits = sweep n (before ++ s ∷ []) after processed (suc remaining) in
    let placed = sweep n (before ++ record s { pass = n } ∷ []) after (suc processed) remaining in
    if ltb n s.pass
    then (requirements_ready n (before ++ s ∷ after) c.name c.requires >>= λ ready.
        if ready then placed else waits)
    else kept

-- The names listed in the message on a cycle.
abbrev pub waiting_names : ℕ → Table → List Bytes
waiting_names n [] = []
waiting_names n (s ∷ ss) =
    if ltb n s.pass then s.command.name ∷ waiting_names n ss else waiting_names n ss

-- The loop over `nPasses`.
unfoldable pub assign_passes : ℕ → ℕ → Table → Outcome (ℕ × Table)
assign_passes zero n table = no_fuel
assign_passes (suc fuel) n table = sweep n [] table 0 0 >>= λ (table', processed, remaining).
    let again = assign_passes fuel (suc n) table' in
    if remaining == 0
    then ok (n, table')
    else if processed == 0
    then die (cyclic_dependency (waiting_names n table'))
    else again

abbrev pub unassigned : List Command → Table
unassigned = map (λ c. record { pass = int_max; command = c })

-- Every pass but the last one places a command, so as many passes as commands are fuel enough.
unfoldable pub process_command_map : List Command → Outcome (ℕ × Table)
process_command_map commands = assign_passes (suc (length commands)) 0 (unassigned commands)
