-- ===== src/Commands/Command.antt =====
-- commands/command.h, class `Command`, and commands/command.cpp, the map of all commands. A
-- std::map keyed by name is the list of its values in the order of their names, and a
-- std::set<string> the list of its elements.
pub mod Registry
use python_jdftx.Common.{
  ℕ, Bool, true, false, ◌&&◌, ◌||◌, List, [], ◌∷◌, Option, none, some, leb, ltb, ◌==◌, ◌+◌, any,
  if◌then◌else◌,
}
use python_jdftx.Core.Outcome.{Bytes}
use python_jdftx.Core.Text.{text_eq}

pub record Command : Type 0 where
  pub name : Bytes
  pub section : Bytes
  pub requires : List Bytes
  pub forbids : List Bytes
  pub allow_multiple : Bool
  pub has_default : Bool
  pub empty_param_error : Bytes

-- tolower in the C locale, by which strncasecmp compares.
unfoldable pub to_lower : ℕ → ℕ
to_lower c = if leb b'A' c && leb c b'Z' then c + 32 else c

-- operator< of `string`, the order of a map's keys.
unfoldable pub text_less : Bytes → Bytes → Bool
unfolding to_lower
text_less s [] = false
text_less [] (b ∷ t) = true
text_less (a ∷ s) (b ∷ t) =
    if ltb (to_lower a) (to_lower b)
    then true
    else if ltb (to_lower b) (to_lower a)
    then false
    else text_less s t

-- `map::find`, by the name of a command.
unfoldable pub find_command : Bytes → List Command → Option Command
find_command name [] = none
find_command name (c ∷ cs) = if text_eq c.name name then some c else find_command name cs

-- `commandMap[command->name] = command` of `updateCommandMap`.
unfoldable pub update_command_map : Command → List Command → List Command
update_command_map c [] = c ∷ []
update_command_map c (d ∷ ds) =
    if text_eq d.name c.name
    then c ∷ ds
    else if text_less c.name d.name
    then c ∷ d ∷ ds
    else d ∷ update_command_map c ds

-- `set::count` as a test.
abbrev pub contains : Bytes → List Bytes → Bool
contains name = any (text_eq name)

-- `set::insert`, by which `require` and `forbid` add a name.
unfoldable pub insert_name : Bytes → List Bytes → List Bytes
insert_name name [] = name ∷ []
insert_name name (n ∷ ns) =
    if text_eq name n
    then n ∷ ns
    else if text_less name n
    then name ∷ n ∷ ns
    else n ∷ insert_name name ns

pub require : Bytes → Command → Command
require name c = record c { requires = insert_name name c.requires }

pub forbid : Bytes → Command → Command
forbid name c = record c { forbids = insert_name name c.forbids }
