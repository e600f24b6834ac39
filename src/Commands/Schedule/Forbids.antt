-- ===== src/Commands/Schedule/Forbids.antt =====
-- commands/parser.cpp, the second half of the constructor of `ProcessedCommandMap`: that commands
-- forbid each other is made mutual, and none may forbid what it requires. The map holds pointers
-- to the commands, so a command is changed in its slot.
use python_jdftx.Common.{
  ℕ, zero, suc, ◌≤◌, ◌<◌, ◌≡◌, refl, subst, ap, inl, inr, not, ◌&&◌, List, [], ◌∷◌, map, none, some,
  if◌then◌else◌, length, In, arith, Bool-cases, Option-cases,
}
use python_jdftx.Core.Outcome.{
  Bytes, Outcome, ok, die, no_fuel, ◌>>=◌, >>=-eq-ok, invalid_forbid, forbid_require_conflict,
}
use python_jdftx.Core.Text.{text_eq}
use python_jdftx.Commands.Command.{Command, contains, insert_name, forbid}
use python_jdftx.Commands.Schedule.{Slot, Table, find_slot, process_command_map, int_max}
use python_jdftx.Commands.Schedule.Order.{process_command_map-IsOrdered}

-- `cj.forbids.insert(ci.name)`, where it is missing and both are of one section.
unfoldable pub forbid_back : Command → Slot → Slot
forbid_back ci s =
    let cj = s.command in
    if not (contains ci.name cj.forbids) && text_eq cj.section ci.section
    then record s { command = forbid ci.name cj }
    else s

-- The same for the command found under `name`.
unfoldable pub forbid_back_at : Command → Bytes → Table → Table
forbid_back_at ci name [] = []
forbid_back_at ci name (s ∷ ss) =
    if text_eq s.command.name name then forbid_back ci s ∷ ss else s ∷ forbid_back_at ci name ss

-- The loop over `ci.forbids`.
unfoldable pub forbid_all : Command → List Bytes → Table → Outcome Table
forbid_all ci [] table = ok table
forbid_all ci (f ∷ fs) table = elim (find_slot f table) [
  | none ↦ die (invalid_forbid f ci.name)
  | some s ↦ forbid_all ci fs (forbid_back_at ci f table)
]

-- "Make forbids mutual", over the commands in the order of their names.
unfoldable pub make_forbids_mutual : List Bytes → Table → Outcome Table
make_forbids_mutual [] table = ok table
make_forbids_mutual (name ∷ names) table = elim (find_slot name table) [
  | none ↦ make_forbids_mutual names table
  | some s ↦
      forbid_all s.command s.command.forbids table >>= λ table'. make_forbids_mutual names table'
]

-- The commands under the given names, added to a set. The names have been checked before.
unfoldable pub insert_all : Table → List Bytes → List Bytes → List Bytes
insert_all table [] set = set
insert_all table (f ∷ fs) set = elim (find_slot f table) [
  | none ↦ insert_all table fs set
  | some s ↦ insert_all table fs (insert_name s.command.name set)
]

-- `getDependencies`, for the requirements `rs`, to a depth of `fuel`. A requirement has an earlier
-- pass, so one more than the number of passes is given.
unfoldable pub get_dependencies :
    ℕ → Table → List Bytes → List Bytes × List Bytes → Outcome (List Bytes × List Bytes)
get_dependencies fuel table [] sets = ok sets
get_dependencies zero table (r ∷ rs) sets = no_fuel
get_dependencies (suc fuel) table (r ∷ rs) (dep, forbids) = elim (find_slot r table) [
  | none ↦ get_dependencies (suc fuel) table rs (dep, forbids)
  | some s ↦
      let cr = s.command in
      get_dependencies fuel table cr.requires
        (insert_name cr.name dep, insert_all table cr.forbids forbids)
      >>= λ sets. get_dependencies (suc fuel) table rs sets
]

abbrev pub intersection : List Bytes → List Bytes → List Bytes
intersection [] ys = []
intersection (x ∷ xs) ys = if contains x ys then x ∷ intersection xs ys else intersection xs ys

-- "Check for inconsistency in the forbids".
unfoldable pub check_forbids : ℕ → Table → Table → Outcome (Unit {0})
check_forbids fuel table [] = ok tt
check_forbids fuel table (s ∷ ss) =
    get_dependencies fuel table s.command.requires ([], []) >>= λ sets.
    elim (intersection sets.0 sets.1) [
      | [] ↦ check_forbids fuel table ss
      | c ∷ cs ↦ die (forbid_require_conflict s.command.name (c ∷ cs))
    ]

abbrev pub names_of : List Command → List Bytes
names_of = map (λ c. c.name)

-- The constructor of `ProcessedCommandMap`.
unfoldable pub processed_command_map : List Command → Outcome (ℕ × Table)
processed_command_map commands = process_command_map commands >>= λ (n, table).
    make_forbids_mutual (names_of commands) table >>= λ settled.
    check_forbids (suc n) settled settled >>= λ checked. ok (n, settled)

-- No slot has a pass above `last`.
abbrev pub IsWithin : ℕ → Table → Type 0
IsWithin last t = (s : Slot) → In s t → s.pass ≤ last

forbid_back-pass : (ci : Command) (s : Slot) → (forbid_back ci s).pass ≡ s.pass
unfolding forbid_back
forbid_back-pass ci s = ground arith

forbid_back_at-IsWithin :
    (last : ℕ) (ci : Command) (name : Bytes) (t : Table)
    → IsWithin last t
    → IsWithin last (forbid_back_at ci name t)
unfolding forbid_back_at
forbid_back_at-IsWithin last ci name [] h s i = absurd i
forbid_back_at-IsWithin last ci name (x ∷ t) h s i =
    let later = forbid_back_at-IsWithin last ci name t (λ y k. h y (inr k)) s in
    elim (Bool-cases (text_eq x.command.name name)) [
      | inl same ↦
          let at : In s (forbid_back ci x ∷ t) = ground arith in
          elim at [
            | inl e ↦
                omega (arith, ap (λ (y : Slot). y.pass) e, forbid_back-pass ci x, h x (inl refl))
            | inr j ↦ h s (inr j)
          ]
      | inr other ↦
          let at : In s (x ∷ forbid_back_at ci name t) = ground arith in
          elim at [ inl e ↦ h s (inl e) | inr j ↦ later j ]
    ]

forbid_all-IsWithin :
    (last : ℕ) (ci : Command) (fs : List Bytes) (t t' : Table)
    → IsWithin last t
    → forbid_all ci fs t ≡ ok t'
    → IsWithin last t'
unfolding forbid_all
forbid_all-IsWithin last ci [] t t' h e = let same : t ≡ t' = cc e in subst (IsWithin last) same h
forbid_all-IsWithin last ci (f ∷ fs) t t' h e = elim (Option-cases (find_slot f t)) [
  | inl absent ↦ absurd (ground arith)
  | inr (s, at) ↦
      forbid_all-IsWithin last ci fs (forbid_back_at ci f t) t'
        (forbid_back_at-IsWithin last ci f t h) (ground arith)
]

make_forbids_mutual-IsWithin :
    (last : ℕ) (names : List Bytes) (t t' : Table)
    → IsWithin last t
    → make_forbids_mutual names t ≡ ok t'
    → IsWithin last t'
unfolding make_forbids_mutual
make_forbids_mutual-IsWithin last [] t t' h e =
    let same : t ≡ t' = cc e in subst (IsWithin last) same h
make_forbids_mutual-IsWithin last (name ∷ names) t t' h e = elim (Option-cases (find_slot name t)) [
  | inl absent ↦ make_forbids_mutual-IsWithin last names t t' h (ground arith)
  | inr (s, at) ↦
      let run : (forbid_all s.command s.command.forbids t >>= λ table'.
      make_forbids_mutual names table')
          ≡ ok t' =
        ground arith in
      let (u, first, rest) = >>=-eq-ok (forbid_all s.command s.command.forbids t) _ run in
      make_forbids_mutual-IsWithin last names u t'
        (forbid_all-IsWithin last s.command s.command.forbids t u h first) rest
]

-- The whole map keeps every pass within the number of passes.
pub processed_command_map-IsWithin :
    (commands : List Command) (last : ℕ) (t : Table)
    → length commands < int_max
    → processed_command_map commands ≡ ok (last, t)
    → IsWithin last t
unfolding processed_command_map
processed_command_map-IsWithin commands last t small e =
    let ((n, u), ordered, rest) = >>=-eq-ok (process_command_map commands) _ e in
    let (settled, made, rest') = >>=-eq-ok (make_forbids_mutual (names_of commands) u) _ rest in
    let (checked, _, done) = >>=-eq-ok (check_forbids (suc n) settled settled) _ rest' in
    let order = process_command_map-IsOrdered commands n u small ordered in
    let same_last : n ≡ last = cc done in
    let same : settled ≡ t = cc done in
    let within = make_forbids_mutual-IsWithin n (names_of commands) u settled order.within made in
    subst (λ (m : ℕ). IsWithin m t) same_last (subst (IsWithin n) same within)
