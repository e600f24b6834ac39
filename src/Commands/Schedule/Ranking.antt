-- ===== src/Commands/Schedule/Ranking.antt =====
-- commands/parser.cpp, `ProcessedCommandMap`: where the requirements go down in some ranking, each
-- pass places a command.
use python_jdftx.Common.{
  ℕ, zero, suc, ◌≤◌, ◌<◌, ◌≡◌, inl, inr, refl, ap, Bool, true, false, List, [], ◌∷◌, some, arith,
  leb, ltb, if◌then◌else◌, Bool-cases, In,
}
use python_jdftx.Core.Outcome.{Bytes, ok}
use python_jdftx.Core.Text.{text_eq}
use python_jdftx.Commands.Command.{Command, find_command}
use python_jdftx.Commands.Schedule.{Slot, Table, int_max, find_slot, requirements_ready}
use python_jdftx.Commands.Schedule.Sweep.{ready, is_true, placed_count, waiting_count}
use python_jdftx.Commands.Schedule.Placement.{Inv, requirements_ready-false}
use python_jdftx.Commands.Schedule.Order.{commands_of}

-- `rank` orders the commands: each requirement is a command of a lower rank.
abbrev pub IsRanked : (Command → ℕ) → List Command → Type 0
IsRanked rank commands =
    (c : Command)
    → In c commands
    → (r : Bytes) → In r c.requires
    → (d : Command) × (find_command r commands ≡ some d) × (rank d < rank c)

find_slot-commands_of :
    (r : Bytes) (t : Table) (d : Command)
    → find_command r (commands_of t) ≡ some d
    → (j : Slot) × In j t × (find_slot r t ≡ some j) × (j.command ≡ d)
unfolding find_command find_slot commands_of
find_slot-commands_of r [] d h = cc
find_slot-commands_of r (s ∷ t) d h = elim (Bool-cases (text_eq s.command.name r)) [
  | inl same ↦ (s, inl refl, ground arith, ground arith)
  | inr other ↦
      let (j, i, found, e) = find_slot-commands_of r t d (ground arith) in
      (j, inr i, ground arith, e)
]

In-commands_of : (s : Slot) (t : Table) → In s t → In s.command (commands_of t)
unfolding commands_of
In-commands_of s [] i = absurd i
In-commands_of s (x ∷ t) (inl e) = inl (ap (λ (y : Slot). y.command) e)
In-commands_of s (x ∷ t) (inr i) = inr (In-commands_of s t i)

module _ (rank : Command → ℕ) (n : ℕ) (t : Table) (ranked : IsRanked rank (commands_of t)) where
  -- The slot of a requirement, of a lower rank than the command that requires it.
  required_slot :
      (s : Slot)
      → In s t
      → (r : Bytes) → In r s.command.requires
      → (j : Slot) × In j t × (find_slot r t ≡ some j) × (rank j.command < rank s.command)
  required_slot s at r i =
      let (d, found, less) = ranked s.command (In-commands_of s t at) r i in
      let (j, k, slot, e) = find_slot-commands_of r t d found in (j, k, slot, rw e less)

  requirements_answered :
      (by : Bytes) (rs : List Bytes)
      → ((r : Bytes) → In r rs → (j : Slot) × (find_slot r t ≡ some j))
      → (b : Bool) × (requirements_ready n t by rs ≡ ok b)
  unfolding requirements_ready
  requirements_answered by [] h = (true, refl)
  requirements_answered by (r ∷ rs) h =
      let (j, found) = h r (inl refl) in
      let (b, rest) = requirements_answered by rs (λ x i. h x (inr i)) in
      (if leb n j.pass then false else b, ground arith)

  pub slot_answered :
      (s : Slot)
      → In s t
      → (b : Bool) × (requirements_ready n t s.command.name s.command.requires ≡ ok b)
  slot_answered s at =
      requirements_answered s.command.name s.command.requires
        λ r i. let (j, k, found, less) = required_slot s at r i in (j, found)

  -- Below a waiting command there is one whose requirements are ready.
  some_ready :
      (k : ℕ) (s : Slot)
      → In s t
      → n ≤ s.pass
      → rank s.command < k
      → (x : Slot) × In x t × (n ≤ x.pass) × (ready n t x ≡ true)
  unfolding ready is_true
  some_ready zero s at new h = absurd (omega arith)
  some_ready (suc k) s at new h =
      let (b, answer) = slot_answered s at in
      split b answer λ j i late less. some_ready k j i late (omega arith)
    where
      split :
          (b : Bool)
          → requirements_ready n t s.command.name s.command.requires ≡ ok b
          → ((j : Slot)
              → In j t
              → n ≤ j.pass
              → rank j.command < rank s.command
              → (x : Slot) × In x t × (n ≤ x.pass) × (ready n t x ≡ true))
          → (x : Slot) × In x t × (n ≤ x.pass) × (ready n t x ≡ true)
      split true answer deeper = (s, at, new, ground arith)
      split false answer deeper =
          let (r, i, j, found, late) =
            requirements_ready-false n t s.command.name s.command.requires answer in
          let (j', k', found', less) = required_slot s at r i in
          let same : j' ≡ j = cc (found, found') in deeper j' k' (rw same late) less

placed_count_pos :
    (n : ℕ) (t after : Table) (x : Slot)
    → In x after
    → n < x.pass
    → ready n t x ≡ true
    → 0 < placed_count n t after
unfolding placed_count
placed_count_pos n t [] x i new h = absurd i
placed_count_pos n t (s ∷ after) x (inl e) new h =
    let pending' : n < s.pass = rw e at new in
    let h' : ready n t s ≡ true = rw e at h in ground arith
placed_count_pos n t (s ∷ after) x (inr i) new h =
    omega (arith, placed_count_pos n t after x i new h)

some_waiting :
    (n : ℕ) (t after : Table) → 0 < waiting_count n t after → (s : Slot) × In s after × (n < s.pass)
unfolding waiting_count
some_waiting n t [] h = absurd (omega arith)
some_waiting n t (s ∷ after) h = elim (Bool-cases (ltb n s.pass)) [
  | inl new ↦ (s, inl refl, ground arith)
  | inr old ↦ let (x, i, new) = some_waiting n t after (ground arith) in (x, inr i, new)
]

-- A pass that leaves commands to wait has placed some, if the requirements can be met.
pub placed_some :
    (rank : Command → ℕ) (n : ℕ) (t : Table)
    → IsRanked rank (commands_of t)
    → Inv n t
    → n < int_max
    → 0 < waiting_count n t t
    → 0 < placed_count n t t
unfolding Inv
placed_some rank n t ranked inv small some_wait =
    let (s, at, new) = some_waiting n t t some_wait in
    let (x, i, late, answer) =
      some_ready rank n t ranked (suc (rank s.command)) s at (omega arith) (omega arith) in
    elim (inv x i) [
      | inl p ↦ absurd (omega (arith, p.early))
      | inr w ↦ placed_count_pos n t t x i (omega (arith, w.unplaced)) answer
    ]
