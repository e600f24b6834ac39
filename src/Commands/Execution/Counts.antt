-- ===== src/Commands/Execution/Counts.antt =====
-- commands/parser.cpp, `parse`: how often each command is run.
use python_jdftx.Common.{
  ℕ, suc, ◌+◌, ◌≡◌, ◌⊎◌, inl, inr, refl, sym, ap, ◌∙◌, Bool, true, ◌&&◌, [], ◌∷◌, ◌++◌, some, arith,
  ◌==◌, Bool-cases, Option-cases, In, if◌then◌else◌, not,
}
use python_jdftx.Core.Outcome.{Bytes}
use python_jdftx.Core.Text.{text_eq, text_eq_sym, text_eq_trans}
use python_jdftx.Commands.Command.{Command}
use python_jdftx.Commands.Input.{Entries}
use python_jdftx.Commands.Schedule.{Slot, Table, find_slot}
use python_jdftx.Commands.Execution.{
  Counts, Processed, State, increment, check_and_process, safe_process, check_empty, run_entry,
  run_input, run_default, run_defaults,
}

-- Every slot of the map is found by the name of its command: no two names are equal.
abbrev pub HasKeys : Table → Table → Type 0
HasKeys table slots = (s : Slot) → In s slots → find_slot s.command.name table ≡ some s

-- The entries of the input under a name.
unfoldable pub occurrences : Bytes → Entries → ℕ
occurrences key [] = 0
occurrences key ((name, params) ∷ input) =
    if text_eq name key then suc (occurrences key input) else occurrences key input

-- How often a command is to be run: as often as it is given, or else once if it has a default.
unfoldable pub executions : Command → Bytes → Entries → ℕ
executions c key input =
    if occurrences key input == 0 then (if c.has_default then 1 else 0) else occurrences key input

pub find_slot_cong : (a b : Bytes) (t : Table) → text_eq a b ≡ true → find_slot a t ≡ find_slot b t
unfolding find_slot
find_slot_cong a b [] h = refl
find_slot_cong a b (s ∷ t) h = ground (
  arith,
  find_slot_cong a b t h,
  text_eq_trans s.command.name a b,
  text_eq_trans s.command.name b a,
  text_eq_sym a b,
)

pub find_slot_name :
    (a : Bytes) (t : Table) (s : Slot) → find_slot a t ≡ some s → text_eq s.command.name a ≡ true
unfolding find_slot
find_slot_name a [] s h = cc
find_slot_name a (x ∷ t) s h = elim (Bool-cases (text_eq x.command.name a)) [
  | inl same ↦ let e : x ≡ s = ground arith in rw (← e) same
  | inr other ↦ find_slot_name a t s (ground arith)
]

pub find_slot-In : (a : Bytes) (t : Table) (s : Slot) → find_slot a t ≡ some s → In s t
unfolding find_slot
find_slot-In a [] s h = cc
find_slot-In a (x ∷ t) s h = elim (Bool-cases (text_eq x.command.name a)) [
  | inl same ↦ let e : x ≡ s = ground arith in inl (sym e)
  | inr other ↦ inr (find_slot-In a t s (ground arith))
]

-- Names that are equal read the same count.
abbrev pub IsStable : Counts → Type 0
IsStable counts = (a b : Bytes) → text_eq a b ≡ true → counts a ≡ counts b

pub increment-IsStable :
    (n : Bytes) (counts : Counts) → IsStable counts → IsStable (increment n counts)
increment-IsStable n counts h a b e =
    ground (arith, h a b e, text_eq_trans n a b, text_eq_trans n b a, text_eq_sym a b)

module _ {E : Type 0} (process : Command → Bytes → E → E × Processed) where
  pub check_and_process-encountered :
      (c : Command) (params : Bytes) (s : State process)
      → (check_and_process process c params s).encountered ≡ s.encountered
  unfolding check_and_process
  check_and_process-encountered c params s = ground arith

  pub safe_process-encountered :
      (c : Command) (params : Bytes) (s : State process)
      → (safe_process process c params s).encountered ≡ increment c.name s.encountered
  unfolding safe_process
  safe_process-encountered c params s = check_and_process-encountered c params _

  pub check_empty-encountered :
      (c : Command) (params : Bytes) (s : State process)
      → (check_empty process c params s).encountered ≡ s.encountered
  unfolding check_empty
  check_empty-encountered c params s = ground arith

  module _ (table : Table) (pass : ℕ) where
    -- One entry counts once, in the pass of its command.
    run_entry-encountered :
        (name params key : Bytes) (slot : Slot) (s : State process)
        → find_slot key table ≡ some slot
        → (run_entry process table pass (name, params) s).encountered key ≡ (
            if text_eq name key && (slot.pass == pass)
            then suc (s.encountered key)
            else s.encountered key)
    unfolding run_entry
    run_entry-encountered name params key slot s found =
        elim (Option-cases (find_slot name table)) [
          | inl absent ↦ ground (arith, find_slot_cong name key table)
          | inr (x, at) ↦
              let called = find_slot_name name table x at in
              let ran =
                safe_process-encountered x.command (params ++ b' ' ∷ [])
                  (check_empty process x.command params s) in
              let counted = ap (λ (f : Counts). f key) ran in
              let before =
                ap (λ (f : Counts). f key) (check_empty-encountered x.command params s) in
              elim (Bool-cases (text_eq name key)) [
                | inl same ↦
                    let e : x ≡ slot = cc (at, found, find_slot_cong name key table same) in
                    let keyed = text_eq_trans x.command.name name key called same in
                    let passes : x.pass ≡ slot.pass = ap (λ (y : Slot). y.pass) e in ground arith
                | inr other ↦
                    ground (
                      arith,
                      text_eq_sym x.command.name name,
                      text_eq_trans name x.command.name key,
                    )
              ]
        ]

    -- An entry leaves the counts as they are, or counts one name.
    run_entry-cases :
        (entry : Bytes × Bytes) (s : State process)
        → ((run_entry process table pass entry s).encountered ≡ s.encountered)
          ⊎ ((n : Bytes) × ((run_entry process table pass entry s).encountered
                ≡ increment n s.encountered))
    unfolding run_entry
    run_entry-cases (name, params) s = elim (Option-cases (find_slot name table)) [
      | inl absent ↦ inl (ground arith)
      | inr (x, at) ↦
          let before = check_empty-encountered x.command params s in
          let ran =
            safe_process-encountered x.command (params ++ b' ' ∷ [])
              (check_empty process x.command params s) in
          elim (Bool-cases (x.pass == pass)) [
            | inl now ↦ inr (
              x.command.name,
              rw (at, now, run_entry) (ran ∙ ap (increment x.command.name) before),
            )
            | inr later ↦ inl (ground arith)
          ]
    ]

    pub run_entry-IsStable :
        (entry : Bytes × Bytes) (s : State process)
        → IsStable s.encountered
        → IsStable (run_entry process table pass entry s).encountered
    run_entry-IsStable entry s h = elim (run_entry-cases entry s) [
      | inl e ↦ rw e h
      | inr (n, e) ↦ rw e (increment-IsStable n s.encountered h)
    ]

    pub run_input-IsStable :
        (input : Entries) (s : State process)
        → IsStable s.encountered
        → IsStable (run_input process table pass input s).encountered
    unfolding run_input
    run_input-IsStable [] s h = h
    run_input-IsStable (entry ∷ input) s h =
        run_input-IsStable input _ (run_entry-IsStable entry s h)

    -- A run through the input counts every entry whose command has this pass.
    pub run_input-encountered :
        (input : Entries) (key : Bytes) (slot : Slot) (s : State process)
        → find_slot key table ≡ some slot
        → (run_input process table pass input s).encountered key ≡ (
            if slot.pass == pass
            then s.encountered key + occurrences key input
            else s.encountered key)
    unfolding run_input occurrences
    run_input-encountered [] key slot s found = ground arith
    run_input-encountered ((name, params) ∷ input) key slot s found = ground (
      arith,
      run_entry-encountered name params key slot s found,
      run_input-encountered input key slot (run_entry process table pass (name, params) s) found,
    )

    pub run_default-IsStable :
        (x : Slot) (s : State process)
        → IsStable s.encountered
        → IsStable (run_default process pass x s).encountered
    unfolding run_default
    run_default-IsStable x s h =
        elim (Bool-cases
          ((x.pass == pass) && (x.command.has_default && (s.encountered x.command.name == 0)))) [
            | inl runs ↦ rw runs (
                rw (safe_process-encountered x.command [] s)
                  (increment-IsStable x.command.name _ h))
            | inr not ↦ rw not h
          ]

    pub run_defaults-IsStable :
        (slots : Table) (s : State process)
        → IsStable s.encountered
        → IsStable (run_defaults process pass slots s).encountered
    unfolding run_defaults
    run_defaults-IsStable [] s h = h
    run_defaults-IsStable (x ∷ slots) s h =
        run_defaults-IsStable slots _ (run_default-IsStable x s h)

    -- Whether the default of `slot` is due.
    abbrev pub is_due : Slot → ℕ → Bool
    is_due slot n = (slot.pass == pass) && (slot.command.has_default && (n == 0))

    pub run_default-encountered :
        (x slot : Slot) (key : Bytes) (s : State process)
        → find_slot x.command.name table ≡ some x
        → find_slot key table ≡ some slot
        → IsStable s.encountered
        → (run_default process pass x s).encountered key ≡ (
            if text_eq x.command.name key && is_due slot (s.encountered key)
            then suc (s.encountered key)
            else s.encountered key)
    unfolding run_default
    run_default-encountered x slot key s own found stable =
        let counted = ap (λ (f : Counts). f key) (safe_process-encountered x.command [] s) in
        elim (Bool-cases (text_eq x.command.name key)) [
          | inl same ↦
              let e : x ≡ slot = cc (own, found, find_slot_cong x.command.name key table same) in
              let passes : x.pass ≡ slot.pass = ap (λ (y : Slot). y.pass) e in
              let defaults : x.command.has_default ≡ slot.command.has_default =
                ap (λ (y : Slot). y.command.has_default) e in
              let reads = stable x.command.name key same in ground arith
          | inr other ↦ ground arith
        ]
