-- ===== src/Commands/Execution/Checks.antt =====
-- commands/parser.cpp, `safeProcess`: what a run that reports no error has checked.
use python_jdftx.Common.{
  ◌≤◌, ◌≡◌, ◌≢◌, inl, inr, refl, sym, ap, subst, ◌∙◌, true, false, List, [], ◌∷◌, ◌++◌, some, arith,
  ◌==◌, Bool-cases, In,
}
use python_jdftx.Core.Outcome.{Bytes}
use python_jdftx.Core.Text.{text_eq}
use python_jdftx.Commands.Command.{Command}
use python_jdftx.Commands.Schedule.{Slot, Table, find_slot}
use python_jdftx.Commands.Execution.{Counts, increment, unsatisfied, incompatible}
use python_jdftx.Commands.Execution.Counts.{
  find_slot_cong, find_slot_name, IsStable, increment-IsStable,
}

pub append-eq_nil {ℓ} : {A : Type ℓ} (xs ys : List A) → xs ++ ys ≡ [] → (xs ≡ []) × (ys ≡ [])
append-eq_nil [] ys h = (refl, h)
append-eq_nil (x ∷ xs) ys h = cc

pub unsatisfied-eq_nil :
    (counts : Counts) (rs : List Bytes)
    → unsatisfied counts rs ≡ []
    → (r : Bytes) → In r rs
    → counts r ≢ 0
unfolding unsatisfied
unsatisfied-eq_nil counts [] h r i = absurd i
unsatisfied-eq_nil counts (x ∷ rs) h r i = elim (Bool-cases (counts x == 0)) [
  | inl missing ↦ absurd (ground arith)
  | inr met ↦ elim i [
    | inl e ↦ rw e (ground arith)
    | inr j ↦ unsatisfied-eq_nil counts rs (ground arith) r j
  ]
]

pub incompatible-eq_nil :
    (c : Command) (counts : Counts) (fs : List Bytes)
    → incompatible c counts fs ≡ []
    → (f : Bytes) → In f fs
    → counts f ≡ 0
unfolding incompatible
incompatible-eq_nil c counts [] h f i = absurd i
incompatible-eq_nil c counts (x ∷ fs) h f i = elim (Bool-cases (counts x == 0)) [
  | inr met ↦ absurd (ground arith)
  | inl absent ↦ elim i [
    | inl e ↦ rw e (ground arith)
    | inr j ↦ incompatible-eq_nil c counts fs (ground arith) f j
  ]
]

-- What is checked of a command before it is processed.
pub record IsAllowed (c : Command) (counts : Counts) : Type 0 where
  pub satisfied : (r : Bytes) → In r c.requires → counts r ≢ 0
  pub single : c.allow_multiple ≡ false → counts c.name ≤ 1
  pub free : (f : Bytes) → In f c.forbids → counts f ≡ 0

-- Counts in which all commands that were run agree with each other.
pub record IsSound (table : Table) (counts : Counts) : Type 0 where
  pub required :
      (a : Slot)
      → find_slot a.command.name table ≡ some a
      → counts a.command.name ≢ 0
      → (r : Bytes) → In r a.command.requires
      → counts r ≢ 0
  pub once :
      (a : Slot)
      → find_slot a.command.name table ≡ some a
      → a.command.allow_multiple ≡ false
      → counts a.command.name ≤ 1
  pub compatible :
      (a b : Slot) (of_a of_b : Bytes)
      → In of_a a.command.forbids
      → In of_b b.command.forbids
      → find_slot a.command.name table ≡ some a
      → find_slot b.command.name table ≡ some b
      → find_slot of_a table ≡ some b
      → find_slot of_b table ≡ some a
      → counts a.command.name ≢ 0
      → counts b.command.name ≡ 0

module _ (table : Table) where
  -- A slot whose command is counted is the one that was run, or was counted before.
  same_slot :
      (x a : Slot)
      → find_slot x.command.name table ≡ some x
      → find_slot a.command.name table ≡ some a
      → text_eq x.command.name a.command.name ≡ true
      → x ≡ a
  same_slot x a own known same =
      cc (own, known, find_slot_cong x.command.name a.command.name table same)

  -- Running an allowed command keeps the counts sound.
  pub increment-IsSound :
      (x : Slot) (counts : Counts)
      → find_slot x.command.name table ≡ some x
      → IsStable counts
      → IsAllowed x.command (increment x.command.name counts)
      → IsSound table counts
      → IsSound table (increment x.command.name counts)
  increment-IsSound x counts own stable allowed sound = record {
    required = required;
    once = once;
    compatible = compatible;
  }
    where
      required :
          (a : Slot)
          → find_slot a.command.name table ≡ some a
          → increment x.command.name counts a.command.name ≢ 0
          → (r : Bytes) → In r a.command.requires
          → increment x.command.name counts r ≢ 0
      required a known ran r i = elim (Bool-cases (text_eq x.command.name a.command.name)) [
        | inl same ↦
            let e = same_slot x a own known same in
            allowed.satisfied r (subst (λ (y : Slot). In r y.command.requires) (sym e) i)
        | inr other ↦ let before = sound.required a known (ground arith) r i in ground arith
      ]

      once :
          (a : Slot)
          → find_slot a.command.name table ≡ some a
          → a.command.allow_multiple ≡ false
          → increment x.command.name counts a.command.name ≤ 1
      once a known only = elim (Bool-cases (text_eq x.command.name a.command.name)) [
        | inl same ↦
            let e = same_slot x a own known same in
            subst (λ (y : Slot). increment x.command.name counts y.command.name ≤ 1) e
              (allowed.single (ap (λ (y : Slot). y.command.allow_multiple) e ∙ only))
        | inr other ↦ let before = sound.once a known only in ground arith
      ]

      -- What the command that was run forbids does not occur.
      free :
          (a b : Slot) (of_a : Bytes)
          → In of_a a.command.forbids
          → find_slot of_a table ≡ some b
          → x ≡ a
          → increment x.command.name counts b.command.name ≡ 0
      free a b of_a i at e =
          let named = find_slot_name of_a table b at in
          increment-IsStable x.command.name counts stable b.command.name of_a named
          ∙ allowed.free of_a (subst (λ (y : Slot). In of_a y.command.forbids) (sym e) i)

      compatible :
          (a b : Slot) (of_a of_b : Bytes)
          → In of_a a.command.forbids
          → In of_b b.command.forbids
          → find_slot a.command.name table ≡ some a
          → find_slot b.command.name table ≡ some b
          → find_slot of_a table ≡ some b
          → find_slot of_b table ≡ some a
          → increment x.command.name counts a.command.name ≢ 0
          → increment x.command.name counts b.command.name ≡ 0
      compatible a b of_a of_b ia ib known_a known_b at_b at_a ran =
          elim (Bool-cases (text_eq x.command.name a.command.name)) [
            | inl same ↦ free a b of_a ia at_b (same_slot x a own known_a same)
            | inr other ↦ elim (Bool-cases (text_eq x.command.name b.command.name)) [
              | inl same_b ↦ absurd (ran (free b a of_b ib at_a (same_slot x b own known_b same_b)))
              | inr other_b ↦
                  let before =
                    sound.compatible a b of_a of_b ia ib known_a known_b at_b at_a (ground arith) in
                  ground arith
            ]
          ]
