-- ===== src/Commands/Schedule/Placement.antt =====
-- commands/parser.cpp, `ProcessedCommandMap`: what holds of the commands at the start of each pass.
use python_jdftx.Common.{
  ℕ, suc, ◌≤◌, ◌<◌, ◌≡◌, ◌⊎◌, inl, inr, refl, ap, ◌∙◌, Bool, true, false, List, [], ◌∷◌, map, some,
  arith, leb, Bool-cases, Option-cases, In,
}
use python_jdftx.Core.Outcome.{Bytes, ok}
use python_jdftx.Core.Text.{text_eq}
use python_jdftx.Commands.Schedule.{Slot, Table, int_max, find_slot, requirements_ready}
use python_jdftx.Commands.Schedule.Sweep.{settle, settle-command, settle-leb, is_true, SweepsTo}

-- Every requirement of `s` is a command with an earlier pass.
abbrev pub IsBehind : Table → Slot → Type 0
IsBehind t s =
    (r : Bytes)
    → In r s.command.requires
    → (j : Slot) × (find_slot r t ≡ some j) × (j.pass < s.pass)

-- Some requirement `r` of `s` has pass `k` at least.
pub record Holds (t : Table) (s : Slot) (k : ℕ) : Type 0 where
  pub name : Bytes
  pub required : In name s.command.requires
  pub slot : Slot
  pub found : find_slot name t ≡ some slot
  pub late : k ≤ slot.pass

-- A command in pass `k + 1` requires one in pass `k`.
abbrev pub IsTight : Table → Slot → Type 0
IsTight t s =
    (k : ℕ)
    → s.pass ≡ suc k
    → (r : Bytes) × (j : Slot) × In r s.command.requires × (find_slot r t ≡ some j) × (j.pass ≡ k)

-- What holds of a command at the start of pass `n`.
pub record IsPlaced (n : ℕ) (t : Table) (s : Slot) : Type 0 where
  pub early : s.pass < n
  pub behind : IsBehind t s
  pub tight : IsTight t s

pub record IsWaiting (n : ℕ) (t : Table) (s : Slot) : Type 0 where
  pub unplaced : s.pass ≡ int_max
  pub held : (k : ℕ) → n ≡ suc k → Holds t s k

unfoldable pub Inv : ℕ → Table → Type 0
Inv n t = (s : Slot) → In s t → IsPlaced n t s ⊎ IsWaiting n t s

find_slot-settle :
    (n : ℕ) (t u : Table) (r : Bytes) (j : Slot)
    → find_slot r u ≡ some j
    → find_slot r (map (settle n t) u) ≡ some (settle n t j)
unfolding find_slot
find_slot-settle n t [] r j h = cc
find_slot-settle n t (s ∷ u) r j h = elim (Bool-cases (text_eq s.command.name r)) [
  | inl same ↦ let e : s ≡ j = ground arith in rw e (ground (arith, settle-command n t j))
  | inr other ↦ ground (arith, settle-command n t s, find_slot-settle n t u r j (ground arith))
]

settle_early : (n : ℕ) (t : Table) (s : Slot) → s.pass < n → settle n t s ≡ s
unfolding settle
settle_early n t s h = ground arith

-- Requirements that are ready all have a pass before `n`; others are held back by one.
requirements_ready-true :
    (n : ℕ) (t : Table) (by : Bytes) (rs : List Bytes)
    → requirements_ready n t by rs ≡ ok true
    → (r : Bytes) → In r rs
    → (j : Slot) × (find_slot r t ≡ some j) × (j.pass < n)
unfolding requirements_ready
requirements_ready-true n t by [] h r i = absurd i
requirements_ready-true n t by (x ∷ rs) h r i = elim (Option-cases (find_slot x t)) [
  | inl absent ↦ absurd (ground arith)
  | inr (j, found) ↦ elim i [
    | inl e ↦ (j, ap (λ y. find_slot y t) e ∙ found, ground arith)
    | inr i' ↦ requirements_ready-true n t by rs (ground arith) r i'
  ]
]

pub requirements_ready-false :
    (n : ℕ) (t : Table) (by : Bytes) (rs : List Bytes)
    → requirements_ready n t by rs ≡ ok false
    → (r : Bytes) × In r rs × (j : Slot) × (find_slot r t ≡ some j) × (n ≤ j.pass)
unfolding requirements_ready
requirements_ready-false n t by [] h = cc
requirements_ready-false n t by (x ∷ rs) h = elim (Option-cases (find_slot x t)) [
  | inl absent ↦ absurd (ground arith)
  | inr (j, found) ↦ elim (Bool-cases (leb n j.pass)) [
    | inl late ↦ (x, inl refl, j, found, ground arith)
    | inr early ↦
        let (r, i, j', found', late) = requirements_ready-false n t by rs (ground arith) in
        (r, inr i, j', found', late)
  ]
]

pub In-map :
    (f : Slot → Slot) (t : Table) (s' : Slot) → In s' (map f t) → (s : Slot) × In s t × (s' ≡ f s)
In-map f [] s' i = absurd i
In-map f (x ∷ t) s' (inl e) = (x, inl refl, e)
In-map f (x ∷ t) s' (inr i) = let (s, j, e) = In-map f t s' i in (s, inr j, e)

-- Facts about a placed command that the next pass leaves as they are.
module _ (n : ℕ) (t : Table) where
  found_early :
      (r : Bytes) (j : Slot)
      → find_slot r t ≡ some j
      → j.pass < n
      → find_slot r (map (settle n t) t) ≡ some j
  found_early r j found early =
      find_slot-settle n t t r j found ∙ ap some (settle_early n t j early)

  IsPlaced-settle :
      (s : Slot) → IsPlaced n t s → IsPlaced (suc n) (map (settle n t) t) (settle n t s)
  IsPlaced-settle s p = rw (settle_early n t s p.early) (record {
    early = omega (arith, p.early);
    behind = λ r i.
        let (j, found, less) = p.behind r i in
        (j, found_early r j found (omega (arith, p.early)), less);
    tight = λ k e.
        let (r, j, i, found, at) = p.tight k e in
        (r, j, i, found_early r j found (omega (arith, p.early)), at);
  })

  settle_ready :
      (s : Slot)
      → n < s.pass
      → requirements_ready n t s.command.name s.command.requires ≡ ok true
      → settle n t s ≡ record s { pass = n }
  unfolding settle is_true
  settle_ready s new answer = ground arith

  settle_unready :
      (s : Slot)
      → requirements_ready n t s.command.name s.command.requires ≡ ok false
      → settle n t s ≡ s
  unfolding settle is_true
  settle_unready s answer = ground arith

  -- A waiting command whose requirements are ready is placed behind them.
  IsWaiting-IsPlaced :
      (s : Slot)
      → IsWaiting n t s
      → n < int_max
      → requirements_ready n t s.command.name s.command.requires ≡ ok true
      → IsPlaced (suc n) (map (settle n t) t) (settle n t s)
  IsWaiting-IsPlaced s w small answer =
      let ahead = requirements_ready-true n t s.command.name s.command.requires answer in
      rw (settle_ready s (omega (arith, w.unplaced)) answer) (record {
        early = omega arith;
        behind = λ r i. let (j, found, less) = ahead r i in (j, found_early r j found less, less);
        tight = λ k e.
            let h = w.held k e in
            let (j, found, less) = ahead h.name h.required in
            let same : h.slot ≡ j = cc (h.found, found) in
            (
              h.name,
              j,
              h.required,
              found_early h.name j found less,
              omega (arith, h.late, ap (λ (x : Slot). x.pass) same),
            );
      })

  -- A waiting command whose requirements are not ready is held back by one of them.
  IsWaiting-kept :
      (s : Slot)
      → IsWaiting n t s
      → requirements_ready n t s.command.name s.command.requires ≡ ok false
      → IsWaiting (suc n) (map (settle n t) t) (settle n t s)
  IsWaiting-kept s w answer =
      let (r, i, j, found, late) = requirements_ready-false n t s.command.name _ answer in
      rw (settle_unready s answer) (record {
        unplaced = w.unplaced;
        held = λ k at. record {
          name = r;
          required = i;
          slot = settle n t j;
          found = find_slot-settle n t t r j found;
          late = settle_late j late k (omega arith);
        };
      })
    where
      settle_late : (j : Slot) → n ≤ j.pass → (k : ℕ) → n ≡ k → k ≤ (settle n t j).pass
      settle_late j h k e = ground (arith, settle-leb n t j)

-- A pass keeps the invariant.
pub Inv-sweep :
    (n : ℕ) (t : Table) (result : Table × ℕ × ℕ)
    → Inv n t
    → n < int_max
    → SweepsTo n t t 0 0 result
    → Inv (suc n) (map (settle n t) t)
unfolding Inv
Inv-sweep n t result inv small swept s' i =
    let (s, at, e) = In-map (settle n t) t s' i in
    rw e (elim (inv s at) [
      | inl placed ↦ inl (IsPlaced-settle n t s placed)
      | inr waits ↦
          let (b, answer) = swept.answered s at (ground (arith, waits.unplaced)) in
          split s waits b answer
    ])
  where
    split :
        (s : Slot)
        → IsWaiting n t s
        → (b : Bool) → requirements_ready n t s.command.name s.command.requires ≡ ok b
        → IsPlaced (suc n) (map (settle n t) t) (settle n t s)
          ⊎ IsWaiting (suc n) (map (settle n t) t) (settle n t s)
    split s w true answer = inl (IsWaiting-IsPlaced n t s w small answer)
    split s w false answer = inr (IsWaiting-kept n t s w answer)
