-- ===== src/Commands/Schedule/Sweep.antt =====
-- commands/parser.cpp, one pass of `ProcessedCommandMap`: though it writes to the map while it
-- runs over it, it acts on each command by itself, by the map as it was before the pass.
use python_jdftx.Common.{
  ℕ, suc, ◌+◌, ◌≡◌, inl, inr, refl, sym, ap, ◌∙◌, Bool, true, false, List, [], ◌∷◌, ◌++◌, map,
  Option, arith, leb, ltb, if◌then◌else◌, append-nil, append_assoc, Bool-cases, In,
}
use mathlib.Core.Option
use mathlib.Core.Bool.{false≢true}
use mathlib.Core.List.{map-append}
use python_jdftx.Core.Outcome.{Bytes, Outcome, ok, >>=-eq-ok}
use python_jdftx.Commands.Schedule.{Slot, Table, find_slot, requirements_ready, sweep}

-- What a pass asks of a name: whether the command there has no pass before `n`.
pending : ℕ → Table → Bytes → Option Bool
pending n table r = Option.map (λ j. leb n j.pass) (find_slot r table)

unfoldable pub is_true : Outcome Bool → Bool
is_true (ok b) = b
is_true _ = false

-- What pass `n` makes of a command, by the map before it.
unfoldable pub settle : ℕ → Table → Slot → Slot
settle n table s =
    if ltb n s.pass
    then (if is_true (requirements_ready n table s.command.name s.command.requires)
        then record s { pass = n }
        else s)
    else s

pub settle-command : (n : ℕ) (t : Table) (s : Slot) → (settle n t s).command ≡ s.command
unfolding settle
settle-command n t s = ground arith

pub settle-leb : (n : ℕ) (t : Table) (s : Slot) → leb n (settle n t s).pass ≡ leb n s.pass
unfolding settle
settle-leb n t s = ground arith

-- Pass `n` hides nothing from the commands that it still has to visit.
pending-settle :
    (n : ℕ) (t before after : Table) (r : Bytes)
    → pending n (map (settle n t) before ++ after) r ≡ pending n (before ++ after) r
unfolding pending find_slot
pending-settle n t [] after r = refl
pending-settle n t (s ∷ before) after r =
    ground (arith, settle-command n t s, settle-leb n t s, pending-settle n t before after r)

requirements_ready-pending :
    (n : ℕ) (t t' : Table) (by : Bytes) (rs : List Bytes)
    → ((r : Bytes) → pending n t r ≡ pending n t' r)
    → requirements_ready n t by rs ≡ requirements_ready n t' by rs
unfolding requirements_ready pending
requirements_ready-pending n t t' by [] h = refl
requirements_ready-pending n t t' by (r ∷ rs) h =
    ground (arith, h r, requirements_ready-pending n t t' by rs h)

unfoldable pub ready : ℕ → Table → Slot → Bool
ready n t s = is_true (requirements_ready n t s.command.name s.command.requires)

-- How many of the commands `after` get pass `n`, and how many of them still wait.
unfoldable pub placed_count : ℕ → Table → Table → ℕ
placed_count n t [] = 0
placed_count n t (s ∷ after) =
    (if ltb n s.pass then (if ready n t s then 1 else 0) else 0) + placed_count n t after

unfoldable pub waiting_count : ℕ → Table → Table → ℕ
waiting_count n t [] = 0
waiting_count n t (s ∷ after) =
    (if ltb n s.pass then (if ready n t s then 0 else 1) else 0) + waiting_count n t after

map-settle-snoc :
    (n : ℕ) (t before : Table) (s s' : Slot)
    → settle n t s ≡ s'
    → map (settle n t) before ++ s' ∷ [] ≡ map (settle n t) (before ++ s ∷ [])
map-settle-snoc n t before s s' e = rw (map-append, e)

-- The outcome of a sweep in terms of what each command becomes.
pub record SweepsTo (n : ℕ) (t after : Table) (p q : ℕ) (result : Table × ℕ × ℕ) : Type 0 where
  pub answered :
      (s : Slot)
      → In s after
      → ltb n s.pass ≡ true
      → (b : Bool) × (requirements_ready n t s.command.name s.command.requires ≡ ok b)
  pub table : result.0 ≡ map (settle n t) t
  pub processed : result.1 ≡ p + placed_count n t after
  pub remaining : result.2 ≡ q + waiting_count n t after

-- The requirements as the running sweep sees them are those of the map before the pass.
seen :
    (n : ℕ) (t before after : Table) (s : Slot)
    → t ≡ before ++ s ∷ after
    → requirements_ready n (map (settle n t) before ++ s ∷ after) s.command.name s.command.requires
      ≡ requirements_ready n t s.command.name s.command.requires
seen n t before after s split =
    requirements_ready-pending n _ t s.command.name s.command.requires
      λ r. pending-settle n t before (s ∷ after) r ∙ ap (λ u. pending n u r) (sym split)

-- One step of the sweep, at a command that is not to be placed, is placed, or has to wait.
module _ (n : ℕ) (t before after : Table) (s : Slot) (p q : ℕ) (result : Table × ℕ × ℕ)
    (split : t ≡ before ++ s ∷ after)
    (e : sweep n (map (settle n t) before) (s ∷ after) p q ≡ ok result) where
  step_kept :
      ltb n s.pass ≡ false → (sweep n (map (settle n t) (before ++ s ∷ [])) after p q ≡ ok result)
  unfolding sweep settle
  step_kept old = rw (← map-settle-snoc n t before s s (ground arith)) (ground arith)

  step_new :
      ltb n s.pass ≡ true
      → (b : Bool) × (requirements_ready n t s.command.name s.command.requires ≡ ok b)
        × (sweep n
              (map (settle n t) (before ++ s ∷ []))
              after
              (if b then suc p else p)
              (if b then q else suc q)
            ≡ ok result)
  unfolding sweep settle is_true
  step_new new =
      let (b, answer, rest) =
        >>=-eq-ok (requirements_ready n _ s.command.name s.command.requires) _
          (rw (new, sweep) at e) in
      choose b (sym (seen n t before after s split) ∙ answer) rest
    where
      choose :
          (b : Bool)
          → requirements_ready n t s.command.name s.command.requires ≡ ok b
          → (if b
              then sweep n (map (settle n t) before ++ record s { pass = n } ∷ []) after (suc p) q
              else sweep n (map (settle n t) before ++ s ∷ []) after p (suc q))
            ≡ ok result
          → (b : Bool) × (requirements_ready n t s.command.name s.command.requires ≡ ok b)
            × (sweep n
                  (map (settle n t) (before ++ s ∷ []))
                  after
                  (if b then suc p else p)
                  (if b then q else suc q)
                ≡ ok result)
      choose true answer rest = (
        true,
        answer,
        rw (← map-settle-snoc n t before s (record s { pass = n }) (ground arith)) rest,
      )
      choose false answer rest =
          (false, answer, rw (← map-settle-snoc n t before s s (ground arith)) rest)

sweep-SweepsTo :
    (n : ℕ) (t before after : Table) (p q : ℕ) (result : Table × ℕ × ℕ)
    → t ≡ before ++ after
    → sweep n (map (settle n t) before) after p q ≡ ok result
    → SweepsTo n t after p q result
unfolding sweep placed_count waiting_count ready is_true
sweep-SweepsTo n t before [] p q result split e =
    let all : t ≡ before = split ∙ append-nil before in
    let same : ◌≡◌ {A = Table × ℕ × ℕ} (map (settle n t) before, p, q) result = ground arith in
    record {
      answered = λ s i. absurd i;
      table = rw (← same) (ap (map (settle n t)) (sym all));
      processed = rw (← same) (omega arith);
      remaining = rw (← same) (omega arith);
    }
sweep-SweepsTo n t before (s ∷ after) p q result split e =
    let further = split ∙ sym (append_assoc before (s ∷ []) after) in
    elim (Bool-cases (ltb n s.pass)) [
      | inl new ↦
          let (b, answer, rest) = step_new n t before after s p q result split e new in
          let inner = sweep-SweepsTo n t (before ++ s ∷ []) after _ _ result further rest in
          record {
            answered =
                λ s' i h. elim i [ inl e' ↦ rw e' (b, answer) | inr i' ↦ inner.answered s' i' h ];
            table = inner.table;
            processed = ground (arith, inner.processed);
            remaining = ground (arith, inner.remaining);
          }
      | inr old ↦
          let inner =
            sweep-SweepsTo n t (before ++ s ∷ []) after p q result further
              (step_kept n t before after s p q result split e old) in
          record {
            answered = λ s' i h. elim i [
              | inl e' ↦ absurd (false≢true (sym old ∙ rw e' at h))
              | inr i' ↦ inner.answered s' i' h
            ];
            table = inner.table;
            processed = ground (arith, inner.processed);
            remaining = ground (arith, inner.remaining);
          }
    ]

-- A pass that ends has done with each command what `settle` says.
pub sweep_settles :
    (n : ℕ) (t : Table) (result : Table × ℕ × ℕ)
    → sweep n [] t 0 0 ≡ ok result
    → SweepsTo n t t 0 0 result
sweep_settles n t result = sweep-SweepsTo n t [] t 0 0 result refl

-- A step of the sweep at a command whose requirements have an answer.
sweep_step :
    (n : ℕ) (t before after : Table) (s : Slot) (p q : ℕ) (b : Bool)
    → t ≡ before ++ s ∷ after
    → requirements_ready n t s.command.name s.command.requires ≡ ok b
    → sweep n (map (settle n t) before) (s ∷ after) p q
      ≡ sweep n
          (map (settle n t) (before ++ s ∷ []))
          after
          (if ltb n s.pass then (if b then suc p else p) else p)
          (if ltb n s.pass then (if b then q else suc q) else q)
unfolding sweep settle is_true
sweep_step n t before after s p q true split answer = elim (Bool-cases (ltb n s.pass)) [
  | inl new ↦
      rw (← map-settle-snoc n t before s (record s { pass = n }) (ground arith))
        (ground (arith, seen n t before after s split))
  | inr old ↦ rw (← map-settle-snoc n t before s s (ground arith)) (ground arith)
]
sweep_step n t before after s p q false split answer =
    rw (← map-settle-snoc n t before s s (ground arith))
      (ground (arith, seen n t before after s split))

-- A sweep over commands whose requirements all have an answer ends with a map.
pub sweep_answered :
    (n : ℕ) (t before after : Table) (p q : ℕ)
    → t ≡ before ++ after
    → ((s : Slot)
        → In s after
        → (b : Bool) × (requirements_ready n t s.command.name s.command.requires ≡ ok b))
    → (result : Table × ℕ × ℕ) × (sweep n (map (settle n t) before) after p q ≡ ok result)
sweep_answered n t before [] p q split h = ((map (settle n t) before, p, q), unfold sweep in refl)
sweep_answered n t before (s ∷ after) p q split h =
    let (b, answer) = h s (inl refl) in
    let (result, e) =
      sweep_answered n t (before ++ s ∷ []) after
        (if ltb n s.pass then (if b then suc p else p) else p)
        (if ltb n s.pass then (if b then q else suc q) else q)
        (split ∙ sym (append_assoc before (s ∷ []) after)) (λ x i. h x (inr i)) in
    (result, sweep_step n t before after s p q b split answer ∙ e)
