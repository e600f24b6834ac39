-- ===== src/Commands/Schedule/Order.antt =====
-- commands/parser.cpp, `ProcessedCommandMap`: the passes respect what the commands require, and
-- no command waits longer than it has to.
use python_jdftx.Common.{
  ℕ, zero, suc, ◌+◌, ◌≤◌, ◌<◌, ◌≡◌, inl, inr, refl, sym, ap, ◌∙◌, List, [], ◌∷◌, map, arith,
  Bool-cases, In, length, ◌==◌, ==_iff,
}
use python_jdftx.Core.Outcome.{ok, >>=-eq-ok}
use python_jdftx.Commands.Command.{Command}
use python_jdftx.Commands.Schedule.{
  Slot, Table, int_max, sweep, assign_passes, unassigned, process_command_map,
}
use python_jdftx.Commands.Schedule.Sweep.{
  settle, settle-command, ready, waiting_count, SweepsTo, sweep_settles,
}
use python_jdftx.Commands.Schedule.Placement.{IsBehind, IsTight, IsPlaced, Inv, In-map, Inv-sweep}

-- When nothing waits any more, every command has its pass.
settled_of_none_waiting :
    (n : ℕ) (t after : Table) (s : Slot)
    → waiting_count n t after ≡ 0
    → In s after
    → (settle n t s).pass ≤ n
unfolding waiting_count settle ready
settled_of_none_waiting n t [] s h i = absurd i
settled_of_none_waiting n t (x ∷ after) s h (inl e) = rw e (ground arith)
settled_of_none_waiting n t (x ∷ after) s h (inr i) =
    settled_of_none_waiting n t after s (ground arith) i

unfoldable pub commands_of : Table → List Command
commands_of = map (λ s. s.command)

pub commands_of-settle : (n : ℕ) (t u : Table) → commands_of (map (settle n t) u) ≡ commands_of u
unfolding commands_of
commands_of-settle n t [] = refl
commands_of-settle n t (s ∷ u) = cc (settle-command n t s, commands_of-settle n t u)

-- The map in the order of its passes: the commands as they were given, each with a pass up to
-- `last`, behind all that it requires, and in no later pass than that makes necessary.
pub record IsOrdered (commands : List Command) (last : ℕ) (t : Table) : Type 0 where
  pub kept : commands_of t ≡ commands
  pub within : (s : Slot) → In s t → s.pass ≤ last
  pub behind : (s : Slot) → In s t → IsBehind t s
  pub tight : (s : Slot) → In s t → IsTight t s

-- The map after a pass that leaves nothing to wait.
IsOrdered-done :
    (n : ℕ) (commands : List Command) (t : Table) (result : Table × ℕ × ℕ)
    → Inv n t
    → commands_of t ≡ commands
    → n < int_max
    → SweepsTo n t t 0 0 result
    → result.2 ≡ 0
    → IsOrdered commands n (map (settle n t) t)
unfolding Inv
IsOrdered-done n commands t result inv same small facts done = record {
  kept = commands_of-settle n t t ∙ same;
  within = within;
  behind = λ s i. (placed s i).behind;
  tight = λ s i. (placed s i).tight;
}
  where
    within : (s : Slot) → In s (map (settle n t) t) → s.pass ≤ n
    within s i =
        let (x, at, e) = In-map (settle n t) t s i in
        rw e (settled_of_none_waiting n t t x (omega (arith, facts.remaining)) at)

    placed : (s : Slot) → In s (map (settle n t) t) → IsPlaced (suc n) (map (settle n t) t) s
    placed s i = elim (Inv-sweep n t result inv small facts s i) [
      | inl p ↦ p
      | inr w ↦ absurd (omega (arith, w.unplaced, within s i))
    ]

assign_passes-IsOrdered :
    (fuel n last : ℕ) (commands : List Command) (t t' : Table)
    → assign_passes fuel n t ≡ ok (last, t')
    → Inv n t
    → commands_of t ≡ commands
    → n + fuel ≤ int_max
    → IsOrdered commands last t'
unfolding assign_passes
assign_passes-IsOrdered zero n last commands t t' e inv same small = cc
assign_passes-IsOrdered (suc fuel) n last commands t t' e inv same small =
    let (result, swept, next) = >>=-eq-ok (sweep n [] t 0 0) _ e in
    let facts = sweep_settles n t result swept in
    elim (Bool-cases (result.2 == 0)) [
      | inl done ↦
          let at : n ≡ last = ground arith in
          let final : map (settle n t) t ≡ t' = sym facts.table ∙ ground arith in
          rw (← at) (
            rw (← final) (
              IsOrdered-done n commands t result inv same (omega arith) facts
                ((==_iff _ 0).0 done)))
      | inr more ↦
          let again : assign_passes fuel (suc n) result.0 ≡ ok (last, t') = ground arith in
          assign_passes-IsOrdered fuel (suc n) last commands (map (settle n t) t) t'
            (ap (assign_passes fuel (suc n)) (sym facts.table) ∙ again)
            (Inv-sweep n t result inv (omega arith) facts) (commands_of-settle n t t ∙ same)
            (omega arith)
    ]

unassigned_pass :
    (commands : List Command) (s : Slot) → In s (unassigned commands) → s.pass ≡ int_max
unassigned_pass [] s i = absurd i
unassigned_pass (c ∷ cs) s (inl e) = ap (λ (x : Slot). x.pass) e
unassigned_pass (c ∷ cs) s (inr i) = unassigned_pass cs s i

pub Inv-start : (commands : List Command) → Inv 0 (unassigned commands)
unfolding Inv
Inv-start commands s i =
    inr (record { unplaced = unassigned_pass commands s i; held = λ k h. absurd (omega arith) })

pub commands_of-unassigned :
    (commands : List Command) → commands_of (unassigned commands) ≡ commands
unfolding commands_of
commands_of-unassigned [] = refl
commands_of-unassigned (c ∷ cs) = ap (◌∷◌ c) (commands_of-unassigned cs)

-- If the map of fewer than INT_MAX commands passes its check, then every command has a pass
-- behind all that it requires, in pass 0 or just one behind some command that it requires, no
-- pass exceeds nPasses, and no command is lost.
pub process_command_map-IsOrdered :
    (commands : List Command) (last : ℕ) (t : Table)
    → length commands < int_max
    → process_command_map commands ≡ ok (last, t)
    → IsOrdered commands last t
unfolding process_command_map
process_command_map-IsOrdered commands last t small e =
    assign_passes-IsOrdered (suc (length commands)) 0 last commands (unassigned commands) t e
      (Inv-start commands) (commands_of-unassigned commands) (omega arith)
