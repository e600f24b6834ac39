-- ===== src/Commands/Schedule/Progress.antt =====
-- commands/parser.cpp, `ProcessedCommandMap`: the loop over the passes ends, and it refuses no
-- map whose requirements can be met.
use python_jdftx.Common.{
  ℕ, zero, suc, ◌+◌, ◌≤◌, ◌<◌, ◌≡◌, ◌≢◌, inl, inr, refl, sym, ap, List, [], ◌∷◌, ◌++◌, map, arith,
  ltb, if◌then◌else◌, Bool-cases, length, ◌==◌, subst,
}
use python_jdftx.Core.Outcome.{Bytes, ok, no_fuel, ◌>>=◌, >>=-ne-no_fuel}
use python_jdftx.Commands.Command.{Command}
use python_jdftx.Commands.Schedule.{
  Table, int_max, requirements_ready, sweep, assign_passes, unassigned, process_command_map,
}
use python_jdftx.Commands.Schedule.Sweep.{
  settle, ready, placed_count, waiting_count, sweep_settles, sweep_answered,
}
use python_jdftx.Commands.Schedule.Placement.{Inv, Inv-sweep}
use python_jdftx.Commands.Schedule.Order.{
  Inv-start, commands_of, commands_of-settle, commands_of-unassigned,
}
use python_jdftx.Commands.Schedule.Ranking.{IsRanked, slot_answered, placed_some}

requirements_ready-ne-no_fuel :
    (n : ℕ) (t : Table) (by : Bytes) (rs : List Bytes) → requirements_ready n t by rs ≢ no_fuel
unfolding requirements_ready
requirements_ready-ne-no_fuel n t by [] = λ q. cc
requirements_ready-ne-no_fuel n t by (r ∷ rs) =
    λ q. ground (arith, requirements_ready-ne-no_fuel n t by rs)

sweep-ne-no_fuel : (n : ℕ) (before after : Table) (p q : ℕ) → sweep n before after p q ≢ no_fuel
unfolding sweep
sweep-ne-no_fuel n before [] p q = λ e. cc
sweep-ne-no_fuel n before (s ∷ after) p q = λ e. ground (
  arith,
  requirements_ready-ne-no_fuel n (before ++ s ∷ after) s.command.name s.command.requires,
  sweep-ne-no_fuel n (before ++ s ∷ []) after p q,
  sweep-ne-no_fuel n (before ++ s ∷ []) after p (suc q),
  sweep-ne-no_fuel n (before ++ record s { pass = n } ∷ []) after (suc p) q,
)

-- How many commands pass `n` finds without a pass.
unplaced : ℕ → Table → ℕ
unplaced n [] = 0
unplaced n (s ∷ t) = (if ltb n s.pass then 1 else 0) + unplaced n t

unplaced-counts :
    (n : ℕ) (t after : Table) → unplaced n after ≡ placed_count n t after + waiting_count n t after
unfolding unplaced placed_count waiting_count
unplaced-counts n t [] = omega arith
unplaced-counts n t (s ∷ after) = ground (arith, unplaced-counts n t after)

unplaced-settle-le :
    (n : ℕ) (t after : Table) → unplaced (suc n) (map (settle n t) after) ≤ waiting_count n t after
unfolding unplaced waiting_count settle ready
unplaced-settle-le n t [] = omega arith
unplaced-settle-le n t (s ∷ after) = ground (arith, unplaced-settle-le n t after)

unplaced-unassigned : (commands : List Command) → unplaced 0 (unassigned commands) ≡ length commands
unfolding unplaced
unplaced-unassigned [] = omega arith
unplaced-unassigned (c ∷ cs) = ground (arith, unplaced-unassigned cs)

assign_passes-ne-no_fuel :
    (fuel n : ℕ) (t : Table) → unplaced n t < fuel → assign_passes fuel n t ≢ no_fuel
unfolding assign_passes
assign_passes-ne-no_fuel zero n t h = absurd (omega arith)
assign_passes-ne-no_fuel (suc fuel) n t h =
    >>=-ne-no_fuel (sweep n [] t 0 0) _ (sweep-ne-no_fuel n [] t 0 0) λ result swept.
      let facts = sweep_settles n t result swept in
      λ e. ground (
        arith,
        facts.table,
        facts.processed,
        facts.remaining,
        unplaced-counts n t t,
        unplaced-settle-le n t t,
        assign_passes-ne-no_fuel fuel (suc n) result.0,
      )

-- The loop over the passes ends within one pass more than there are commands, for every map.
pub process_command_map_ends : (commands : List Command) → process_command_map commands ≢ no_fuel
unfolding process_command_map
process_command_map_ends commands =
    assign_passes-ne-no_fuel (suc (length commands)) 0 (unassigned commands)
      (omega (arith, unplaced-unassigned commands))

assign_passes-ok :
    (rank : Command → ℕ) (fuel n : ℕ) (t : Table)
    → IsRanked rank (commands_of t)
    → Inv n t
    → unplaced n t < fuel
    → n + fuel ≤ int_max
    → (last : ℕ) × (t' : Table) × (assign_passes fuel n t ≡ ok (last, t'))
unfolding assign_passes
assign_passes-ok rank zero n t ranked inv h small = absurd (omega arith)
assign_passes-ok rank (suc fuel) n t ranked inv h small =
    let (result, swept) = sweep_answered n t [] t 0 0 refl (slot_answered rank n t ranked) in
    let facts = sweep_settles n t result swept in
    elim (Bool-cases (result.2 == 0)) [
      | inl done ↦ (n, result.0, rw (swept, ◌>>=◌) (rw done))
      | inr more ↦
          let left : 0 < waiting_count n t t = ground (arith, facts.remaining) in
          let some_placed = placed_some rank n t ranked inv (omega arith) left in
          let (last, t', e) =
            assign_passes-ok rank fuel (suc n) (map (settle n t) t)
              (subst (IsRanked rank) (sym (commands_of-settle n t t)) ranked)
              (Inv-sweep n t result inv (omega arith) facts)
              (omega (arith, unplaced-counts n t t, unplaced-settle-le n t t)) (omega arith) in
          (
            last,
            t',
            ground (arith, swept, facts.processed, ap (assign_passes fuel (suc n)) facts.table),
          )
    ]

-- In a map of fewer than INT_MAX commands whose requirements are commands that go down in some
-- ranking, the loop over the passes gives every command a pass and does not die; the checks of
-- what the commands forbid, behind it in the constructor, may still refuse the map.
pub process_command_map_accepts :
    (rank : Command → ℕ) (commands : List Command)
    → IsRanked rank commands
    → length commands < int_max
    → (last : ℕ) × (t : Table) × (process_command_map commands ≡ ok (last, t))
unfolding process_command_map
process_command_map_accepts rank commands ranked small =
    assign_passes-ok rank (suc (length commands)) 0 (unassigned commands)
      (subst (IsRanked rank) (sym (commands_of-unassigned commands)) ranked) (Inv-start commands)
      (omega (arith, unplaced-unassigned commands)) (omega arith)
