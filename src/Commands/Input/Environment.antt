-- ===== src/Commands/Input/Environment.antt =====
-- commands/parser.cpp, `environmentSubstitute`: when its loop ends, and what it leaves.
use python_jdftx.Common.{
  ℕ, zero, suc, ◌+◌, ◌-◌, ◌≤◌, ◌<◌, ◌≡◌, refl, ◌∙◌, ap, ◌⊎◌, inl, inr, [], ◌∷◌, ◌++◌, Option, none,
  some, arith, length, take, drop, ◌==◌, if◌then◌else◌, Option-cases, append-nil,
}
use python_jdftx.Core.Outcome.{Bytes, ok, die, no_fuel, unterminated_variable}
use python_jdftx.Commands.Input.{
  value_or_empty, find_open, find_char, substitute_at, environment_substitute,
}

-- How many `$` a text holds: each round of the loop removes one.
abbrev pub dollars : Bytes → ℕ
dollars [] = 0
dollars (c ∷ s) = (if c == b'$' then 1 else 0) + dollars s

-- No variable's value holds a `$`.
abbrev pub IsPlain : (Bytes → Option Bytes) → Type 0
IsPlain getenv = (name value : Bytes) → getenv name ≡ some value → dollars value ≡ 0

pub dollars-append : (s t : Bytes) → dollars (s ++ t) ≡ dollars s + dollars t
dollars-append [] t = omega arith
dollars-append (c ∷ s) t = ground (arith, dollars-append s t)

dollars-drop-le : (m n : ℕ) (s : Bytes) → m ≤ n → dollars (drop n s) ≤ dollars (drop m s)
dollars-drop-le zero zero s h = omega arith
dollars-drop-le zero (suc n) [] h = omega arith
dollars-drop-le zero (suc n) (c ∷ s) h = omega (arith, dollars-drop-le zero n s (omega arith))
dollars-drop-le (suc m) zero s h = absurd (omega arith)
dollars-drop-le (suc m) (suc n) [] h = omega arith
dollars-drop-le (suc m) (suc n) (c ∷ s) h = dollars-drop-le m n s (omega arith)

-- At a place found, a `$` stands between what precedes it and what follows it.
dollars-find_open :
    (s : Bytes) (i : ℕ)
    → find_open s ≡ some i
    → dollars (take i s) + dollars (drop (suc i) s) + 1 ≡ dollars s
unfolding find_open
dollars-find_open [] i h = cc
dollars-find_open (c ∷ []) i h = cc
dollars-find_open (c ∷ d ∷ s) zero h = ground arith
dollars-find_open (c ∷ d ∷ s) (suc i) h = ground (arith, dollars-find_open (d ∷ s) i (ground arith))

-- A round that succeeds is followed by the loop on its text.
environment_substitute-found :
    (getenv : Bytes → Option Bytes) (fuel : ℕ) (s t : Bytes) (start : ℕ)
    → find_open s ≡ some start
    → substitute_at getenv s start ≡ ok t
    → environment_substitute getenv (suc fuel) s ≡ environment_substitute getenv fuel t
unfolding environment_substitute find_open
environment_substitute-found getenv fuel s t start found round =
    rw (found, environment_substitute) (rw round)

-- A round where the closing brace is found.
substitute_at-found :
    (getenv : Bytes → Option Bytes) (s : Bytes) (start n : ℕ)
    → find_char b'}' (drop start s) ≡ some n
    → substitute_at getenv s start
      ≡ ok (
          take start s
          ++ (value_or_empty (getenv (take (n - 2) (drop (start + 2) s)))
              ++ drop (start + n + 1) s))
unfolding substitute_at
substitute_at-found getenv s start n found = rw (found, substitute_at)

module _ (getenv : Bytes → Option Bytes) (plain : IsPlain getenv) where
  dollars-value : (name : Bytes) → dollars (value_or_empty (getenv name)) ≡ 0
  dollars-value name = elim (Option-cases (getenv name)) [
    | inl absent ↦ rw absent
    | inr (v, found) ↦ rw found (plain name v found)
  ]

  -- One round either fails, or leaves fewer `$` than there were.
  substitute_at_cases :
      (s : Bytes) (start : ℕ)
      → find_open s ≡ some start
      → ((t : Bytes) × (substitute_at getenv s start ≡ ok t) × (dollars t < dollars s))
        ⊎ (substitute_at getenv s start ≡ die (unterminated_variable (drop start s)))
  unfolding substitute_at
  substitute_at_cases s start h = elim (Option-cases (find_char b'}' (drop start s))) [
    | inl absent ↦ inr (rw (absent, substitute_at))
    | inr (n, found) ↦
        let value = value_or_empty (getenv (take (n - 2) (drop (start + 2) s))) in
        let rest = drop (start + n + 1) s in
        inl (
          take start s ++ (value ++ rest),
          rw (found, substitute_at),
          omega (
            arith,
            dollars-append (take start s) (value ++ rest),
            dollars-append value rest,
            dollars-value (take (n - 2) (drop (start + 2) s)),
            dollars-drop-le (suc start) (start + n + 1) s (omega arith),
            dollars-find_open s start h,
          ),
        )
  ]

  -- Where no value of the environment holds a `$`, the substitution ends within one round more
  -- than there are `$`: with a text that holds no `${`, or at a variable with no closing brace.
  pub environment_substitute_ends :
      (fuel : ℕ) (s : Bytes)
      → dollars s < fuel
      → ((t : Bytes) × (environment_substitute getenv fuel s ≡ ok t) × (find_open t ≡ none))
        ⊎ ((v : Bytes) × (environment_substitute getenv fuel s ≡ die (unterminated_variable v)))
  unfolding environment_substitute
  environment_substitute_ends zero s h = absurd (omega arith)
  environment_substitute_ends (suc fuel) s h = elim (Option-cases (find_open s)) [
    | inl absent ↦ inl (s, rw (absent, environment_substitute), absent)
    | inr (start, found) ↦ elim (substitute_at_cases s start found) [
      | inl (t, round, less) ↦
          rw (environment_substitute-found getenv fuel s t start found round)
            (environment_substitute_ends fuel t (omega arith))
      | inr failed ↦ inr (drop start s, rw (found, environment_substitute) (rw failed))
    ]
  ]

-- The text `${name}`.
abbrev pub reference : Bytes → Bytes
reference name = b'$' ∷ b'{' ∷ (name ++ (b'}' ∷ []))

find_char-append :
    (x : ℕ) (s t : Bytes) → find_char x s ≡ none → find_char x (s ++ (x ∷ t)) ≡ some (length s)
unfolding find_char
find_char-append x [] t h = ground arith
find_char-append x (c ∷ s) t h = ground (arith, find_char-append x s t (ground arith))

take-length-append : (s t : Bytes) → take (length s) (s ++ t) ≡ s
take-length-append [] t = refl
take-length-append (c ∷ s) t = ap (◌∷◌ c) (take-length-append s t)

drop-suc-length-append : (s : Bytes) (c : ℕ) (t : Bytes) → drop (suc (length s)) (s ++ (c ∷ t)) ≡ t
drop-suc-length-append [] c t = refl
drop-suc-length-append (d ∷ s) c t = drop-suc-length-append s c t

find_char-reference :
    (name : Bytes)
    → find_char b'}' name ≡ none
    → find_char b'}' (reference name) ≡ some (suc (suc (length name)))
unfolding find_char
find_char-reference name h = ground (arith, find_char-append b'}' name [] h)

substitute_at-reference :
    (getenv : Bytes → Option Bytes) (name value : Bytes)
    → find_char b'}' name ≡ none
    → getenv name ≡ some value
    → substitute_at getenv (reference name) 0 ≡ ok value
substitute_at-reference getenv name value h v =
    let n = length name in
    let inner : suc (suc n) - 2 ≡ n = omega arith in
    let past : 0 + suc (suc n) + 1 ≡ suc (suc (suc n)) = omega arith in
    substitute_at-found getenv (reference name) 0 (suc (suc n)) (find_char-reference name h)
    ∙ rw inner (
        rw past (
          rw (take-length-append name (b'}' ∷ []))
            (rw v (rw (drop-suc-length-append name b'}' []) (rw append-nil)))))

-- A variable whose value is its own reference keeps the loop of the substitution going for ever.
pub environment_substitute_loops :
    (getenv : Bytes → Option Bytes) (name : Bytes)
    → find_char b'}' name ≡ none
    → getenv name ≡ some (reference name)
    → (fuel : ℕ) → environment_substitute getenv fuel (reference name) ≡ no_fuel
unfolding environment_substitute find_open
environment_substitute_loops getenv name h v zero = refl
environment_substitute_loops getenv name h v (suc fuel) =
    environment_substitute-found getenv fuel (reference name) (reference name) 0 refl
      (substitute_at-reference getenv name (reference name) h v)
    ∙ environment_substitute_loops getenv name h v fuel
