-- ===== src/Commands/Input/Dollars.antt =====
-- commands/parser.cpp: the `$` of a text bound those of its lines.
use python_jdftx.Common.{
  ℕ, zero, suc, ◌+◌, ◌≤◌, ◌<◌, ◌≡◌, ap, inl, inr, Bool, List, [], ◌∷◌, ◌++◌, arith, take, All, ◌==◌,
  Option-cases,
}
use python_jdftx.Core.Outcome.{Bytes}
use python_jdftx.Core.Text.{find_first_of, trim, before_first}
use python_jdftx.Core.Text.Trim.{trim-TrimsTo}
use python_jdftx.Commands.Input.Environment.{dollars, dollars-append}
use python_jdftx.Commands.Input.{clean_line, lines_of, cons_line}

dollars-take-le : (n : ℕ) (s : Bytes) → dollars (take n s) ≤ dollars s
dollars-take-le zero s = omega arith
dollars-take-le (suc n) [] = omega arith
dollars-take-le (suc n) (c ∷ s) = omega (arith, dollars-take-le n s)

dollars-before_first-le : (p : ℕ → Bool) (s : Bytes) → dollars (before_first p s) ≤ dollars s
unfolding before_first
dollars-before_first-le p s = elim (Option-cases (find_first_of p s)) [
  | inl absent ↦ rw (absent, before_first) (omega arith)
  | inr (i, found) ↦ rw (found, before_first) (dollars-take-le i s)
]

dollars-trim-le : (s : Bytes) → dollars (trim s) ≤ dollars s
dollars-trim-le s =
    let t = trim-TrimsTo s in
    omega (
      arith,
      ap dollars t.splits,
      dollars-append t.front (trim s ++ t.back),
      dollars-append (trim s) t.back,
    )

pub dollars-clean_line-le : (l : Bytes) → dollars (clean_line l) ≤ dollars l
unfolding clean_line
dollars-clean_line-le l =
    let text = before_first (λ c. c == 0) l in
    let code = before_first (λ c. c == b'#') text in
    omega (
      arith,
      dollars-trim-le code,
      dollars-before_first-le (λ c. c == b'#') text,
      dollars-before_first-le (λ c. c == 0) l,
    )

pub total : List Bytes → ℕ
total [] = 0
total (l ∷ ls) = dollars l + total ls

total-cons_line : (c : ℕ) (ls : List Bytes) → total (cons_line c ls) ≡ dollars (c ∷ []) + total ls
unfolding total
total-cons_line c [] = omega arith
total-cons_line c (l ∷ ls) = omega arith

-- Splitting into lines loses no `$`.
pub total-lines_of : (s : Bytes) → total (lines_of s) ≡ dollars s
unfolding lines_of total
total-lines_of [] = omega arith
total-lines_of (c ∷ s) = ground (arith, total-lines_of s, total-cons_line c (lines_of s))

pub All-of_total : (ls : List Bytes) (n : ℕ) → total ls < n → All (λ l. dollars l < n) ls
unfolding total
All-of_total [] n h = tt
All-of_total (l ∷ ls) n h = (omega arith, All-of_total ls n (omega arith))
