-- ===== src/Commands/Input/Broadcast.antt =====
-- commands/parser.cpp, `readInputFile(string)`: the head process sends what it has read to the
-- others, as one text with a name and its parameters on a line each.
use python_jdftx.Common.{
  ℕ, zero, suc, ◌≡◌, ◌≢◌, refl, ap, List, [], ◌∷◌, ◌++◌, ◌==◌, none, length, All, arith, Bool-cases,
  inl, inr,
}
use python_jdftx.Core.Outcome.{Bytes}
use python_jdftx.Core.Text.{find_first_of, before_first}
use python_jdftx.Commands.Input.{Entries, lines_of, c_str}

-- `oss << p.first << '\n' << p.second << '\n'`.
unfoldable pub serialize : Entries → Bytes
serialize [] = []
serialize ((name, params) ∷ input) = name ++ (b'\n' ∷ (params ++ (b'\n' ∷ serialize input)))

-- One call of `getline`, where the stream may be at its end.
abbrev pub next_line : List Bytes → Bytes × List Bytes
next_line [] = ([], [])
next_line (l ∷ ls) = (c_str l, ls)

-- `for(auto& p: input)` on a process that received the number of entries and the text.
unfoldable pub read_entries : ℕ → List Bytes → Entries
read_entries zero lines = []
read_entries (suc n) lines =
    let first = next_line lines in
    let second = next_line first.1 in (first.0, second.0) ∷ read_entries n second.1

unfoldable pub deserialize : ℕ → Bytes → Entries
deserialize n s = read_entries n (lines_of s)

-- A text of one line: without a newline, and without a NUL, where C ends it.
abbrev pub IsLine : Bytes → Type 0
IsLine = All (λ c. (c ≢ b'\n') × (c ≢ 0))

lines_of-append : (s t : Bytes) → IsLine s → lines_of (s ++ (b'\n' ∷ t)) ≡ s ∷ lines_of t
unfolding lines_of
lines_of-append [] t h = refl
lines_of-append (c ∷ s) t h = elim (Bool-cases (c == b'\n')) [
  | inl newline ↦ absurd (h.0.0 (ground arith))
  | inr other ↦ rw other (rw (lines_of-append s t h.1) refl)
]

find_first_of-nul : (s : Bytes) → IsLine s → find_first_of (λ c. c == 0) s ≡ none
unfolding find_first_of
find_first_of-nul [] h = refl
find_first_of-nul (c ∷ s) h = elim (Bool-cases (c == 0)) [
  | inl nul ↦ absurd (h.0.1 (ground arith))
  | inr other ↦ ground (arith, find_first_of-nul s h.1)
]

c_str_line : (s : Bytes) → IsLine s → c_str s ≡ s
unfolding before_first
c_str_line s h = ground (arith, find_first_of-nul s h)

-- Entries whose names and parameters hold no newline and no NUL arrive at the other processes as
-- the head process sent them.
pub deserialize-serialize :
    (input : Entries)
    → All (λ p. IsLine p.0 × IsLine p.1) input
    → deserialize (length input) (serialize input) ≡ input
unfolding deserialize serialize read_entries
deserialize-serialize [] h = refl
deserialize-serialize ((name, params) ∷ input) h =
    let first = lines_of-append name (params ++ (b'\n' ∷ serialize input)) h.0.0 in
    let second = lines_of-append params (serialize input) h.0.1 in
    rw (first, second)
      (rw (c_str_line name h.0.0, c_str_line params h.0.1)
        (ap (◌∷◌ (name, params)) (deserialize-serialize input h.1)))
