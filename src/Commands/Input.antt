-- ===== src/Commands/Input.antt =====
-- commands/parser.cpp: `environmentSubstitute`, `readLine` and both functions `readInputFile`.
-- The environment and the files are arguments. A stream is the list of its lines not yet read
-- (what `getline` yields, split at newlines), and `eof` is that this list is empty.
pub mod Environment
pub mod Dollars
pub mod Includes
pub mod Broadcast
use python_jdftx.Common.{
  ℕ, zero, suc, ◌-◌, ◌+◌, Bool, true, false, ◌&&◌, ◌||◌, List, [], ◌∷◌, ◌++◌, Option, none, some,
  ◌==◌, if◌then◌else◌, take, drop, length, any,
}
use python_jdftx.Core.Outcome.{
  Bytes, Outcome, ok, die, no_fuel, ◌>>=◌, unterminated_variable, cannot_open, include_without_name,
  cyclic_include,
}
use python_jdftx.Core.Text.{is_blank, text_eq, same_bytes, codes, trim, before_first}

-- getenv, opening a file by name, and the texts of files. A file name that is not listed cannot
-- be opened.
pub record World : Type 0 where
  pub getenv : Bytes → Option Bytes
  pub files : List (Bytes × Bytes)
  pub stdin : Bytes

-- string::find("${").
unfoldable pub find_open : Bytes → Option ℕ
find_open [] = none
find_open (c ∷ []) = none
find_open (c ∷ d ∷ s) =
    if c == b'$' && d == b'{'
    then some 0
    else elim (find_open (d ∷ s)) [ none ↦ none | some i ↦ some (suc i) ]

-- string::find of one character.
unfoldable pub find_char : ℕ → Bytes → Option ℕ
find_char x [] = none
find_char x (c ∷ s) =
    if c == x then some 0 else elim (find_char x s) [ none ↦ none | some i ↦ some (suc i) ]

abbrev pub value_or_empty : Option Bytes → Bytes
value_or_empty none = []
value_or_empty (some v) = v

-- One round of the loop of `environmentSubstitute`, at a variable that starts at `start`: the
-- text with `${name}` replaced, or `die` where no `}` follows.
unfoldable pub substitute_at : (Bytes → Option Bytes) → Bytes → ℕ → Outcome Bytes
substitute_at getenv s start = elim (find_char b'}' (drop start s)) [
  | none ↦ die (unterminated_variable (drop start s))
  | some n ↦
      let name = take (n - 2) (drop (start + 2) s) in
      ok (take start s ++ (value_or_empty (getenv name) ++ drop (start + n + 1) s))
]

-- The loop ends when no `${` is left. It takes fuel, since a value may hold `${` itself.
unfoldable pub environment_substitute : (Bytes → Option Bytes) → ℕ → Bytes → Outcome Bytes
environment_substitute getenv zero s = no_fuel
environment_substitute getenv (suc fuel) s = elim (find_open s) [
  | none ↦ ok s
  | some start ↦ substitute_at getenv s start >>= λ t. environment_substitute getenv fuel t
]

-- `str.assign(tmp.c_str())` in `getline`: a text ends at its first NUL.
abbrev pub c_str : Bytes → Bytes
c_str = before_first (λ c. c == 0)

abbrev pub cons_line : ℕ → List Bytes → List Bytes
cons_line c [] = (c ∷ []) ∷ []
cons_line c (l ∷ ls) = (c ∷ l) ∷ ls

-- What `getline` yields, one call after another. A text has one more line than newlines.
unfoldable pub lines_of : Bytes → List Bytes
lines_of [] = [] ∷ []
lines_of (c ∷ s) = if c == b'\n' then [] ∷ lines_of s else cons_line c (lines_of s)

-- `lineIn.erase(commentStart)`, then `trim`.
unfoldable pub clean_line : Bytes → Bytes
clean_line l = trim (before_first (λ c. c == b'#') (c_str l))

-- `lineIn[lineIn.length()-1]=='\\'`, and the text without that last character.
unfoldable pub continued : Bytes → Option Bytes
continued [] = none
continued (c ∷ []) = if c == b'\\' then some [] else none
continued (c ∷ d ∷ s) = elim (continued (d ∷ s)) [ none ↦ none | some t ↦ some (c ∷ t) ]

-- "Add a space between joined lines".
abbrev pub join_lines : Bytes → Bytes → Bytes
join_lines [] l = l
join_lines (c ∷ s) l = ((c ∷ s) ++ (b' ' ∷ [])) ++ l

-- Command names with the parameters behind them, in the order of the input.
abbrev pub Entries : Type 0
Entries = List (Bytes × Bytes)

abbrev pub is_nil : Bytes → Bool
is_nil [] = true
is_nil (c ∷ s) = false

-- Opening a file goes by its exact name, as file systems do.
unfoldable pub lookup_file : Bytes → List (Bytes × Bytes) → Option Bytes
lookup_file name [] = none
lookup_file name ((file, text) ∷ files) =
    if same_bytes file name then some text else lookup_file name files

abbrev pub is_include : Bytes → Bool
is_include cmd = text_eq cmd (codes "include")

module _ (world : World) (fuel : ℕ) where
  -- `readLine`, from the text joined so far: the line, and the stream behind it.
  unfoldable pub read_line : Bytes → List Bytes → Outcome (Bytes × List Bytes)
  read_line line [] = ok (line, [])
  read_line line (l ∷ rest) = environment_substitute world.getenv fuel (clean_line l) >>= λ text.
      elim (continued text) [
        | some part ↦ read_line (join_lines line part) rest
        | none ↦ ok (join_lines line text, rest)
      ]

  -- The body of the loop of `readInputFile` for one line. `below` holds the files that are being
  -- read, the last one first; `read` is the recursive call, for the file pushed on them.
  unfoldable pub run_line :
      (read : Bytes → List Bytes → Entries → Outcome Entries)
      → List Bytes
      → Bytes
      → Entries
      → Outcome Entries
  run_line read stack [] input = ok input
  run_line read stack (c ∷ s) input =
      let line = c ∷ s in
      let cmd = before_first is_blank line in
      let params = drop (length cmd) line in
      let file = trim params in
      if is_include cmd
      then (if is_nil file
          then die include_without_name
          else if any (text_eq file) stack
          then die (cyclic_include file)
          else read file stack input)
      else ok (input ++ ((cmd, params) ∷ []))

  -- `while(!is.eof())`; each call of `readLine` takes at least one line off the stream, so the
  -- number of its lines is fuel enough.
  unfoldable pub read_lines :
      (read : Bytes → List Bytes → Entries → Outcome Entries)
      → List Bytes
      → ℕ
      → List Bytes
      → Entries
      → Outcome Entries
  read_lines read stack n [] input = ok input
  read_lines read stack zero (l ∷ ls) input = no_fuel
  read_lines read stack (suc n) (l ∷ ls) input = read_line [] (l ∷ ls) >>= λ (line, rest).
      run_line read stack line input >>= λ input'. read_lines read stack n rest input'

  -- The text of the file on top of the stack; a blank name is the standard input.
  unfoldable pub open_file : Bytes → Outcome Bytes
  open_file [] = ok world.stdin
  open_file (c ∷ name) = elim (lookup_file (c ∷ name) world.files) [
    | none ↦ die (cannot_open (c ∷ name))
    | some text ↦ ok text
  ]

  -- `readInputFile(filename, input)` for the stack `name ∷ below`, with a bound on its depth.
  unfoldable pub read_file : ℕ → Bytes → List Bytes → Entries → Outcome Entries
  read_file zero name below input = no_fuel
  read_file (suc depth) name below input = open_file name >>= λ text.
      let stream = lines_of text in
      read_lines (read_file depth) (name ∷ below) (length stream) stream input

  -- `readInputFile(filename)` on the head process.
  unfoldable pub read_input_file : ℕ → Bytes → Outcome Entries
  read_input_file depth name = read_file depth name [] []
