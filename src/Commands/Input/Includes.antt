-- ===== src/Commands/Input/Includes.antt =====
-- commands/parser.cpp, `readInputFile`: reading a file with all that it includes comes to an end,
-- since a file that is being read is not opened again.
use python_jdftx.Common.{
  ℕ, zero, suc, ◌+◌, ◌-◌, ◌≤◌, ◌<◌, ◌≡◌, ◌≢◌, inl, inr, false, List, [], ◌∷◌, some, arith, length,
  drop, any, All, if◌then◌else◌, Bool-cases, Option-cases,
}
use python_jdftx.Core.Outcome.{Bytes, ok, no_fuel, ◌>>=◌, >>=-ne-no_fuel, >>=-eq-ok}
use python_jdftx.Core.Text.{
  is_blank, text_eq, text_eq_refl, same_bytes, same_bytes_eq, trim, before_first,
}
use python_jdftx.Commands.Input.Environment.{dollars, IsPlain, environment_substitute_ends}
use python_jdftx.Commands.Input.{
  World, Entries, environment_substitute, clean_line, continued, join_lines, lines_of, lookup_file,
  read_line, run_line, read_lines, open_file, read_file, read_input_file, is_include, is_nil,
}
use python_jdftx.Commands.Input.Dollars.{dollars-clean_line-le, total-lines_of, All-of_total}

module _ (world : World) (fuel : ℕ) (plain : IsPlain world.getenv) where
  abbrev Fits : List Bytes → Type 0
  Fits = All (λ l. dollars l < fuel)

  read_line-ne-no_fuel :
      (line : Bytes) (ls : List Bytes) → Fits ls → read_line world fuel line ls ≢ no_fuel
  unfolding read_line
  read_line-ne-no_fuel line [] h = λ q. cc
  read_line-ne-no_fuel line (l ∷ ls) h =
      let less = dollars-clean_line-le l in
      elim (environment_substitute_ends world.getenv plain fuel (clean_line l)
        (omega (arith, h.0))) [
          | inl (t, done, _) ↦ elim (Option-cases (continued t)) [
            | inl last ↦ rw (done, read_line) (rw (last, ◌>>=◌) (λ q. cc))
            | inr (part, more) ↦
                rw (done, read_line)
                  (rw (more, ◌>>=◌) (read_line-ne-no_fuel (join_lines line part) ls h.1))
          ]
          | inr (v, failed) ↦ rw (failed, read_line) (λ q. cc)
        ]

  -- What is left of the stream is shorter by a line at least.
  read_line-rest :
      (line : Bytes) (ls : List Bytes) (found : Bytes) (rest : List Bytes)
      → read_line world fuel line ls ≡ ok (found, rest)
      → Fits ls
      → Fits rest × (length rest ≤ length ls - 1)
  unfolding read_line
  read_line-rest line [] found rest e h =
      let same : rest ≡ [] = ground arith in rw same (tt, omega arith)
  read_line-rest line (l ∷ ls) found rest e h =
      let (text, done, next) =
        >>=-eq-ok (environment_substitute world.getenv fuel (clean_line l)) _ e in
      elim (Option-cases (continued text)) [
        | inl last ↦ let same : rest ≡ ls = ground arith in rw same (h.1, omega arith)
        | inr (part, more) ↦
            let (fits, less) =
              read_line-rest (join_lines line part) ls found rest (ground arith) h.1 in
            (fits, omega arith)
      ]

-- How many of the files are not being read: no name on the stack is theirs.
unread : List Bytes → List (Bytes × Bytes) → ℕ
unread stack [] = 0
unread stack ((name, _) ∷ files) = (if any (text_eq name) stack then 0 else 1) + unread stack files

unread-cons-le :
    (file : Bytes) (stack : List Bytes) (files : List (Bytes × Bytes))
    → unread (file ∷ stack) files ≤ unread stack files
unfolding unread
unread-cons-le file stack [] = omega arith
unread-cons-le file stack ((name, _) ∷ files) = ground (arith, unread-cons-le file stack files)

unread-le-length :
    (stack : List Bytes) (files : List (Bytes × Bytes)) → unread stack files ≤ length files
unfolding unread
unread-le-length stack [] = omega arith
unread-le-length stack ((name, _) ∷ files) = ground (arith, unread-le-length stack files)

-- A file that is opened while no file of its name is being read is one less to read.
unread-cons-lt :
    (file text : Bytes) (stack : List Bytes) (files : List (Bytes × Bytes))
    → lookup_file file files ≡ some text
    → any (text_eq file) stack ≡ false
    → unread (file ∷ stack) files < unread stack files
unfolding unread lookup_file
unread-cons-lt file text stack [] found new = cc
unread-cons-lt file text stack ((name, other) ∷ files) found new =
    elim (Bool-cases (same_bytes name file)) [
      | inl same ↦
          let e = same_bytes_eq name file same in
          rw e (ground (arith, text_eq_refl file, unread-cons-le file stack files))
      | inr differs ↦ ground (arith, unread-cons-lt file text stack files (ground arith) new)
    ]

module _ (world : World) (fuel : ℕ) (plain : IsPlain world.getenv) where
  Reads : ℕ → List Bytes → Type 0
  Reads depth stack =
      (file : Bytes) (input : Entries)
      → is_nil file ≡ false
      → any (text_eq file) stack ≡ false
      → read_file world fuel depth file stack input ≢ no_fuel

  run_line-ne-no_fuel :
      (depth : ℕ) (stack : List Bytes) (line : Bytes) (input : Entries)
      → Reads depth stack
      → run_line world fuel (read_file world fuel depth) stack line input ≢ no_fuel
  unfolding run_line Reads
  run_line-ne-no_fuel depth stack [] input r = λ q. cc
  run_line-ne-no_fuel depth stack (c ∷ s) input r =
      let line = c ∷ s in
      let cmd = before_first is_blank line in
      let file = trim (drop (length cmd) line) in
      elim (Bool-cases (is_include cmd)) [
        | inl include ↦ elim (Bool-cases (is_nil file)) [
          | inl blank ↦ rw (include, run_line) (rw blank (λ q. cc))
          | inr named ↦ elim (Bool-cases (any (text_eq file) stack)) [
            | inl cyclic ↦ rw (include, run_line) (rw named (rw cyclic (λ q. cc)))
            | inr new ↦ rw (include, run_line) (rw named (rw new (r file input named new)))
          ]
        ]
        | inr other ↦ rw (other, run_line) (λ q. cc)
      ]

  read_lines-ne-no_fuel :
      (depth : ℕ) (stack : List Bytes) (n : ℕ) (ls : List Bytes) (input : Entries)
      → Reads depth stack
      → All (λ l. dollars l < fuel) ls
      → length ls ≤ n
      → read_lines world fuel (read_file world fuel depth) stack n ls input ≢ no_fuel
  unfolding read_lines
  read_lines-ne-no_fuel depth stack n [] input r fits bound = λ q. cc
  read_lines-ne-no_fuel depth stack zero (l ∷ ls) input r fits bound = absurd (omega arith)
  read_lines-ne-no_fuel depth stack (suc n) (l ∷ ls) input r fits bound =
      >>=-ne-no_fuel (read_line world fuel [] (l ∷ ls)) _
        (read_line-ne-no_fuel world fuel plain [] (l ∷ ls) fits)
        λ (line, rest) read.
          let (fits', less) = read_line-rest world fuel plain [] (l ∷ ls) line rest read fits in
          >>=-ne-no_fuel (run_line world fuel (read_file world fuel depth) stack line input) _
            (run_line-ne-no_fuel depth stack line input r)
            λ input' _. read_lines-ne-no_fuel depth stack n rest input' r fits' (omega arith)

  lookup_file-dollars :
      (name text : Bytes) (files : List (Bytes × Bytes))
      → lookup_file name files ≡ some text
      → All (λ file. dollars file.1 < fuel) files
      → dollars text < fuel
  unfolding lookup_file
  lookup_file-dollars name text [] found h = cc
  lookup_file-dollars name text ((file, t) ∷ files) found h =
      elim (Bool-cases (same_bytes file name)) [
        | inl same ↦ let e : t ≡ text = ground arith in rw e at (h.0)
        | inr differs ↦ lookup_file-dollars name text files (ground arith) h.1
      ]

  module _ (small : All (λ file. dollars file.1 < fuel) world.files)
      (small_stdin : dollars world.stdin < fuel) where
    open_file-dollars :
        (name text : Bytes) → open_file world fuel name ≡ ok text → dollars text < fuel
    unfolding open_file
    open_file-dollars [] text e =
        let same : world.stdin ≡ text = ground arith in rw same at small_stdin
    open_file-dollars (c ∷ name) text e =
        lookup_file-dollars (c ∷ name) text world.files (ground arith) small

    open_file-ne-no_fuel : (name : Bytes) → open_file world fuel name ≢ no_fuel
    unfolding open_file
    open_file-ne-no_fuel [] = λ q. cc
    open_file-ne-no_fuel (c ∷ name) = λ q. ground arith

    open_file-named :
        (name text : Bytes)
        → is_nil name ≡ false
        → open_file world fuel name ≡ ok text
        → lookup_file name world.files ≡ some text
    unfolding open_file
    open_file-named [] text named e = cc
    open_file-named (c ∷ name) text named e = ground arith

    -- Depth enough for `name` and all below it, if `name` can be opened at all.
    read_file-ne-no_fuel :
        (depth : ℕ) (name : Bytes) (below : List Bytes) (input : Entries)
        → 0 < depth
        → ((text : Bytes)
            → open_file world fuel name ≡ ok text
            → unread (name ∷ below) world.files + 1 < depth)
        → read_file world fuel depth name below input ≢ no_fuel
    unfolding read_file Reads
    read_file-ne-no_fuel zero name below input pos enough = absurd (omega arith)
    read_file-ne-no_fuel (suc depth) name below input pos enough =
        >>=-ne-no_fuel (open_file world fuel name) _ (open_file-ne-no_fuel name) λ text opened.
          read_lines-ne-no_fuel depth (name ∷ below) (length (lines_of text)) (lines_of text) input
            (λ file input' named new.
              read_file-ne-no_fuel depth file (name ∷ below) input'
                (omega (arith, enough text opened))
                λ text' opened'. omega (
                  arith,
                  enough text opened,
                  unread-cons-lt file text' (name ∷ below) world.files
                      (open_file-named file text' named opened') new,
                ))
            (All-of_total (lines_of text) fuel
              (omega (arith, total-lines_of text, open_file-dollars name text opened)))
            (omega arith)

    -- Where no value of the environment holds a `$`, reading an input file with all that it
    -- includes ends, within a depth of two more than there are files, whatever they include.
    pub read_input_file_ends :
        (name : Bytes) (depth : ℕ)
        → length world.files + 2 ≤ depth
        → read_input_file world fuel depth name ≢ no_fuel
    unfolding read_input_file
    read_input_file_ends name depth h =
        read_file-ne-no_fuel depth name [] [] (omega arith)
          λ text opened. omega (arith, unread-le-length (name ∷ []) world.files)
