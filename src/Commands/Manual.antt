-- ===== src/Commands/Manual.antt =====
-- commands/parser.cpp: the texts of the manual that is made from the map of commands, and the run
-- of all defaults before it is printed.
use python_jdftx.Common.{
  ℕ, zero, suc, ◌≡◌, ◌≢◌, Bool, true, false, not, ◌&&◌, List, [], ◌∷◌, ◌++◌, ◌==◌, none, some,
  if◌then◌else◌, length, drop, any, All, All-append, arith, leb, Bool-cases, inl, inr,
}
use python_jdftx.Core.Outcome.{Bytes, Outcome, ok, die, ◌>>=◌, default_failed}
use python_jdftx.Core.Text.{text_eq, codes, before_first, to_upper}
use python_jdftx.Commands.Command.{Command, find_command, contains}
use python_jdftx.Commands.Input.{lines_of}
use python_jdftx.Commands.Schedule.{Table}
use python_jdftx.Commands.Execution.{Processed, finished, threw}

-- `printCommented`: one line; an empty line counts as one that starts with a space.
unfoldable pub commented_line : Bytes → Bytes
commented_line [] = codes "# " ++ (b'\n' ∷ [])
commented_line (c ∷ l) =
    if c == b'#' then (c ∷ l) ++ (b'\n' ∷ []) else codes "# " ++ ((c ∷ l) ++ (b'\n' ∷ []))

unfoldable pub comment_lines : List Bytes → Bytes
comment_lines [] = []
comment_lines (l ∷ ls) = commented_line l ++ comment_lines ls

unfoldable pub print_commented : Bytes → Bytes
print_commented buf = comment_lines (lines_of buf)

unfoldable pub escape_char : ℕ → Bytes
escape_char c = if c == b'<' then codes "&lt;" else if c == b'>' then codes "&gt;" else c ∷ []

unfoldable pub html_escape_characters : Bytes → Bytes
html_escape_characters [] = []
html_escape_characters (c ∷ s) = escape_char c ++ html_escape_characters s

-- isupper in the C locale.
abbrev pub is_upper : ℕ → Bool
is_upper c = leb b'A' c && leb c b'Z'

-- The loop of `commandNameToID`, behind what `id` holds already.
unfoldable pub id_from : (prev_caps cur_caps : Bool) → Bytes → Bytes
id_from prev_caps cur_caps [] = []
id_from prev_caps cur_caps (c ∷ name) =
    let skipped = id_from prev_caps (not prev_caps) name in
    let out = if cur_caps then to_upper c else c in
    let kept = id_from (is_upper out) false name in if c == b'-' then skipped else out ∷ kept

unfoldable pub command_name_to_id : Bytes → Bytes
command_name_to_id name = codes "Command" ++ id_from false true name

abbrev pub excluded : List Bytes
excluded =
    codes "lattice"
    ∷ codes "ion"
    ∷ codes "basis"
    ∷ codes "fluid"
    ∷ codes "wavefunction"
    ∷ codes "symmetries"
    ∷ codes "debug"
    ∷ codes "dump"
    ∷ codes "polarizability"
    ∷ codes "vibrations"
    ∷ []

-- The delimiters `" \t\n.,;:)([]!?'\""`.
abbrev pub is_delimiter : ℕ → Bool
is_delimiter c =
    any (λ d. c == d) (32 ∷ 9 ∷ 10 ∷ 46 ∷ 44 ∷ 59 ∷ 58 ∷ 41 ∷ 40 ∷ 91 ∷ 93 ∷ 33 ∷ 63 ∷ 39 ∷ 34 ∷ [])

-- Whether a word is forwarded as it is.
abbrev pub is_forwarded : List Command → (before before2 word : Bytes) → Bool
is_forwarded commands before before2 word =
    not (text_eq before2 (codes "see") && text_eq before (codes "command"))
    && (elim (find_command word commands) [ none ↦ true | some c ↦ contains word excluded ])

unfoldable pub link : List Command → (before before2 word : Bytes) → Bytes
link commands before before2 word =
    if is_forwarded commands before before2 word
    then word
    else codes "\\ref " ++ (command_name_to_id word ++ ((b' ' ∷ 34 ∷ word) ++ (34 ∷ [])))

-- The loop of `htmlAddLinks` on the text that is left. A round takes a character at least.
unfoldable pub add_links : List Command → ℕ → (before before2 text : Bytes) → Bytes
add_links commands zero before before2 text = []
add_links commands (suc fuel) before before2 [] = []
add_links commands (suc fuel) before before2 (c ∷ s) =
    let gap = before_first (λ d. not (is_delimiter d)) (c ∷ s) in
    let rest = drop (length gap) (c ∷ s) in
    let word = before_first is_delimiter rest in
    gap
    ++ (link commands before before2 word
        ++ add_links commands fuel word before (drop (length word) rest))

unfoldable pub html_add_links : List Command → Bytes → Bytes
html_add_links commands s = add_links commands (length s) [] [] s

module _ {E : Type 0} (process : Command → Bytes → E → E × Processed) where
  abbrev failed_default : Command → Processed → E → Outcome E
  failed_default c (finished unread) e = ok e
  failed_default c (threw message) e = die (default_failed c.name)

  -- `processDefaults` in one pass. What `process` leaves unread is not looked at.
  unfoldable pub pass_defaults : ℕ → Table → E → Outcome E
  pass_defaults pass [] e = ok e
  pass_defaults pass (s ∷ slots) e =
      let c = s.command in
      let r = process c [] e in
      if s.pass == pass && c.has_default
      then (failed_default c r.1 r.0 >>= λ e'. pass_defaults pass slots e')
      else pass_defaults pass slots e

  unfoldable pub defaults_from : Table → (count pass : ℕ) → E → Outcome E
  defaults_from table zero pass e = ok e
  defaults_from table (suc count) pass e =
      pass_defaults pass table e >>= λ e'. defaults_from table count (suc pass) e'

  unfoldable pub process_defaults : ℕ × Table → E → Outcome E
  process_defaults (n_passes, table) e = defaults_from table (suc n_passes) 0 e

abbrev pub IsPlain : ℕ → Type 0
IsPlain c = (c ≢ b'<') × (c ≢ b'>')

-- What `escape_char` writes for a character.
data Escape (c : ℕ) : Bytes → Type 0 where
  less : c ≡ b'<' → Escape c (codes "&lt;")
  greater : c ≡ b'>' → Escape c (codes "&gt;")
  plain : IsPlain c → Escape c (c ∷ [])

escape_char-Escape : (c : ℕ) → Escape c (escape_char c)
unfolding escape_char
escape_char-Escape c = elim (Bool-cases (c == b'<')) [
  | inl is_less ↦ rw is_less (Escape.less (ground arith))
  | inr other ↦ rw other (elim (Bool-cases (c == b'>')) [
    | inl is_greater ↦ rw is_greater (Escape.greater (ground arith))
    | inr neither ↦ rw neither (Escape.plain (ground arith, ground arith))
  ])
]

Escape-IsPlain : (c : ℕ) (t : Bytes) → Escape c t → All IsPlain t
Escape-IsPlain c t (less e) = (
  (λ q. omega arith, λ q. omega arith),
  (
    (λ q. omega arith, λ q. omega arith),
    ((λ q. omega arith, λ q. omega arith), ((λ q. omega arith, λ q. omega arith), tt)),
  ),
)
Escape-IsPlain c t (greater e) = (
  (λ q. omega arith, λ q. omega arith),
  (
    (λ q. omega arith, λ q. omega arith),
    ((λ q. omega arith, λ q. omega arith), ((λ q. omega arith, λ q. omega arith), tt)),
  ),
)
Escape-IsPlain c t (plain h) = (h, tt)

-- What `html_escape_characters` writes holds neither `<` nor `>`.
pub html_escape_characters-IsPlain : (s : Bytes) → All IsPlain (html_escape_characters s)
unfolding html_escape_characters
html_escape_characters-IsPlain [] = tt
html_escape_characters-IsPlain (c ∷ s) =
    All-append IsPlain (escape_char c) (html_escape_characters s)
      (Escape-IsPlain c (escape_char c) (escape_char-Escape c)) (html_escape_characters-IsPlain s)

id_from_plain :
    (prev_caps cur_caps : Bool) (name : Bytes)
    → All (λ c. c ≢ b'-') (id_from prev_caps cur_caps name)
unfolding id_from to_upper
id_from_plain prev_caps cur_caps [] = tt
id_from_plain prev_caps cur_caps (c ∷ name) = elim (Bool-cases (c == b'-')) [
  | inl dash ↦ rw dash (id_from_plain prev_caps (not prev_caps) name)
  | inr other ↦ rw other (
    (λ q. ground arith),
    id_from_plain (is_upper (if cur_caps then to_upper c else c)) false name,
  )
]

-- The identifier that `commandNameToID` makes of a command's name holds no dash.
pub command_name_to_id_plain : (name : Bytes) → All (λ c. c ≢ b'-') (command_name_to_id name)
unfolding command_name_to_id
command_name_to_id_plain name =
    All-append (λ c. c ≢ b'-') (codes "Command") _ word (id_from_plain false true name)
  where
    word : All (λ c. c ≢ b'-') (codes "Command")
    word = (
      λ q. omega arith,
      (
        λ q. omega arith,
        (
          λ q. omega arith,
          (λ q. omega arith, (λ q. omega arith, (λ q. omega arith, (λ q. omega arith, tt)))),
        ),
      ),
    )
