-- ===== src/Core/Text.antt =====
-- jdftx/core/string.h: texts with case-insensitive comparison, and `trim`. A text is the list of
-- its bytes. The members of std::basic_string that the source calls are written out beside it.
pub mod Trim
use python_jdftx.Common.{
  ℕ, zero, suc, ◌≡◌, refl, arith, ◌-◌, ◌+◌, Bool, true, false, ◌&&◌, ◌||◌, List, [], ◌∷◌, ◌++◌,
  Option, none, some, leb, ltb, ◌==◌, if◌then◌else◌, take, drop, length,
}
use Prim.Native.Char.{code}
use Prim.Native.String.{String}
use python_jdftx.Core.Outcome.{Bytes}

-- The bytes of an ASCII literal.
abbrev pub codes : String → Bytes
codes String.[] = []
codes (String.◌∷◌ c s) = code c ∷ codes s

-- Equality of bytes, as file systems and `getenv` compare names.
abbrev pub same_bytes : Bytes → Bytes → Bool
same_bytes [] [] = true
same_bytes (a ∷ s) (b ∷ t) = a == b && same_bytes s t
same_bytes _ _ = false

pub same_bytes_eq : (s t : Bytes) → same_bytes s t ≡ true → s ≡ t
same_bytes_eq [] [] h = refl
same_bytes_eq [] (b ∷ t) h = cc
same_bytes_eq (a ∷ s) [] h = cc
same_bytes_eq (a ∷ s) (b ∷ t) h = ground (arith, same_bytes_eq s t (ground arith))

-- toupper in the C locale.
unfoldable pub to_upper : ℕ → ℕ
to_upper c = if leb b'a' c && leb c b'z' then c - 32 else c

-- ichar_traits::eq
unfoldable pub char_eq : ℕ → ℕ → Bool
unfolding to_upper
char_eq a b = to_upper a == to_upper b

-- operator== of `string`: strncasecmp over the common length, then the lengths.
unfoldable pub text_eq : Bytes → Bytes → Bool
unfolding char_eq
text_eq [] [] = true
text_eq (a ∷ s) (b ∷ t) = char_eq a b && text_eq s t
text_eq _ _ = false

pub text_eq_refl : (s : Bytes) → text_eq s s ≡ true
unfolding text_eq
text_eq_refl [] = refl
text_eq_refl (c ∷ s) = ground (arith, text_eq_refl s)

-- The set " \t\n\r" of `trim` and of the command splitter.
abbrev pub is_blank : ℕ → Bool
is_blank c = c == b' ' || c == b'\t' || c == b'\n' || c == b'\r'

-- string::find_first_of, for a set of characters.
unfoldable pub find_first_of : (ℕ → Bool) → Bytes → Option ℕ
find_first_of p [] = none
find_first_of p (c ∷ s) =
    if p c then some 0 else elim (find_first_of p s) [ none ↦ none | some i ↦ some (suc i) ]

-- string::find_last_not_of, for the set of blanks.
unfoldable pub find_last_not_blank : Bytes → Option ℕ
find_last_not_blank [] = none
find_last_not_blank (c ∷ s) = elim (find_last_not_blank s) [
  | some i ↦ some (suc i)
  | none ↦ if is_blank c then none else some 0
]

-- string::find_first_not_of, for the set of blanks.
unfoldable pub find_first_not_blank : Bytes → Option ℕ
find_first_not_blank [] = none
find_first_not_blank (c ∷ s) =
    if is_blank c
    then elim (find_first_not_blank s) [ none ↦ none | some i ↦ some (suc i) ]
    else some 0

-- `s.erase(endNonWS+1)`, skipped where the text is blank throughout.
unfoldable pub trim_end : Bytes → Bytes
trim_end s = elim (find_last_not_blank s) [ none ↦ s | some e ↦ take (suc e) s ]

-- `s.erase(0, s.find_first_not_of(...))`, which deletes everything where nothing is found.
unfoldable pub trim_start : Bytes → Bytes
trim_start s = elim (find_first_not_blank s) [ none ↦ [] | some b ↦ drop b s ]

unfoldable pub trim : Bytes → Bytes
trim s = trim_start (trim_end s)

-- The front of a text up to the first character of a set, and the rest from there on: what
-- `substr(0, pos)` and `substr(pos)` give for `pos = find_first_of(set)`, npos included.
unfoldable pub before_first : (ℕ → Bool) → Bytes → Bytes
before_first p s = elim (find_first_of p s) [ none ↦ s | some i ↦ take i s ]

pub text_eq_sym : (s t : Bytes) → text_eq s t ≡ true → text_eq t s ≡ true
unfolding text_eq
text_eq_sym [] [] h = refl
text_eq_sym [] (b ∷ t) h = cc
text_eq_sym (a ∷ s) [] h = cc
text_eq_sym (a ∷ s) (b ∷ t) h = ground (arith, text_eq_sym s t (ground arith))

pub text_eq_trans : (s t u : Bytes) → text_eq s t ≡ true → text_eq t u ≡ true → text_eq s u ≡ true
unfolding text_eq
text_eq_trans [] [] u h k = k
text_eq_trans [] (b ∷ t) u h k = cc
text_eq_trans (a ∷ s) [] u h k = cc
text_eq_trans (a ∷ s) (b ∷ t) [] h k = cc
text_eq_trans (a ∷ s) (b ∷ t) (c ∷ u) h k =
    ground (arith, text_eq_trans s t u (ground arith) (ground arith))
