-- ===== src/Core/Text/Trim.antt =====
-- core/string.h, `trim`: what it leaves and what it removes.
use python_jdftx.Common.{
  ℕ, zero, suc, ◌≡◌, ◌≢◌, refl, ap, ◌∙◌, inl, inr, Bool, true, false, [], ◌∷◌, ◌++◌, none, some,
  arith, append-nil, append_assoc, All, take, drop, Option-cases,
}
use python_jdftx.Core.Outcome.{Bytes}
use python_jdftx.Core.Text.{
  is_blank, find_last_not_blank, find_first_not_blank, trim_end, trim_start, trim,
}

abbrev pub AllBlank : Bytes → Type 0
AllBlank = All (λ c. is_blank c ≡ true)

abbrev pub starts_blank : Bytes → Bool
starts_blank [] = false
starts_blank (c ∷ s) = is_blank c

abbrev pub ends_blank : Bytes → Bool
ends_blank [] = false
ends_blank (c ∷ []) = is_blank c
ends_blank (c ∷ d ∷ s) = ends_blank (d ∷ s)

-- `kept` is `s` with a frame of blanks taken off, and has no blank at either end.
pub record TrimsTo (s kept : Bytes) : Type 0 where
  pub front : Bytes
  pub back : Bytes
  pub splits : s ≡ front ++ (kept ++ back)
  pub front_blank : AllBlank front
  pub back_blank : AllBlank back
  pub no_start : starts_blank kept ≡ false
  pub no_end : ends_blank kept ≡ false

last_none : (s : Bytes) → find_last_not_blank s ≡ none → AllBlank s
unfolding find_last_not_blank
last_none [] h = tt
last_none (c ∷ s) h = (ground arith, last_none s (ground arith))

ends_blank-cons : (c : ℕ) (s : Bytes) → s ≢ [] → ends_blank (c ∷ s) ≡ ends_blank s
ends_blank-cons c [] h = absurd (h refl)
ends_blank-cons c (d ∷ s) h = refl

ends_blank-tail : (c : ℕ) (t : Bytes) → ends_blank (c ∷ t) ≡ false → ends_blank t ≡ false
ends_blank-tail c [] h = refl
ends_blank-tail c (d ∷ t) h = h

take-ne-nil : (s : Bytes) (i : ℕ) → find_last_not_blank s ≡ some i → take (suc i) s ≢ []
unfolding find_last_not_blank
take-ne-nil [] i h = λ q. cc
take-ne-nil (c ∷ s) i h = λ q. cc

-- A place found by `find_last_not_blank` cuts the text before its blank end.
last_some :
    (s : Bytes) (e : ℕ)
    → find_last_not_blank s ≡ some e
    → (s ≡ take (suc e) s ++ drop (suc e) s)
      × AllBlank (drop (suc e) s)
      × (ends_blank (take (suc e) s) ≡ false)
unfolding find_last_not_blank
last_some [] e h = cc
last_some (c ∷ s) e h = elim (Option-cases (find_last_not_blank s)) [
  | inl absent ↦
      let here : e ≡ 0 = ground arith in
      let solid : is_blank c ≡ false = ground arith in rw here (refl, last_none s absent, solid)
  | inr (i, found) ↦
      let further : e ≡ suc i = ground arith in
      let (parts, blank, solid) = last_some s i found in
      rw further (
        ap (◌∷◌ c) parts,
        blank,
        ends_blank-cons c (take (suc i) s) (take-ne-nil s i found) ∙ solid,
      )
]

-- What `trim_start` does to a text.
record TrimsStart (t kept : Bytes) : Type 0 where
  front : Bytes
  splits : t ≡ front ++ kept
  front_blank : AllBlank front
  no_start : starts_blank kept ≡ false
  no_end : ends_blank t ≡ false → ends_blank kept ≡ false

first_none : (t : Bytes) → find_first_not_blank t ≡ none → AllBlank t
unfolding find_first_not_blank
first_none [] h = tt
first_none (c ∷ t) h = (ground arith, first_none t (ground arith))

first_some : (t : Bytes) (b : ℕ) → find_first_not_blank t ≡ some b → TrimsStart t (drop b t)
unfolding find_first_not_blank
first_some [] b h = cc
first_some (c ∷ t) zero h = record {
  front = [];
  splits = refl;
  front_blank = tt;
  no_start = ground arith;
  no_end = λ x. x;
}
first_some (c ∷ t) (suc b) h =
    let inner = first_some t b (ground arith) in
    record {
      front = c ∷ inner.front;
      splits = ap (◌∷◌ c) inner.splits;
      front_blank = (ground arith, inner.front_blank);
      no_start = inner.no_start;
      no_end = λ x. inner.no_end (ends_blank-tail c t x);
    }

trim_start-TrimsStart : (t : Bytes) → TrimsStart t (trim_start t)
unfolding trim_start
trim_start-TrimsStart t = elim (Option-cases (find_first_not_blank t)) [
  | inl absent ↦
      rw (absent, trim_start)
        (record {
          front = t;
          splits = rw append-nil;
          front_blank = first_none t absent;
          no_start = refl;
          no_end = λ _. refl;
        })
  | inr (b, found) ↦ rw (found, trim_start) (first_some t b found)
]

first_of_AllBlank : (t : Bytes) → AllBlank t → find_first_not_blank t ≡ none
unfolding find_first_not_blank
first_of_AllBlank [] h = refl
first_of_AllBlank (c ∷ t) h = ground (arith, first_of_AllBlank t h.1)

-- `trim` takes a frame of blanks off the text, and leaves a text that neither begins nor ends
-- with a blank; of a text of blanks it leaves nothing.
pub trim-TrimsTo : (s : Bytes) → TrimsTo s (trim s)
unfolding trim trim_end trim_start
trim-TrimsTo s = elim (Option-cases (find_last_not_blank s)) [
  | inl absent ↦
      let blank = last_none s absent in
      rw (absent, trim_end)
        (rw (first_of_AllBlank s blank, trim_start)
          (record {
            front = s;
            back = [];
            splits = rw append-nil;
            front_blank = blank;
            back_blank = tt;
            no_start = refl;
            no_end = refl;
          }))
  | inr (e, found) ↦
      let (parts, blank, solid) = last_some s e found in
      let inner = trim_start-TrimsStart (take (suc e) s) in
      rw (found, trim_end)
        (record {
          front = inner.front;
          back = drop (suc e) s;
          splits =
              parts
              ∙ ap (λ t. t ++ drop (suc e) s) inner.splits
              ∙ append_assoc inner.front (trim_start (take (suc e) s)) (drop (suc e) s);
          front_blank = inner.front_blank;
          back_blank = blank;
          no_start = inner.no_start;
          no_end = inner.no_end solid;
        })
]
