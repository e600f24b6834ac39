-- ===== src/Core/Memory/Accounts.antt =====
-- jdftx/core/ManagedMemory.cpp: the report of the memory in use agrees with the objects.
use python_jdftx.Common.{
  ℕ, ◌+◌, ◌%◌, ◌≡◌, refl, sym, ap, ◌∙◌, Bool, true, false, List, [], ◌∷◌, ◌++◌, if◌then◌else◌,
  arith, Bool-cases, inl, inr,
}
use python_jdftx.Core.Tasks.{size_mod}
use python_jdftx.Core.Outcome.{Bytes}
use python_jdftx.Core.Text.{text_eq}
use python_jdftx.Core.Memory.{
  Usage, add_usage, remove_usage, Report, add_report, remove_report, ManagedMemory, empty_memory,
}

-- The elements that objects of a category hold.
unfoldable pub held : (Bytes → Bool) → List ManagedMemory → ℕ
held is_counted [] = 0
held is_counted (m ∷ ms) = (if is_counted m.category then m.n_elements else 0) + held is_counted ms

-- The report agrees with the objects: the total, and every category.
pub record Agrees (r : Report) (ms : List ManagedMemory) : Type 0 where
  pub total : r.usage_total.current ≡ held (λ _. true) ms % size_mod
  pub categories : (c : Bytes) → (r.usage_map c).current ≡ held (text_eq c) ms % size_mod

add_lem :
    (u : Usage) (n k : ℕ) → u.current ≡ k % size_mod → (add_usage u n).current ≡ (n + k) % size_mod
unfolding add_usage
add_lem u n k h = omega arith

remove_lem :
    (u : Usage) (n k : ℕ)
    → u.current ≡ (n + k) % size_mod
    → (remove_usage u n).current ≡ k % size_mod
unfolding remove_usage
remove_lem u n k h = omega arith

-- One object among others.
held-append :
    (f : Bytes → Bool) (xs ys : List ManagedMemory) → held f (xs ++ ys) ≡ held f xs + held f ys
unfolding held
held-append f [] ys = omega arith
held-append f (x ∷ xs) ys = let rest = held-append f xs ys in omega arith

abbrev share_of : (Bytes → Bool) → ManagedMemory → ℕ
share_of f m = if f m.category then m.n_elements else 0

held-middle :
    (f : Bytes → Bool) (xs : List ManagedMemory) (m : ManagedMemory) (ys : List ManagedMemory)
    → held f (xs ++ m ∷ ys) ≡ share_of f m + (held f xs + held f ys)
unfolding held
held-middle f xs m ys = let split = held-append f xs (m ∷ ys) in omega arith

middle_nothing :
    (f : Bytes → Bool) (xs : List ManagedMemory) (m : ManagedMemory) (ys : List ManagedMemory)
    → m.n_elements ≡ 0
    → held f (xs ++ m ∷ ys) ≡ held f xs + held f ys
middle_nothing f xs m ys h =
    let whole = held-middle f xs m ys in
    elim (Bool-cases (f m.category)) [
      | inl e ↦ let part : share_of f m ≡ m.n_elements = rw e refl in omega arith
      | inr e ↦ let part : share_of f m ≡ 0 = rw e refl in omega arith
    ]

middle_counted :
    (f : Bytes → Bool) (xs : List ManagedMemory) (m : ManagedMemory) (ys : List ManagedMemory)
    → f m.category ≡ true
    → held f (xs ++ m ∷ ys) ≡ m.n_elements + (held f xs + held f ys)
middle_counted f xs m ys e =
    let whole = held-middle f xs m ys in
    let part : share_of f m ≡ m.n_elements = rw e refl in omega arith

middle_skipped :
    (f : Bytes → Bool) (xs : List ManagedMemory) (m : ManagedMemory) (ys : List ManagedMemory)
    → f m.category ≡ false
    → held f (xs ++ m ∷ ys) ≡ held f xs + held f ys
middle_skipped f xs m ys e =
    let whole = held-middle f xs m ys in let part : share_of f m ≡ 0 = rw e refl in omega arith

counted : {u n m : ℕ} → u ≡ n % size_mod → n ≡ m → u ≡ m % size_mod
counted h e = h ∙ ap (λ k. k % size_mod) e

-- What the others hold, when one object gives its share back or gets one.
pub remove_report-Agrees :
    (r : Report) (xs : List ManagedMemory) (m freed : ManagedMemory) (ys : List ManagedMemory)
    → freed.n_elements ≡ 0
    → Agrees r (xs ++ m ∷ ys)
    → Agrees (remove_report m.category m.n_elements r) (xs ++ freed ∷ ys)
unfolding remove_report
remove_report-Agrees r xs m freed ys nothing h = record {
  total =
      counted
        (remove_lem r.usage_total m.n_elements _
          (counted h.total (middle_counted (λ _. true) xs m ys refl)))
        (sym (middle_nothing (λ _. true) xs freed ys nothing));
  categories = λ c.
      let after = middle_nothing (text_eq c) xs freed ys nothing in
      elim (Bool-cases (text_eq c m.category)) [
        | inl e ↦ rw e (
            counted
              (remove_lem (r.usage_map c) m.n_elements _
                (counted (h.categories c) (middle_counted (text_eq c) xs m ys e)))
              (sym after))
        | inr e ↦ rw e (counted (h.categories c) (middle_skipped (text_eq c) xs m ys e ∙ sym after))
      ];
}

pub add_report-Agrees :
    (r : Report) (xs : List ManagedMemory) (m full : ManagedMemory) (ys : List ManagedMemory)
    → m.n_elements ≡ 0
    → Agrees r (xs ++ m ∷ ys)
    → Agrees (add_report full.category full.n_elements r) (xs ++ full ∷ ys)
unfolding add_report
add_report-Agrees r xs m full ys nothing h = record {
  total =
      counted
        (add_lem r.usage_total full.n_elements _
          (counted h.total (middle_nothing (λ _. true) xs m ys nothing)))
        (sym (middle_counted (λ _. true) xs full ys refl));
  categories = λ c.
      let before = middle_nothing (text_eq c) xs m ys nothing in
      elim (Bool-cases (text_eq c full.category)) [
        | inl e ↦ rw e (
            counted (add_lem (r.usage_map c) full.n_elements _ (counted (h.categories c) before))
              (sym (middle_counted (text_eq c) xs full ys e)))
        | inr e ↦
            rw e (counted (h.categories c) (before ∙ sym (middle_skipped (text_eq c) xs full ys e)))
      ];
}

-- An object that holds as much under the same name may take the place of another.
pub same-Agrees :
    (r : Report) (xs : List ManagedMemory) (m m2 : ManagedMemory) (ys : List ManagedMemory)
    → m2.category ≡ m.category
    → m2.n_elements ≡ m.n_elements
    → Agrees r (xs ++ m ∷ ys)
    → Agrees r (xs ++ m2 ∷ ys)
same-Agrees r xs m m2 ys e f h =
    let same : (g : Bytes → Bool) → held g (xs ++ m ∷ ys) ≡ held g (xs ++ m2 ∷ ys) =
      λ g. held-middle g xs m ys ∙ rw (sym e, sym f) refl ∙ sym (held-middle g xs m2 ys) in
    record {
      total = counted h.total (same (λ _. true));
      categories = λ c. counted (h.categories c) (same (text_eq c));
    }

-- A new object is empty.
pub constructed-Agrees :
    (r : Report) (ms : List ManagedMemory) → Agrees r ms → Agrees r (empty_memory ∷ ms)
unfolding held
constructed-Agrees r ms h =
    let same : (f : Bytes → Bool) → held f ms ≡ held f (empty_memory ∷ ms) =
      λ f. let e = middle_nothing f [] empty_memory ms refl in omega arith in
    record {
      total = counted h.total (same (λ _. true));
      categories = λ c. counted (h.categories c) (same (text_eq c));
    }

-- An object that holds nothing may go.
pub destroyed-Agrees :
    (r : Report) (xs : List ManagedMemory) (m : ManagedMemory) (ys : List ManagedMemory)
    → m.n_elements ≡ 0
    → Agrees r (xs ++ m ∷ ys)
    → Agrees r (xs ++ ys)
destroyed-Agrees r xs m ys nothing h =
    let gone : (f : Bytes → Bool) → held f (xs ++ m ∷ ys) ≡ held f (xs ++ ys) =
      λ f. middle_nothing f xs m ys nothing ∙ sym (held-append f xs ys) in
    record {
      total = counted h.total (gone (λ _. true));
      categories = λ c. counted (h.categories c) (gone (text_eq c));
    }

-- Two objects may change places.
pub swapped-Agrees :
    (r : Report) (xs ys zs : List ManagedMemory) (m n : ManagedMemory)
    → Agrees r (xs ++ m ∷ (ys ++ n ∷ zs))
    → Agrees r (xs ++ n ∷ (ys ++ m ∷ zs))
swapped-Agrees r xs ys zs m n h =
    let same : (f : Bytes → Bool)
        → held f (xs ++ m ∷ (ys ++ n ∷ zs)) ≡ held f (xs ++ n ∷ (ys ++ m ∷ zs)) =
      λ f.
        let a = held-middle f xs m (ys ++ n ∷ zs) in
        let b = held-middle f ys n zs in
        let c = held-middle f xs n (ys ++ m ∷ zs) in let d = held-middle f ys m zs in omega arith in
    record {
      total = counted h.total (same (λ _. true));
      categories = λ c. counted (h.categories c) (same (text_eq c));
    }
