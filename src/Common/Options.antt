-- ===== src/Common/Options.antt =====
-- Chains of results that may be missing.
use python_jdftx.Common.{◌≡◌, refl, Option, none, some}

infixl 5 ◌>>=◌
abbrev pub ◌>>=◌ : {A B : Type 0} → Option A → (A → Option B) → Option B
none >>= next = none
some a >>= next = next a

pub >>=-eq-some :
    {A B : Type 0} (o : Option A) (next : A → Option B) (b : B)
    → (o >>= next) ≡ some b
    → (a : A) × (o ≡ some a) × (next a ≡ some b)
>>=-eq-some none next b e = absurd cc
>>=-eq-some (some a) next b e = (a, refl, e)
