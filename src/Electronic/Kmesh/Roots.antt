-- ===== src/Electronic/Kmesh/Roots.antt =====
-- jdftx/electronic/Symmetries.cpp, `reduceKmesh`: the sources of a map whose entries are the least
-- ones, under symmetries that form a group.
use python_jdftx.Common.{
  ℕ, zero, suc, ◌+◌, ◌*◌, ◌/◌, ◌^◌, ◌<◌, ◌≤◌, ◌≡◌, ◌⊎◌, inl, inr, refl, ap, subst, Bool, true,
  false, List, [], ◌∷◌, ◌++◌, length, ltb, ◌==◌, In, arith, Bool-cases, ℕ_discrete,
}
use python_jdftx.Common.Places.{get_elem?-bound}
use python_jdftx.Electronic.Kmesh.{unpack_src, Lookup, insert_source, sources_of, reduced_index}
use python_jdftx.Electronic.Kmesh.Packing.{sign_bit, kmap_pack_sum}
use python_jdftx.Electronic.Kmesh.Sources.{Arrives, IsLeastEntry}

-- Below no source is greater than its k-point, and a source is its own source.
pub record IsRetraction (n : ℕ) (kmap : ℕ → ℕ) : Type 0 where
  pub low : (d : ℕ) → d < n → unpack_src (kmap d) ≤ d
  pub fixed : (d : ℕ) → d < n → unpack_src (kmap (unpack_src (kmap d))) ≡ unpack_src (kmap d)

module _ {M : Type 0} (find : Lookup M) (inverts : List Bool) (sym_list : List M) (n : ℕ) where
  -- The identity leads to each k-point, and an operation can follow another.
  pub record IsClosed : Type 0 where
    pub identity : (d : ℕ) → d < n → (v : ℕ) × Arrives find inverts sym_list d d v
    pub composed :
        (s t d u w : ℕ)
        → s < n
        → t < n
        → d < n
        → Arrives find inverts sym_list s t u
        → Arrives find inverts sym_list t d w
        → (x : ℕ) × Arrives find inverts sym_list s d x

  module _ (few : n < 2 ^ 56) (small : length sym_list ≤ 2 ^ 7) where
    -- The source stands in the upper bits of an operation.
    Arrives-between :
        (s d v : ℕ)
        → s < n
        → Arrives find inverts sym_list s d v
        → (s * 256 ≤ v) × (v < s * 256 + 256)
    Arrives-between s d v h a =
        let place = get_elem?-bound sym_list a.place a.symmetry a.at in
        let bit : sign_bit a.inverted < 2 = ground arith in
        let sum = kmap_pack_sum s a.inverted a.place (omega arith) (omega arith) in
        (omega (arith, a.packed), omega (arith, a.packed))

    pub source-Arrives :
        (closed : IsClosed) (d v : ℕ)
        → d < n
        → IsLeastEntry find inverts sym_list n d v
        → (unpack_src v ≤ d) × Arrives find inverts sym_list (unpack_src v) d v
    unfolding unpack_src
    source-Arrives closed d v h e =
        let (u, stays) = closed.identity d h in
        let under = e.low d u h stays in
        let range = Arrives-between d d u h stays in
        elim e.attained [
          | inl unset ↦ absurd (omega arith)
          | inr (s, below, a) ↦
              let from = Arrives-between s d v below a in
              let same : s ≡ v / 256 = omega arith in
              (omega arith, subst (λ x. Arrives find inverts sym_list x d v) same a)
        ]

    -- The source of a k-point is the first k-point of its orbit, and so its own source.
    pub entries-IsRetraction :
        (kmap : ℕ → ℕ)
        → IsClosed
        → ((d : ℕ) → IsLeastEntry find inverts sym_list n d (kmap d))
        → IsRetraction n kmap
    unfolding unpack_src
    entries-IsRetraction kmap closed entries = record {
      low = λ d h. (source-Arrives closed d (kmap d) h (entries d)).0;
      fixed = λ d h.
          let (below, a) = source-Arrives closed d (kmap d) h (entries d) in
          let s = unpack_src (kmap d) in
          let (lower, b) = source-Arrives closed s (kmap s) (omega arith) (entries s) in
          let t = unpack_src (kmap s) in
          let (x, c) = closed.composed t s d (kmap s) (kmap d) (omega arith) (omega arith) h b a in
          let less = (entries d).low t x (omega arith) c in
          let range = Arrives-between t d x (omega arith) c in omega arith;
    }

-- `iSrcMap`, a std::map: its keys ascend.
pub Ascending : ℕ → List ℕ → Type 0
Ascending b [] = Unit
Ascending b (x ∷ xs) = (b ≤ x) × Ascending (suc x) xs

insert_source-Ascending :
    (b s : ℕ) (xs : List ℕ) → b ≤ s → Ascending b xs → Ascending b (insert_source s xs)
unfolding insert_source Ascending
insert_source-Ascending b s [] h a = (h, tt)
insert_source-Ascending b s (x ∷ xs) h a = elim (Bool-cases (ltb s x)) [
  | inl less ↦ rw less (h, (ground arith, a.1))
  | inr more ↦ elim (Bool-cases (s == x)) [
    | inl same ↦ rw (more, same) a
    | inr differs ↦
        rw (more, differs) (a.0, insert_source-Ascending (suc x) s xs (ground arith) a.1)
  ]
]

insert_source-In : (s y : ℕ) (xs : List ℕ) → In y xs → In y (insert_source s xs)
unfolding insert_source
insert_source-In s y [] i = absurd i
insert_source-In s y (x ∷ xs) i = elim (Bool-cases (ltb s x)) [
  | inl less ↦ rw less (inr i)
  | inr more ↦ elim (Bool-cases (s == x)) [
    | inl same ↦ rw (more, same) i
    | inr differs ↦
        rw (more, differs) (elim i [ inl e ↦ inl e | inr k ↦ inr (insert_source-In s y xs k) ])
  ]
]

insert_source_self : (s : ℕ) (xs : List ℕ) → In s (insert_source s xs)
unfolding insert_source
insert_source_self s [] = inl refl
insert_source_self s (x ∷ xs) = elim (Bool-cases (ltb s x)) [
  | inl less ↦ rw less (inl refl)
  | inr more ↦ elim (Bool-cases (s == x)) [
    | inl same ↦ rw (more, same) (inl (ground arith))
    | inr differs ↦ rw (more, differs) (inr (insert_source_self s xs))
  ]
]

Ascending-In : (b y : ℕ) (xs : List ℕ) → Ascending b xs → In y xs → b ≤ y
unfolding Ascending
Ascending-In b y [] a i = absurd i
Ascending-In b y (x ∷ xs) a (inl e) = omega (arith, a.0)
Ascending-In b y (x ∷ xs) a (inr i) = omega (arith, a.0, Ascending-In (suc x) y xs a.1 i)

-- A key that is there changes nothing.
pub insert_source_old : (b s : ℕ) (xs : List ℕ) → Ascending b xs → In s xs → insert_source s xs ≡ xs
unfolding insert_source Ascending
insert_source_old b s [] a i = absurd i
insert_source_old b s (x ∷ xs) a (inl e) =
    let more : ltb s x ≡ false = ground arith in
    let same : (s == x) ≡ true = ground arith in rw (more, same) refl
insert_source_old b s (x ∷ xs) a (inr i) =
    let above = Ascending-In (suc x) s xs a.1 i in
    let more : ltb s x ≡ false = ground arith in
    let differs : (s == x) ≡ false = ground arith in
    rw (more, differs) (ap (λ l. x ∷ l) (insert_source_old (suc x) s xs a.1 i))

-- A key above the others comes last.
pub insert_source_new :
    (s : ℕ) (xs : List ℕ) → ((y : ℕ) → In y xs → y < s) → insert_source s xs ≡ xs ++ (s ∷ [])
unfolding insert_source
insert_source_new s [] h = refl
insert_source_new s (x ∷ xs) h =
    let below = h x (inl refl) in
    let more : ltb s x ≡ false = ground arith in
    let differs : (s == x) ≡ false = ground arith in
    rw (more, differs) (ap (λ l. x ∷ l) (insert_source_new s xs (λ y i. h y (inr i))))

pub sources_of-Ascending : (kmap : ℕ → ℕ) (n : ℕ) → Ascending 0 (sources_of kmap n)
unfolding sources_of Ascending
sources_of-Ascending kmap zero = tt
sources_of-Ascending kmap (suc n) =
    insert_source-Ascending 0 (unpack_src (kmap n)) (sources_of kmap n) (omega arith)
      (sources_of-Ascending kmap n)

-- The source of every entry is listed.
pub sources_of-In : (kmap : ℕ → ℕ) (n d : ℕ) → d < n → In (unpack_src (kmap d)) (sources_of kmap n)
unfolding sources_of
sources_of-In kmap zero d h = absurd (omega arith)
sources_of-In kmap (suc n) d h = elim (ℕ_discrete d n) [
  | yes same ↦ rw same (insert_source_self (unpack_src (kmap n)) (sources_of kmap n))
  | no differs ↦
      insert_source-In (unpack_src (kmap n)) (unpack_src (kmap d)) (sources_of kmap n)
        (sources_of-In kmap n d (omega arith))
]

In-insert_source : (s y : ℕ) (xs : List ℕ) → In y (insert_source s xs) → (y ≡ s) ⊎ In y xs
unfolding insert_source
In-insert_source s y [] i = elim i [ inl e ↦ inl e | inr k ↦ absurd k ]
In-insert_source s y (x ∷ xs) i = elim (Bool-cases (ltb s x)) [
  | inl less ↦ rw less at i
  | inr more ↦ elim (Bool-cases (s == x)) [
    | inl same ↦ inr (rw (more, same) at i)
    | inr differs ↦
        let j : (y ≡ x) ⊎ In y (insert_source s xs) = rw (more, differs) at i in
        elim j [
          | inl e ↦ inr (inl e)
          | inr k ↦ elim (In-insert_source s y xs k) [ inl e ↦ inl e | inr m ↦ inr (inr m) ]
        ]
  ]
]

-- Only sources of entries are listed.
pub In-sources_of :
    (kmap : ℕ → ℕ) (n y : ℕ)
    → In y (sources_of kmap n)
    → (d : ℕ) × (d < n) × (y ≡ unpack_src (kmap d))
unfolding sources_of
In-sources_of kmap zero y i = absurd i
In-sources_of kmap (suc n) y i =
    elim (In-insert_source (unpack_src (kmap n)) y (sources_of kmap n) i) [
      | inl e ↦ (n, omega arith, e)
      | inr k ↦ let (d, h, e) = In-sources_of kmap n y k in (d, omega arith, e)
    ]

pub reduced_index-bound : (xs : List ℕ) (s : ℕ) → In s xs → reduced_index xs s < length xs
unfolding reduced_index
reduced_index-bound [] s i = absurd i
reduced_index-bound (x ∷ xs) s i = elim (Bool-cases (x == s)) [
  | inl same ↦ rw same (omega arith)
  | inr differs ↦
      rw differs (elim i [
        | inl e ↦ absurd (ground arith)
        | inr k ↦ omega (arith, reduced_index-bound xs s k)
      ])
]

length-insert_source : (s : ℕ) (xs : List ℕ) → length (insert_source s xs) ≤ suc (length xs)
unfolding insert_source
length-insert_source s [] = omega arith
length-insert_source s (x ∷ xs) = elim (Bool-cases (ltb s x)) [
  | inl less ↦ rw less (omega arith)
  | inr more ↦ elim (Bool-cases (s == x)) [
    | inl same ↦ rw (more, same) (omega arith)
    | inr differs ↦ rw (more, differs) (omega (arith, length-insert_source s xs))
  ]
]

pub length-sources_of : (kmap : ℕ → ℕ) (n : ℕ) → length (sources_of kmap n) ≤ n
unfolding sources_of
length-sources_of kmap zero = omega arith
length-sources_of kmap (suc n) = omega (
  arith,
  length-sources_of kmap n,
  length-insert_source (unpack_src (kmap n)) (sources_of kmap n),
)
