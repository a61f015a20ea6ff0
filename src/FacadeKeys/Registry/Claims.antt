-- ===== src/FacadeKeys/Registry/Claims.antt =====
-- The index from secrets to keys of smolrouter/facade_keys.py: who claims a secret, and that an
-- index without a clash holds each claim.
use smol_router.Prelude.{
  String, ◌≡◌, sym, ap, ◌∙◌, ◌⊎◌, inl, inr, ◌↔◌, true, false, some, List, [], ◌∷◌, arith, str_eq,
  eq_iff, Dict, get, put, get-put, In, In-append, Bool-cases, Option-cases,
}
use smol_router.FacadeKeys.Registry.{
  claims_of, claims, claimed_by, setdefault, has_duplicate_claim, build_index,
}

In-claims_of :
    (s k j : String) (secrets : List String)
    → In (s, k) (claims_of j secrets) ↔ ((k ≡ j) × In s secrets)
In-claims_of s k j [] = (λ m. absurd m, λ m. absurd (m.1))
In-claims_of s k j (t ∷ secrets) =
    let (to, from) = In-claims_of s k j secrets in
    (
      λ m. elim m [
        | inl e ↦ (ap (λ p. p.1) e, inl (ap (λ p. p.0) e))
        | inr n ↦ ((to n).0, inr (to n).1)
      ],
      λ m. elim (m.1) [ inl e ↦ (let is_key = m.0 in inl cc) | inr n ↦ inr (from (m.0, n)) ],
    )

-- What a dictionary claims is what it holds.
pub In-claims-of_In :
    (s k : String) (owned : List String) (secrets : Dict (List String))
    → In (k, owned) secrets
    → In s owned
    → In (s, k) (claims secrets)
unfolding claims
In-claims-of_In s k owned [] m n = absurd m
In-claims-of_In s k owned ((j, vs) ∷ secrets) (inl e) n =
    (In-append (s, k) (claims_of j vs) (claims secrets)).1 (
      inl (
        (In-claims_of s k j vs).1
          (ap (λ p. p.0) e, (let same : owned ≡ vs = ap (λ p. p.1) e in rw (← same) n))))
In-claims-of_In s k owned ((j, vs) ∷ secrets) (inr m) n =
    (In-append (s, k) (claims_of j vs) (claims secrets)).1
      (inr (In-claims-of_In s k owned secrets m n))

pub In-of_claims :
    (s k : String) (secrets : Dict (List String))
    → In (s, k) (claims secrets)
    → (owned : List String) × In (k, owned) secrets × In s owned
unfolding claims
In-of_claims s k [] m = absurd m
In-of_claims s k ((j, vs) ∷ secrets) m =
    elim ((In-append (s, k) (claims_of j vs) (claims secrets)).0 m) [
      | inl n ↦
          let (same, there) = (In-claims_of s k j vs).0 n in
          (vs, inl (ap (λ i. (i, vs)) same), there)
      | inr n ↦ let (owned, at, there) = In-of_claims s k secrets n in (owned, inr at, there)
    ]

get-setdefault :
    (s j t l : String) (seen : Dict String)
    → get s seen ≡ some j
    → get s (setdefault t l seen) ≡ some j
get-setdefault s j t l seen h = elim (Option-cases (get t seen)) [
  | inl absent ↦ rw absent (ground (arith, get-put t s l seen, eq_iff t s))
  | inr (i, there) ↦ rw there h
]

-- The first claim of a list without a clash is the one that is kept.
get-setdefault-first :
    (s k : String) (seen : Dict String)
    → str_eq (claimed_by s k seen) k ≡ true
    → get s (setdefault s k seen) ≡ some k
get-setdefault-first s k seen h = elim (Option-cases (get s seen)) [
  | inl absent ↦ rw absent (ground (arith, get-put s s k seen, eq_iff s s))
  | inr (i, there) ↦ rw there (let same = rw there at h in ground (arith, eq_iff i k))
]

seen_before :
    (s j k : String) (seen : Dict String) (cs : List (String × String))
    → has_duplicate_claim seen cs ≡ false
    → get s seen ≡ some j
    → In (s, k) cs
    → k ≡ j
unfolding has_duplicate_claim
seen_before s j k seen [] h g m = absurd m
seen_before s j k seen ((t, l) ∷ cs) h g (inl e) =
    let same : s ≡ t = ap (λ p. p.0) e in
    let same_key : k ≡ l = ap (λ p. p.1) e in
    let there : get t seen ≡ some j = rw (← same) g in
    let tested = rw there at h in ground (arith, eq_iff j l)
seen_before s j k seen ((t, l) ∷ cs) h g (inr m) =
    seen_before s j k (setdefault t l seen) cs (ground arith) (get-setdefault s j t l seen g) m

seen_first :
    (s t k l : String) (seen : Dict String) (cs : List (String × String))
    → has_duplicate_claim seen ((t, l) ∷ cs) ≡ false
    → s ≡ t
    → In (s, k) cs
    → k ≡ l
unfolding has_duplicate_claim
seen_first s t k l seen cs h same m =
    let kept = get-setdefault-first t l seen (ground arith) in
    seen_before s l k (setdefault t l seen) cs (ground arith) (rw same kept) m

-- In a list of claims without a clash a secret has one key.
one_key :
    (s j k : String) (seen : Dict String) (cs : List (String × String))
    → has_duplicate_claim seen cs ≡ false
    → In (s, j) cs
    → In (s, k) cs
    → k ≡ j
unfolding has_duplicate_claim
one_key s j k seen [] h m n = absurd m
one_key s j k seen ((t, l) ∷ cs) h (inl e) (inl f) = ap (λ p. p.1) f ∙ sym (ap (λ p. p.1) e)
one_key s j k seen ((t, l) ∷ cs) h (inl e) (inr o) =
    seen_first s t k l seen cs h (ap (λ p. p.0) e) o ∙ sym (ap (λ p. p.1) e)
one_key s j k seen ((t, l) ∷ cs) h (inr m) (inl f) =
    ap (λ p. p.1) f ∙ sym (seen_first s t j l seen cs h (ap (λ p. p.0) f) m)
one_key s j k seen ((t, l) ∷ cs) h (inr m) (inr o) =
    one_key s j k (setdefault t l seen) cs (ground arith) m o

pub get-build_index :
    (s k : String) (d : Dict String) (cs : List (String × String))
    → get s (build_index d cs) ≡ some k
    → In (s, k) cs ⊎ (get s d ≡ some k)
unfolding build_index
get-build_index s k d [] h = inr h
get-build_index s k d ((t, l) ∷ cs) h = elim (get-build_index s k (put t l d) cs h) [
  | inl m ↦ inl (inr m)
  | inr there ↦ elim (Bool-cases (str_eq t s)) [
    | inl same ↦
        let is_secret : t ≡ s = (eq_iff t s).0 same in
        let is_key : l ≡ k = ground (arith, get-put t s l d) in inl (inl cc)
    | inr other ↦ inr (ground (arith, get-put t s l d))
  ]
]

-- An index never loses a secret.
indexed :
    (s j : String) (d : Dict String) (cs : List (String × String))
    → get s d ≡ some j
    → (k : String) × (get s (build_index d cs) ≡ some k)
unfolding build_index
indexed s j d [] h = (j, h)
indexed s j d ((t, l) ∷ cs) h = elim (Bool-cases (str_eq t s)) [
  | inl same ↦ indexed s l (put t l d) cs (ground (arith, get-put t s l d))
  | inr other ↦ indexed s j (put t l d) cs (ground (arith, get-put t s l d))
]

build_index-of_In :
    (s k : String) (d : Dict String) (cs : List (String × String))
    → In (s, k) cs
    → (j : String) × (get s (build_index d cs) ≡ some j)
unfolding build_index
build_index-of_In s k d [] m = absurd m
build_index-of_In s k d ((t, l) ∷ cs) (inl e) =
    let same : s ≡ t = ap (λ p. p.0) e in
    indexed s l (put t l d) cs (ground (arith, get-put t s l d, eq_iff t s))
build_index-of_In s k d ((t, l) ∷ cs) (inr m) = build_index-of_In s k (put t l d) cs m

-- The index of a list of claims without a clash holds each of them.
pub build_index-holds :
    (s k : String) (cs : List (String × String))
    → has_duplicate_claim [] cs ≡ false
    → In (s, k) cs
    → get s (build_index [] cs) ≡ some k
unfolding get
build_index-holds s k cs h m =
    let (j, there) = build_index-of_In s k [] cs m in
    elim (get-build_index s j [] cs there) [
      | inl n ↦ (let same = one_key s j k [] cs h n m in cc)
      | inr e ↦ cc
    ]
