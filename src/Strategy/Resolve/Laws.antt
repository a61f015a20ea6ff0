-- ===== src/Strategy/Resolve/Laws.antt =====
-- Which model a request is resolved to.
use smol_router.Prelude.{
  ℕ, ◌≤◌, String, ◌≡◌, refl, sym, ◌⊎◌, inl, inr, Bool, true, false, none, some, List, [], ◌∷◌,
  arith, str_eq, eq_iff, filter, find?, is_empty, sort_on, leb, sort_on-Ascends, Ascends, In,
  In-All, In-filter, In-sort_by, Bool-cases, Option-cases, Result-cases, ok,
}
use mathlib.Core.Path.{subst}
use smol_router.ModelInfo.{ModelInfo, display_name, matches_request}
use smol_router.LoadBalancer.Names.{has_code}
use smol_router.Strategy.Names.{parse_fully_qualified_name}
use smol_router.Strategy.Names.Laws.{IsTrimmed, parse_fully_qualified_name-display_name}
use smol_router.Strategy.Rules.{TextEngine, apply_alias_transformations}
use smol_router.Strategy.Resolve.{
  SmartModelStrategy, head?, is_qualified, find_qualified, priority_of, sort_by_provider_priority,
  matches_partially, resolve_name, resolve_model_request,
}

-- The model satisfies the test, and no model that does has a smaller priority.
pub record IsBest (s : SmartModelStrategy) (p : ModelInfo → Bool) (l : List ModelInfo)
    (k : ModelInfo) : Type 0 where
  pub listed : In k l
  pub passes : p k ≡ true
  pub least : (j : ModelInfo) → In j l → p j ≡ true → priority_of s k ≤ priority_of s j

find?-In :
    (p : ModelInfo → Bool) (m : ModelInfo) (l : List ModelInfo)
    → In m l
    → p m ≡ true
    → (k : ModelInfo) × (find? p l ≡ some k) × In k l × (p k ≡ true)
find?-In p m [] i h = absurd i
find?-In p m (x ∷ l) i h = elim (Bool-cases (p x)) [
  | inl hit ↦ (x, rw hit, inl refl, hit)
  | inr miss ↦ elim i [
    | inl e ↦ absurd (let there : p x ≡ true = rw (← e) h in ground arith)
    | inr j ↦
        let (k, found, listed, passes) = find?-In p m l j h in
        (k, rw miss found, inr listed, passes)
  ]
]

filter-empty :
    (p : ModelInfo → Bool) (l : List ModelInfo)
    → ((j : ModelInfo) → In j l → p j ≡ false)
    → is_empty (filter p l) ≡ true
filter-empty p [] h = refl
filter-empty p (x ∷ l) h = rw (h x (inl refl)) (filter-empty p l (λ j there. h j (inr there)))

own_qualified : (m : ModelInfo) → is_qualified m.name m.provider_id m ≡ true
unfolding matches_request
own_qualified m = ground (arith, eq_iff m.provider_id m.provider_id, eq_iff m.name m.name)

qualified_parts :
    (name provider_id : String) (k : ModelInfo)
    → is_qualified name provider_id k ≡ true
    → (k.provider_id ≡ provider_id) × (matches_request k name ≡ true)
qualified_parts name provider_id k h = (
  let hit : str_eq k.provider_id provider_id ≡ true = ground arith in
      (eq_iff k.provider_id provider_id).0 hit,
  ground arith,
)

abbrev by_key : (ModelInfo → ℕ) → ModelInfo → ModelInfo → Bool
by_key key x y = leb (key x) (key y)

head-sort :
    (key : ModelInfo → ℕ) (l sorted : List ModelInfo) (k : ModelInfo)
    → sorted ≡ sort_on key l
    → head? sorted ≡ some k
    → In k l × ((j : ModelInfo) → In j l → key k ≤ key j)
head-sort key l [] k e h = cc
head-sort key l (x ∷ rest) k e h =
    let is : x ≡ k = ground arith in
    let ascending = subst (Ascends key) (sym e) (sort_on-Ascends key l) in
    let listed = subst (In x) e (inl refl) in
    let in_sorted = λ (j : ModelInfo) (i : In j l). (In-sort_by (by_key key) j l).1 i in
    rw (← is) (
      (In-sort_by (by_key key) x l).0 listed,
      λ j i.
          In-All (λ y. key x ≤ key y) (x ∷ rest) (omega arith, ascending.0)
            (subst (In j) (sym e) (in_sorted j i)),
    )

head-none : (l : List ModelInfo) → head? l ≡ none → l ≡ []
head-none [] h = refl
head-none (x ∷ l) h = cc

head-sort_none :
    (key : ModelInfo → ℕ) (l : List ModelInfo)
    → head? (sort_on key l) ≡ none
    → (j : ModelInfo) → ¬ In j l
head-sort_none key l h j i =
    let empty = head-none (sort_on key l) h in
    absurd (subst (In j) empty ((In-sort_by (by_key key) j l).1 i))

module _ (s : SmartModelStrategy) (p : ModelInfo → Bool) (l : List ModelInfo) where
  IsBest-of_sort :
      (k : ModelInfo) → head? (sort_by_provider_priority s (filter p l)) ≡ some k → IsBest s p l k
  unfolding sort_by_provider_priority
  IsBest-of_sort k h =
      let (i, least) = head-sort (priority_of s) (filter p l) _ k refl h in
      record {
        listed = ((In-filter p k l).0 i).0;
        passes = ((In-filter p k l).0 i).1;
        least = λ j there passes. least j ((In-filter p j l).1 (there, passes));
      }

  none_of_sort :
      head? (sort_by_provider_priority s (filter p l)) ≡ none
      → (j : ModelInfo) → In j l
      → p j ≡ false
  unfolding sort_by_provider_priority
  none_of_sort h j i = elim (Bool-cases (p j)) [
    | inl hit ↦
        absurd (head-sort_none (priority_of s) (filter p l) h j ((In-filter p j l).1 (i, hit)))
    | inr miss ↦ miss
  ]

filter-is_empty :
    (p : ModelInfo → Bool) (l : List ModelInfo)
    → is_empty (filter p l) ≡ true
    → (j : ModelInfo) → In j l
    → p j ≡ false
filter-is_empty p [] h j i = absurd i
filter-is_empty p (x ∷ l) h j i = elim (Bool-cases (p x)) [
  | inl hit ↦ absurd (ground arith)
  | inr miss ↦ elim i [ inl e ↦ rw e miss | inr there ↦ filter-is_empty p l (ground arith) j there ]
]

module _ (E : TextEngine) where
  -- The request is resolved to the model by its name alone: the model has the name exactly, or it
  -- has a part of it and no available model has it exactly; either way it is of the first provider.
  abbrev pub IsNamed : SmartModelStrategy → String → List ModelInfo → ModelInfo → Type 0
  IsNamed s name l k =
      IsBest s (λ m. matches_request m name) l k
      ⊎ (((j : ModelInfo) → In j l → matches_request j name ≡ false)
          × IsBest s (matches_partially E name) l k)

  resolve_name-IsNamed :
      (s : SmartModelStrategy) (name : String) (l : List ModelInfo) (k : ModelInfo)
      → resolve_name E s name l ≡ some k
      → IsNamed s name l k
  unfolding resolve_name
  resolve_name-IsNamed s name l k h =
      let exact = λ (m : ModelInfo). matches_request m name in
      elim (Bool-cases (is_empty (filter exact l))) [
        | inl empty ↦ inr (
          filter-is_empty exact l empty,
          IsBest-of_sort s (matches_partially E name) l k (rw empty at h),
        )
        | inr found ↦ inl (IsBest-of_sort s exact l k (rw found at h))
      ]

  resolve_name-none :
      (s : SmartModelStrategy) (name : String) (l : List ModelInfo)
      → resolve_name E s name l ≡ none
      → (j : ModelInfo) → In j l
      → (matches_request j name ≡ false) × (matches_partially E name j ≡ false)
  unfolding resolve_name
  resolve_name-none s name l h j i =
      let exact = λ (m : ModelInfo). matches_request m name in
      elim (Bool-cases (is_empty (filter exact l))) [
        | inl empty ↦ (
          filter-is_empty exact l empty j i,
          none_of_sort s (matches_partially E name) l (rw empty at h) j i,
        )
        | inr found ↦ absurd (
            let empty = filter-empty exact l (none_of_sort s exact l (rw found at h)) in
            ground arith)
      ]

  -- A resolved request got a model of the provider that its name asks for; or no available model
  -- is one, and with the name that the aliases make of the request it got the model of smallest
  -- provider priority among the exact matches, and among the partial ones only if no available
  -- model matches exactly.
  pub resolve_model_request_best :
      (s : SmartModelStrategy) (request : String) (l : List ModelInfo) (k : ModelInfo)
      → resolve_model_request E s request l ≡ ok (some k)
      → (find_qualified (parse_fully_qualified_name request) l ≡ some k)
        ⊎ ((find_qualified (parse_fully_qualified_name request) l ≡ none)
            × (name : String) × (apply_alias_transformations E s.aliases request ≡ ok name)
            × IsNamed s name l k)
  unfolding resolve_model_request
  resolve_model_request_best s request l k h =
      elim (Option-cases (find_qualified (parse_fully_qualified_name request) l)) [
        | inl missed ↦
            let rest = rw missed at h in
            elim (Result-cases (apply_alias_transformations E s.aliases request)) [
              | inl (e, failed) ↦ absurd (let clash = rw failed at rest in cc)
              | inr (name, made) ↦
                  let found = rw made at rest in
                  inr (missed, name, made, resolve_name-IsNamed s name l k (ground arith))
            ]
        | inr (m, hit) ↦ inl (ground arith)
      ]

  -- A request that is resolved to no model has none: no available model is of a provider that its
  -- name asks for, and none matches, exactly or partially, the name that the aliases make of it.
  pub resolve_model_request-none :
      (s : SmartModelStrategy) (request : String) (l : List ModelInfo)
      → resolve_model_request E s request l ≡ ok none
      → (find_qualified (parse_fully_qualified_name request) l ≡ none)
        × (name : String) × (apply_alias_transformations E s.aliases request ≡ ok name)
        × ((j : ModelInfo)
            → In j l
            → (matches_request j name ≡ false) × (matches_partially E name j ≡ false))
  unfolding resolve_model_request resolve_name
  resolve_model_request-none s request l h =
      elim (Option-cases (find_qualified (parse_fully_qualified_name request) l)) [
        | inl missed ↦
            let rest = rw missed at h in
            elim (Result-cases (apply_alias_transformations E s.aliases request)) [
              | inl (e, failed) ↦ absurd (let clash = rw failed at rest in cc)
              | inr (name, made) ↦
                  let found = rw made at rest in
                  (missed, name, made, resolve_name-none s name l (ground arith))
            ]
        | inr (m, hit) ↦ absurd (let clash = rw hit at h in cc)
      ]

  -- The display name of an available model, `name [provider]`, is resolved to an available model
  -- of that provider that matches that name, whatever the aliases and priorities are. Neither part
  -- is empty or has white space at its ends, and the provider has no opening bracket.
  pub resolve_model_request-display_name :
      (s : SmartModelStrategy) (m : ModelInfo) (l : List ModelInfo)
      → In m l
      → IsTrimmed m.name
      → IsTrimmed m.provider_id
      → has_code b'[' m.provider_id ≡ false
      → (k : ModelInfo) × (resolve_model_request E s (display_name m) l ≡ ok (some k))
        × In k l
        × (k.provider_id ≡ m.provider_id)
        × (matches_request k m.name ≡ true)
  unfolding resolve_model_request find_qualified
  resolve_model_request-display_name s m l i name provider plain =
      let parsed = parse_fully_qualified_name-display_name m name provider plain in
      let (k, found, listed, qualified) =
        find?-In (is_qualified m.name m.provider_id) m l i (own_qualified m) in
      let (of_provider, named) = qualified_parts m.name m.provider_id k qualified in
      (k, rw (parsed, found), listed, of_provider, named)
