-- ===== src/ProjectKeys/Sources/Laws.antt =====
-- The secrets that are read are stripped, each under one stripped key.
use smol_router.Prelude.{
  String, ◌≡◌, refl, ◌⊎◌, inl, inr, false, none, some, List, [], ◌∷◌, arith, if◌then◌else◌, Dict,
  get, In, DistinctKeys, put-DistinctKeys, In-put, Bool-cases, Option, ok, guard, >>=-eq-ok,
}
use smol_router.Value.{Value, null, bool, int, negative, text, array, mapping, other, items}
use smol_router.Strategy.Names.{strip}
use smol_router.Strategy.Names.Strip.{strip-strip}
use smol_router.LoadBalancer.Names.{is_blank}
use smol_router.FacadeKeys.Values.{Conversions}
use smol_router.FacadeKeys.Config.{str_of, add_tag, clean_tags}
use smol_router.ProjectKeys.Sources.{
  Files, is_secret_entry, put_values, named_entries, normalize_secret_values, parse_facade_key_map,
  read_yaml_mapping, load_facade_key_secrets, Sources, Disk, read_mapping, projects_of,
  check_values, read_sources,
}

abbrev pub IsStripped : String → Type 0
IsStripped s = strip s ≡ s

-- A secret as it is read: stripped and not blank.
abbrev pub IsSecret : String → Type 0
IsSecret s = IsStripped s × (is_blank s ≡ false)

-- The key and its secrets are stripped, and no secret is blank.
abbrev pub IsStrippedEntry : String → List String → Type 0
IsStrippedEntry key_id values = IsStripped key_id × ((v : String) → In v values → IsSecret v)

-- No key is there twice, and every entry is stripped.
abbrev pub AreStripped : Dict (List String) → Type 0
AreStripped keys =
    DistinctKeys keys
    × ((key_id : String) (values : List String)
        → In (key_id, values) keys
        → IsStrippedEntry key_id values)

put_values-AreStripped :
    (key_id : String) (values : List String) (keys : Dict (List String))
    → IsStrippedEntry key_id values
    → AreStripped keys
    → AreStripped (put_values key_id values keys)
put_values-AreStripped key_id [] keys e a = a
put_values-AreStripped key_id (v ∷ values) keys e a = (
  put-DistinctKeys key_id (v ∷ values) keys a.0,
  λ j ws m. elim (In-put key_id j (v ∷ values) ws keys m) [
    | inl new ↦ rw (new.0, new.1) e
    | inr old ↦ a.1 j ws old
  ],
)

absent-named_entries :
    (k : String) (keys : Dict (List String)) → get k keys ≡ none → get k (named_entries keys) ≡ none
unfolding get named_entries
absent-named_entries k [] h = refl
absent-named_entries k ((j, vs) ∷ keys) h = ground (arith, absent-named_entries k keys)

named_entries-DistinctKeys :
    (keys : Dict (List String)) → DistinctKeys keys → DistinctKeys (named_entries keys)
unfolding named_entries
named_entries-DistinctKeys [] a = tt
named_entries-DistinctKeys ((k, vs) ∷ keys) a = elim (Bool-cases (is_blank k)) [
  | inl blank ↦ rw blank (named_entries-DistinctKeys keys a.1)
  | inr named ↦ rw named (absent-named_entries k keys a.0, named_entries-DistinctKeys keys a.1)
]

In-named_entries :
    (k : String) (vs : List String) (keys : Dict (List String))
    → In (k, vs) (named_entries keys)
    → In (k, vs) keys
unfolding named_entries
In-named_entries k vs [] m = m
In-named_entries k vs ((j, ws) ∷ keys) m = elim (Bool-cases (is_blank j)) [
  | inl blank ↦ inr (In-named_entries k vs keys (rw blank at m))
  | inr named ↦ elim (rw named at m) [ inl e ↦ inl e | inr n ↦ inr (In-named_entries k vs keys n) ]
]

In-if_dark :
    (v candidate : String) (tags : List String)
    → In v (if is_blank candidate then tags else candidate ∷ tags)
    → ((v ≡ candidate) × (is_blank candidate ≡ false)) ⊎ In v tags
In-if_dark v candidate tags m = elim (Bool-cases (is_blank candidate)) [
  | inl blank ↦ inr (rw blank at m)
  | inr dark ↦ elim (rw dark at m) [ inl e ↦ inl (e, dark) | inr n ↦ inr n ]
]

module _ (P : Conversions) where
  In-add_tag :
      (v : String) (tag : Value) (tags : List String)
      → In v (add_tag P tag tags)
      → ((v ≡ strip (str_of P tag)) × (is_blank (strip (str_of P tag)) ≡ false)) ⊎ In v tags
  In-add_tag v null tags m = inr m
  In-add_tag v (bool b) tags m = In-if_dark v (strip (str_of P (bool b))) tags m
  In-add_tag v (int n) tags m = In-if_dark v (strip (str_of P (int n))) tags m
  In-add_tag v (negative n) tags m = In-if_dark v (strip (str_of P (negative n))) tags m
  In-add_tag v (text s) tags m = In-if_dark v (strip (str_of P (text s))) tags m
  In-add_tag v (array vs) tags m = In-if_dark v (strip (str_of P (array vs))) tags m
  In-add_tag v (mapping fs) tags m = In-if_dark v (strip (str_of P (mapping fs))) tags m
  In-add_tag v other tags m = In-if_dark v (strip (str_of P other)) tags m

  clean_tags-IsSecret : (v : String) (tags : List Value) → In v (clean_tags P tags) → IsSecret v
  unfolding clean_tags
  clean_tags-IsSecret v [] m = absurd m
  clean_tags-IsSecret v (tag ∷ tags) m = elim (In-add_tag v tag (clean_tags P tags) m) [
    | inl e ↦ rw (e.0) (strip-strip (str_of P tag), e.1)
    | inr n ↦ clean_tags-IsSecret v tags n
  ]

  module _ (F : Files) where
    normalize_secret_values-IsSecret :
        (raw_values : Value) (v : String)
        → In v (normalize_secret_values P F raw_values)
        → IsSecret v
    unfolding normalize_secret_values
    normalize_secret_values-IsSecret (text s) v m = clean_tags-IsSecret v (text s ∷ []) m
    normalize_secret_values-IsSecret (array vs) v m = clean_tags-IsSecret v (items vs) m
    normalize_secret_values-IsSecret null v m = absurd m
    normalize_secret_values-IsSecret (bool b) v m = absurd m
    normalize_secret_values-IsSecret (int n) v m = absurd m
    normalize_secret_values-IsSecret (negative n) v m = absurd m
    normalize_secret_values-IsSecret (mapping fs) v m = absurd m
    normalize_secret_values-IsSecret other v m = absurd m

    parse_facade_key_map-AreStripped :
        (raw : Dict Value) (normalized keys : Dict (List String))
        → parse_facade_key_map P F raw normalized ≡ ok keys
        → AreStripped normalized
        → AreStripped keys
    unfolding parse_facade_key_map
    parse_facade_key_map-AreStripped [] normalized keys h a =
        let same : normalized ≡ keys = ground arith in rw (← same) a
    parse_facade_key_map-AreStripped ((k, raw_values) ∷ raw) normalized keys h a =
        let (_, _, h1) = >>=-eq-ok (guard (is_secret_entry raw_values) _) _ h in
        parse_facade_key_map-AreStripped raw _ keys h1 (
          put_values-AreStripped (strip k) (normalize_secret_values P F raw_values) normalized
            (strip-strip k, normalize_secret_values-IsSecret raw_values) a)

    load_facade_key_secrets-AreStripped :
        (file : Option F.Content) (keys : Dict (List String))
        → load_facade_key_secrets P F file ≡ ok keys
        → AreStripped keys
    load_facade_key_secrets-AreStripped none keys h =
        let same : [] ≡ keys = ground arith in rw (← same) (tt, λ k vs m. absurd m)
    load_facade_key_secrets-AreStripped (some content) keys h =
        let (raw, _, h1) = >>=-eq-ok (read_yaml_mapping P F content) _ h in
        let (parsed, read, h2) = >>=-eq-ok (parse_facade_key_map P F raw []) _ h1 in
        let a = parse_facade_key_map-AreStripped raw [] parsed read (tt, λ k vs m. absurd m) in
        let same : named_entries parsed ≡ keys = ground arith in
        rw (← same) (
          named_entries-DistinctKeys parsed a.0,
          λ k vs m. a.1 k vs (In-named_entries k vs parsed m),
        )

    pub read_sources-AreStripped :
        (d : Disk P F) (sources : Sources P F)
        → read_sources P F d ≡ ok sources
        → AreStripped sources.keys
    unfolding read_sources
    read_sources-AreStripped d sources h =
        let (routes, _, h1) = >>=-eq-ok (read_mapping P F d.routes_file) _ h in
        let (projects, _, h2) = >>=-eq-ok (projects_of P F (get "facade_keys" routes)) _ h1 in
        let (keys, read, h3) = >>=-eq-ok (load_facade_key_secrets P F d.secrets_file) _ h2 in
        let (_, _, h4) = >>=-eq-ok (check_values keys) _ h3 in
        let same : keys ≡ sources.keys = ground arith in
        rw (← same) (load_facade_key_secrets-AreStripped d.secrets_file keys read)
