-- ===== src/FacadeKeys/Registry/Origins.antt =====
-- From the secrets of the registry of smolrouter/facade_keys.py back to its sources.
use smol_router.Prelude.{
  String, ◌≡◌, refl, sym, ◌∙◌, ◌⊎◌, inl, inr, not, some, List, [], ◌∷◌, arith, str_eq, eq_iff, Dict,
  get, has, get-put, In, Bool-cases, ok, guard, >>=-eq-ok,
}
use smol_router.Value.{Value}
use smol_router.Strategy.Names.{strip}
use smol_router.LoadBalancer.Names.{is_blank}
use smol_router.FacadeKeys.Values.{Conversions}
use smol_router.FacadeKeys.Registry.{
  normalize_registry_key, clean_secrets, put_cleaned, normalize_registry_secrets, FacadeKeyRegistry,
  normalize_registry_configs, from_sources, get_secrets,
}
use smol_router.FacadeKeys.Registry.Laws.{new_registry-eq-ok, owns_some}
use smol_router.FacadeKeys.Registry.Sources.{normalize_registry_key-eq-ok}

In-of_clean_secrets :
    (s : String) (raw_secrets : List String)
    → In s (clean_secrets raw_secrets)
    → (raw : String) × In raw raw_secrets × (strip raw ≡ s)
unfolding clean_secrets
In-of_clean_secrets s [] m = absurd m
In-of_clean_secrets s (t ∷ raw_secrets) m = elim (Bool-cases (is_blank (strip t))) [
  | inl blank ↦
      let (raw, at, same) = In-of_clean_secrets s raw_secrets (rw blank at m) in (raw, inr at, same)
  | inr dark ↦ elim (rw dark at m) [
    | inl e ↦ (t, inl refl, sym e)
    | inr n ↦ let (raw, at, same) = In-of_clean_secrets s raw_secrets n in (raw, inr at, same)
  ]
]

get-of_put_cleaned :
    (key_id k : String) (owned vs : List String) (normalized : Dict (List String))
    → get k (put_cleaned key_id owned normalized) ≡ some vs
    → ((key_id ≡ k) × (owned ≡ vs)) ⊎ (get k normalized ≡ some vs)
get-of_put_cleaned key_id k [] vs normalized h = inr h
get-of_put_cleaned key_id k (s ∷ owned) vs normalized h = elim (Bool-cases (str_eq key_id k)) [
  | inl same ↦
      inl ((eq_iff key_id k).0 same, ground (arith, get-put key_id k (s ∷ owned) normalized))
  | inr other ↦ inr (ground (arith, get-put key_id k (s ∷ owned) normalized))
]

normalize_registry_secrets-origin :
    (raw normalized secrets : Dict (List String)) (k : String) (vs : List String)
    → normalize_registry_secrets raw normalized ≡ ok secrets
    → get k secrets ≡ some vs
    → (get k normalized ≡ some vs)
      ⊎ ((raw_key : String) × (raw_secrets : List String) × In (raw_key, raw_secrets) raw
          × (strip raw_key ≡ k)
          × (clean_secrets raw_secrets ≡ vs))
unfolding normalize_registry_secrets
normalize_registry_secrets-origin [] normalized secrets k vs h g = inl (ground arith)
normalize_registry_secrets-origin ((raw_key, raw_secrets) ∷ raw) normalized secrets k vs h g =
    let (key_id, named, h1) = >>=-eq-ok (normalize_registry_key raw_key "secret ids") _ h in
    let (_, _, h2) = >>=-eq-ok (guard (not (has key_id normalized)) _) _ h1 in
    elim (normalize_registry_secrets-origin raw _ secrets k vs h2 g) [
      | inr (rk, rs, at, named', same) ↦ inr (rk, rs, inr at, named', same)
      | inl there ↦
          elim (get-of_put_cleaned key_id k (clean_secrets raw_secrets) vs normalized there) [
            | inl new ↦ inr (
              raw_key,
              raw_secrets,
              inl refl,
              normalize_registry_key-eq-ok raw_key "secret ids" named ∙ new.0,
              new.1,
            )
            | inr old ↦ inl old
          ]
    ]

module _ (P : Conversions) where
  -- A secret of a key is a stripped one that the sources list under the key, stripped.
  pub from_sources-origin :
      (facade_key_configs : Dict Value) (facade_key_secrets : Dict (List String))
      (r : FacadeKeyRegistry P) (key_id s : String)
      → from_sources P facade_key_configs facade_key_secrets ≡ ok r
      → In s (get_secrets P r key_id)
      → (raw_key : String) × (raw_secrets : List String) × (raw : String) × In
          (raw_key, raw_secrets)
          facade_key_secrets
        × (strip raw_key ≡ key_id)
        × In raw raw_secrets
        × (strip raw ≡ s)
  unfolding from_sources get
  from_sources-origin facade_key_configs facade_key_secrets r key_id s h m =
      let (configs, _, h1) = >>=-eq-ok (normalize_registry_configs P facade_key_configs []) _ h in
      let (secrets, read, h2) = >>=-eq-ok (normalize_registry_secrets facade_key_secrets []) _ h1 in
      let (_, same, _, _, _, _) = new_registry-eq-ok P configs secrets r h2 in
      let (owned, found, there, _) = owns_some P key_id s r.secrets m in
      elim (normalize_registry_secrets-origin facade_key_secrets [] secrets key_id owned read
        (rw same found)) [
          | inl nothing ↦ cc
          | inr (raw_key, raw_secrets, at, named, is_owned) ↦
              let (raw, at', stripped) = In-of_clean_secrets s raw_secrets (rw is_owned there) in
              (raw_key, raw_secrets, raw, at, named, at', stripped)
        ]
