-- ===== src/FacadeKeys/Registry/Sources.antt =====
-- From the sources of the registry of smolrouter/facade_keys.py to the callers that it resolves.
use smol_router.Prelude.{
  String, ◌≡◌, ap, inl, inr, false, not, some, List, [], ◌∷◌, arith, str_eq, eq_iff, Dict, get, has,
  get-put, or_else, In, Bool-cases, ok, guard, >>=-eq-ok,
}
use smol_router.Value.{Value}
use smol_router.Strategy.Names.{strip}
use smol_router.LoadBalancer.Names.{is_blank}
use smol_router.FacadeKeys.Values.{Conversions}
use smol_router.FacadeKeys.Config.{FacadeKeyConfig}
use smol_router.FacadeKeys.Registry.{
  normalize_registry_key, clean_secrets, put_cleaned, normalize_registry_secrets, FacadeKeyRegistry,
  normalize_registry_configs, from_sources, get_secrets, caller_of, resolve_secret,
}
use smol_router.FacadeKeys.Registry.Laws.{guard_passed, new_registry-eq-ok, resolve_secret_lem}

In-clean_secrets :
    (s : String) (raw_secrets : List String)
    → is_blank (strip s) ≡ false
    → In s raw_secrets
    → In (strip s) (clean_secrets raw_secrets)
unfolding clean_secrets
In-clean_secrets s [] kept m = absurd m
In-clean_secrets s (t ∷ raw_secrets) kept (inl e) =
    let kept_too : is_blank (strip t) ≡ false = rw (← e) kept in rw kept_too (inl (ap strip e))
In-clean_secrets s (t ∷ raw_secrets) kept (inr m) =
    let rest = In-clean_secrets s raw_secrets kept m in
    elim (Bool-cases (is_blank (strip t))) [
      | inl blank ↦ rw blank rest
      | inr named ↦ rw named (inr rest)
    ]

pub normalize_registry_key-eq-ok :
    (raw_key field_name : String) {key_id : String}
    → normalize_registry_key raw_key field_name ≡ ok key_id
    → strip raw_key ≡ key_id
unfolding normalize_registry_key
normalize_registry_key-eq-ok raw_key field_name h = ground arith

-- A key that is written keeps its secrets.
get-put_cleaned :
    (key_id j : String) (owned vs : List String) (normalized : Dict (List String))
    → has key_id normalized ≡ false
    → get j normalized ≡ some vs
    → get j (put_cleaned key_id owned normalized) ≡ some vs
get-put_cleaned key_id j [] vs normalized fresh h = h
get-put_cleaned key_id j (s ∷ owned) vs normalized fresh h = elim (Bool-cases (str_eq key_id j)) [
  | inl same ↦
      let is_key : key_id ≡ j = (eq_iff key_id j).0 same in
      absurd (
        let clash : get key_id normalized ≡ some vs = rw is_key h in
        let no = rw clash at fresh in ground arith)
  | inr other ↦ ground (arith, get-put key_id j (s ∷ owned) normalized)
]

normalize_registry_secrets-keeps :
    (raw normalized secrets : Dict (List String)) (j : String) (vs : List String)
    → normalize_registry_secrets raw normalized ≡ ok secrets
    → get j normalized ≡ some vs
    → get j secrets ≡ some vs
unfolding normalize_registry_secrets
normalize_registry_secrets-keeps [] normalized secrets j vs h g = ground arith
normalize_registry_secrets-keeps ((raw_key, raw_secrets) ∷ raw) normalized secrets j vs h g =
    let (key_id, _, h1) = >>=-eq-ok (normalize_registry_key raw_key "secret ids") _ h in
    let (_, fresh, h2) = >>=-eq-ok (guard (not (has key_id normalized)) _) _ h1 in
    let passed = guard_passed _ _ fresh in
    normalize_registry_secrets-keeps raw _ secrets j vs h2
      (get-put_cleaned key_id j (clean_secrets raw_secrets) vs normalized (ground arith) g)

In-put_cleaned :
    (key_id s : String) (owned : List String) (normalized : Dict (List String))
    → In s owned
    → get key_id (put_cleaned key_id owned normalized) ≡ some owned
In-put_cleaned key_id s [] normalized m = absurd m
In-put_cleaned key_id s (t ∷ owned) normalized m =
    ground (arith, get-put key_id key_id (t ∷ owned) normalized, eq_iff key_id key_id)

normalize_registry_secrets-get :
    (raw normalized secrets : Dict (List String)) (raw_key s : String) (raw_secrets : List String)
    → normalize_registry_secrets raw normalized ≡ ok secrets
    → In (raw_key, raw_secrets) raw
    → In (strip s) (clean_secrets raw_secrets)
    → get (strip raw_key) secrets ≡ some (clean_secrets raw_secrets)
unfolding normalize_registry_secrets
normalize_registry_secrets-get [] normalized secrets raw_key s raw_secrets h m n = absurd m
normalize_registry_secrets-get ((k, vs) ∷ raw) normalized secrets raw_key s raw_secrets h (inl e)
      n =
    let (key_id, named, h1) = >>=-eq-ok (normalize_registry_key k "secret ids") _ h in
    let (_, _, h2) = >>=-eq-ok (guard (not (has key_id normalized)) _) _ h1 in
    let is_named : raw_key ≡ k = ap (λ p. p.0) e in
    let is_owned : raw_secrets ≡ vs = ap (λ p. p.1) e in
    let is_key : strip k ≡ key_id = normalize_registry_key-eq-ok k "secret ids" named in
    rw (is_named, is_key, is_owned)
      (normalize_registry_secrets-keeps raw _ secrets key_id (clean_secrets vs) h2
        (In-put_cleaned key_id (strip s) (clean_secrets vs) normalized (rw (← is_owned) n)))
normalize_registry_secrets-get ((k, vs) ∷ raw) normalized secrets raw_key s raw_secrets h (inr m)
      n =
    let (key_id, _, h1) = >>=-eq-ok (normalize_registry_key k "secret ids") _ h in
    let (_, _, h2) = >>=-eq-ok (guard (not (has key_id normalized)) _) _ h1 in
    normalize_registry_secrets-get raw _ secrets raw_key s raw_secrets h2 m n

module _ (P : Conversions) where
  from_sources-get_secrets :
      (facade_key_configs : Dict Value) (facade_key_secrets : Dict (List String))
      (r : FacadeKeyRegistry P) (raw_key s : String) (raw_secrets : List String)
      → from_sources P facade_key_configs facade_key_secrets ≡ ok r
      → In (raw_key, raw_secrets) facade_key_secrets
      → In (strip s) (clean_secrets raw_secrets)
      → get_secrets P r (strip raw_key) ≡ clean_secrets raw_secrets
  unfolding from_sources
  from_sources-get_secrets facade_key_configs facade_key_secrets r raw_key s raw_secrets h m n =
      let (configs, _, h1) = >>=-eq-ok (normalize_registry_configs P facade_key_configs []) _ h in
      let (secrets, read, h2) = >>=-eq-ok (normalize_registry_secrets facade_key_secrets []) _ h1 in
      let (_, same, _, _, _, _) = new_registry-eq-ok P configs secrets r h2 in
      rw (← same) (
        ap (λ o. or_else o [])
          (normalize_registry_secrets-get facade_key_secrets [] secrets raw_key s raw_secrets read m
            n))

  -- Whoever presents a secret that the sources list under a key, with any white space around it
  -- there or here, is resolved to the caller of that key, with the configuration that the
  -- registry has for the key; provided that the secret is not blank.
  pub resolve_secret-from_sources :
      (facade_key_configs : Dict Value) (facade_key_secrets : Dict (List String))
      (r : FacadeKeyRegistry P) (raw_key s presented_secret : String) (raw_secrets : List String)
      → from_sources P facade_key_configs facade_key_secrets ≡ ok r
      → In (raw_key, raw_secrets) facade_key_secrets
      → In s raw_secrets
      → strip presented_secret ≡ strip s
      → is_blank (strip s) ≡ false
      → (config : FacadeKeyConfig P) × (get (strip raw_key) r.configs ≡ some config)
        × (resolve_secret P r presented_secret ≡ some (caller_of P (strip raw_key) config))
  resolve_secret-from_sources cs ss r raw_key s presented_secret raw_secrets h m n same kept =
      let cleaned = In-clean_secrets s raw_secrets kept n in
      let owned = from_sources-get_secrets cs ss r raw_key s raw_secrets h m cleaned in
      let there : In (strip presented_secret) (get_secrets P r (strip raw_key)) =
        rw (same, owned) cleaned in
      let (config, found, _, resolved) =
        (resolve_secret_lem P cs ss r (strip raw_key) presented_secret h).0 there in
      (config, found, resolved)
