-- ===== src/FacadeKeys/Registry/Laws.antt =====
-- Whom a presented secret stands for, in the registry of smolrouter/facade_keys.py.
use smol_router.Prelude.{
  String, ◌≡◌, refl, ap, inl, inr, ◌↔◌, Bool, true, false, not, ◌&&◌, Option, none, some, List, [],
  ◌∷◌, arith, str_eq, is_empty, Dict, get, has, get-put, All, In, In-All, In-of_get, DistinctKeys,
  put-DistinctKeys, get-of_In, not_any-of_In, Bool-cases, Option-cases, ok, guard, >>=-eq-ok,
}
use smol_router.Value.{Value}
use smol_router.Strategy.Names.{strip}
use smol_router.LoadBalancer.Names.{is_blank}
use smol_router.FacadeKeys.Values.{Conversions}
use smol_router.FacadeKeys.Config.{FacadeKeyConfig}
use smol_router.FacadeKeys.Registry.{
  normalize_registry_key, clean_secrets, put_cleaned, normalize_registry_secrets, claims,
  has_duplicate_claim, build_index, secrets_of, FacadeKeyRegistry, normalize_registry_configs,
  has_unknown_secrets, has_disabled_with_secrets, new_registry, from_sources, get_secrets,
  ResolvedCaller, caller_of, caller_if_enabled, caller_by_key, resolve_secret,
}
use smol_router.FacadeKeys.Registry.Claims.{
  In-claims-of_In, In-of_claims, get-build_index, build_index-holds,
}

abbrev NotBlank : String → Type 0
NotBlank s = is_blank s ≡ false

-- No key is there twice, and no secret is blank.
abbrev AreClean : Dict (List String) → Type 0
AreClean secrets =
    DistinctKeys secrets
    × ((key_id : String) (owned : List String)
        → get key_id secrets ≡ some owned
        → All NotBlank owned)

clean_secrets-NotBlank : (raw_secrets : List String) → All NotBlank (clean_secrets raw_secrets)
unfolding clean_secrets
clean_secrets-NotBlank [] = tt
clean_secrets-NotBlank (s ∷ raw_secrets) = elim (Bool-cases (is_blank (strip s))) [
  | inl blank ↦ rw blank (clean_secrets-NotBlank raw_secrets)
  | inr kept ↦ rw kept (kept, clean_secrets-NotBlank raw_secrets)
]

put_cleaned-AreClean :
    (key_id : String) (owned : List String) (secrets : Dict (List String))
    → All NotBlank owned
    → AreClean secrets
    → AreClean (put_cleaned key_id owned secrets)
put_cleaned-AreClean key_id [] secrets a clean = clean
put_cleaned-AreClean key_id (s ∷ owned) secrets a clean = (
  put-DistinctKeys key_id (s ∷ owned) secrets clean.0,
  λ j vs found. elim (Bool-cases (str_eq key_id j)) [
    | inl same ↦
        let is_owned : s ∷ owned ≡ vs = ground (arith, get-put key_id j (s ∷ owned) secrets) in
        rw (← is_owned) a
    | inr other ↦ clean.1 j vs (ground (arith, get-put key_id j (s ∷ owned) secrets))
  ],
)

normalize_registry_secrets-AreClean :
    (raw normalized secrets : Dict (List String))
    → normalize_registry_secrets raw normalized ≡ ok secrets
    → AreClean normalized
    → AreClean secrets
unfolding normalize_registry_secrets
normalize_registry_secrets-AreClean [] normalized secrets h clean =
    let same : normalized ≡ secrets = ground arith in rw (← same) clean
normalize_registry_secrets-AreClean ((raw_key, raw_secrets) ∷ raw) normalized secrets h clean =
    let (key_id, _, h') = >>=-eq-ok (normalize_registry_key raw_key "secret ids") _ h in
    let (_, _, h'') = >>=-eq-ok (guard (not (has key_id normalized)) _) _ h' in
    normalize_registry_secrets-AreClean raw _ secrets h'' (
      put_cleaned-AreClean key_id (clean_secrets raw_secrets) normalized
        (clean_secrets-NotBlank raw_secrets) clean)

pub guard_passed :
    {E : Type 0} (b : Bool) (e : E) {done : Unit {0}} → guard b e ≡ ok done → b ≡ true
guard_passed true e h = refl
guard_passed false e h = cc

module _ (P : Conversions) where
  -- What the validation has made sure of.
  abbrev IsValid : FacadeKeyRegistry P → Type 0
  IsValid r =
      AreClean r.secrets
      × (has_unknown_secrets P r.configs r.secrets ≡ false)
      × (has_disabled_with_secrets P r.configs r.secrets ≡ false)
      × (has_duplicate_claim [] (claims r.secrets) ≡ false)
      × (r.secret_index ≡ build_index [] (claims r.secrets))

  pub new_registry-eq-ok :
      (configs : Dict (FacadeKeyConfig P)) (secrets : Dict (List String)) (r : FacadeKeyRegistry P)
      → new_registry P configs secrets ≡ ok r
      → (configs ≡ r.configs)
        × (secrets ≡ r.secrets)
        × (has_unknown_secrets P configs secrets ≡ false)
        × (has_disabled_with_secrets P configs secrets ≡ false)
        × (has_duplicate_claim [] (claims secrets) ≡ false)
        × (build_index [] (claims secrets) ≡ r.secret_index)
  unfolding new_registry
  new_registry-eq-ok configs secrets r h =
      let (_, known, h1) = >>=-eq-ok (guard (not (has_unknown_secrets P configs secrets)) _) _ h in
      let (_, active, h2) =
        >>=-eq-ok (guard (not (has_disabled_with_secrets P configs secrets)) _) _ h1 in
      let (_, unique, h3) =
        >>=-eq-ok (guard (not (has_duplicate_claim [] (claims secrets))) _) _ h2 in
      (
        ground arith,
        ground arith,
        (let passed = guard_passed _ _ known in ground arith),
        (let passed = guard_passed _ _ active in ground arith),
        (let passed = guard_passed _ _ unique in ground arith),
        ground arith,
      )

  from_sources-IsValid :
      (facade_key_configs : Dict Value) (facade_key_secrets : Dict (List String))
      (r : FacadeKeyRegistry P)
      → from_sources P facade_key_configs facade_key_secrets ≡ ok r
      → IsValid r
  unfolding from_sources get
  from_sources-IsValid facade_key_configs facade_key_secrets r h =
      let (configs, _, h1) = >>=-eq-ok (normalize_registry_configs P facade_key_configs []) _ h in
      let (secrets, read, h2) = >>=-eq-ok (normalize_registry_secrets facade_key_secrets []) _ h1 in
      let (is_configs, is_secrets, known, active, unique, indexed) =
        new_registry-eq-ok configs secrets r h2 in
      rw (← is_configs, ← is_secrets, ← indexed)
        (
          normalize_registry_secrets-AreClean facade_key_secrets [] secrets read (tt, λ k vs e. cc),
          known,
          active,
          unique,
          refl,
        )

  pub owns_some :
      (key_id s : String) (secrets : Dict (List String))
      → In s (secrets_of key_id secrets)
      → (owned : List String) × (get key_id secrets ≡ some owned)
        × In s owned
        × (is_empty (secrets_of key_id secrets) ≡ false)
  owns_some key_id s secrets m = elim (Option-cases (get key_id secrets)) [
    | inl absent ↦ absurd (rw absent at m)
    | inr ([], found) ↦ absurd (rw found at m)
    | inr (t ∷ owned, found) ↦ (t ∷ owned, found, rw found at m, rw found refl)
  ]

  module _ (r : FacadeKeyRegistry P) (valid : IsValid r) where
    -- A key with a secret has a configuration, and is enabled.
    configured :
        (key_id s : String)
        → In s (get_secrets P r key_id)
        → (config : FacadeKeyConfig P) × (get key_id r.configs ≡ some config)
          × (config.enabled ≡ true)
    configured key_id s m =
        let (_, known, active, _, _) = valid in
        let (owned, found, _, some_left) = owns_some key_id s r.secrets m in
        let has_config =
          not_any-of_In (λ e. not (has e.0 r.configs)) (key_id, owned) r.secrets known
            (In-of_get key_id owned r.secrets found) in
        elim (Option-cases (get key_id r.configs)) [
          | inl missing ↦ absurd (let clash = rw missing at has_config in cc)
          | inr (config, there) ↦
              let may =
                not_any-of_In (λ e. not e.1.enabled && not (is_empty (secrets_of e.0 r.secrets)))
                  (key_id, config) r.configs active (In-of_get key_id config r.configs there) in
              (config, there, ground arith)
        ]

    -- The index names the key that owns the secret.
    owner :
        (key_id s : String)
        → In s (get_secrets P r key_id)
        → (get s r.secret_index ≡ some key_id) × NotBlank s
    owner key_id s m =
        let (clean, _, _, unique, indexed) = valid in
        let (owned, found, there, _) = owns_some key_id s r.secrets m in
        let at =
          In-claims-of_In s key_id owned r.secrets (In-of_get key_id owned r.secrets found) there in
        (
          rw indexed (build_index-holds s key_id (claims r.secrets) unique at),
          In-All NotBlank owned (clean.1 key_id owned found) there,
        )

    owns : (key_id s : String) → get s r.secret_index ≡ some key_id → In s (get_secrets P r key_id)
    unfolding get
    owns key_id s h =
        let (clean, _, _, _, indexed) = valid in
        elim (get-build_index s key_id [] (claims r.secrets) (rw indexed at h)) [
          | inl m ↦
              let (owned, at, there) = In-of_claims s key_id r.secrets m in
              rw (get-of_In key_id owned r.secrets clean.0 at) there
          | inr none_yet ↦ cc
        ]

  abbrev subject : Option (ResolvedCaller P) → String
  subject none = ""
  subject (some caller) = caller.identity.subject_id

  caller_if_enabled-eq-some :
      (key_id j : String) (config : FacadeKeyConfig P) (found : Option (FacadeKeyConfig P))
      → caller_if_enabled P j found ≡ some (caller_of P key_id config)
      → j ≡ key_id
  caller_if_enabled-eq-some key_id j config none h = cc
  caller_if_enabled-eq-some key_id j config (some c) h = elim (Bool-cases c.enabled) [
    | inl on ↦ (let same = rw on at h in ap (λ o. subject o) same)
    | inr off ↦ absurd (let same = rw off at h in cc)
  ]

  caller_by_key-eq-some :
      (r : FacadeKeyRegistry P) (key_id : String) (config : FacadeKeyConfig P)
      (found : Option String)
      → caller_by_key P r found ≡ some (caller_of P key_id config)
      → found ≡ some key_id
  caller_by_key-eq-some r key_id config none h = cc
  caller_by_key-eq-some r key_id config (some j) h =
      ap some (caller_if_enabled-eq-some key_id j config (get j r.configs) h)

  pub resolve_secret-owner :
      (facade_key_configs : Dict Value) (facade_key_secrets : Dict (List String))
      (r : FacadeKeyRegistry P) (key_id presented_secret : String) (config : FacadeKeyConfig P)
      → from_sources P facade_key_configs facade_key_secrets ≡ ok r
      → resolve_secret P r presented_secret ≡ some (caller_of P key_id config)
      → In (strip presented_secret) (get_secrets P r key_id)
  unfolding resolve_secret
  resolve_secret-owner facade_key_configs facade_key_secrets r key_id presented_secret config h
        resolved =
      let valid = from_sources-IsValid facade_key_configs facade_key_secrets r h in
      let s = strip presented_secret in
      elim (Bool-cases (is_blank s)) [
        | inl blank ↦ absurd (let clash = rw blank at resolved in cc)
        | inr not_blank ↦ owns r valid key_id s (
            caller_by_key-eq-some r key_id config (get s r.secret_index) (rw not_blank at resolved))
      ]

  -- In a registry that its sources give, a presented secret, stripped, is one of the secrets of a
  -- key just when the key has an enabled configuration and the secret resolves to the caller of
  -- that key and that configuration. No blank secret therefore resolves.
  pub resolve_secret_lem :
      (facade_key_configs : Dict Value) (facade_key_secrets : Dict (List String))
      (r : FacadeKeyRegistry P) (key_id presented_secret : String)
      → from_sources P facade_key_configs facade_key_secrets ≡ ok r
      → In (strip presented_secret) (get_secrets P r key_id) ↔ (
          (config : FacadeKeyConfig P) × (get key_id r.configs ≡ some config)
          × (config.enabled ≡ true)
          × (resolve_secret P r presented_secret ≡ some (caller_of P key_id config)))
  unfolding resolve_secret
  resolve_secret_lem facade_key_configs facade_key_secrets r key_id presented_secret h =
      let valid = from_sources-IsValid facade_key_configs facade_key_secrets r h in
      let s = strip presented_secret in
      (
        λ m.
            let (config, there, on) = configured r valid key_id s m in
            let (index, not_blank) = owner r valid key_id s m in
            (config, there, on, rw (not_blank, index, there, on) refl),
        λ m.
            resolve_secret-owner facade_key_configs facade_key_secrets r key_id presented_secret m.0
              h m.3,
      )
