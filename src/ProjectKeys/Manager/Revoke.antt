-- ===== src/ProjectKeys/Manager/Revoke.antt =====
-- What revoking a key of smolrouter/project_key_manager.py takes away, and what it leaves.
use smol_router.Prelude.{
  String, ◌≡◌, refl, sym, ap, ◌∙◌, ◌≢◌, ◌⊎◌, inl, inr, true, not, none, some, List, [], ◌∷◌, arith,
  str_eq, eq_iff, filter, Dict, get, delete, has, get-delete, or_else, In, In-filter, In-of_get,
  get-of_In, DistinctKeys, put-DistinctKeys, delete-DistinctKeys, In-put, In-delete, Option-cases,
  ok, guard, >>=-eq-ok,
}
use smol_router.Strategy.Names.{strip}
use smol_router.FacadeKeys.Values.{Conversions}
use smol_router.FacadeKeys.Config.{FacadeKeyConfig}
use smol_router.FacadeKeys.Registry.{
  FacadeKeyRegistry, secrets_of, from_sources, caller_of, resolve_secret,
}
use smol_router.FacadeKeys.Registry.Laws.{guard_passed, resolve_secret-owner}
use smol_router.FacadeKeys.Registry.Sources.{resolve_secret-from_sources}
use smol_router.FacadeKeys.Registry.Origins.{from_sources-origin}
use smol_router.ProjectKeys.Sources.{Files, validated, Disk, Sources, read_sources}
use smol_router.ProjectKeys.Sources.Laws.{
  IsStripped, IsSecret, AreStripped, read_sources-AreStripped,
}
use smol_router.ProjectKeys.Manager.{
  put_or_pop, the_match, without, Manager, has_fingerprint, keys_without, revoke_key,
}
use smol_router.ProjectKeys.Manager.Laws.{
  Wrote, Refused, Outcome-write_if_ok, validated-eq-ok, get-put-here,
}

In-without :
    (v secret : String) (values : List String)
    → In v (without secret values)
    → In v values × (v ≢ secret)
In-without v secret values m =
    let (there, kept) = (In-filter (λ value. not (str_eq value secret)) v values).0 m in
    (there, λ same. ground (arith, eq_iff v secret))

In-without-of_In :
    (v secret : String) (values : List String)
    → In v values
    → v ≢ secret
    → In v (without secret values)
In-without-of_In v secret values m differs =
    (In-filter (λ value. not (str_eq value secret)) v values).1 (m, ground (arith, eq_iff v secret))

-- What `put_or_pop` leaves under the key.
secrets_of-put_or_pop :
    (key_id : String) (values : List String) (keys : Dict (List String))
    → secrets_of key_id (put_or_pop key_id values keys) ≡ values
secrets_of-put_or_pop key_id [] keys =
    ap (λ o. or_else o [])
      (let e : get key_id (delete key_id keys) ≡ none =
          ground (arith, get-delete key_id key_id keys, eq_iff key_id key_id) in
        e)
secrets_of-put_or_pop key_id (v ∷ values) keys =
    ap (λ o. or_else o []) (get-put-here key_id (v ∷ values) keys)

put_or_pop-DistinctKeys :
    (key_id : String) (values : List String) (keys : Dict (List String))
    → DistinctKeys keys
    → DistinctKeys (put_or_pop key_id values keys)
put_or_pop-DistinctKeys key_id [] keys a = delete-DistinctKeys key_id keys a
put_or_pop-DistinctKeys key_id (v ∷ values) keys a = put-DistinctKeys key_id (v ∷ values) keys a

In-put_or_pop :
    (key_id j : String) (values ws : List String) (keys : Dict (List String))
    → In (j, ws) (put_or_pop key_id values keys)
    → (j ≡ key_id) ⊎ In (j, ws) keys
In-put_or_pop key_id j [] ws keys m = inr (In-delete key_id j ws keys m)
In-put_or_pop key_id j (v ∷ values) ws keys m = elim (In-put key_id j (v ∷ values) ws keys m) [
  | inl new ↦ inl new.0
  | inr old ↦ inr old
]

-- A key with a secret has an entry.
In-secrets_of :
    (key_id s : String) (keys : Dict (List String))
    → In s (secrets_of key_id keys)
    → In (key_id, secrets_of key_id keys) keys
In-secrets_of key_id s keys m = elim (Option-cases (get key_id keys)) [
  | inl absent ↦ absurd (rw absent at m)
  | inr (owned, found) ↦ rw found (In-of_get key_id owned keys found)
]

the_match-of_In :
    (secret : String) (matches : List String) → the_match matches ≡ ok secret → In secret matches
the_match-of_In secret [] h = cc
the_match-of_In secret (v ∷ []) h = inl (ground arith)
the_match-of_In secret (v ∷ w ∷ vs) h = cc

module _ (P : Conversions) (F : Files) where
  -- The keys of the disk without the secret of a known project with the fingerprint, the only one.
  abbrev pub WithoutSecret :
      String → String → Disk P F → Dict (List String) → Sources P F → String → Type 0
  WithoutSecret project_id key_id d keys sources secret =
      (read_sources P F d ≡ ok sources)
      × (has project_id sources.projects ≡ true)
      × (the_match (filter (has_fingerprint P F key_id) (secrets_of project_id sources.keys))
          ≡ ok secret)
      × (keys
          ≡ put_or_pop project_id (without secret (secrets_of project_id sources.keys))
              sources.keys)

  keys_without-eq-ok :
      (project_id key_id : String) (d : Disk P F) (keys : Dict (List String))
      → keys_without P F project_id key_id d ≡ ok keys
      → (sources : Sources P F) × (registry : FacadeKeyRegistry P) × (secret : String)
        × WithoutSecret project_id key_id d keys sources secret
        × (from_sources P sources.projects keys ≡ ok registry)
  unfolding keys_without
  keys_without-eq-ok project_id key_id d keys h =
      let (sources, read, h1) = >>=-eq-ok (read_sources P F d) _ h in
      let owned = secrets_of project_id sources.keys in
      let (_, known, h2) = >>=-eq-ok (guard (has project_id sources.projects) _) _ h1 in
      let (secret, matched, h3) =
        >>=-eq-ok (the_match (filter (has_fingerprint P F key_id) owned)) _ h2 in
      let left = put_or_pop project_id (without secret owned) sources.keys in
      let (registry, valid, h4) =
        >>=-eq-ok (validated (from_sources P sources.projects left)) _ h3 in
      let same : left ≡ keys = ground arith in
      (
        sources,
        registry,
        secret,
        (read, guard_passed _ _ known, matched, sym same),
        ap (from_sources P sources.projects) (sym same) ∙ validated-eq-ok _ valid,
      )

  module _ (id secret : String) (sources : Sources P F) (keys : Dict (List String))
      (registry : FacadeKeyRegistry P) (clean : AreStripped sources.keys)
      (owned : In secret (secrets_of id sources.keys))
      (left : keys ≡ put_or_pop id (without secret (secrets_of id sources.keys)) sources.keys)
      (valid : from_sources P sources.projects keys ≡ ok registry) where
    entry : IsStripped id × ((v : String) → In v (secrets_of id sources.keys) → IsSecret v)
    entry = clean.1 id (secrets_of id sources.keys) (In-secrets_of id secret sources.keys owned)

    is_left : secrets_of id keys ≡ without secret (secrets_of id sources.keys)
    is_left = rw left (secrets_of-put_or_pop id _ sources.keys)

    key_stripped : (j : String) (ws : List String) → In (j, ws) keys → strip j ≡ j
    key_stripped j ws m = elim (In-put_or_pop id j _ ws sources.keys (rw left at m)) [
      | inl same ↦ rw same entry.0
      | inr old ↦ (clean.1 j ws old).0
    ]

    listed_under :
        (j : String) (ws : List String) (v : String)
        → j ≡ id
        → In (j, ws) keys
        → In v ws
        → In v (secrets_of id keys)
    listed_under j ws v same m n =
        let distinct : DistinctKeys keys =
          rw left (put_or_pop-DistinctKeys id _ sources.keys clean.0) in
        rw (← same, get-of_In j ws keys distinct m) n

    revoked :
        (config : FacadeKeyConfig P)
        → resolve_secret P registry secret ≢ some (caller_of P id config)
    revoked config resolved =
        let m =
          resolve_secret-owner P sources.projects keys registry id secret config valid resolved in
        let (raw_key, raw_secrets, raw, at, named, at', same) =
          from_sources-origin P sources.projects keys registry id (strip secret) valid m in
        let is_key : raw_key ≡ id = sym (key_stripped raw_key raw_secrets at) ∙ named in
        let listed : In raw (secrets_of id keys) =
          listed_under raw_key raw_secrets raw is_key at at' in
        let (there, differs) = In-without raw secret _ (rw is_left at listed) in
        absurd (differs (sym (entry.1 raw there).0 ∙ same ∙ (entry.1 secret owned).0))

    still_resolves :
        (v : String)
        → In v (secrets_of id sources.keys)
        → v ≢ secret
        → (config : FacadeKeyConfig P) × (get id registry.configs ≡ some config)
          × (resolve_secret P registry v ≡ some (caller_of P id config))
    still_resolves v m differs =
        let there = In-without-of_In v secret (secrets_of id sources.keys) m differs in
        let at : In v (secrets_of id keys) = rw is_left there in
        let stays =
          resolve_secret-from_sources P sources.projects keys registry id v v (secrets_of id keys)
            valid (In-secrets_of id v keys at) at refl (rw (entry.1 v m).0 (entry.1 v m).1) in
        rw entry.0 at stays

  -- `revoke_key` either reports an error and leaves the files as others left them, or nobody had
  -- changed them since they were read and it writes the secrets alone, without the one secret of
  -- the project that has the fingerprint. The written sources make a registry in which that secret
  -- does not resolve to the project, with whatever configuration, and every other secret of the
  -- project still does. What the snapshot and the reply are is as for `create_key`.
  pub revoke_key_lem :
      (project_id key_id : String) (meanwhile : Disk P F → Disk P F) (m : Manager P F)
      → Refused P F meanwhile m (revoke_key P F project_id key_id meanwhile m)
        ⊎ ((keys : Dict (List String)) × (sources : Sources P F) × (registry : FacadeKeyRegistry P)
            × (secret : String) × Wrote P F tt meanwhile m keys
                (revoke_key P F project_id key_id meanwhile m)
            × WithoutSecret (strip project_id) (strip key_id) m.disk keys sources secret
            × (F.facade_key_id secret ≡ strip key_id)
            × (from_sources P sources.projects keys ≡ ok registry)
            × ((config : FacadeKeyConfig P)
                → resolve_secret P registry secret ≢ some (caller_of P (strip project_id) config))
            × ((v : String)
                → In v (secrets_of (strip project_id) sources.keys)
                → v ≢ secret
                → (config : FacadeKeyConfig P) × (get (strip project_id) registry.configs
                    ≡ some config)
                  × (resolve_secret P registry v ≡ some (caller_of P (strip project_id) config))))
  unfolding revoke_key
  revoke_key_lem project_id key_id meanwhile m =
      let id = strip project_id in
      let fingerprint = strip key_id in
      elim (Outcome-write_if_ok P F tt meanwhile (keys_without P F id fingerprint m.disk) m) [
        | inl refused ↦ inl refused
        | inr (keys, planned, wrote) ↦
            let (sources, registry, secret, left, valid) =
              keys_without-eq-ok id fingerprint m.disk keys planned in
            let (read, _, matched, same) = left in
            let (owned, found) =
              (In-filter (has_fingerprint P F fingerprint) secret (secrets_of id sources.keys)).0
                (the_match-of_In secret _ matched) in
            let clean = read_sources-AreStripped P F m.disk sources read in
            inr (
              keys,
              sources,
              registry,
              secret,
              wrote,
              left,
              (eq_iff (F.facade_key_id secret) fingerprint).0 found,
              valid,
              revoked id secret sources keys registry clean owned same valid,
              still_resolves id secret sources keys registry clean owned same valid,
            )
      ]
