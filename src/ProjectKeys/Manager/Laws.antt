-- ===== src/ProjectKeys/Manager/Laws.antt =====
-- What `ProjectKeyManager` writes, and whom the written keys stand for.
use smol_router.Prelude.{
  String, ◌≡◌, refl, sym, ap, ◌⊎◌, inl, inr, true, false, not, Option, none, some, List, [], ◌∷◌,
  ◌++◌, arith, eq_iff, Dict, get, put, has, get-put, In, In-append, In-of_get, Bool-cases, Result,
  Result-cases, ok, err, guard, >>=-eq-ok,
}
use smol_router.Strategy.Names.{strip}
use smol_router.Strategy.Names.Strip.{strip-strip}
use smol_router.LoadBalancer.Names.{is_blank}
use smol_router.FacadeKeys.Values.{Conversions, FacadeKeyError}
use smol_router.FacadeKeys.Config.{FacadeKeyConfig}
use smol_router.FacadeKeys.Registry.{
  FacadeKeyRegistry, secrets_of, from_sources, caller_of, resolve_secret,
}
use smol_router.FacadeKeys.Registry.Laws.{guard_passed}
use smol_router.FacadeKeys.Registry.Sources.{resolve_secret-from_sources}
use smol_router.ProjectKeys.Sources.{
  Files, ManagerError, routes_changed, file_changed, validated, Disk, Sources, content_hash_of,
  read_sources,
}
use smol_router.ProjectKeys.Manager.{
  option_eq, Manager, read_registry, with_keys, same_routes, same_secrets, write_keys, is_taken,
  keys_with, write_if_ok, secret_or, create_key,
}

option_eq-eq : (s t : Option String) → option_eq s t ≡ true → s ≡ t
option_eq-eq none none h = refl
option_eq-eq none (some t) h = cc
option_eq-eq (some s) none h = cc
option_eq-eq (some s) (some t) h = ap some ((eq_iff s t).0 h)

pub validated-eq-ok :
    {A : Type 0} (r : Result FacadeKeyError A) {a : A} → validated r ≡ ok a → r ≡ ok a
validated-eq-ok (err e) h = cc
validated-eq-ok (ok a) h = ground arith

pub get-put-here :
    (k : String) (v : List String) (d : Dict (List String)) → get k (put k v d) ≡ some v
get-put-here k v d = ground (arith, get-put k k v d, eq_iff k k)

module _ (P : Conversions) (F : Files) where
  -- Neither file is another than the one that was read, as far as their digests tell.
  abbrev pub Unchanged : Disk P F → Disk P F → Type 0
  Unchanged d e =
      (content_hash_of P F e.routes_file ≡ content_hash_of P F d.routes_file)
      × (content_hash_of P F e.secrets_file ≡ content_hash_of P F d.secrets_file)

  -- The keys are on the disk, the routes are untouched, and the snapshot is what the disk gives:
  -- with it the reply, or an error and no snapshot.
  abbrev pub Wrote {ℓ} :
      {A : Type ℓ}
      → A
      → (Disk P F → Disk P F)
      → Manager P F
      → Dict (List String)
      → Result ManagerError A × Manager P F
      → Type ℓ
  Wrote reply meanwhile m keys out =
      Unchanged m.disk (meanwhile m.disk)
      × (out.1.disk ≡ (with_keys P F keys (meanwhile m.disk) m).disk)
      × (((out.0 ≡ ok reply)
            × ((registry : FacadeKeyRegistry P) × (out.1.snapshot ≡ some registry)
                × (read_registry P F out.1.disk ≡ ok registry)))
          ⊎ ((error : ManagerError) × (out.0 ≡ err error)
              × (out.1.snapshot ≡ none)
              × (read_registry P F out.1.disk ≡ err error)))

  -- An error, and the disk as the others left it.
  abbrev pub Refused {ℓ} :
      {A : Type ℓ}
      → (Disk P F → Disk P F)
      → Manager P F
      → Result ManagerError A × Manager P F
      → Type ℓ
  Refused meanwhile m out =
      ((error : ManagerError) × (out.0 ≡ err error)) × (out.1.disk ≡ meanwhile m.disk)

  Outcome-write_keys {ℓ} :
      {A : Type ℓ} (reply : A) (meanwhile : Disk P F → Disk P F) (keys : Dict (List String))
      (m : Manager P F)
      → Refused meanwhile m (write_keys P F reply meanwhile keys m)
        ⊎ Wrote reply meanwhile m keys (write_keys P F reply meanwhile keys m)
  unfolding write_keys
  Outcome-write_keys reply meanwhile keys m =
      elim (Bool-cases (same_routes P F m.disk (meanwhile m.disk))) [
        | inr changed ↦ rw changed (inl ((routes_changed, refl), refl))
        | inl routes ↦ elim (Bool-cases (same_secrets P F m.disk (meanwhile m.disk))) [
          | inr changed ↦ rw (routes, changed) (inl ((file_changed, refl), refl))
          | inl secrets ↦
              rw (routes, secrets)
                elim (Result-cases
                  (read_registry P F (with_keys P F keys (meanwhile m.disk) m).disk)) [
                    | inl (e, failed) ↦ rw failed (
                        inr (
                          (option_eq-eq _ _ routes, option_eq-eq _ _ secrets),
                          refl,
                          inr (e, refl, refl, failed),
                        ))
                    | inr (r, read) ↦ rw read (
                        inr (
                          (option_eq-eq _ _ routes, option_eq-eq _ _ secrets),
                          refl,
                          inl (refl, (r, refl, read)),
                        ))
                  ]
        ]
      ]

  pub Outcome-write_if_ok {ℓ} :
      {A : Type ℓ} (reply : A) (meanwhile : Disk P F → Disk P F)
      (planned : Result ManagerError (Dict (List String))) (m : Manager P F)
      → Refused meanwhile m (write_if_ok P F reply meanwhile planned m)
        ⊎ ((keys : Dict (List String)) × (planned ≡ ok keys)
            × Wrote reply meanwhile m keys (write_if_ok P F reply meanwhile planned m))
  Outcome-write_if_ok reply meanwhile (err e) m = inl ((e, refl), refl)
  Outcome-write_if_ok reply meanwhile (ok keys) m =
      elim (Outcome-write_keys reply meanwhile keys m) [
        | inl refused ↦ inl refused
        | inr wrote ↦ inr (keys, refl, wrote)
      ]

  -- The keys of the disk with a new secret of a known project, that no project had.
  abbrev pub WithSecret : String → String → Disk P F → Dict (List String) → Sources P F → Type 0
  WithSecret project_id secret d keys sources =
      (read_sources P F d ≡ ok sources)
      × (has project_id sources.projects ≡ true)
      × (is_taken secret sources.keys ≡ false)
      × (keys ≡ put project_id (secrets_of project_id sources.keys ++ (secret ∷ [])) sources.keys)

  keys_with-eq-ok :
      (project_id secret : String) (d : Disk P F) (keys : Dict (List String))
      → keys_with P F project_id secret d ≡ ok keys
      → (sources : Sources P F) × (registry : FacadeKeyRegistry P) × WithSecret project_id secret d
          keys sources
        × (from_sources P sources.projects keys ≡ ok registry)
  unfolding keys_with
  keys_with-eq-ok project_id secret d keys h =
      let (sources, read, h1) = >>=-eq-ok (read_sources P F d) _ h in
      let (_, known, h2) = >>=-eq-ok (guard (has project_id sources.projects) _) _ h1 in
      let (_, free, h3) = >>=-eq-ok (guard (not (is_taken secret sources.keys)) _) _ h2 in
      let added =
        put project_id (secrets_of project_id sources.keys ++ (secret ∷ [])) sources.keys in
      let (registry, valid, h4) =
        >>=-eq-ok (validated (from_sources P sources.projects added)) _ h3 in
      let same : added ≡ keys = ground arith in
      (
        sources,
        registry,
        (
          read,
          guard_passed _ _ known,
          (let passed = guard_passed _ _ free in ground arith),
          sym same,
        ),
        rw (← same) (validated-eq-ok _ valid),
      )

  added_secret-resolves :
      (project_id id secret : String) (sources : Sources P F) (keys : Dict (List String))
      (registry : FacadeKeyRegistry P)
      → strip project_id ≡ id
      → is_blank (strip secret) ≡ false
      → keys ≡ put project_id (secrets_of project_id sources.keys ++ (secret ∷ [])) sources.keys
      → from_sources P sources.projects keys ≡ ok registry
      → (config : FacadeKeyConfig P) × (get id registry.configs ≡ some config)
        × (resolve_secret P registry secret ≡ some (caller_of P id config))
  added_secret-resolves project_id id secret sources keys registry is_id kept same valid =
      let owned = secrets_of project_id sources.keys ++ (secret ∷ []) in
      let there : In (project_id, owned) keys =
        In-of_get project_id owned keys (rw same (get-put-here project_id owned sources.keys)) in
      let last : In secret owned =
        (In-append secret (secrets_of project_id sources.keys) (secret ∷ [])).1 (inr (inl refl)) in
      rw (← is_id) (
        resolve_secret-from_sources P sources.projects keys registry project_id secret secret owned
          valid there last refl kept)

  -- `create_key` either reports an error and leaves the files as others left them, or nobody had
  -- changed them since they were read and it writes the secrets alone: those that were there and
  -- the new one, which no project had, under the project, which the routes know. The written
  -- sources make a registry in which the new secret resolves to the project. The reply is the
  -- secret with its fingerprint if the disk, read again, makes a registry, which is the snapshot
  -- from then on, and that reading's error if not. The new secret is the given one, or the
  -- generated one for none, and not blank.
  pub create_key_lem :
      (project_id secret generated : String) (meanwhile : Disk P F → Disk P F) (m : Manager P F)
      → is_blank (strip (secret_or secret generated)) ≡ false
      → Refused meanwhile m (create_key P F project_id secret generated meanwhile m)
        ⊎ ((keys : Dict (List String)) × (sources : Sources P F) × (registry : FacadeKeyRegistry P)
            × (config : FacadeKeyConfig P) × Wrote
                (secret_or secret generated, F.facade_key_id (secret_or secret generated))
                meanwhile
                m
                keys
                (create_key P F project_id secret generated meanwhile m)
            × WithSecret (strip project_id) (secret_or secret generated) m.disk keys sources
            × (from_sources P sources.projects keys ≡ ok registry)
            × (get (strip project_id) registry.configs ≡ some config)
            × (resolve_secret P registry (secret_or secret generated)
                ≡ some (caller_of P (strip project_id) config)))
  unfolding create_key
  create_key_lem project_id secret generated meanwhile m kept =
      let new_secret = secret_or secret generated in
      let reply : String × String = (new_secret, F.facade_key_id new_secret) in
      let id = strip project_id in
      elim (Outcome-write_if_ok reply meanwhile (keys_with P F id new_secret m.disk) m) [
        | inl refused ↦ inl refused
        | inr (keys, planned, wrote) ↦
            let (sources, registry, added, valid) =
              keys_with-eq-ok id new_secret m.disk keys planned in
            let (_, _, _, same) = added in
            let (config, found, resolved) =
              added_secret-resolves id id new_secret sources keys registry (strip-strip project_id)
                kept same valid in
            inr (keys, sources, registry, config, wrote, added, valid, found, resolved)
      ]
