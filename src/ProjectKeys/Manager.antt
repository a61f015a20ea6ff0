-- ===== src/ProjectKeys/Manager.antt =====
-- smolrouter/project_key_manager.py: `ProjectKeyManager`, under its lock. Another program may still
-- write to the files, once, between the reading and the writing.
pub mod Laws
pub mod Revoke
use smol_router.Prelude.{
  ℕ, String, Bool, true, false, not, ◌&&◌, ◌||◌, ◌==◌, Option, none, some, List, [], ◌∷◌, ◌++◌,
  str_eq, if◌then◌else◌, any, filter, is_empty, length, leb, Dict, get, put, delete, has, or_else,
  Result, ok, err, ◌>>=◌, ◌>>◌, guard, is_some,
}
use Prim.Native.String
use smol_router.Strategy.Names.{strip}
use smol_router.FacadeKeys.Values.{Conversions}
use smol_router.FacadeKeys.Registry.{FacadeKeyRegistry, from_sources, secrets_of}
use smol_router.ProjectKeys.Sources.{
  Files, ManagerError, project_not_found, key_not_found, key_exists, ambiguous_fingerprint,
  routes_changed, file_changed, validated, Disk, Sources, content_hash_of, read_sources,
}

abbrev pub option_eq : Option String → Option String → Bool
option_eq none none = true
option_eq none (some t) = false
option_eq (some s) none = false
option_eq (some s) (some t) = str_eq s t

-- `values` under the key, or no key for none
abbrev pub put_or_pop : String → List String → Dict (List String) → Dict (List String)
put_or_pop project_id [] keys = delete project_id keys
put_or_pop project_id (v ∷ values) keys = put project_id (v ∷ values) keys

abbrev pub the_match : List String → Result ManagerError String
the_match [] = err key_not_found
the_match (v ∷ []) = ok v
the_match (v ∷ w ∷ vs) = err ambiguous_fingerprint

abbrev pub is_taken : String → Dict (List String) → Bool
is_taken secret keys = any (λ e. any (str_eq secret) e.1) keys

-- `secret or generate_facade_key_secret()`
abbrev pub secret_or : String → String → String
secret_or secret generated = if str_eq secret "" then generated else secret

abbrev pub without : String → List String → List String
without secret values = filter (λ value. not (str_eq value secret)) values

module _ (P : Conversions) (F : Files) where
  open F use {dump_keys, facade_key_id}

  pub record Manager : Type 0 where
    pub disk : Disk P F
    pub snapshot : Option (FacadeKeyRegistry P)
    -- `_CACHED_FACADE_KEYS`
    pub cached_keys : Option (Dict (List String))

  abbrev pub install_snapshot :
      Manager
      → Result ManagerError (FacadeKeyRegistry P)
      → Result ManagerError (FacadeKeyRegistry P) × Manager
  install_snapshot m (err e) =
      (err e, record { disk = m.disk; snapshot = none; cached_keys = m.cached_keys })
  install_snapshot m (ok r) =
      (ok r, record { disk = m.disk; snapshot = some r; cached_keys = m.cached_keys })

  unfoldable pub read_registry : Disk P F → Result ManagerError (FacadeKeyRegistry P)
  read_registry d = do
    sources ← read_sources P F d
    validated (from_sources P sources.projects sources.keys)

  -- The lock is held and nothing else writes, so the first reading is stable.
  abbrev pub reload_snapshot_from_disk :
      Manager → Result ManagerError (FacadeKeyRegistry P) × Manager
  reload_snapshot_from_disk m = install_snapshot m (read_registry m.disk)

  abbrev pub on_disk : Disk P F → Manager → Manager
  on_disk d m = record { disk = d; snapshot = m.snapshot; cached_keys = m.cached_keys }

  -- The manager with new keys on the disk, before it reloads.
  abbrev pub with_keys : Dict (List String) → Disk P F → Manager → Manager
  with_keys keys d m = record {
    disk = record { routes_file = d.routes_file; secrets_file = some (dump_keys keys) };
    snapshot = m.snapshot;
    cached_keys = none;
  }

  abbrev pub reply_with {ℓ κ} :
      {A : Type ℓ} {B : Type κ}
      → B
      → Result ManagerError A × Manager
      → Result ManagerError B × Manager
  reply_with b (err e, m) = (err e, m)
  reply_with b (ok a, m) = (ok b, m)

  abbrev pub same_routes : Disk P F → Disk P F → Bool
  same_routes d e =
      option_eq (content_hash_of P F e.routes_file) (content_hash_of P F d.routes_file)

  abbrev pub same_secrets : Disk P F → Disk P F → Bool
  same_secrets d e =
      option_eq (content_hash_of P F e.secrets_file) (content_hash_of P F d.secrets_file)

  -- The end of `create_key` and of `revoke_key`: the files are as they were read, then the keys
  -- are written and the snapshot is taken from the disk.
  unfoldable pub write_keys {ℓ} :
      {A : Type ℓ}
      → A
      → (Disk P F → Disk P F)
      → Dict (List String)
      → Manager
      → Result ManagerError A × Manager
  write_keys reply meanwhile keys m =
      let d = meanwhile m.disk in
      let written = reply_with reply (reload_snapshot_from_disk (with_keys keys d m)) in
      if not (same_routes m.disk d)
      then (err routes_changed, on_disk d m)
      else if not (same_secrets m.disk d)
      then (err file_changed, on_disk d m)
      else written

  -- The keys to write, from what is on the disk.
  unfoldable pub keys_with : String → String → Disk P F → Result ManagerError (Dict (List String))
  keys_with project_id secret d = do
    sources ← read_sources P F d
    guard (has project_id sources.projects) project_not_found
    guard (not (is_taken secret sources.keys)) key_exists
    let keys = put project_id (secrets_of project_id sources.keys ++ (secret ∷ [])) sources.keys
    registry ← validated (from_sources P sources.projects keys)
    ok keys

  abbrev pub write_if_ok {ℓ} :
      {A : Type ℓ}
      → A
      → (Disk P F → Disk P F)
      → Result ManagerError (Dict (List String))
      → Manager
      → Result ManagerError A × Manager
  write_if_ok reply meanwhile (err e) m = (err e, on_disk (meanwhile m.disk) m)
  write_if_ok reply meanwhile (ok keys) m = write_keys reply meanwhile keys m

  -- `create_key`, with the text that the generator would give
  unfoldable pub create_key :
      String
      → String
      → String
      → (Disk P F → Disk P F)
      → Manager
      → Result ManagerError (String × String) × Manager
  create_key project_id secret generated meanwhile m =
      let new_secret = secret_or secret generated in
      write_if_ok (new_secret, facade_key_id new_secret) meanwhile
        (keys_with (strip project_id) new_secret m.disk) m

  abbrev pub has_fingerprint : String → String → Bool
  has_fingerprint key_id value = str_eq (facade_key_id value) key_id

  unfoldable pub keys_without :
      String → String → Disk P F → Result ManagerError (Dict (List String))
  keys_without project_id key_id d = do
    sources ← read_sources P F d
    guard (has project_id sources.projects) project_not_found
    let owned = secrets_of project_id sources.keys
    secret ← the_match (filter (has_fingerprint key_id) owned)
    let keys = put_or_pop project_id (without secret owned) sources.keys
    registry ← validated (from_sources P sources.projects keys)
    ok keys

  unfoldable pub revoke_key :
      String → String → (Disk P F → Disk P F) → Manager → Result ManagerError (Unit {0}) × Manager
  revoke_key project_id key_id meanwhile m =
      write_if_ok tt meanwhile (keys_without (strip project_id) (strip key_id) m.disk) m
