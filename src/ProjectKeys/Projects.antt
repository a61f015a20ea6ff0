-- ===== src/ProjectKeys/Projects.antt =====
-- smolrouter/project_key_manager.py: `create_project`, and `delete_project` with its recovery. Another
-- program may write to the files between the reading and the first write, and between the two
-- writes of a deletion. The look at a file's digest and the replacement of the file are one step: a
-- write by another program just between these two is not modelled.
pub mod Plan
pub mod Recovery
pub mod Laws
pub mod Create
use smol_router.Prelude.{
  ℕ, zero, suc, String, Bool, true, false, not, ◌&&◌, ◌||◌, ◌==◌, Option, none, some, List, [], ◌∷◌,
  str_eq, if◌then◌else◌, any, is_empty, length, leb, map, Dict, get, put, delete, has, Result, ok,
  err, ◌>>=◌, ◌>>◌, guard,
}
use smol_router.Value.{
  Value, Values, null, bool, int, negative, text, array, mapping, other, nil, cons, fields_of,
}
use smol_router.Strategy.Names.{strip}
use smol_router.LoadBalancer.Names.{is_blank}
use smol_router.FacadeKeys.Values.{Conversions, list_of}
use smol_router.FacadeKeys.Registry.{FacadeKeyRegistry, from_sources}
use smol_router.ProjectKeys.Sources.{
  Files, ManagerError, invalid_display_name, invalid_tag, invalid_tags, tags_not_unique,
  project_not_found, project_exists, recovery_failed, file_changed, or_fail, validated,
  has_duplicates, Disk, Sources, content_hash_of, read_sources,
}
use smol_router.ProjectKeys.Ids.{text_length, validate_project_id}
use smol_router.ProjectKeys.Manager.{
  Manager, read_registry, install_snapshot, reload_snapshot_from_disk, on_disk, reply_with,
  same_routes, same_secrets,
}
use smol_router.ProjectKeys.ProjectConfig.{project_config}

-- The routes with other projects.
abbrev pub with_projects : Dict Value → Dict Value → Dict Value
with_projects projects routes = put "facade_keys" (mapping (fields_of projects)) routes

module _ (P : Conversions) (F : Files) where
  open F use {dump, dump_keys}

  abbrev pub with_routes : Dict Value → Disk P F → Disk P F
  with_routes routes d = record d { routes_file = some (dump routes) }

  abbrev pub with_secrets : Dict (List String) → Disk P F → Disk P F
  with_secrets keys d = record d { secrets_file = some (dump_keys keys) }

  unfoldable pub routes_with : String → Dict Value → Disk P F → Result ManagerError (Dict Value)
  routes_with project_id config d = do
    sources ← read_sources P F d
    guard (not (has project_id sources.projects)) project_exists
    let projects = put project_id (mapping (fields_of config)) sources.projects
    registry ← validated (from_sources P projects sources.keys)
    ok (with_projects projects sources.routes)

  abbrev pub write_routes {ℓ} :
      {A : Type ℓ}
      → A
      → (Disk P F → Disk P F)
      → Result ManagerError (Dict Value)
      → Manager P F
      → Result ManagerError A × Manager P F
  write_routes reply meanwhile (err e) m = (err e, on_disk P F (meanwhile m.disk) m)
  write_routes reply meanwhile (ok routes) m =
      let d = meanwhile m.disk in
      let written =
        reply_with P F reply
          (reload_snapshot_from_disk P F (on_disk P F (with_routes routes d) m)) in
      if same_routes P F m.disk d then written else (err file_changed, on_disk P F d m)

  abbrev pub create_valid :
      (Disk P F → Disk P F)
      → Manager P F
      → Result ManagerError (String × Dict Value)
      → Result ManagerError (String × Dict Value) × Manager P F
  create_valid meanwhile m (err e) = (err e, m)
  create_valid meanwhile m (ok (project_id, config)) =
      write_routes (project_id, config) meanwhile (routes_with project_id config m.disk) m

  -- `create_project`; the arguments are checked before the lock is taken
  unfoldable pub create_project :
      String
      → Option Value
      → Option Value
      → (Disk P F → Disk P F)
      → Manager P F
      → Result ManagerError (String × Dict Value) × Manager P F
  create_project project_id display_name tags meanwhile m = create_valid meanwhile m (do
    valid_id ← validate_project_id project_id
    config ← project_config display_name tags
    ok (valid_id, config))

  -- What a deletion writes, and what it may have to restore.
  pub record Deletion : Type 0 where
    pub routes : Dict Value
    pub keys : Dict (List String)
    pub old_keys : Dict (List String)

  -- `keys != old_keys`, where `keys` is without the project
  abbrev pub wrote_keys : String → Deletion → Bool
  wrote_keys project_id deletion = has project_id deletion.old_keys

  unfoldable pub plan_deletion : String → Disk P F → Result ManagerError Deletion
  plan_deletion project_id d = do
    sources ← read_sources P F d
    guard (has project_id sources.projects) project_not_found
    let projects = delete project_id sources.projects
    let keys = delete project_id sources.keys
    registry ← validated (from_sources P projects keys)
    ok (record {
      routes = with_projects projects sources.routes;
      keys = keys;
      old_keys = sources.keys;
    })

  abbrev pub replace_routes :
      Disk P F → Dict Value → Disk P F → Result ManagerError (Unit {0}) × Disk P F
  replace_routes read routes d =
      if same_routes P F read d then (ok tt, with_routes routes d) else (err file_changed, d)

  -- The two writes, each of which looks at its file first.
  unfoldable pub write_deletion :
      String
      → Deletion
      → (Disk P F → Disk P F)
      → Disk P F
      → Disk P F
      → Result ManagerError (Unit {0}) × Disk P F
  write_deletion project_id deletion between_writes read d =
      let after_keys =
        replace_routes read deletion.routes (between_writes (with_secrets deletion.keys d)) in
      if not (wrote_keys project_id deletion)
      then replace_routes read deletion.routes (between_writes d)
      else if same_secrets P F read d
      then after_keys
      else (err file_changed, d)

  abbrev pub restored : String → Deletion → Sources P F → Disk P F → Disk P F
  restored project_id deletion sources d =
      if wrote_keys project_id deletion && has project_id sources.projects
      then with_secrets deletion.old_keys d
      else d

  -- The original error once the snapshot is that of the disk, else the recovery's own.
  abbrev pub fail_with {ℓ} :
      {A : Type ℓ}
      → ManagerError
      → Result ManagerError (FacadeKeyRegistry P) × Manager P F
      → Result ManagerError A × Manager P F
  fail_with e (err _, m) = (err recovery_failed, m)
  fail_with e (ok r, m) = (err e, m)

  -- `_recover_after_delete_failure`, when nobody else writes any more
  unfoldable pub recover_after_delete_failure :
      String → Deletion → ManagerError → Manager P F → Result ManagerError (Unit {0}) × Manager P F
  recover_after_delete_failure project_id deletion e m = elim (read_sources P F m.disk) [
    | err _ ↦ (err recovery_failed, record m { snapshot = none })
    | ok sources ↦ fail_with e (
        reload_snapshot_from_disk P F (on_disk P F (restored project_id deletion sources m.disk) m))
  ]

  abbrev pub after_writes :
      String
      → Deletion
      → Manager P F
      → Result ManagerError (Unit {0}) × Disk P F
      → Result ManagerError (Unit {0}) × Manager P F
  after_writes project_id deletion m (err e, d) =
      recover_after_delete_failure project_id deletion e (on_disk P F d m)
  after_writes project_id deletion m (ok done, d) =
      reply_with P F tt (reload_snapshot_from_disk P F (record m { disk = d; cached_keys = none }))

  abbrev pub carry_out :
      String
      → (Disk P F → Disk P F)
      → (Disk P F → Disk P F)
      → Manager P F
      → Result ManagerError Deletion
      → Result ManagerError (Unit {0}) × Manager P F
  carry_out project_id meanwhile between_writes m (err e) =
      (err e, on_disk P F (meanwhile m.disk) m)
  carry_out project_id meanwhile between_writes m (ok deletion) =
      after_writes project_id deletion m
        (write_deletion project_id deletion between_writes m.disk (meanwhile m.disk))

  unfoldable pub delete_project :
      String
      → (Disk P F → Disk P F)
      → (Disk P F → Disk P F)
      → Manager P F
      → Result ManagerError (Unit {0}) × Manager P F
  delete_project project_id meanwhile between_writes m =
      let id = strip project_id in carry_out id meanwhile between_writes m (plan_deletion id m.disk)
