-- ===== src/ProjectKeys/Projects/Plan.antt =====
-- What a deletion of a project has read and is going to write.
use smol_router.Prelude.{
  String, ◌≡◌, sym, ap, ◌∙◌, Dict, get, delete, get-delete, eq_iff, guard, >>=-eq-ok, true, none,
  arith, has, ok,
}
use smol_router.FacadeKeys.Values.{Conversions}
use smol_router.FacadeKeys.Registry.{FacadeKeyRegistry, from_sources}
use smol_router.FacadeKeys.Registry.Laws.{guard_passed}
use smol_router.ProjectKeys.Manager.Laws.{validated-eq-ok}
use smol_router.ProjectKeys.Sources.{Files, Disk, Sources, read_sources, validated}
use smol_router.ProjectKeys.Projects.{with_projects, Deletion, plan_deletion}

module _ (P : Conversions) (F : Files) where
  -- What a deletion plans from the disk that it reads: the project is there and is taken out of the
  -- routes and of the secrets, and the registry of what is left is valid.
  pub record IsPlan (project_id : String) (d : Disk P F) (deletion : Deletion P F) : Type 0 where
    pub sources : Sources P F
    pub registry : FacadeKeyRegistry P
    pub read : read_sources P F d ≡ ok sources
    pub listed : has project_id sources.projects ≡ true
    pub routes : deletion.routes ≡ with_projects (delete project_id sources.projects) sources.routes
    pub keys : deletion.keys ≡ delete project_id sources.keys
    pub old_keys : deletion.old_keys ≡ sources.keys
    pub gone : get project_id (delete project_id sources.projects) ≡ none
    pub no_secrets : get project_id deletion.keys ≡ none
    pub valid :
        from_sources P (delete project_id sources.projects) (delete project_id sources.keys)
        ≡ ok registry

  delete_gone {ℓ} : {V : Type ℓ} (key : String) (d : Dict V) → get key (delete key d) ≡ none
  delete_gone key d = ground (arith, get-delete key key d, eq_iff key key)

  pub plan_deletion-IsPlan :
      (project_id : String) (d : Disk P F) (deletion : Deletion P F)
      → plan_deletion P F project_id d ≡ ok deletion
      → IsPlan project_id d deletion
  unfolding plan_deletion
  plan_deletion-IsPlan project_id d deletion h =
      let (sources, read, h1) = >>=-eq-ok (read_sources P F d) _ h in
      let (_, known, h2) = >>=-eq-ok (guard (has project_id sources.projects) _) _ h1 in
      let projects = delete project_id sources.projects in
      let keys = delete project_id sources.keys in
      let (registry, valid, h3) = >>=-eq-ok (validated (from_sources P projects keys)) _ h2 in
      let planned : Deletion P F = record {
        routes = with_projects projects sources.routes;
        keys = keys;
        old_keys = sources.keys;
      } in
      let is : planned ≡ deletion = ground arith in
      record {
        sources = sources;
        registry = registry;
        read = read;
        listed = guard_passed _ _ known;
        routes = sym (ap (λ (x : Deletion P F). x.routes) is);
        keys = sym (ap (λ (x : Deletion P F). x.keys) is);
        old_keys = sym (ap (λ (x : Deletion P F). x.old_keys) is);
        gone = delete_gone project_id sources.projects;
        no_secrets =
            ap (λ (x : Deletion P F). get project_id x.keys) (sym is)
            ∙ delete_gone project_id sources.keys;
        valid = validated-eq-ok _ valid;
      }
