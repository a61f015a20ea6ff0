-- ===== src/ProjectKeys/Projects/Create.antt =====
-- What the creation of a project leaves on the disk, and in the snapshot.
use smol_router.Prelude.{
  String, ◌≡◌, refl, sym, ap, ◌∙◌, ◌⊎◌, inl, inr, true, false, not, ◌&&◌, Option, arith, str_eq,
  eq_iff, Dict, put, has, Bool-cases, Result, Result-cases, ok, err, guard, >>=-eq-ok,
}
use smol_router.Value.{Value, mapping, fields_of}
use smol_router.Strategy.Names.{strip}
use smol_router.FacadeKeys.Values.{Conversions}
use smol_router.FacadeKeys.Registry.{FacadeKeyRegistry, from_sources}
use smol_router.FacadeKeys.Registry.Laws.{guard_passed}
use smol_router.ProjectKeys.Sources.{
  Files, ManagerError, file_changed, validated, Disk, Sources, read_sources,
}
use smol_router.ProjectKeys.Ids.{validate_project_id, matches_project_id, has_invalid_project_path}
use smol_router.ProjectKeys.Manager.{Manager, reload_snapshot_from_disk, on_disk, same_routes}
use smol_router.ProjectKeys.Manager.Laws.{validated-eq-ok}
use smol_router.ProjectKeys.ProjectConfig.{project_config}
use smol_router.ProjectKeys.Projects.{
  with_projects, with_routes, routes_with, write_routes, create_project,
}
use smol_router.ProjectKeys.Projects.Recovery.{IsFresh, reload-IsFresh, reply_with-manager}

validate_project_id-eq-ok :
    (raw_value id : String)
    → validate_project_id raw_value ≡ ok id
    → (id ≡ raw_value)
      × (strip raw_value ≡ raw_value)
      × (matches_project_id raw_value ≡ true)
      × (has_invalid_project_path raw_value ≡ false)
unfolding validate_project_id
validate_project_id-eq-ok raw_value id h =
    elim (Bool-cases (
      str_eq raw_value (strip raw_value)
      && matches_project_id (strip raw_value)
      && not (has_invalid_project_path (strip raw_value)))) [
        | inl valid ↦
            let is_id = rw valid at h in
            let trimmed : str_eq raw_value (strip raw_value) ≡ true = ground arith in
            let same : strip raw_value ≡ raw_value =
              sym ((eq_iff raw_value (strip raw_value)).0 trimmed) in
            let tests = rw same at valid in
            (
              (let e : strip raw_value ≡ id = ground arith in sym e ∙ same),
              same,
              ground arith,
              ground arith,
            )
        | inr invalid ↦ absurd (let clash = rw invalid at h in cc)
      ]

module _ (P : Conversions) (F : Files) where
  -- The routes of the disk with a new project, which they did not have, and what they make.
  abbrev pub WithProject :
      String → Dict Value → Disk P F → Dict Value → Sources P F → FacadeKeyRegistry P → Type 0
  WithProject project_id config d routes sources registry =
      (read_sources P F d ≡ ok sources)
      × (has project_id sources.projects ≡ false)
      × (from_sources P (put project_id (mapping (fields_of config)) sources.projects) sources.keys
          ≡ ok registry)
      × (routes
          ≡ with_projects (put project_id (mapping (fields_of config)) sources.projects)
              sources.routes)

  routes_with-eq-ok :
      (project_id : String) (config routes : Dict Value) (d : Disk P F)
      → routes_with P F project_id config d ≡ ok routes
      → (sources : Sources P F) × (registry : FacadeKeyRegistry P) × WithProject project_id config d
          routes sources registry
  unfolding routes_with
  routes_with-eq-ok project_id config routes d h =
      let (sources, read, h1) = >>=-eq-ok (read_sources P F d) _ h in
      let (_, free, h2) = >>=-eq-ok (guard (not (has project_id sources.projects)) _) _ h1 in
      let projects = put project_id (mapping (fields_of config)) sources.projects in
      let (registry, valid, h3) =
        >>=-eq-ok (validated (from_sources P projects sources.keys)) _ h2 in
      (
        sources,
        registry,
        (
          read,
          (let passed = guard_passed _ _ free in ground arith),
          validated-eq-ok _ valid,
          (let same : with_projects projects sources.routes ≡ routes = ground arith in sym same),
        ),
      )

  -- The routes were as they had been read, and are the given ones now.
  abbrev pub WroteRoutes {ℓ} :
      {A : Type ℓ}
      → (Disk P F → Disk P F)
      → Manager P F
      → Dict Value
      → Result ManagerError A × Manager P F
      → Type 0
  WroteRoutes meanwhile m routes out =
      (same_routes P F m.disk (meanwhile m.disk) ≡ true)
      × (out.1.disk ≡ with_routes P F routes (meanwhile m.disk))
      × IsFresh P F out.1

  -- An error, over a disk that is as it was or as others left it.
  abbrev pub WroteNothing {ℓ} :
      {A : Type ℓ}
      → (Disk P F → Disk P F)
      → Manager P F
      → Result ManagerError A × Manager P F
      → Type ℓ
  WroteNothing meanwhile m out =
      ((e : ManagerError) × (out.0 ≡ err e))
      × ((out.1.disk ≡ m.disk) ⊎ (out.1.disk ≡ meanwhile m.disk))

  Outcome-write_routes :
      {A : Type 0} (reply : A) (meanwhile : Disk P F → Disk P F)
      (planned : Result ManagerError (Dict Value)) (m : Manager P F)
      → WroteNothing meanwhile m (write_routes P F reply meanwhile planned m)
        ⊎ ((routes : Dict Value) × (planned ≡ ok routes)
            × WroteRoutes meanwhile m routes (write_routes P F reply meanwhile planned m))
  Outcome-write_routes reply meanwhile (err e) m = inl ((e, refl), inr refl)
  Outcome-write_routes {A = A} reply meanwhile (ok routes) m =
      let d = meanwhile m.disk in
      elim (Bool-cases (same_routes P F m.disk d)) [
        | inr changed ↦ rw changed (inl ((file_changed, refl), inr refl))
        | inl same ↦
            let m' = on_disk P F (with_routes P F routes d) m in
            let (fresh, kept) = reload-IsFresh P F m' in
            let unchanged =
              reply_with-manager P F {A = FacadeKeyRegistry P} {B = A} reply
                (reload_snapshot_from_disk P F m') in
            rw same (inr (routes, refl, (refl, rw (unchanged, kept) refl, rw unchanged fresh)))
      ]

  -- `create_project` either reports an error and writes nothing, or the routes were as it had read
  -- them and it writes them alone, with a project of the given id, which they did not have. The
  -- id is one that the pattern matches, with no blank around it and no path that leaves its place,
  -- and the sources with the project make a registry. The snapshot is what the disk now gives, or
  -- there is none.
  pub create_project_lem :
      (project_id : String) (display_name tags : Option Value) (meanwhile : Disk P F → Disk P F)
      (m : Manager P F)
      → WroteNothing meanwhile m (create_project P F project_id display_name tags meanwhile m)
        ⊎ ((config routes : Dict Value) × (sources : Sources P F) × (registry : FacadeKeyRegistry P)
            × ((strip project_id ≡ project_id)
                × (matches_project_id project_id ≡ true)
                × (has_invalid_project_path project_id ≡ false))
            × (project_config display_name tags ≡ ok config)
            × WithProject project_id config m.disk routes sources registry
            × WroteRoutes meanwhile m routes
                (create_project P F project_id display_name tags meanwhile m))
  unfolding create_project
  create_project_lem project_id display_name tags meanwhile m =
      elim (Result-cases (validate_project_id project_id)) [
        | inl (e, invalid) ↦ rw invalid (inl ((e, refl), inl refl))
        | inr (id, valid) ↦ elim (Result-cases (project_config display_name tags)) [
          | inl (e, invalid) ↦ rw (valid, invalid) (inl ((e, refl), inl refl))
          | inr (config, is_config) ↦
              let (same, trimmed, matched, inside) =
                validate_project_id-eq-ok project_id id valid in
              let valid' : validate_project_id project_id ≡ ok project_id = valid ∙ ap ok same in
              let planned = routes_with P F project_id config m.disk in
              let reply : String × Dict Value = (project_id, config) in
              elim (Outcome-write_routes reply meanwhile planned m) [
                | inl nothing ↦ rw (valid', is_config) (inl nothing)
                | inr (routes, is_ok, wrote) ↦
                    let (sources, registry, with_project) =
                      routes_with-eq-ok project_id config routes m.disk is_ok in
                    rw (valid', is_config)
                      (inr (
                        config,
                        routes,
                        sources,
                        registry,
                        (trimmed, matched, inside),
                        refl,
                        with_project,
                        wrote,
                      ))
              ]
        ]
      ]
