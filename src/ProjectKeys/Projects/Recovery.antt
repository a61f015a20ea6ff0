-- ===== src/ProjectKeys/Projects/Recovery.antt =====
-- A deletion that fails: what its recovery leaves on the disk, and in the snapshot.
use smol_router.Prelude.{
  String, ◌≡◌, refl, ap, ◌⊎◌, inl, inr, true, ◌&&◌, none, some, arith, has, Bool-cases, Result,
  Result-cases, ok, err,
}
use smol_router.FacadeKeys.Values.{Conversions}
use smol_router.FacadeKeys.Registry.{FacadeKeyRegistry}
use smol_router.ProjectKeys.Sources.{
  Files, ManagerError, recovery_failed, Disk, Sources, read_sources,
}
use smol_router.ProjectKeys.Manager.{
  Manager, read_registry, reload_snapshot_from_disk, on_disk, reply_with,
}
use smol_router.ProjectKeys.Projects.{
  with_secrets, Deletion, wrote_keys, restored, fail_with, recover_after_delete_failure,
}

module _ (P : Conversions) (F : Files) where
  -- The snapshot is what the disk gives, or there is none.
  abbrev pub IsFresh : Manager P F → Type 0
  IsFresh m =
      ((registry : FacadeKeyRegistry P) × (m.snapshot ≡ some registry)
        × (read_registry P F m.disk ≡ ok registry))
      ⊎ (m.snapshot ≡ none)

  pub reload-IsFresh :
      (m : Manager P F)
      → IsFresh (reload_snapshot_from_disk P F m).1
        × ((reload_snapshot_from_disk P F m).1.disk ≡ m.disk)
  reload-IsFresh m = elim (Result-cases (read_registry P F m.disk)) [
    | inl (e, failed) ↦ rw failed (inr refl, refl)
    | inr (r, read) ↦ rw read (inl (r, refl, read), refl)
  ]

  pub reply_with-manager {ℓ κ} :
      {A : Type ℓ} {B : Type κ} (b : B) (out : Result ManagerError A × Manager P F)
      → (reply_with P F b out).1 ≡ out.1
  reply_with-manager b (err e, m) = refl
  reply_with-manager b (ok a, m) = refl

  fail_with-err {ℓ} :
      {A : Type ℓ} (e : ManagerError)
      (out : Result ManagerError (FacadeKeyRegistry P) × Manager P F)
      → ((e' : ManagerError) × ((fail_with P F {A = A} e out).0 ≡ err e'))
        × ((fail_with P F {A = A} e out).1 ≡ out.1)
  fail_with-err e (err e', m) = ((recovery_failed, refl), refl)
  fail_with-err e (ok r, m) = ((e, refl), refl)

  -- The project had secrets, and the routes on the disk still have it.
  abbrev pub ShouldRestore : String → Deletion P F → Disk P F → Type 0
  ShouldRestore project_id deletion d =
      (has project_id deletion.old_keys ≡ true)
      × (sources : Sources P F) × (read_sources P F d ≡ ok sources)
      × (has project_id sources.projects ≡ true)

  -- A disk that is left, but for the old secrets just where they should be restored.
  abbrev pub Leaves : String → Deletion P F → Disk P F → Disk P F → Type 0
  Leaves project_id deletion d d' =
      (ShouldRestore project_id deletion d × (d' ≡ with_secrets P F deletion.old_keys d))
      ⊎ ((¬ ShouldRestore project_id deletion d) × (d' ≡ d))

  -- A failure, reported, over a disk that is left.
  abbrev pub Fails :
      String → Deletion P F → Disk P F → Result ManagerError (Unit {0}) × Manager P F → Type 0
  Fails project_id deletion d out =
      ((e : ManagerError) × (out.0 ≡ err e))
      × Leaves project_id deletion d out.1.disk
      × IsFresh out.1

  restored-Leaves :
      (project_id : String) (deletion : Deletion P F) (sources : Sources P F) (d : Disk P F)
      → read_sources P F d ≡ ok sources
      → Leaves project_id deletion d (restored P F project_id deletion sources d)
  restored-Leaves project_id deletion sources d read =
      elim (Bool-cases (wrote_keys P F project_id deletion && has project_id sources.projects)) [
        | inl restores ↦ rw restores (inl ((ground arith, sources, read, ground arith), refl))
        | inr leaves ↦ rw leaves (
            inr (
              (λ (owned, sources', read', listed).
                  let same : sources' ≡ sources = ground arith in
                  let there = ap (λ (x : Sources P F). has project_id x.projects) same in
                  ground arith),
              refl,
            ))
      ]

  recover_unreadable :
      (project_id : String) (deletion : Deletion P F) (e failed : ManagerError) (m : Manager P F)
      → read_sources P F m.disk ≡ err failed
      → recover_after_delete_failure P F project_id deletion e m
        ≡ (err recovery_failed, record m { snapshot = none })
  unfolding recover_after_delete_failure
  recover_unreadable project_id deletion e failed m is_err =
      rw (recover_after_delete_failure, is_err) refl

  recover_readable :
      (project_id : String) (deletion : Deletion P F) (e : ManagerError) (sources : Sources P F)
      (m : Manager P F)
      → read_sources P F m.disk ≡ ok sources
      → recover_after_delete_failure P F project_id deletion e m
        ≡ fail_with P F e (
            reload_snapshot_from_disk P F
              (on_disk P F (restored P F project_id deletion sources m.disk) m))
  unfolding recover_after_delete_failure
  recover_readable project_id deletion e sources m is_ok =
      rw (recover_after_delete_failure, is_ok) refl

  pub recover-Fails :
      (project_id : String) (deletion : Deletion P F) (e : ManagerError) (m : Manager P F)
      → Fails project_id deletion m.disk (recover_after_delete_failure P F project_id deletion e m)
  recover-Fails project_id deletion e m = elim (Result-cases (read_sources P F m.disk)) [
    | inl (failed, is_err) ↦
        rw (recover_unreadable project_id deletion e failed m is_err)
          ((recovery_failed, refl), inr ((λ (_, sources, read, _). ground arith), refl), inr refl)
    | inr (sources, is_ok) ↦
        let left = restored P F project_id deletion sources m.disk in
        let reloaded = reload_snapshot_from_disk P F (on_disk P F left m) in
        let (fresh, same) = reload-IsFresh (on_disk P F left m) in
        let (reported, kept) = fail_with-err e reloaded in
        rw (recover_readable project_id deletion e sources m is_ok) (
          reported,
          rw (kept, same) (restored-Leaves project_id deletion sources m.disk is_ok),
          rw kept fresh,
        )
  ]
