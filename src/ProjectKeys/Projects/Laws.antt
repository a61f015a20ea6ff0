-- ===== src/ProjectKeys/Projects/Laws.antt =====
-- What a deletion of a project leaves on the disk, and in the snapshot.
use smol_router.Prelude.{has, String, ◌≡◌, ◌⊎◌, true, false, if◌then◌else◌, Result}
use smol_router.FacadeKeys.Values.{Conversions}
use smol_router.ProjectKeys.Sources.{Files, ManagerError, Disk}
use smol_router.ProjectKeys.Manager.{Manager, same_routes, same_secrets}
use smol_router.ProjectKeys.Projects.{with_routes, with_secrets, Deletion}
use smol_router.ProjectKeys.Projects.Recovery.{IsFresh, Fails}

module _ (P : Conversions) (F : Files) where
  module _ (project_id : String) (meanwhile between_writes : Disk P F → Disk P F) (m : Manager P F)
      (deletion : Deletion P F) where
    -- The disk at the second write.
    abbrev pub at_second_write : Disk P F
    at_second_write =
        if has project_id deletion.old_keys
        then between_writes (with_secrets P F deletion.keys (meanwhile m.disk))
        else between_writes (meanwhile m.disk)

    -- Both files were as they had been read when they were written.
    abbrev pub Deletes : Result ManagerError (Unit {0}) × Manager P F → Type 0
    Deletes out =
        ((has project_id deletion.old_keys ≡ false)
          ⊎ (same_secrets P F m.disk (meanwhile m.disk) ≡ true))
        × (same_routes P F m.disk at_second_write ≡ true)
        × (out.1.disk ≡ with_routes P F deletion.routes at_second_write)
        × IsFresh P F out.1

    -- The secrets had changed, and nothing was written; or the routes had, after the secrets were.
    abbrev pub GivesUp : Result ManagerError (Unit {0}) × Manager P F → Type 0
    GivesUp out =
        ((same_secrets P F m.disk (meanwhile m.disk) ≡ false)
          × Fails P F project_id deletion (meanwhile m.disk) out)
        ⊎ ((same_routes P F m.disk at_second_write ≡ false)
            × Fails P F project_id deletion at_second_write out)
