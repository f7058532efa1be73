-- ===== src/Rotation/Abort.antt =====
-- crates/zann-server/src/domains/vaults/http/v1/shared/handlers/rotation_status.rs: `rotate_abort`.
use zann.Base.{ℕ, not, none, codes, Result, ok, err, ensure, ◌>>=◌, ◌>>◌, if◌then◌else◌}
use zann.Core.Structs.{Identity, Item}
use zann.Access.Vault.{is_none}
use zann.Rotation.Types.{
  HttpError, coded, db_error, conflict, RotationStatusResponse, RotateAbortRequest,
}
use zann.Rotation.Store.{Site, RotationDb, RotationFaults, write_abort}
use zann.Rotation.Authorise.{authorise, rotation_of}

module _ (site : Site) (faults : RotationFaults) (identity : Identity) (item_id : ℕ) where
  unfoldable pub plan_abort : RotateAbortRequest → RotationDb → Result HttpError Item
  plan_abort payload db = do
    (item, vault) ←
        authorise site faults identity item_id
          (if payload.force then codes "rotate_abort_force" else codes "rotate_abort")
          (codes "shared/items/rotate/abort") db
    row ← rotation_of site faults item.id db
    ensure (not (is_none row.state)) (coded conflict "rotation_missing")
    ok item

  unfoldable pub rotate_abort :
      RotateAbortRequest → RotationDb → Result HttpError RotationStatusResponse × RotationDb
  rotate_abort payload db = elim (plan_abort payload db) [
    | err e ↦ (err e, db)
    | ok item ↦ if faults.write_fails then (err db_error, db) else (
      ok (record {
        state = codes "active";
        started_at = none;
        started_by = none;
        expires_at = none;
        recover_until = none;
        aborted_reason = payload.reason;
      }),
      write_abort item.id payload.reason db,
    )
  ]
