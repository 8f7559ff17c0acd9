-- ===== src/Core/Versions/Binary.antt =====
-- The replacement of the binary in src/pkg/core/version_manager.go: PrepareAtomicUpdate,
-- ConfirmSuccess, ExecuteRollback and copyOrMoveFile, as steps on the store of files.
use ipvn.Base.{ℕ, String, Bool, true, false, List, Option, none, some, if◌then◌else◌, str_eq, not}
use ipvn.Base.Dict.{lookup, insert}
use ipvn.Core.Versions.{
  Texts, FileStore, UpdateError, empty_hash, unreadable, hash_mismatch, backup_failed,
  deploy_failed, no_backup, restore_failed, backup_kept, VersionManager, Faults, rename, remove,
  exists,
}

-- io.Copy into the file that os.OpenFile has made empty.
abbrev pub copied : Faults → FileStore → String → List ℕ → FileStore × Bool
copied faults files dst bytes = elim faults.short_copy [
  | none ↦ (insert dst bytes files, true)
  | some part ↦ (insert dst part files, false)
]

unfoldable pub copy_file : Faults → FileStore → String → String → FileStore × Bool
copy_file faults files src dst = elim (lookup src files) [
  | none ↦ (files, false)
  | some bytes ↦
      if faults.open_new
      then (files, false)
      else (if faults.open_active then (files, false) else copied faults files dst bytes)
]

unfoldable pub copy_or_move_file : Faults → FileStore → String → String → FileStore × Bool
copy_or_move_file faults files src dst =
    let (moved, ok) = rename faults.rename_new files src dst in
    if ok then (moved, true) else copy_file faults files src dst

-- The state, the files and the error after the new binary was to be deployed.
unfoldable pub deploy :
    Faults → VersionManager → FileStore → String → VersionManager × FileStore × Option UpdateError
deploy faults vm files new_binary_path =
    let (deployed, ok) = copy_or_move_file faults files new_binary_path vm.active_exe in
    if ok
    then (record vm { update_active = true }, deployed, none)
    else (vm, (rename faults.restore deployed vm.backup_exe vm.active_exe).0, some deploy_failed)

-- The current binary set aside, and whether the update may go on.
unfoldable pub set_aside : Faults → VersionManager → FileStore → FileStore × Bool
set_aside faults vm files =
    if exists faults.stat_active files vm.active_exe
    then rename faults.rename_active files vm.active_exe vm.backup_exe
    else (files, true)

unfoldable pub replace_binary :
    Faults → VersionManager → FileStore → String → VersionManager × FileStore × Option UpdateError
replace_binary faults vm files new_binary_path =
    let (kept, ok) = set_aside faults vm (remove faults.remove_backup files vm.backup_exe).0 in
    if ok then deploy faults vm kept new_binary_path else (vm, kept, some backup_failed)

module _ (x : Texts) where
  unfoldable pub verify_file_sha256 : Bool → FileStore → String → String → Option UpdateError
  verify_file_sha256 fault files path expected_hex = elim (lookup path files) [
    | none ↦ some unreadable
    | some bytes ↦
        if fault
        then some unreadable
        else (if x.equal_fold (x.sha256_hex bytes) (x.trim_space expected_hex)
            then none
            else some hash_mismatch)
  ]

  unfoldable pub prepare_atomic_update :
      Faults
      → VersionManager
      → FileStore
      → String
      → String
      → VersionManager × FileStore × Option UpdateError
  prepare_atomic_update faults vm files new_binary_path expected_sha256 =
      if str_eq (x.trim_space expected_sha256) ""
      then (vm, files, some empty_hash)
      else elim (verify_file_sha256 faults.read_new files new_binary_path expected_sha256) [
        | some e ↦ (vm, files, some e)
        | none ↦ replace_binary faults vm files new_binary_path
      ]

-- A backup that is not there is no failure.
unfoldable pub confirm_success :
    Bool → VersionManager → FileStore → VersionManager × FileStore × Option UpdateError
confirm_success fault vm files =
    let (left, ok) = remove fault files vm.backup_exe in
    let still_there = exists false files vm.backup_exe in
    let confirmed = record vm { update_active = false } in
    if not vm.update_active
    then (vm, files, none)
    else (if ok
        then (confirmed, left, none)
        else (confirmed, left, if still_there then some backup_kept else none))

unfoldable pub execute_rollback :
    Bool
    → Bool
    → Bool
    → VersionManager
    → FileStore
    → VersionManager × FileStore × Option UpdateError
execute_rollback stat_fault remove_fault rename_fault vm files =
    let cleared = (remove remove_fault files vm.active_exe).0 in
    let (restored, ok) = rename rename_fault cleared vm.backup_exe vm.active_exe in
    if exists stat_fault files vm.backup_exe
    then (if ok
        then (record vm { update_active = false }, restored, none)
        else (vm, restored, some restore_failed))
    else (vm, files, some no_backup)
