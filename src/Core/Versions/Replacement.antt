-- ===== src/Core/Versions/Replacement.antt =====
-- What survives a replacement of the binary in src/pkg/core/version_manager.go.
use ipvn.Base.{
  ℕ, String, ◌≡◌, ◌⊎◌, refl, ap, ◌∙◌, Bool, true, false, List, Option, none, some, str_eq,
  str_eq_refl, arith, Bool-cases, Option-cases, inl, inr,
}
use ipvn.Base.Dict.{lookup, insert, delete}
use ipvn.Core.Versions.{
  Texts, FileStore, UpdateError, empty_hash, unreadable, hash_mismatch, backup_failed,
  deploy_failed, VersionManager, Faults, remove,
}
use ipvn.Core.Versions.Binary.{
  copy_or_move_file, verify_file_sha256, deploy, replace_binary, prepare_atomic_update,
}
use ipvn.Core.Versions.Deployment.{
  lookup-remove, rename-cases, rename-succeeds, set_aside-rename, lookup-moved,
  copy_or_move_file-IsDeployed,
}

-- The outcome of an update: the new bytes are active and the old ones set aside.
pub record IsUpdated (x : Texts) (vm : VersionManager) (files : FileStore)
    (new_binary_path expected : String) (old : List ℕ)
    (result : VersionManager × FileStore × Option UpdateError) : Type 0 where
  pub bytes : List ℕ
  pub from_new : lookup new_binary_path files ≡ some bytes
  pub genuine : x.equal_fold (x.sha256_hex bytes) (x.trim_space expected) ≡ true
  pub active : lookup vm.active_exe result.1 ≡ some bytes
  pub backup : lookup vm.backup_exe result.1 ≡ some old
  pub pending : result.0 ≡ record vm { update_active = true }
  pub no_error : result.2 ≡ none

-- The outcome of a refused update: an error, and the old bytes are active.
pub record IsKept (vm : VersionManager) (old : List ℕ)
    (result : VersionManager × FileStore × Option UpdateError) : Type 0 where
  pub error : UpdateError
  pub is_error : result.2 ≡ some error
  pub active : lookup vm.active_exe result.1 ≡ some old
  pub same_manager : result.0 ≡ vm

-- The paths of the active binary, of its backup and of the new one differ.
abbrev pub Distinct : VersionManager → String → Type 0
Distinct vm new_path =
    (str_eq vm.backup_exe vm.active_exe ≡ false)
    × ((str_eq vm.active_exe vm.backup_exe ≡ false)
        × ((str_eq new_path vm.active_exe ≡ false)
            × ((str_eq vm.active_exe new_path ≡ false)
                × ((str_eq new_path vm.backup_exe ≡ false)
                    × (str_eq vm.backup_exe new_path ≡ false)))))

module _ (x : Texts) (faults : Faults) (vm : VersionManager) (files : FileStore)
    (new_path expected : String) (old bytes : List ℕ) where
  deploy-outcome :
      (kept : FileStore)
      → Distinct vm new_path
      → faults.restore ≡ false
      → lookup new_path files ≡ some bytes
      → x.equal_fold (x.sha256_hex bytes) (x.trim_space expected) ≡ true
      → lookup new_path kept ≡ some bytes
      → lookup vm.backup_exe kept ≡ some old
      → IsUpdated x vm files new_path expected old (deploy faults vm kept new_path)
        ⊎ IsKept vm old (deploy faults vm kept new_path)
  unfolding deploy
  deploy-outcome kept (b-a, (a-b, (n-a, (a-n, (n-b, b-n))))) healthy from_new good there saved =
      let run = copy_or_move_file-IsDeployed faults kept new_path vm.active_exe in
      let saved' = run.others vm.backup_exe n-b a-b ∙ saved in
      elim (Bool-cases (copy_or_move_file faults kept new_path vm.active_exe).1) [
        | inl e ↦ rw e (
            inl (record {
              bytes = bytes;
              from_new = from_new;
              genuine = good;
              active = run.brought e ∙ there;
              backup = saved';
              pending = refl;
              no_error = refl;
            }))
        | inr e ↦
            let back =
              rename-succeeds faults.restore
                (copy_or_move_file faults kept new_path vm.active_exe).0 vm.backup_exe vm.active_exe
                old healthy saved' in
            rw e (
              inr (record {
                error = deploy_failed;
                is_error = refl;
                active =
                    ap (λ r. lookup vm.active_exe r.0) back
                    ∙ ground (
                      arith,
                      lookup-moved (copy_or_move_file faults kept new_path vm.active_exe).0
                          vm.backup_exe vm.active_exe vm.active_exe old,
                      str_eq_refl vm.active_exe,
                    );
                same_manager = refl;
              }))
      ]

  replace-outcome :
      Distinct vm new_path
      → faults.restore ≡ false
      → faults.stat_active ≡ false
      → lookup vm.active_exe files ≡ some old
      → lookup new_path files ≡ some bytes
      → x.equal_fold (x.sha256_hex bytes) (x.trim_space expected) ≡ true
      → IsUpdated x vm files new_path expected old (replace_binary faults vm files new_path)
        ⊎ IsKept vm old (replace_binary faults vm files new_path)
  unfolding replace_binary
  replace-outcome d healthy seen current from_new good =
      let (b-a, (a-b, (n-a, (a-n, (n-b, b-n))))) = d in
      let cleared = (remove faults.remove_backup files vm.backup_exe).0 in
      let current' =
        lookup-remove faults.remove_backup files vm.backup_exe vm.active_exe b-a ∙ current in
      let from_new' =
        lookup-remove faults.remove_backup files vm.backup_exe new_path b-n ∙ from_new in
      elim (rename-cases faults.rename_active cleared vm.active_exe vm.backup_exe) [
        | inl e ↦
            rw (replace_binary, set_aside-rename faults vm cleared old seen current', e)
              (inr (record {
                error = backup_failed;
                is_error = refl;
                active = current';
                same_manager = refl;
              }))
        | inr (moved, (a, e)) ↦
            let same : moved ≡ old = ground (arith, a, current') in
            rw (replace_binary, set_aside-rename faults vm cleared old seen current', e)
              (deploy-outcome (insert vm.backup_exe moved (delete vm.active_exe cleared)) d healthy
                from_new good
                (lookup-moved cleared vm.active_exe vm.backup_exe new_path moved
                  ∙ ground (arith, b-n, a-n, from_new'))
                (lookup-moved cleared vm.active_exe vm.backup_exe vm.backup_exe moved
                  ∙ ground (arith, str_eq_refl vm.backup_exe, same)))
      ]

-- A file is refused, or it is there and its digest is the expected one.
verify-cases :
    (x : Texts) (fault : Bool) (files : FileStore) (path expected : String)
    → ((e : UpdateError) × (verify_file_sha256 x fault files path expected ≡ some e))
      ⊎ ((bytes : List ℕ) × ((lookup path files ≡ some bytes)
            × ((x.equal_fold (x.sha256_hex bytes) (x.trim_space expected) ≡ true)
                × (verify_file_sha256 x fault files path expected ≡ none))))
unfolding verify_file_sha256
verify-cases x fault files path expected = elim (Option-cases (lookup path files)) [
  | inl a ↦ inl (unreadable, rw (verify_file_sha256, a) refl)
  | inr (bytes, a) ↦ elim (Bool-cases fault) [
    | inl r ↦ inl (unreadable, rw (verify_file_sha256, a, r) refl)
    | inr r ↦ elim (Bool-cases (x.equal_fold (x.sha256_hex bytes) (x.trim_space expected))) [
      | inl g ↦ inr (bytes, (a, (g, rw (verify_file_sha256, a, r, g) refl)))
      | inr g ↦ inl (hash_mismatch, rw (verify_file_sha256, a, r, g) refl)
    ]
  ]
]

-- For an update of a binary that is there, on any pattern of refused calls of the operating system
-- except a refused os.Stat of it and a refused rename back, and with three different paths:
-- PrepareAtomicUpdate either ends without an error, the active binary then has the bytes of the new
-- one, whose digest is the expected one, the old bytes are the backup, and the update is pending;
-- or it ends with an error, and the active binary and the manager are as they were.
pub prepare_atomic_update-outcome :
    (x : Texts) (faults : Faults) (vm : VersionManager) (files : FileStore)
    (new_path expected : String) (old : List ℕ)
    → Distinct vm new_path
    → faults.restore ≡ false
    → faults.stat_active ≡ false
    → lookup vm.active_exe files ≡ some old
    → IsUpdated x vm files new_path expected old
        (prepare_atomic_update x faults vm files new_path expected)
      ⊎ IsKept vm old (prepare_atomic_update x faults vm files new_path expected)
unfolding prepare_atomic_update
prepare_atomic_update-outcome x faults vm files new_path expected old d healthy seen current =
    elim (Bool-cases (str_eq (x.trim_space expected) "")) [
      | inl e ↦ rw e (
          inr
            (record { error = empty_hash; is_error = refl; active = current; same_manager = refl }))
      | inr e ↦ elim (verify-cases x faults.read_new files new_path expected) [
        | inl (error, v) ↦
            rw (e, v)
              (inr
                (record { error = error; is_error = refl; active = current; same_manager = refl }))
        | inr (bytes, (from_new, (good, v))) ↦
            rw (e, v)
              (replace-outcome x faults vm files new_path expected old bytes d healthy seen current
                from_new good)
      ]
    ]
