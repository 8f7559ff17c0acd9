-- ===== src/Core/Versions/Deployment.antt =====
-- What copyOrMoveFile and the renames of src/pkg/core/version_manager.go do to each file.
use ipvn.Base.{
  ℕ, String, ◌≡◌, ◌⊎◌, refl, Bool, true, false, List, none, some, if◌then◌else◌, str_eq,
  str_eq_refl, arith, Bool-cases, Option-cases, inl, inr,
}
use ipvn.Base.Dict.{lookup, insert, delete, lookup-insert, lookup-delete}
use ipvn.Core.Versions.{FileStore, VersionManager, Faults, rename, remove, exists}
use ipvn.Core.Versions.Binary.{copied, copy_file, copy_or_move_file, set_aside}

pub lookup-remove :
    (fault : Bool) (files : FileStore) (path p : String)
    → str_eq path p ≡ false
    → lookup p (remove fault files path).0 ≡ lookup p files
unfolding remove
lookup-remove fault files path p e = elim (Option-cases (lookup path files)) [
  | inl a ↦ rw (remove, a) refl
  | inr (bytes, a) ↦ elim (Bool-cases fault) [
    | inl b ↦ rw (remove, a, b) refl
    | inr b ↦ rw (remove, a, b) (ground (arith, lookup-delete path p files, e))
  ]
]

-- A rename that does nothing, or moves the bytes.
pub rename-cases :
    (fault : Bool) (files : FileStore) (old new : String)
    → (rename fault files old new ≡ (files, false))
      ⊎ ((bytes : List ℕ) × ((lookup old files ≡ some bytes)
            × (rename fault files old new ≡ (insert new bytes (delete old files), true))))
unfolding rename
rename-cases fault files old new = elim (Option-cases (lookup old files)) [
  | inl a ↦ inl (rw (rename, a) refl)
  | inr (bytes, a) ↦ elim (Bool-cases fault) [
    | inl b ↦ inl (rw (rename, a, b) refl)
    | inr b ↦ inr (bytes, (a, rw (rename, a, b) refl))
  ]
]

pub rename-succeeds :
    (fault : Bool) (files : FileStore) (old new : String) (bytes : List ℕ)
    → fault ≡ false
    → lookup old files ≡ some bytes
    → rename fault files old new ≡ (insert new bytes (delete old files), true)
unfolding rename
rename-succeeds fault files old new bytes b a = rw (rename, a, b) refl

pub set_aside-rename :
    (faults : Faults) (vm : VersionManager) (files : FileStore) (old : List ℕ)
    → faults.stat_active ≡ false
    → lookup vm.active_exe files ≡ some old
    → set_aside faults vm files ≡ rename faults.rename_active files vm.active_exe vm.backup_exe
unfolding set_aside exists
set_aside-rename faults vm files old b a = ground (arith, a, b)

pub lookup-moved :
    (files : FileStore) (old new p : String) (bytes : List ℕ)
    → lookup p (insert new bytes (delete old files))
      ≡ (if str_eq new p then some bytes else (if str_eq old p then none else lookup p files))
lookup-moved files old new p bytes =
    ground (arith, lookup-insert new p bytes (delete old files), lookup-delete old p files)

-- The files after a deployment from src to dst: it brought the bytes of src, or it failed, and no
-- third file has changed.
pub record IsDeployed (files : FileStore) (src dst : String) (result : FileStore × Bool)
    : Type 0 where
  pub brought : result.1 ≡ true → lookup dst result.0 ≡ lookup src files
  pub others :
      (p : String)
      → str_eq src p ≡ false
      → str_eq dst p ≡ false
      → lookup p result.0 ≡ lookup p files

module _ (faults : Faults) (files : FileStore) (src dst : String) where
  unchanged-IsDeployed : IsDeployed files src dst (files, false)
  unchanged-IsDeployed = record { brought = λ e. absurd (ground arith); others = λ p e d. refl }

  copied-IsDeployed :
      (bytes : List ℕ)
      → lookup src files ≡ some bytes
      → IsDeployed files src dst (copied faults files dst bytes)
  copied-IsDeployed bytes a = elim (Option-cases faults.short_copy) [
    | inl e ↦ rw e (record {
      brought = λ t. ground (arith, lookup-insert dst dst bytes files, str_eq_refl dst, a);
      others = λ p s d. ground (arith, lookup-insert dst p bytes files, d);
    })
    | inr (part, e) ↦ rw e (record {
      brought = λ t. absurd (ground arith);
      others = λ p s d. ground (arith, lookup-insert dst p part files, d);
    })
  ]

  copy_file-IsDeployed : IsDeployed files src dst (copy_file faults files src dst)
  unfolding copy_file
  copy_file-IsDeployed = elim (Option-cases (lookup src files)) [
    | inl a ↦ rw (copy_file, a) unchanged-IsDeployed
    | inr (bytes, a) ↦ elim (Bool-cases faults.open_new) [
      | inl b ↦ rw (copy_file, a, b) unchanged-IsDeployed
      | inr b ↦ elim (Bool-cases faults.open_active) [
        | inl c ↦ rw (copy_file, a, b, c) unchanged-IsDeployed
        | inr c ↦ rw (copy_file, a, b, c) (copied-IsDeployed bytes a)
      ]
    ]
  ]

  pub copy_or_move_file-IsDeployed :
      IsDeployed files src dst (copy_or_move_file faults files src dst)
  unfolding copy_or_move_file
  copy_or_move_file-IsDeployed = elim (rename-cases faults.rename_new files src dst) [
    | inl e ↦ rw e copy_file-IsDeployed
    | inr (bytes, (a, e)) ↦ rw e (record {
      brought = λ t. ground (arith, lookup-moved files src dst dst bytes, str_eq_refl dst, a);
      others = λ p s d. ground (arith, lookup-moved files src dst p bytes, s, d);
    })
  ]
