-- ===== src/Core/Versions.antt =====
-- VersionManager of src/pkg/core/version_manager.go: the order on versions, and the replacement of a
-- binary over an explicit store of files. The libraries of texts, hashes and signatures, the HTTP
-- answers and the operating system's verdict on each of its calls are parameters.
pub mod Order
pub mod Binary
pub mod Deployment
pub mod Replacement
pub mod Rollback
pub mod Online
pub mod Releases
pub mod Beacon
pub mod Download
mod Tests
use ipvn.Base.{
  ℕ, ◌+◌, String, Bool, true, false, ◌&&◌, ◌||◌, List, [], ◌∷◌, Option, none, some, ltb, ◌==◌,
  if◌then◌else◌, str_eq, not, length,
}
use Prim.Native.String.{◌++◌}
use text.Mathlib.Text.{starts_with}
use ipvn.Base.Dict.{lookup, insert, delete}

-- The texts that ParseSemVer cuts and scans, and the digests of VerifyFileSHA256.
pub record Texts : Type 0 where
  pub trim_space : String → String
  pub trim_v : String → String
  pub before_dash : String → String
  pub dotted_parts : String → ℕ
  pub scan_version : String → Option (ℕ × ℕ × ℕ)
  pub sha256_hex : List ℕ → String
  pub equal_fold : String → String → Bool

abbrev pub is_higher : ℕ × ℕ × ℕ → ℕ × ℕ × ℕ → Bool
is_higher (c_maj, c_min, c_pat) (t_maj, t_min, t_pat) =
    if ltb c_maj t_maj
    then true
    else (if (t_maj == c_maj) && ltb c_min t_min
        then true
        else (if ((t_maj == c_maj) && (t_min == c_min)) && ltb c_pat t_pat then true else false))

module _ (x : Texts) where
  unfoldable pub parse_sem_ver : String → Option (ℕ × ℕ × ℕ)
  parse_sem_ver v =
      let text = x.before_dash (x.trim_v (x.trim_space v)) in
      if ltb (x.dotted_parts text) 3 then none else x.scan_version text

  unfoldable pub is_higher_version : String → String → Bool
  is_higher_version current candidate = elim (parse_sem_ver current) [
    | none ↦ false
    | some c ↦ elim (parse_sem_ver candidate) [ none ↦ false | some t ↦ is_higher c t ]
  ]

-- The files of the system by their paths.
abbrev pub FileStore : Type 0
FileStore = List (String × List ℕ)

pub data UpdateError : Type 0 where
  empty_hash : UpdateError
  unreadable : UpdateError
  hash_mismatch : UpdateError
  backup_failed : UpdateError
  deploy_failed : UpdateError
  no_update : UpdateError
  download_failed : UpdateError
  no_backup : UpdateError
  restore_failed : UpdateError
  backup_kept : UpdateError

pub record VersionManager : Type 0 where
  pub active_exe : String
  pub backup_exe : String
  pub update_active : Bool

-- Which calls of one operation the operating system refuses; a copy that is refused has written
-- some of the bytes.
pub record Faults : Type 0 where
  pub read_new : Bool
  pub remove_backup : Bool
  pub stat_active : Bool
  pub rename_active : Bool
  pub rename_new : Bool
  pub open_new : Bool
  pub open_active : Bool
  pub short_copy : Option (List ℕ)
  pub restore : Bool

unfoldable pub new_version_manager : String → VersionManager
new_version_manager current_exe_path = record {
  active_exe = current_exe_path;
  backup_exe = current_exe_path ++ ".old";
  update_active = false;
}

-- os.Rename, and whether it succeeded.
unfoldable pub rename : Bool → FileStore → String → String → FileStore × Bool
rename fault files old new = elim (lookup old files) [
  | none ↦ (files, false)
  | some bytes ↦ if fault then (files, false) else (insert new bytes (delete old files), true)
]

-- os.Remove, and whether it succeeded.
unfoldable pub remove : Bool → FileStore → String → FileStore × Bool
remove fault files path = elim (lookup path files) [
  | none ↦ (files, false)
  | some bytes ↦ if fault then (files, false) else (delete path files, true)
]

-- os.Stat without an error.
unfoldable pub exists : Bool → FileStore → String → Bool
exists fault files path = elim (lookup path files) [ none ↦ false | some bytes ↦ not fault ]
