-- ===== src/Core/Versions/Tests.antt =====
-- An update of a binary of three bytes to one of two.
use ipvn.Base.{
  ℕ, ◌≡◌, ◌⊎◌, ◌↔◌, refl, String, true, false, [], ◌∷◌, Option, none, some, str_eq, if◌then◌else◌,
}
use ipvn.Base.Dict.{lookup}
use ipvn.Core.Versions.{Texts, parse_sem_ver, is_higher_version, FileStore, VersionManager, Faults}
use ipvn.Core.Versions.Binary.{prepare_atomic_update}
use ipvn.Core.Versions.Online.{
  UpdateManifest, UpdateCheckResult, Web, checked, check_manifest, check_online_update,
  download_and_apply_update,
}
use ipvn.Core.Versions.Replacement.{Distinct, IsUpdated, IsKept, prepare_atomic_update-outcome}
use ipvn.Core.Versions.Beacon.{IsSource, Answers, check_online_update_iff}
use ipvn.Core.Versions.Download.{IsInstalled, IsUntouched, download_and_apply_update-outcome}

abbrev scanned : String → Option (ℕ × ℕ × ℕ)
scanned text =
    if str_eq text "v0.7.0"
    then some (0, 7, 0)
    else (if str_eq text "v0.7.9"
        then some (0, 7, 9)
        else (if str_eq text "v1.0.0" then some (1, 0, 0) else none))

abbrev simple : Texts
simple = record {
  trim_space = λ s. s;
  trim_v = λ s. s;
  before_dash = λ s. s;
  dotted_parts = λ s. 3;
  scan_version = scanned;
  sha256_hex = λ bytes. elim bytes [ [] ↦ "e3" | b ∷ rest ↦ "aa" ];
  equal_fold = str_eq;
}

abbrev manager : VersionManager
manager = record { active_exe = "ipvn7"; backup_exe = "ipvn7.old"; update_active = false }

abbrev disk : FileStore
disk = ("ipvn7", 1 ∷ 2 ∷ 3 ∷ []) ∷ ("new", 4 ∷ 5 ∷ []) ∷ []

-- The rename of the new binary is refused, so that it is copied.
abbrev across_devices : Faults
across_devices = record {
  read_new = false;
  remove_backup = false;
  stat_active = false;
  rename_active = false;
  rename_new = true;
  open_new = false;
  open_active = false;
  short_copy = none;
  restore = false;
}

manager-Distinct : Distinct manager "new"
manager-Distinct = (refl, (refl, (refl, (refl, (refl, refl)))))

prepare_atomic_update-outcome_example :
    IsUpdated simple manager disk "new" "aa"
      (1 ∷ 2 ∷ 3 ∷ [])
      (prepare_atomic_update simple across_devices manager disk "new" "aa")
    ⊎ IsKept manager
        (1 ∷ 2 ∷ 3 ∷ [])
        (prepare_atomic_update simple across_devices manager disk "new" "aa")
unfolding lookup
prepare_atomic_update-outcome_example =
    prepare_atomic_update-outcome simple across_devices manager disk "new" "aa" (1 ∷ 2 ∷ 3 ∷ [])
      manager-Distinct refl refl refl

abbrev manifest : UpdateManifest
manifest = record {
  version = "v0.7.9";
  build_version = "v0.7.9";
  wire_version = 7;
  release_notes = "";
  platforms = ("linux/amd64", record { url = "https://example.org/ipvn7"; sha256 = "aa" }) ∷ [];
  signature = "";
}

abbrev mirror : Web
mirror = record { get = λ url. some (200, 4 ∷ 5 ∷ []); decode_manifest = λ body. some manifest }

abbrev offer : UpdateCheckResult
offer = record {
  available = true;
  current = "v0.7.0";
  latest_version = "v0.7.9";
  notes = "";
  platform = "linux/amd64";
  download_url = "https://example.org/ipvn7";
  expected_sha256 = "aa";
}

offer_found : check_online_update simple mirror "linux/amd64" "" ≡ checked offer
unfolding check_online_update check_manifest is_higher_version parse_sem_ver lookup
offer_found = refl

-- The text begins like a local address, and names another host behind the `@`.
foreign_host :
    check_online_update simple mirror "linux/amd64" "http://127.0.0.1:80@example.org/m.json"
    ≡ checked offer
unfolding check_online_update check_manifest is_higher_version parse_sem_ver lookup
foreign_host = refl

check_online_update_iff_example :
    ((check_online_update simple mirror "linux/amd64" "" ≡ checked offer)
      × (offer.available ≡ true))
    ↔ ((used : String) × IsSource "" used × Answers simple mirror "linux/amd64" used offer)
check_online_update_iff_example = check_online_update_iff simple mirror "linux/amd64" "" offer

download_and_apply_update-outcome_example :
    ((true ≡ true)
      × IsInstalled simple mirror manager offer (
          download_and_apply_update simple mirror "linux/amd64" across_devices false none false
            manager disk "new" offer))
    ⊎ IsUntouched manager (1 ∷ 2 ∷ 3 ∷ []) (
        download_and_apply_update simple mirror "linux/amd64" across_devices false none false
          manager disk "new" offer)
unfolding lookup
download_and_apply_update-outcome_example =
    download_and_apply_update-outcome simple mirror "linux/amd64" across_devices false none false
      manager disk "new" offer (1 ∷ 2 ∷ 3 ∷ []) manager-Distinct refl refl refl
