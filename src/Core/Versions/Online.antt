-- ===== src/Core/Versions/Online.antt =====
-- The beacon of versions in src/pkg/core/version_manager.go: CheckOnlineUpdate,
-- VerifyManifestSignature and DownloadAndApplyUpdate. The HTTP client is a parameter.
use text.Mathlib.Text.{starts_with}
use ipvn.Base.{
  ℕ, String, Bool, true, false, ◌&&◌, ◌||◌, List, Option, none, some, ◌==◌, if◌then◌else◌, str_eq,
  not, length,
}
use ipvn.Base.Dict.{lookup, insert}
use ipvn.Core.Versions.{
  Texts, is_higher_version, FileStore, UpdateError, no_update, download_failed, VersionManager,
  Faults, remove,
}
use ipvn.Core.Versions.Binary.{prepare_atomic_update}

abbrev pub current_version : String
current_version = "v0.7.0"

abbrev pub default_update_manifest_url : String
default_update_manifest_url =
    "https://raw.githubusercontent.com/galleguillosdavid-coder/ipvn7_0.7/main/dist/version_manifest.json"

abbrev pub official_prefix : String
official_prefix = "https://raw.githubusercontent.com/galleguillosdavid-coder/ipvn7_0.7/"

pub record PlatformRelease : Type 0 where
  pub url : String
  pub sha256 : String

pub record UpdateManifest : Type 0 where
  pub version : String
  pub build_version : String
  pub wire_version : ℕ
  pub release_notes : String
  pub platforms : List (String × PlatformRelease)
  pub signature : String

pub record UpdateCheckResult : Type 0 where
  pub available : Bool
  pub current : String
  pub latest_version : String
  pub notes : String
  pub platform : String
  pub download_url : String
  pub expected_sha256 : String

pub data SignatureError : Type 0 where
  no_signature : SignatureError
  malformed : SignatureError
  mismatch : SignatureError

-- hex.DecodeString, the signed text of fmt.Sprintf, and ed25519.Verify.
pub record Signatures : Type 0 where
  pub decode_hex : String → Option (List ℕ)
  pub signed_text : String → String → ℕ → String
  pub verify : List ℕ → String → List ℕ → Bool

unfoldable pub verify_manifest_signature :
    Signatures → Option UpdateManifest → List ℕ → Option SignatureError
verify_manifest_signature lib none pub_key = some no_signature
verify_manifest_signature lib (some m) pub_key =
    if str_eq m.signature "" then some no_signature else elim (lib.decode_hex m.signature) [
      | none ↦ some malformed
      | some sig_bytes ↦
          if length sig_bytes == 64
          then (if lib.verify pub_key (lib.signed_text m.version m.build_version m.wire_version)
                sig_bytes
              then none
              else some mismatch)
          else some malformed
    ]

pub data CheckError : Type 0 where
  unauthorised_source : CheckError
  unreachable : CheckError
  bad_status : ℕ → CheckError
  bad_manifest : CheckError
  unauthorised_download : CheckError

pub data Checked : Type 0 where
  refused : CheckError → Checked
  checked : UpdateCheckResult → Checked

-- The GET of the HTTP client: a status and a body, and the decoder of the body.
pub record Web : Type 0 where
  pub get : String → Option (ℕ × List ℕ)
  pub decode_manifest : List ℕ → Option UpdateManifest

abbrev pub is_local : String → Bool
is_local url = starts_with url "http://127.0.0.1:" || starts_with url "http://localhost:"

module _ (x : Texts) (web : Web) (platform_key : String) where
  -- The result without its download.
  abbrev pub bare_result : UpdateManifest → Bool → UpdateCheckResult
  bare_result m has_platform = record {
    available = is_higher_version x current_version m.version && has_platform;
    current = current_version;
    latest_version = m.version;
    notes = m.release_notes;
    platform = platform_key;
    download_url = "";
    expected_sha256 = "";
  }

  unfoldable pub check_manifest : UpdateManifest → Checked
  check_manifest m = elim (lookup platform_key m.platforms) [
    | none ↦ checked (bare_result m false)
    | some rel ↦
        if starts_with rel.url "https://" || is_local rel.url
        then checked
            (record (bare_result m true) { download_url = rel.url; expected_sha256 = rel.sha256 })
        else refused unauthorised_download
  ]

  abbrev pub read_answer : ℕ × List ℕ → Checked
  read_answer (status, body) =
      if status == 200
      then elim (web.decode_manifest body) [
        | none ↦ refused bad_manifest
        | some m ↦ check_manifest m
      ]
      else refused (bad_status status)

  abbrev pub fetch_manifest : String → Checked
  fetch_manifest url = elim (web.get url) [
    | none ↦ refused unreachable
    | some answer ↦ read_answer answer
  ]

  unfoldable pub check_online_update : String → Checked
  check_online_update manifest_url =
      if str_eq manifest_url ""
      then fetch_manifest default_update_manifest_url
      else (if starts_with manifest_url official_prefix || is_local manifest_url
          then fetch_manifest manifest_url
          else refused unauthorised_source)

  -- From the answer of the download on; the temporary file is removed whatever happens.
  abbrev pub store_download :
      Faults
      → Bool
      → Option (List ℕ)
      → VersionManager
      → FileStore
      → String
      → String
      → List ℕ
      → VersionManager × FileStore × Option UpdateError
  store_download faults open_fault short vm files tmp_file expected_sha256 body =
      if open_fault then (vm, files, some download_failed) else elim short [
        | some part ↦ (vm, insert tmp_file part files, some download_failed)
        | none ↦
            prepare_atomic_update x faults vm (insert tmp_file body files) tmp_file expected_sha256
      ]

  unfoldable pub download :
      Faults
      → Bool
      → Option (List ℕ)
      → VersionManager
      → FileStore
      → String
      → UpdateCheckResult
      → VersionManager × FileStore × Option UpdateError
  download faults open_fault short vm files tmp_file check = elim (web.get check.download_url) [
    | none ↦ (vm, files, some download_failed)
    | some (status, body) ↦
        if status == 200
        then store_download faults open_fault short vm files tmp_file check.expected_sha256 body
        else (vm, files, some download_failed)
  ]

  unfoldable pub download_and_apply_update :
      Faults
      → Bool
      → Option (List ℕ)
      → Bool
      → VersionManager
      → FileStore
      → String
      → UpdateCheckResult
      → VersionManager × FileStore × Option UpdateError
  download_and_apply_update faults open_fault short tmp_fault vm files tmp_file check =
      let (vm', files', e) = download faults open_fault short vm files tmp_file check in
      if check.available && not (str_eq check.download_url "")
      then (vm', (remove tmp_fault files' tmp_file).0, e)
      else (vm, files, some no_update)
