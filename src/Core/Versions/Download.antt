-- ===== src/Core/Versions/Download.antt =====
-- DownloadAndApplyUpdate of src/pkg/core/version_manager.go from the answer of the server to the
-- active binary.
use ipvn.Base.{
  ℕ, ◌≡◌, ◌⊎◌, refl, ◌∙◌, sym, ap, String, Bool, true, false, ◌&&◌, List, Option, none, some, ◌==◌,
  arith, Option-cases, Bool-cases, inl, inr, not, str_eq, str_eq_refl, ==_iff,
}
use ipvn.Base.Dict.{lookup, insert, lookup-insert}
use ipvn.Core.Versions.{
  Texts, FileStore, UpdateError, no_update, download_failed, VersionManager, Faults, remove,
}
use ipvn.Core.Versions.Deployment.{lookup-remove}
use ipvn.Core.Versions.Replacement.{Distinct, prepare_atomic_update-outcome}
use ipvn.Core.Versions.Online.{
  UpdateCheckResult, Web, store_download, download, download_and_apply_update,
}

-- The downloaded bytes are active, and their digest is the one the check announced.
pub record IsInstalled (x : Texts) (web : Web) (vm : VersionManager) (check : UpdateCheckResult)
    (result : VersionManager × FileStore × Option UpdateError) : Type 0 where
  pub bytes : List ℕ
  pub served : web.get check.download_url ≡ some (200, bytes)
  pub genuine : x.equal_fold (x.sha256_hex bytes) (x.trim_space check.expected_sha256) ≡ true
  pub active : lookup vm.active_exe result.1 ≡ some bytes
  pub no_error : result.2 ≡ none

-- The active binary has its old bytes, and there is an error.
pub record IsUntouched (vm : VersionManager) (old : List ℕ)
    (result : VersionManager × FileStore × Option UpdateError) : Type 0 where
  pub error : UpdateError
  pub is_error : result.2 ≡ some error
  pub active : lookup vm.active_exe result.1 ≡ some old

module _ (x : Texts) (web : Web) (platform_key : String) (faults : Faults) (open_fault : Bool)
    (short : Option (List ℕ)) (vm : VersionManager) (files : FileStore) (tmp : String)
    (check : UpdateCheckResult) (old : List ℕ) (d : Distinct vm tmp)
    (healthy : faults.restore ≡ false) (seen : faults.stat_active ≡ false)
    (current : lookup vm.active_exe files ≡ some old) where
  other-insert : (bytes : List ℕ) → lookup vm.active_exe (insert tmp bytes files) ≡ some old
  other-insert bytes =
      lookup-insert tmp vm.active_exe bytes files ∙ ground (arith, d.1.1.0, current)

  stored-outcome :
      (bytes : List ℕ)
      → web.get check.download_url ≡ some (200, bytes)
      → IsInstalled x web vm check (
          store_download x web platform_key faults open_fault short vm files tmp
            check.expected_sha256 bytes)
        ⊎ IsUntouched vm old (
            store_download x web platform_key faults open_fault short vm files tmp
              check.expected_sha256 bytes)
  stored-outcome bytes served = elim (Bool-cases open_fault) [
    | inl o ↦ rw o (inr (record { error = download_failed; is_error = refl; active = current }))
    | inr o ↦ elim (Option-cases short) [
      | inr (part, s) ↦
          rw (o, s)
            (inr (record { error = download_failed; is_error = refl; active = other-insert part }))
      | inl s ↦
          elim (prepare_atomic_update-outcome x faults vm (insert tmp bytes files) tmp
            check.expected_sha256 old d healthy seen (other-insert bytes)) [
              | inr k ↦
                  rw (o, s)
                    (inr (record { error = k.error; is_error = k.is_error; active = k.active }))
              | inl u ↦
                  let same : u.bytes ≡ bytes =
                    ground
                      (arith, u.from_new, lookup-insert tmp tmp bytes files, str_eq_refl tmp) in
                  rw (o, s)
                    (inl (record {
                      bytes = bytes;
                      served = served;
                      genuine =
                          ap
                            (λ b.
                              x.equal_fold (x.sha256_hex b) (x.trim_space check.expected_sha256))
                            (sym same)
                          ∙ u.genuine;
                      active = u.active ∙ ap some same;
                      no_error = u.no_error;
                    }))
            ]
    ]
  ]

  download-outcome :
      IsInstalled x web vm check
        (download x web platform_key faults open_fault short vm files tmp check)
      ⊎ IsUntouched vm old (download x web platform_key faults open_fault short vm files tmp check)
  unfolding download
  download-outcome = elim (Option-cases (web.get check.download_url)) [
    | inl g ↦
        rw (download, g)
          (inr (record { error = download_failed; is_error = refl; active = current }))
    | inr ((status, body), g) ↦ elim (Bool-cases (status == 200)) [
      | inl s ↦
          rw (download, g, s)
            (stored-outcome body (g ∙ ap (λ n. some (n, body)) ((==_iff status 200).0 s)))
      | inr s ↦
          rw (download, g, s)
            (inr (record { error = download_failed; is_error = refl; active = current }))
    ]
  ]

  -- The removal of the temporary file at the end.
  without_tmp :
      (fault : Bool) (result : VersionManager × FileStore × Option UpdateError)
      → IsInstalled x web vm check result ⊎ IsUntouched vm old result
      → IsInstalled x web vm check (result.0, (remove fault result.1 tmp).0, result.2)
        ⊎ IsUntouched vm old (result.0, (remove fault result.1 tmp).0, result.2)
  without_tmp fault result (inl i) = inl (record {
    bytes = i.bytes;
    served = i.served;
    genuine = i.genuine;
    active = lookup-remove fault result.1 tmp vm.active_exe d.1.1.0 ∙ i.active;
    no_error = i.no_error;
  })
  without_tmp fault result (inr k) = inr (record {
    error = k.error;
    is_error = k.is_error;
    active = lookup-remove fault result.1 tmp vm.active_exe d.1.1.0 ∙ k.active;
  })

-- For a binary that is there, on any answer of the server and any pattern of refused calls of the
-- operating system except a refused os.Stat of the binary and a refused rename back, and with paths
-- that differ: DownloadAndApplyUpdate either ends without an error, and then the check had
-- announced an update, the server answered 200, and the active binary is what it served, with the
-- digest that the check announced; or it ends with an error, and the active binary is the old one.
pub download_and_apply_update-outcome :
    (x : Texts) (web : Web) (platform_key : String) (faults : Faults) (open_fault : Bool)
    (short : Option (List ℕ)) (tmp_fault : Bool) (vm : VersionManager) (files : FileStore)
    (tmp : String) (check : UpdateCheckResult) (old : List ℕ)
    → Distinct vm tmp
    → faults.restore ≡ false
    → faults.stat_active ≡ false
    → lookup vm.active_exe files ≡ some old
    → ((check.available ≡ true)
        × IsInstalled x web vm check (
            download_and_apply_update x web platform_key faults open_fault short tmp_fault vm files
              tmp check))
      ⊎ IsUntouched vm old (
          download_and_apply_update x web platform_key faults open_fault short tmp_fault vm files
            tmp check)
unfolding download_and_apply_update
download_and_apply_update-outcome x web platform_key faults open_fault short tmp_fault vm files tmp
      check old d healthy seen current =
    elim (Bool-cases (check.available && not (str_eq check.download_url ""))) [
      | inr a ↦ rw a (inr (record { error = no_update; is_error = refl; active = current }))
      | inl a ↦
          let offered : check.available ≡ true = ground arith in
          elim (without_tmp x web platform_key faults open_fault short vm files tmp check old d
            healthy seen current tmp_fault
            (download x web platform_key faults open_fault short vm files tmp check)
            (download-outcome x web platform_key faults open_fault short vm files tmp check old d
              healthy seen current)) [ inl i ↦ rw a (inl (offered, i)) | inr k ↦ rw a (inr k) ]
    ]
