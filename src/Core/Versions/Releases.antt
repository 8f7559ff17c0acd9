-- ===== src/Core/Versions/Releases.antt =====
-- The releases that CheckOnlineUpdate of src/pkg/core/version_manager.go reports from a manifest.
use ipvn.Base.{
  ◌<◌, ◌≡◌, ◌⊎◌, ◌↔◌, refl, ◌∙◌, sym, ap, String, Bool, true, false, ◌||◌, some, arith,
  Option-cases, Bool-cases, inl, inr,
}
use text.Mathlib.Text.{starts_with}
use ipvn.Base.Dict.{lookup}
use ipvn.Core.Versions.{Texts, parse_sem_ver, is_higher, is_higher_version}
use ipvn.Core.Versions.Order.{Version, higher-parsed, parsed-higher}
use ipvn.Core.Versions.Online.{
  PlatformRelease, UpdateManifest, UpdateCheckResult, Checked, refused, checked, Web, is_local,
  bare_result, check_manifest,
}

-- The order on three numbers, the first that differs deciding.
abbrev pub Later : Version → Version → Type 0
Later (major, minor, patch) (major', minor', patch') =
    (major < major')
    ⊎ ((major ≡ major') × ((minor < minor') ⊎ ((minor ≡ minor') × (patch < patch'))))

abbrev pub Begins : String → String → Type 0
Begins url start = starts_with url start ≡ true

-- An address in plain HTTP whose text begins like one of the own machine.
abbrev pub IsPlainLocal : String → Type 0
IsPlainLocal url = Begins url "http://127.0.0.1:" ⊎ Begins url "http://localhost:"

is_higher_iff : (c t : Version) → (is_higher c t ≡ true) ↔ Later c t
is_higher_iff (c1, c2, c3) (t1, t2, t3) = (λ h. ground (arith, h), λ h. ground (arith, h))

or_iff : (a b : Bool) → ((a || b) ≡ true) ↔ ((a ≡ true) ⊎ (b ≡ true))
or_iff true b = (λ h. inl refl, λ h. refl)
or_iff false b = (λ h. inr h, λ h. elim h [ inl e ↦ absurd (ground (arith, e)) | inr e ↦ e ])

-- A text that is allowed by its first start, or else is plain and local.
pub starts_iff :
    (url start : String)
    → ((starts_with url start || is_local url) ≡ true) ↔ (Begins url start ⊎ IsPlainLocal url)
starts_iff url start =
    let whole = or_iff (starts_with url start) (is_local url) in
    let local =
      or_iff (starts_with url "http://127.0.0.1:") (starts_with url "http://localhost:") in
    (
      λ h. elim (whole.0 h) [ inl e ↦ inl e | inr e ↦ inr (local.0 e) ],
      λ h. elim h [ inl e ↦ whole.1 (inl e) | inr e ↦ whole.1 (inr (local.1 e)) ],
    )

module _ (x : Texts) (web : Web) (platform_key : String) where
  -- What a check reports of a release of a manifest.
  abbrev pub report : UpdateManifest → PlatformRelease → UpdateCheckResult
  report m rel = record {
    available = true;
    current = "v0.7.0";
    latest_version = m.version;
    notes = m.release_notes;
    platform = platform_key;
    download_url = rel.url;
    expected_sha256 = rel.sha256;
  }

  -- A manifest that holds a later release of this platform, as it is reported.
  pub record Releases (m : UpdateManifest) (r : UpdateCheckResult) : Type 0 where
    pub release : PlatformRelease
    pub listed : lookup platform_key m.platforms ≡ some release
    pub old : Version
    pub new : Version
    pub old_version : parse_sem_ver x "v0.7.0" ≡ some old
    pub new_version : parse_sem_ver x m.version ≡ some new
    pub later : Later old new
    pub secure : Begins release.url "https://" ⊎ IsPlainLocal release.url
    pub reported : r ≡ report m release

  result_or : UpdateCheckResult → Checked → UpdateCheckResult
  result_or r (checked given) = given
  result_or r (refused e) = r

  -- The run of check_manifest on a listed release from an address that is allowed.
  check_manifest-listed :
      (m : UpdateManifest) (rel : PlatformRelease)
      → lookup platform_key m.platforms ≡ some rel
      → (starts_with rel.url "https://" || is_local rel.url) ≡ true
      → check_manifest x web platform_key m
        ≡ checked (record (report m rel) { available = is_higher_version x "v0.7.0" m.version })
  unfolding check_manifest
  check_manifest-listed m rel listed ok = ground (arith, listed, ok)

  pub check_manifest→Releases :
      (m : UpdateManifest) (r : UpdateCheckResult)
      → check_manifest x web platform_key m ≡ checked r
      → r.available ≡ true
      → Releases m r
  unfolding check_manifest result_or
  check_manifest→Releases m r e a = elim (Option-cases (lookup platform_key m.platforms)) [
    | inl l ↦
        let run : check_manifest x web platform_key m
            ≡ checked (bare_result x web platform_key m false) =
          rw (check_manifest, l) refl in
        let given = ap (result_or r) (sym run ∙ e) in
        absurd (ground (arith, ap (λ q. q.available) given, a))
    | inr (rel, l) ↦ elim (Bool-cases (starts_with rel.url "https://" || is_local rel.url)) [
      | inr bad ↦ absurd (ground (arith, l, bad, e))
      | inl ok ↦
          let run = check_manifest-listed m rel l ok in
          let given = ap (result_or r) (sym run ∙ e) in
          let newer : is_higher_version x "v0.7.0" m.version ≡ true =
            ap (λ q. q.available) given ∙ a in
          let (c, (t, (old, (new, higher)))) = higher-parsed x "v0.7.0" m.version newer in
          record {
            release = rel;
            listed = l;
            old = c;
            new = t;
            old_version = old;
            new_version = new;
            later = (is_higher_iff c t).0 higher;
            secure = (starts_iff rel.url "https://").0 ok;
            reported = sym given ∙ ap (λ (b : Bool). record (report m rel) { available = b }) newer;
          }
    ]
  ]

  pub Releases→check_manifest :
      (m : UpdateManifest) (r : UpdateCheckResult)
      → Releases m r
      → check_manifest x web platform_key m ≡ checked r
  Releases→check_manifest m r offer =
      let newer : is_higher_version x "v0.7.0" m.version ≡ true =
        parsed-higher x "v0.7.0" m.version offer.old offer.new offer.old_version offer.new_version
        ∙ (is_higher_iff offer.old offer.new).1 offer.later in
      check_manifest-listed m offer.release offer.listed
        ((starts_iff offer.release.url "https://").1 offer.secure)
      ∙ ap (λ (b : Bool). checked (record (report m offer.release) { available = b })) newer
      ∙ ap checked (sym offer.reported)
