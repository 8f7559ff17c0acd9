-- ===== src/Core/Versions/Beacon.antt =====
-- What CheckOnlineUpdate of src/pkg/core/version_manager.go offers, and from where.
use ipvn.Base.{
  ℕ, ◌≡◌, ◌≢◌, ◌⊎◌, ◌↔◌, refl, ◌∙◌, ap, subst, String, true, ◌||◌, ◌==◌, List, some, arith,
  Option-cases, Bool-cases, inl, inr, str_eq, str_eq_iff, ==_iff,
}
use text.Mathlib.Text.{starts_with}
use ipvn.Core.Versions.{Texts}
use ipvn.Core.Versions.Online.{
  default_update_manifest_url, UpdateManifest, UpdateCheckResult, checked, Web, is_local,
  fetch_manifest, check_online_update, official_prefix,
}
use ipvn.Core.Versions.Releases.{
  Begins, IsPlainLocal, Releases, starts_iff, check_manifest→Releases, Releases→check_manifest,
}

-- The address that the manifest is fetched from.
abbrev pub IsSource : String → String → Type 0
IsSource asked used =
    ((asked ≡ "")
      × (used
          ≡ "https://raw.githubusercontent.com/galleguillosdavid-coder/ipvn7_0.7/main/dist/version_manifest.json"))
    ⊎ ((asked ≢ "")
        × (used ≡ asked)
        × (Begins asked "https://raw.githubusercontent.com/galleguillosdavid-coder/ipvn7_0.7/"
            ⊎ IsPlainLocal asked))

module _ (x : Texts) (web : Web) (platform_key : String) where
  -- An answer of an address that holds a release.
  pub record Answers (used : String) (r : UpdateCheckResult) : Type 0 where
    pub body : List ℕ
    pub answered : web.get used ≡ some (200, body)
    pub manifest : UpdateManifest
    pub decoded : web.decode_manifest body ≡ some manifest
    pub releases : Releases x web platform_key manifest r

  fetch_manifest→Answers :
      (used : String) (r : UpdateCheckResult)
      → fetch_manifest x web platform_key used ≡ checked r
      → r.available ≡ true
      → Answers used r
  fetch_manifest→Answers used r e a = elim (Option-cases (web.get used)) [
    | inl g ↦ absurd (ground (arith, g, e))
    | inr ((status, body), g) ↦ elim (Bool-cases (status == 200)) [
      | inr s ↦ absurd (ground (arith, g, s, e))
      | inl s ↦ elim (Option-cases (web.decode_manifest body)) [
        | inl d ↦ absurd (ground (arith, g, s, d, e))
        | inr (m, d) ↦ record {
          body = body;
          answered = g ∙ ap (λ n. some (n, body)) ((==_iff status 200).0 s);
          manifest = m;
          decoded = d;
          releases = check_manifest→Releases x web platform_key m r (ground (arith, g, s, d, e)) a;
        }
      ]
    ]
  ]

  Answers→fetch_manifest :
      (used : String) (r : UpdateCheckResult)
      → Answers used r
      → fetch_manifest x web platform_key used ≡ checked r
  Answers→fetch_manifest used r offer =
      let rest = Releases→check_manifest x web platform_key offer.manifest r offer.releases in
      ground (arith, offer.answered, offer.decoded, rest)

  check_online_update→Answers :
      (asked : String) (r : UpdateCheckResult)
      → (check_online_update x web platform_key asked ≡ checked r) × (r.available ≡ true)
      → (used : String) × IsSource asked used × Answers used r
  unfolding check_online_update
  check_online_update→Answers asked r (e, a) = elim (Bool-cases (str_eq asked "")) [
    | inl s ↦ (
      default_update_manifest_url,
      inl ((str_eq_iff asked "").0 s, refl),
      fetch_manifest→Answers default_update_manifest_url r (ground (arith, s, e)) a,
    )
    | inr s ↦ elim (Bool-cases (starts_with asked official_prefix || is_local asked)) [
      | inr o ↦ absurd (ground (arith, s, o, e))
      | inl o ↦ (
        asked,
        inr (
          λ q. absurd (ground (arith, s, (str_eq_iff asked "").1 q)),
          refl,
          (starts_iff asked official_prefix).0 o,
        ),
        fetch_manifest→Answers asked r (ground (arith, s, o, e)) a,
      )
    ]
  ]

  Answers→check_online_update :
      (asked : String) (r : UpdateCheckResult)
      → ((used : String) × IsSource asked used × Answers used r)
      → (check_online_update x web platform_key asked ≡ checked r) × (r.available ≡ true)
  unfolding check_online_update
  Answers→check_online_update asked r (used, source, offer) =
      let run = Answers→fetch_manifest used r offer in
      let a : r.available ≡ true = ap (λ q. q.available) offer.releases.reported in
      elim source [
        | inl (left_out, default) ↦ (
          rw ((str_eq_iff asked "").1 left_out)
              (subst (λ u. fetch_manifest x web platform_key u ≡ checked r) default run),
          a,
        )
        | inr (given, same, start) ↦ elim (Bool-cases (str_eq asked "")) [
          | inl s ↦ absurd (given ((str_eq_iff asked "").0 s))
          | inr s ↦ (
            rw (s, (starts_iff asked official_prefix).1 start)
                (subst (λ u. fetch_manifest x web platform_key u ≡ checked r) same run),
            a,
          )
        ]
      ]

  -- CheckOnlineUpdate reports an update as available exactly when: the address is left out, for the
  -- default one, or its text begins with that of the repository, `http://127.0.0.1:` or
  -- `http://localhost:`; it answers 200 with a manifest that can be decoded; that manifest lists
  -- this platform; its version and the current one are both well-formed, and its major, minor and
  -- patch are later, the first that differs deciding; the address of its release begins with
  -- `https://`, `http://127.0.0.1:` or `http://localhost:`; and the report is of that release. No
  -- signature is among the conditions.
  pub check_online_update_iff :
      (asked : String) (r : UpdateCheckResult)
      → ((check_online_update x web platform_key asked ≡ checked r) × (r.available ≡ true))
        ↔ ((used : String) × IsSource asked used × Answers used r)
  check_online_update_iff asked r =
      (check_online_update→Answers asked r, Answers→check_online_update asked r)
