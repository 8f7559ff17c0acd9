-- ===== src/L0/Delegation/Chain.antt =====
-- The chains that VerifyChain of src/pkg/l0/delegation.go accepts.
use ipvn.Base.{
  ℕ, suc, ◌≡◌, ◌≢◌, ◌↔◌, ◌⊎◌, refl, sym, ap, ◌∙◌, String, str_eq_iff, Bool, true, false, ◌&&◌, ◌||◌,
  List, [], ◌∷◌, Option, none, arith, All, if◌then◌else◌,
}
use ipvn.Base.Int.{ℤ, ◌≤ℤ◌}
use ipvn.L0.Identity.{Crypto}
use ipvn.L0.Delegation.{
  Tier, ordinary, escalated, quarantine, deny, is_ordinary, is_escalated, DelegationLink,
  PrincipalChain, ChainError, verify_link, verify_links, verify_chain, verify_nonempty,
}

-- Each link is issued by the subject of the one before, the first by `expected`.
abbrev pub InCustody : String → List DelegationLink → Type 0
InCustody expected [] = Unit {0}
InCustody expected (l ∷ ls) = (l.issuer_did ≡ expected) × InCustody l.subject_did ls

abbrev pub has_ordinary : List DelegationLink → Bool
has_ordinary [] = false
has_ordinary (l ∷ ls) = is_ordinary l.tier || has_ordinary ls

abbrev pub has_escalated : List DelegationLink → Bool
has_escalated [] = false
has_escalated (l ∷ ls) = is_escalated l.tier || has_escalated ls

-- No link of tier escalated stands behind one of tier ordinary.
abbrev pub Attenuates : List DelegationLink → Type 0
Attenuates [] = Unit {0}
Attenuates (l ∷ ls) = (is_ordinary l.tier ≡ true → has_escalated ls ≡ false) × Attenuates ls

module _ (lib : Crypto) (decimal : ℤ → String) (now : ℤ) where
  abbrev pub IsGood : DelegationLink → Type 0
  IsGood l = (verify_link lib decimal l ≡ true) × (now ≤ℤ l.expires_at)

  abbrev pub IsSound : String → List DelegationLink → Type 0
  IsSound root ls = InCustody root ls × All IsGood ls × Attenuates ls

  abbrev pub granted : List DelegationLink → Tier
  granted ls = if has_ordinary ls then ordinary else escalated

  -- A link that is passed meets the four tests, and the loop goes on behind it.
  passed :
      (i : ℕ) (expected : String) (current : Tier) (l : DelegationLink) (ls : List DelegationLink)
      → (verify_links lib decimal now i expected current (l ∷ ls)).1 ≡ none
      → (l.issuer_did ≡ expected)
        × (verify_link lib decimal l ≡ true)
        × (now ≤ℤ l.expires_at)
        × ((is_ordinary current && is_escalated l.tier) ≡ false)
        × (verify_links lib decimal now i expected current (l ∷ ls)
            ≡ verify_links lib decimal now
                (suc i)
                l.subject_did
                (if is_ordinary l.tier then ordinary else current)
                ls)
  unfolding verify_links
  passed i expected current l ls h = ground (arith, str_eq_iff l.issuer_did expected)

  accept→sound :
      (i : ℕ) (expected : String) (current : Tier) (ls : List DelegationLink)
      → (verify_links lib decimal now i expected current ls).1 ≡ none
      → InCustody expected ls
        × All IsGood ls
        × Attenuates ls
        × (is_ordinary current ≡ true → has_escalated ls ≡ false)
        × ((verify_links lib decimal now i expected current ls).0
            ≡ (if has_ordinary ls then ordinary else current))
  accept→sound i expected current [] h = (tt, tt, tt, λ e. refl, unfold verify_links in refl)
  accept→sound i expected current (l ∷ ls) h =
      let p = passed i expected current l ls h in
      let next = if is_ordinary l.tier then ordinary else current in
      let onward : (verify_links lib decimal now (suc i) l.subject_did next ls).1 ≡ none =
        rw (p.4) at h in
      let rest = accept→sound (suc i) l.subject_did next ls onward in
      (
        (p.0, rest.0),
        ((p.1, p.2), rest.1),
        (ground (arith, rest), rest.2),
        ground (arith, rest, p.3),
        rw (p.4) (ground (arith, rest)),
      )

  sound→accept :
      (i : ℕ) (expected : String) (current : Tier) (ls : List DelegationLink)
      → InCustody expected ls
      → All IsGood ls
      → Attenuates ls
      → (is_ordinary current ≡ true → has_escalated ls ≡ false)
      → (verify_links lib decimal now i expected current ls).1 ≡ none
  unfolding verify_links
  sound→accept i expected current [] c g a o = refl
  sound→accept i expected current (l ∷ ls) c g a o =
      let next = if is_ordinary l.tier then ordinary else current in
      let rest = sound→accept (suc i) l.subject_did next ls c.1 g.1 a.1 in
      ground (arith, str_eq_iff l.issuer_did expected, rest)

-- VerifyChain returns no error exactly for a nonempty chain whose links hand custody on from the
-- root, each with a valid signature and not expired, none of tier escalated behind one of tier
-- ordinary. It then grants ordinary if some link has that tier, and escalated otherwise.
pub verify_chain_iff :
    (lib : Crypto) (decimal : ℤ → String) (now : ℤ) (c : PrincipalChain) (t : Tier)
    → (verify_chain lib decimal now c ≡ (t, none)) ↔ (
        (c.links ≢ [])
        × IsSound lib decimal now c.root_did c.links
        × (t ≡ granted lib decimal now c.links))
unfolding verify_chain
verify_chain_iff lib decimal now c t = go c.links
  where
    go :
        (ls : List DelegationLink)
        → (verify_nonempty lib decimal now c.root_did ls ≡ (t, none))
          ↔ ((ls ≢ []) × IsSound lib decimal now c.root_did ls × (t ≡ granted lib decimal now ls))
    go [] = (λ h. cc, λ h. absurd (h.0 refl))
    go (l ∷ ls) = (
      λ h.
          let s =
            accept→sound lib decimal now 0 c.root_did escalated (l ∷ ls)
              (ap (λ (p : Tier × Option ChainError). p.1) h) in
          (λ e. cc, (s.0, s.1, s.2), sym (ap (λ (p : Tier × Option ChainError). p.0) h) ∙ s.4),
      λ h.
          let accepted =
            sound→accept lib decimal now 0 c.root_did escalated (l ∷ ls) h.1.0 h.1.1 h.1.2
              (λ e. cc) in
          let s = accept→sound lib decimal now 0 c.root_did escalated (l ∷ ls) accepted in
          λ i. ((s.4 ∙ sym h.2) i, accepted i),
    )

-- A chain of one link with a valid signature that is not expired is accepted and granted tier
-- escalated, although the link's own tier is deny or quarantine.
pub verify_chain_deny :
    (lib : Crypto) (decimal : ℤ → String) (now : ℤ) (l : DelegationLink)
    → IsGood lib decimal now l
    → (l.tier ≡ deny) ⊎ (l.tier ≡ quarantine)
    → verify_chain lib decimal now (record { root_did = l.issuer_did; links = l ∷ [] })
      ≡ (escalated, none)
unfolding verify_chain verify_links
verify_chain_deny lib decimal now l good d = ground (arith, str_eq_iff l.issuer_did l.issuer_did)
