-- ===== src/L0/Delegation.antt =====
-- src/pkg/l0/delegation.go: chains of signed delegations (AgenticPrincipalChain) and spending
-- mandates. The clock and fmt's decimal texts are arguments.
pub mod Chain
pub mod Signing
mod SigningTests
mod Tests
use Prim.Native.String.{◌++◌}
use ipvn.Base.{
  ℕ, suc, ◌≡◌, String, str_eq, Bool, true, false, ◌&&◌, List, [], ◌∷◌, Option, none, some, ◌==◌,
  if◌then◌else◌,
}
use ipvn.Base.Int.{ℤ, ◌+ℤ◌, ltb_ℤ, unix_seconds}
use ipvn.L0.Identity.{Crypto, Bytes, Identity, did, public_key_from_did, sign, verify_signature}

-- ExecutionTier is a string type: any other text may stand there.
pub data Tier : Type 0 where
  ordinary escalated quarantine deny : Tier
  other_tier : String → Tier

abbrev pub tier_text : Tier → String
tier_text ordinary = "ordinary"
tier_text escalated = "escalated"
tier_text quarantine = "quarantine"
tier_text deny = "deny"
tier_text (other_tier s) = s

abbrev pub is_ordinary : Tier → Bool
is_ordinary ordinary = true
is_ordinary t = false

abbrev pub is_escalated : Tier → Bool
is_escalated escalated = true
is_escalated t = false

pub record DelegationLink : Type 0 where
  pub issuer_did : String
  pub subject_did : String
  pub scope : String
  pub tier : Tier
  pub expires_at : ℤ
  pub signature : String

pub record PrincipalChain : Type 0 where
  pub root_did : String
  pub links : List DelegationLink

-- The errors of VerifyChain, with the index of the link.
pub data ChainError : Type 0 where
  empty_chain root_mismatch : ChainError
  custody_break bad_signature expired escalation : ℕ → ChainError

module _ (lib : Crypto) (decimal : ℤ → String) where
  unfoldable pub link_bytes : DelegationLink → Bytes
  link_bytes d = lib.sha256 (
      lib.text_bytes (
        d.issuer_did
        ++ "|"
        ++ d.subject_did
        ++ "|"
        ++ d.scope
        ++ "|"
        ++ tier_text d.tier
        ++ "|"
        ++ decimal d.expires_at))

  -- `none` is the error that the identity is not the issuer.
  unfoldable pub sign_link : Identity → DelegationLink → Option DelegationLink
  sign_link issuer d =
      if str_eq (did lib issuer) d.issuer_did
      then some (record d { signature = lib.hex_encode (sign lib issuer (link_bytes d)) })
      else none

  abbrev pub check_signature : Option Bytes → Option Bytes → Bytes → Bool
  check_signature none sig message = false
  check_signature (some key) none message = false
  check_signature (some key) (some sig) message = verify_signature lib key message sig

  unfoldable pub verify_link : DelegationLink → Bool
  verify_link d =
      check_signature (public_key_from_did lib d.issuer_did) (lib.hex_decode d.signature)
        (link_bytes d)

  -- CreateDelegationLink at a time of the clock, with a time to live, both in nanoseconds.
  unfoldable pub create_delegation_link :
      ℤ → Identity → String → String → Tier → ℤ → Option DelegationLink
  unfolding sign_link
  create_delegation_link clock issuer subject scope tier ttl = sign_link issuer (record {
    issuer_did = did lib issuer;
    subject_did = subject;
    scope = scope;
    tier = tier;
    expires_at = unix_seconds (clock +ℤ ttl);
    signature = "";
  })

  module _ (now : ℤ) where
    -- The loop of VerifyChain from link i on: `expected` is the root for the first link, and the
    -- subject of the link before for the others.
    unfoldable pub verify_links : ℕ → String → Tier → List DelegationLink → Tier × Option ChainError
    verify_links i expected current [] = (current, none)
    verify_links i expected current (link ∷ rest) =
        let next = if is_ordinary link.tier then ordinary else current in
        let onward = verify_links (suc i) link.subject_did next rest in
        if str_eq link.issuer_did expected
        then (if verify_link link
            then (if ltb_ℤ link.expires_at now
                then (deny, some (expired i))
                else (if is_ordinary current && is_escalated link.tier
                    then (deny, some (escalation i))
                    else onward))
            else (deny, some (bad_signature i)))
        else (deny, some (if i == 0 then root_mismatch else custody_break i))

    abbrev pub verify_nonempty : String → List DelegationLink → Tier × Option ChainError
    verify_nonempty root [] = (quarantine, some empty_chain)
    verify_nonempty root (link ∷ rest) = verify_links 0 root escalated (link ∷ rest)

    unfoldable pub verify_chain : PrincipalChain → Tier × Option ChainError
    verify_chain c = verify_nonempty c.root_did c.links

-- A spending mandate.
pub record SpendingMandate : Type 0 where
  pub payer_did : String
  pub recipient_did : String
  pub max_units : ℕ
  pub resource : String
  pub expires_at : ℤ
  pub signature : String

module _ (lib : Crypto) (decimal : ℤ → String) (decimal_units : ℕ → String) where
  unfoldable pub mandate_bytes : SpendingMandate → Bytes
  mandate_bytes m = lib.sha256 (
      lib.text_bytes (
        m.payer_did
        ++ "|"
        ++ m.recipient_did
        ++ "|"
        ++ decimal_units m.max_units
        ++ "|"
        ++ m.resource
        ++ "|"
        ++ decimal m.expires_at))

  unfoldable pub sign_mandate : Identity → SpendingMandate → Option SpendingMandate
  sign_mandate payer m =
      if str_eq (did lib payer) m.payer_did
      then some (record m { signature = lib.hex_encode (sign lib payer (mandate_bytes m)) })
      else none

  unfoldable pub verify_mandate : ℤ → SpendingMandate → Bool
  verify_mandate now m =
      if ltb_ℤ m.expires_at now
      then false
      else check_signature lib decimal (public_key_from_did lib m.payer_did)
          (lib.hex_decode m.signature) (mandate_bytes m)

  -- CreateSpendingMandate at a time of the clock, with a time to live, both in nanoseconds.
  unfoldable pub create_spending_mandate :
      ℤ → Identity → String → String → ℕ → ℤ → Option SpendingMandate
  unfolding sign_mandate
  create_spending_mandate clock payer recipient resource max_units ttl =
      sign_mandate payer (record {
        payer_did = did lib payer;
        recipient_did = recipient;
        max_units = max_units;
        resource = resource;
        expires_at = unix_seconds (clock +ℤ ttl);
        signature = "";
      })
