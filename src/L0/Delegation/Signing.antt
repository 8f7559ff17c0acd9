-- ===== src/L0/Delegation/Signing.antt =====
-- Signing and verifying in src/pkg/l0/delegation.go, one after the other.
use ipvn.Base.{
  ℕ, ◌≡◌, refl, ap, ◌∙◌, String, str_eq_refl, Bool, true, false, Option, some, none, [], ◌∷◌, arith,
  if◌then◌else◌, length,
}
use ipvn.Base.Int.{ℤ, ◌+ℤ◌, ltb_ℤ, unix_seconds}
use ipvn.L0.Identity.{
  Crypto, Bytes, Identity, public_key_size, did, public_key_from_did, sign, verify_signature,
}
use ipvn.L0.Identity.Names.{NamesKey, key_names}
use ipvn.L0.Delegation.{
  Tier, ordinary, escalated, deny, is_ordinary, DelegationLink, ChainError, expired, link_bytes,
  verify_link, verify_links, verify_chain, create_delegation_link, SpendingMandate, mandate_bytes,
  sign_mandate, verify_mandate,
}

-- What Ed25519, encoding/hex and the other libraries of texts promise for the key of one identity and
-- one message.
pub record SignsFor (lib : Crypto) (id : Identity) (message : Bytes) : Type 0 where
  pub key_size : length id.public_key ≡ public_key_size
  pub key_texts : NamesKey lib id.public_key
  pub hex_roundtrip :
      lib.hex_decode (lib.hex_encode (lib.ed25519_sign id.private_key message))
      ≡ some (lib.ed25519_sign id.private_key message)
  pub signature_valid :
      lib.ed25519_verify id.public_key message (lib.ed25519_sign id.private_key message) ≡ true

module _ (lib : Crypto) (decimal : ℤ → String) (id : Identity) where
  -- The DID of an identity leads back to its key.
  own_key :
      (message : Bytes)
      → SignsFor lib id message
      → public_key_from_did lib (did lib id) ≡ some id.public_key
  unfolding did
  own_key message laws = (key_names lib id.public_key laws.key_size laws.key_texts).0

  abbrev pub unsigned : ℤ → String → String → Tier → ℤ → DelegationLink
  unsigned clock subject scope tier ttl = record {
    issuer_did = did lib id;
    subject_did = subject;
    scope = scope;
    tier = tier;
    expires_at = unix_seconds (clock +ℤ ttl);
    signature = "";
  }

  -- A link under the signature of its issuer.
  abbrev pub signed : DelegationLink → DelegationLink
  signed d = record d {
    signature = lib.hex_encode (lib.ed25519_sign id.private_key (link_bytes lib decimal d));
  }

  signed-verify_link :
      (d : DelegationLink)
      → d.issuer_did ≡ did lib id
      → SignsFor lib id (link_bytes lib decimal d)
      → verify_link lib decimal (signed d) ≡ true
  unfolding verify_link verify_signature link_bytes
  signed-verify_link d own laws =
      let key : public_key_from_did lib d.issuer_did ≡ some id.public_key =
        ap (public_key_from_did lib) own ∙ own_key (link_bytes lib decimal d) laws in
      rw (key, laws.hex_roundtrip) laws.signature_valid

  -- What VerifyChain says of a link of one's own that verifies, at the second `now`.
  abbrev pub answer : Tier → Bool → Tier × Option ChainError
  answer tier is_late =
      if is_late
      then (deny, some (expired 0))
      else (if is_ordinary tier then ordinary else escalated, none)

  one_link-verify_chain :
      (now : ℤ) (l : DelegationLink)
      → verify_link lib decimal l ≡ true
      → verify_chain lib decimal now (record { root_did = l.issuer_did; links = l ∷ [] })
        ≡ answer l.tier (ltb_ℤ l.expires_at now)
  unfolding verify_chain verify_links
  one_link-verify_chain now l good = rw (str_eq_refl l.issuer_did, good) refl

  -- Where Ed25519 and the texts of the issuer's key keep their promises, CreateDelegationLink
  -- succeeds; its link names the issuer, keeps the subject, the scope and the tier it was given,
  -- expires at the whole second of the clock plus the time to live, and verifies; and the chain of
  -- this link from the issuer is accepted by VerifyChain, as of tier ordinary or else escalated,
  -- at every second up to that one, and refused as expired at every later one.
  pub create_delegation_link-verify_link :
      (clock : ℤ) (subject scope : String) (tier : Tier) (ttl now : ℤ)
      → SignsFor lib id (link_bytes lib decimal (unsigned clock subject scope tier ttl))
      → (l : DelegationLink) × (create_delegation_link lib decimal clock id subject scope tier ttl
          ≡ some l)
        × (l.issuer_did ≡ did lib id)
        × (l.subject_did ≡ subject)
        × (l.scope ≡ scope)
        × (l.tier ≡ tier)
        × (l.expires_at ≡ unix_seconds (clock +ℤ ttl))
        × (verify_link lib decimal l ≡ true)
        × (verify_chain lib decimal now (record { root_did = did lib id; links = l ∷ [] })
            ≡ answer tier (ltb_ℤ (unix_seconds (clock +ℤ ttl)) now))
  unfolding create_delegation_link sign
  create_delegation_link-verify_link clock subject scope tier ttl now laws =
      let d = unsigned clock subject scope tier ttl in
      let good = signed-verify_link d refl laws in
      (
        signed d,
        rw (str_eq_refl (did lib id)),
        refl,
        refl,
        refl,
        refl,
        refl,
        good,
        one_link-verify_chain now (signed d) good,
      )

  -- A mandate in the payer's own name is signed, and the signed mandate verifies exactly until it
  -- expires.
  pub sign_mandate-verify_mandate :
      (decimal_units : ℕ → String) (now : ℤ) (m : SpendingMandate)
      → m.payer_did ≡ did lib id
      → SignsFor lib id (mandate_bytes lib decimal decimal_units m)
      → (s : SpendingMandate) × (sign_mandate lib decimal decimal_units id m ≡ some s)
        × (s.max_units ≡ m.max_units)
        × (verify_mandate lib decimal decimal_units now s
            ≡ (if ltb_ℤ m.expires_at now then false else true))
  unfolding sign_mandate verify_mandate sign verify_signature mandate_bytes
  sign_mandate-verify_mandate decimal_units now m own laws =
      let key : public_key_from_did lib m.payer_did ≡ some id.public_key =
        rw own (own_key (mandate_bytes lib decimal decimal_units m) laws) in
      (
        record m {
          signature =
              lib.hex_encode
                (lib.ed25519_sign id.private_key (mandate_bytes lib decimal decimal_units m));
        },
        rw (own, str_eq_refl (did lib id)),
        refl,
        ground (arith, key, laws.hex_roundtrip, laws.signature_valid),
      )
