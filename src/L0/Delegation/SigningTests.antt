-- ===== src/L0/Delegation/SigningTests.antt =====
-- An identity whose library gives every message the same signature.
use ipvn.Base.{ℕ, ◌≡◌, refl, String, true, some, none, [], ◌∷◌, replicate}
use ipvn.Base.Int.{ℤ, pos, ◌+ℤ◌, ltb_ℤ, unix_seconds}
use ipvn.L0.Identity.Names.{NamesKey}
use ipvn.L0.Identity.{Crypto, Bytes, Identity, did}
use ipvn.L0.Delegation.{
  ordinary, DelegationLink, verify_link, verify_chain, create_delegation_link, SpendingMandate,
}
use ipvn.L0.Delegation.Signing.{SignsFor, create_delegation_link-verify_link}

abbrev zeros : String
zeros = "0000000000000000000000000000000000000000000000000000000000000000"

abbrev signing : Crypto
signing = record {
  hex_encode = λ b. zeros;
  hex_decode = λ t. some (replicate 32 0);
  base64_encode = λ b. "AAAAAAAAAAAAAAAAAAAAAAAAAAAAAAAAAAAAAAAAAAA";
  base64_decode = λ t. some (replicate 32 0);
  split_colon = λ t. "did" ∷ "ipvn7" ∷ zeros ∷ [];
  text_bytes = λ t. [];
  sha256 = λ b. b;
  ed25519_sign = λ k m. replicate 32 0;
  ed25519_verify = λ k m s. true;
}

abbrev signer : Identity
signer = record { public_key = replicate 32 0; private_key = [] }

abbrev no_text : ℤ → String
no_text z = ""

abbrev no_units : ℕ → String
no_units n = ""

signer-NamesKey : NamesKey signing signer.public_key
signer-NamesKey = record {
  hex_roundtrip = refl;
  hex_length = refl;
  base64_roundtrip = refl;
  base64_length = refl;
  base64_no_prefix = refl;
  split_did = refl;
}

signer-SignsFor : (message : Bytes) → SignsFor signing signer message
signer-SignsFor message = record {
  key_size = refl;
  key_texts = signer-NamesKey;
  hex_roundtrip = refl;
  signature_valid = refl;
}

-- A time to live of 90 seconds from 10.5 seconds on, at second 100 and at second 101.
abbrev half_past_ten : ℤ
half_past_ten = pos 10500000000

abbrev ninety_seconds : ℤ
ninety_seconds = pos 90000000000

late_expiry : ltb_ℤ (unix_seconds (half_past_ten +ℤ ninety_seconds)) (pos 101) ≡ true
unfolding ◌+ℤ◌
late_expiry = refl

create_delegation_link-verify_link_example :
    (l : DelegationLink) × (create_delegation_link signing no_text half_past_ten signer "agent"
        "vpn" ordinary ninety_seconds
      ≡ some l)
    × (l.issuer_did ≡ did signing signer)
    × (l.subject_did ≡ "agent")
    × (l.scope ≡ "vpn")
    × (l.tier ≡ ordinary)
    × (l.expires_at ≡ pos 100)
    × (verify_link signing no_text l ≡ true)
    × (verify_chain signing no_text
          (pos 100)
          (record { root_did = did signing signer; links = l ∷ [] })
        ≡ (ordinary, none))
unfolding ◌+ℤ◌
create_delegation_link-verify_link_example =
    create_delegation_link-verify_link signing no_text signer half_past_ten "agent" "vpn" ordinary
      ninety_seconds (pos 100) (signer-SignsFor _)

abbrev mandate : SpendingMandate
mandate = record {
  payer_did = did signing signer;
  recipient_did = "did:b";
  max_units = 7;
  resource = "relay";
  expires_at = pos 100;
  signature = "";
}
