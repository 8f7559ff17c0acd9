-- ===== src/L0/Delegation/Tests.antt =====
-- A chain over libraries that accept every signature, with times to live up to 100 and 200.
use ipvn.Base.{ℕ, ◌≡◌, ◌≢◌, ◌↔◌, refl, inl, String, [], ◌∷◌, none, some, arith, true, replicate}
use ipvn.Base.Int.{ℤ, pos}
use ipvn.L0.Identity.{Crypto, public_key_from_did, verify_signature}
use ipvn.L0.Delegation.{
  Tier, ordinary, escalated, deny, DelegationLink, PrincipalChain, verify_link, verify_links,
  verify_chain, expired,
}
use ipvn.L0.Delegation.Chain.{IsSound, IsGood, granted, verify_chain_iff, verify_chain_deny}

abbrev trusting : Crypto
trusting = record {
  hex_encode = λ b. "";
  hex_decode = λ t. some (replicate 32 0);
  base64_encode = λ b. "";
  base64_decode = λ t. none;
  split_colon = λ t. [];
  text_bytes = λ t. [];
  sha256 = λ b. b;
  ed25519_sign = λ k m. m;
  ed25519_verify = λ k m s. true;
}

abbrev no_digits : ℤ → String
no_digits z = ""

abbrev link : String → String → Tier → ℕ → DelegationLink
link a b t e = record {
  issuer_did = a;
  subject_did = b;
  scope = "vpn";
  tier = t;
  expires_at = pos e;
  signature = "";
}

abbrev two_links : PrincipalChain
two_links = record {
  root_did = "root";
  links = link "root" "agent" escalated 100 ∷ link "agent" "worker" ordinary 200 ∷ [];
}

two_links_accepted : verify_chain trusting no_digits (pos 50) two_links ≡ (ordinary, none)
unfolding verify_chain verify_links verify_link public_key_from_did verify_signature
two_links_accepted = refl

two_links_expired : verify_chain trusting no_digits (pos 150) two_links ≡ (deny, some (expired 0))
unfolding verify_chain verify_links verify_link public_key_from_did verify_signature
two_links_expired = refl

verify_chain_iff_example :
    (verify_chain trusting no_digits (pos 50) two_links ≡ (ordinary, none)) ↔ (
      (two_links.links ≢ [])
      × IsSound trusting no_digits (pos 50) two_links.root_did two_links.links
      × (ordinary ≡ granted trusting no_digits (pos 50) two_links.links))
verify_chain_iff_example = verify_chain_iff trusting no_digits (pos 50) two_links ordinary

denied_link-IsGood : IsGood trusting no_digits (pos 50) (link "root" "agent" deny 100)
unfolding verify_link public_key_from_did verify_signature
denied_link-IsGood = (refl, omega arith)

verify_chain_deny_example :
    verify_chain trusting no_digits
      (pos 50)
      (record { root_did = "root"; links = link "root" "agent" deny 100 ∷ [] })
    ≡ (escalated, none)
verify_chain_deny_example =
    verify_chain_deny trusting no_digits (pos 50) (link "root" "agent" deny 100) denied_link-IsGood
      (inl refl)
