-- ===== src/L0/Wire/Tests.antt =====
-- A codec that keeps one packet, and keys of one byte.
use ipvn.Base.{◌≤◌, ◌≡◌, refl, subst, true, false, [], ◌∷◌, some, arith, length, replicate}
use ipvn.Base.Int.{pos}
use ipvn.L0.Identity.{Crypto, Bytes, Identity, public_key_from_did, key_from_text, sign}
use ipvn.L0.Wire.{
  WirePacket, Codec, decoded, encode, decode_packet, unsigned, sign_packet, verify_packet_signature,
  new_packet,
}
use ipvn.L0.Wire.Travel.{IsFaithful, SignsAll, decode_packet-sign_packet}

abbrev zero_key : Bytes
zero_key = replicate 32 0

abbrev one_key_lib : Crypto
one_key_lib = record {
  hex_encode = λ b. "00";
  hex_decode = λ t. some zero_key;
  base64_encode = λ b. "A";
  base64_decode = λ t. some zero_key;
  split_colon = λ t. "did" ∷ "ipvn7" ∷ "00" ∷ [];
  text_bytes = λ t. [];
  sha256 = λ b. b;
  ed25519_sign = λ k m. 7 ∷ m;
  ed25519_verify = λ k m s. true;
}

abbrev owner : Identity
owner = record { public_key = zero_key; private_key = [] }

abbrev letter : WirePacket
letter = new_packet 4 "did:ipvn7:00" "did:ipvn7:01" 1 [] (104 ∷ 105 ∷ []) (pos 1700000000)

abbrev content : Bytes
content = 1 ∷ 2 ∷ 3 ∷ 4 ∷ 5 ∷ 6 ∷ []

abbrev sealed : WirePacket
sealed = record letter { signature = 7 ∷ content }

abbrev one_letter_codec : Codec
one_letter_codec = record {
  config_failed = false;
  marshal = λ p. some content;
  unmarshal = λ b. some sealed;
}

content-marshal : (bytes : Bytes) → one_letter_codec.marshal sealed ≡ some bytes → content ≡ bytes
content-marshal bytes e = ground arith

one_letter_codec-IsFaithful : IsFaithful one_letter_codec sealed
one_letter_codec-IsFaithful = record {
  configured = refl;
  read_back = λ bytes e. refl;
  framed = λ bytes e. subst (λ b. 5 ≤ length b) (content-marshal bytes e) (omega arith);
}

one_key_lib-SignsAll : SignsAll one_key_lib owner
one_key_lib-SignsAll = record { valid = λ m. refl; not_empty = λ m. ground arith }

decode_packet-sign_packet_example :
    (decode_packet one_letter_codec content ≡ decoded sealed)
    × ((verify_packet_signature one_letter_codec one_key_lib sealed ≡ true)
        × (unsigned one_letter_codec sealed ≡ unsigned one_letter_codec letter))
unfolding public_key_from_did key_from_text sign_packet encode sign
decode_packet-sign_packet_example =
    decode_packet-sign_packet one_letter_codec one_key_lib owner letter sealed content
      one_letter_codec-IsFaithful one_key_lib-SignsAll refl refl refl refl refl
