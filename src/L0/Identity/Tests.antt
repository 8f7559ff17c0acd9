-- ===== src/L0/Identity/Tests.antt =====
-- A key with its texts, over libraries that know that key alone.
use ipvn.Base.{refl, String, true, [], ◌∷◌, some, replicate}
use ipvn.L0.Identity.{Crypto, Bytes}
use ipvn.L0.Identity.Names.{NamesKey}

abbrev zero_key : Bytes
zero_key = replicate 32 0

abbrev zero_hex : String
zero_hex = "0000000000000000000000000000000000000000000000000000000000000000"

abbrev zero_compact : String
zero_compact = "AAAAAAAAAAAAAAAAAAAAAAAAAAAAAAAAAAAAAAAAAAA"

abbrev one_key_lib : Crypto
one_key_lib = record {
  hex_encode = λ b. zero_hex;
  hex_decode = λ t. some zero_key;
  base64_encode = λ b. zero_compact;
  base64_decode = λ t. some zero_key;
  split_colon = λ t. "did" ∷ "ipvn7" ∷ zero_hex ∷ [];
  text_bytes = λ t. [];
  sha256 = λ b. b;
  ed25519_sign = λ k m. m;
  ed25519_verify = λ k m s. true;
}

one_key_lib-NamesKey : NamesKey one_key_lib zero_key
one_key_lib-NamesKey = record {
  hex_roundtrip = refl;
  hex_length = refl;
  base64_roundtrip = refl;
  base64_length = refl;
  base64_no_prefix = refl;
  split_did = refl;
}
