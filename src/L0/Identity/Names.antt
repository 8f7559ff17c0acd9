-- ===== src/L0/Identity/Names.antt =====
-- The names of a key in src/pkg/l0/identity.go.
use Prim.Native.String.{◌++◌, len}
use text.Mathlib.Text.{starts_with}
use text.Mathlib.TextPositions.{starts_with-append}
use ipvn.Base.{
  ◌+◌, ◌≡◌, String, true, false, [], ◌∷◌, some, arith, ◌==◌, length, Bool-cases, Option-cases, inl,
  inr,
}
use ipvn.L0.Identity.{
  Crypto, Bytes, key_of_size, did_prefix, public_key_size, did_from_public_key,
  compact_did_from_public_key, canonical_did, public_key_from_did,
}

-- What encoding/hex, encoding/base64 and strings.Split document, for the texts of one key.
pub record NamesKey (lib : Crypto) (key : Bytes) : Type 0 where
  pub hex_roundtrip : lib.hex_decode (lib.hex_encode key) ≡ some key
  pub hex_length : len (lib.hex_encode key) ≡ length key + length key
  pub base64_roundtrip : lib.base64_decode (lib.base64_encode key) ≡ some key
  pub base64_length : len (lib.base64_encode key) ≡ 43
  pub base64_no_prefix : starts_with (lib.base64_encode key) did_prefix ≡ false
  pub split_did :
      lib.split_colon (did_prefix ++ lib.hex_encode key) ≡ "did" ∷ "ipvn7" ∷ lib.hex_encode key ∷ []

module _ (lib : Crypto) where
  canonical_did-prefix : (text : String) → starts_with (canonical_did lib text) did_prefix ≡ true
  unfolding canonical_did
  canonical_did-prefix text = elim (Bool-cases (starts_with text did_prefix)) [
    | inl has ↦ rw has has
    | inr lacks ↦ elim (Bool-cases (len text == 43)) [
      | inr other ↦ rw (lacks, other) (starts_with-append did_prefix text)
      | inl compact ↦ elim (Option-cases (key_of_size (lib.base64_decode text))) [
        | inl bad ↦ rw (lacks, compact, bad) (starts_with-append did_prefix text)
        | inr (raw, good) ↦
            rw (lacks, compact, good) (starts_with-append did_prefix (lib.hex_encode raw))
      ]
    ]
  ]

  canonical_did_fixed :
      (text : String) → starts_with text did_prefix ≡ true → canonical_did lib text ≡ text
  unfolding canonical_did
  canonical_did_fixed text h = rw h

  -- Whatever text CanonicalDID is given, its result begins with `did:ipvn7:` and is its own
  -- canonical form.
  pub canonical_did_twice :
      (text : String)
      → (starts_with (canonical_did lib text) did_prefix ≡ true)
        × (canonical_did lib (canonical_did lib text) ≡ canonical_did lib text)
  canonical_did_twice text =
      (canonical_did-prefix text, canonical_did_fixed _ (canonical_did-prefix text))

  -- For a key of 32 bytes whose texts behave as the Go libraries document, PublicKeyFromDID finds
  -- the key again from its DID and from its compact name, and CanonicalDID maps the compact name
  -- to the DID.
  pub key_names :
      (key : Bytes)
      → length key ≡ public_key_size
      → NamesKey lib key
      → (public_key_from_did lib (did_from_public_key lib key) ≡ some key)
        × (public_key_from_did lib (compact_did_from_public_key lib key) ≡ some key)
        × (canonical_did lib (compact_did_from_public_key lib key) ≡ did_from_public_key lib key)
  unfolding public_key_from_did did_from_public_key compact_did_from_public_key canonical_did
  key_names key size laws = (
    ground (
      arith,
      starts_with-append did_prefix (lib.hex_encode key),
      laws.split_did,
      laws.hex_length,
      laws.hex_roundtrip,
    ),
    ground (arith, laws.base64_no_prefix, laws.base64_length, laws.base64_roundtrip),
    ground (arith, laws.base64_no_prefix, laws.base64_length, laws.base64_roundtrip),
  )
