-- ===== src/L0/Identity.antt =====
-- src/pkg/l0/identity.go: decentralised identifiers (DIDs) and the keys behind them. What the Go
-- libraries do (hexadecimal and base64url texts, SHA-256, Ed25519, strings.Split) is a parameter.
pub mod Names
mod Tests
use Prim.Native.String.{◌++◌, len}
use ipvn.Base.{
  ℕ, ◌≡◌, String, Bool, true, false, ◌&&◌, List, [], ◌∷◌, Option, none, some, ◌==◌, if◌then◌else◌,
  length, str_eq,
}
use text.Mathlib.Text.{starts_with}

-- A []byte.
abbrev pub Bytes : Type 0
Bytes = List ℕ

-- The calls of other packages.
pub record Crypto : Type 0 where
  pub hex_encode : Bytes → String
  pub hex_decode : String → Option Bytes
  pub base64_encode : Bytes → String
  pub base64_decode : String → Option Bytes
  pub split_colon : String → List String
  pub text_bytes : String → Bytes
  pub sha256 : Bytes → Bytes
  pub ed25519_sign : Bytes → Bytes → Bytes
  pub ed25519_verify : Bytes → Bytes → Bytes → Bool

pub record Identity : Type 0 where
  pub public_key : Bytes
  pub private_key : Bytes

-- ed25519.PublicKeySize.
abbrev pub public_key_size : ℕ
public_key_size = 32

abbrev pub did_prefix : String
did_prefix = "did:ipvn7:"

-- A decoded key, if it has the right size.
abbrev pub key_of_size : Option Bytes → Option Bytes
key_of_size none = none
key_of_size (some raw) = if length raw == public_key_size then some raw else none

-- `parts[2]` of a text split in three, the first two as given.
abbrev pub third_part : List String → Option String
third_part (a ∷ b ∷ c ∷ []) = if str_eq a "did" && str_eq b "ipvn7" then some c else none
third_part parts = none

module _ (lib : Crypto) where
  open lib use {
    hex_encode, hex_decode, base64_encode, base64_decode, split_colon, ed25519_sign, ed25519_verify,
  }

  -- Identity.DID and DIDFromPublicKey.
  unfoldable pub did_from_public_key : Bytes → String
  did_from_public_key pub_key = did_prefix ++ hex_encode pub_key

  unfoldable pub did : Identity → String
  unfolding did_from_public_key
  did id = did_from_public_key id.public_key

  unfoldable pub compact_did_from_public_key : Bytes → String
  compact_did_from_public_key pub_key = base64_encode pub_key

  abbrev pub hex_did_or : Option Bytes → String → String
  hex_did_or none text = did_prefix ++ text
  hex_did_or (some raw) text = did_prefix ++ hex_encode raw

  unfoldable pub canonical_did : String → String
  canonical_did text =
      if starts_with text did_prefix
      then text
      else (if len text == 43
          then hex_did_or (key_of_size (base64_decode text)) text
          else did_prefix ++ text)

  -- The key text of a DID: its third part behind the prefix, and the whole text without one.
  abbrev pub key_text : String → Option String
  key_text text = if starts_with text did_prefix then third_part (split_colon text) else some text

  abbrev pub or_else {ℓ} : {A : Type ℓ} → Option A → Option A → Option A
  or_else none later = later
  or_else (some a) later = some a

  -- A text of 43 bytes is tried as base64url first; all else, and what fails there, as hex.
  unfoldable pub key_from_text : String → Option Bytes
  key_from_text text =
      or_else (if len text == 43 then key_of_size (base64_decode text) else none)
        (key_of_size (hex_decode text))

  unfoldable pub public_key_from_did : String → Option Bytes
  unfolding key_from_text
  public_key_from_did text = elim (key_text text) [ none ↦ none | some t ↦ key_from_text t ]

  unfoldable pub sign : Identity → Bytes → Bytes
  sign id message = ed25519_sign id.private_key message

  unfoldable pub verify_signature : Bytes → Bytes → Bytes → Bool
  verify_signature pub_key message signature = ed25519_verify pub_key message signature
