-- ===== src/L0/Wire.antt =====
-- Packets of src/pkg/l0/wire.go: their limits, their codec and their signatures. The CBOR library is
-- a parameter, and so is whether it could be configured.
pub mod Travel
mod Tests
use ipvn.Base.{
  ℕ, ◌+◌, ◌-◌, ◌≡◌, String, Bool, true, false, ◌||◌, List, [], ◌∷◌, Option, none, some, ltb, ◌==◌,
  if◌then◌else◌, length, not,
}
use ipvn.Base.Int.{ℤ}
use ipvn.L0.Identity.{Crypto, Bytes, Identity, public_key_from_did, sign, verify_signature}

abbrev pub magic_bytes : ℕ
magic_bytes = 1230001719

abbrev pub wire_version : ℕ
wire_version = 1

abbrev pub max_packet_size : ℕ
max_packet_size = 1280

abbrev pub max_payload_size : ℕ
max_payload_size = max_packet_size - 32 - 48 - 68

pub record WirePacket : Type 0 where
  pub magic : ℕ
  pub version : ℕ
  pub type : ℕ
  pub source_did : String
  pub dest_did : String
  pub timestamp : ℤ
  pub sequence : ℕ
  pub nonce : Bytes
  pub payload : Bytes
  pub signature : Bytes

pub record Codec : Type 0 where
  pub config_failed : Bool
  pub marshal : WirePacket → Option Bytes
  pub unmarshal : Bytes → Option WirePacket

abbrev pub new_packet : ℕ → String → String → ℕ → Bytes → Bytes → ℤ → WirePacket
new_packet msg_type src_did dst_did seq nonce payload now = record {
  magic = magic_bytes;
  version = wire_version;
  type = msg_type;
  source_did = src_did;
  dest_did = dst_did;
  timestamp = now;
  sequence = seq;
  nonce = nonce;
  payload = payload;
  signature = [];
}

pub data WireError : Type 0 where
  codec_config : WireError
  not_serialised : WireError
  over_mtu : ℕ → WireError
  too_short : WireError
  too_long : ℕ → WireError
  not_deserialised : WireError
  bad_magic : ℕ → WireError
  bad_version : ℕ → WireError

pub data Decoded : Type 0 where
  invalid : WireError → Decoded
  decoded : WirePacket → Decoded

pub data Encoded : Type 0 where
  failed : WireError → Encoded
  encoded : Bytes → Encoded

module _ (codec : Codec) where
  abbrev pub within_mtu : Bytes → Encoded
  within_mtu bytes =
      if ltb max_packet_size (length bytes) then failed (over_mtu (length bytes)) else encoded bytes

  unfoldable pub encode : WirePacket → Encoded
  encode p =
      if codec.config_failed
      then failed codec_config
      else elim (codec.marshal p) [ none ↦ failed not_serialised | some bytes ↦ within_mtu bytes ]

  abbrev pub checked_header : WirePacket → Decoded
  checked_header p =
      if not (p.magic == magic_bytes)
      then invalid (bad_magic p.magic)
      else (if not (p.version == wire_version) then invalid (bad_version p.version) else decoded p)

  unfoldable pub decode_packet : Bytes → Decoded
  decode_packet bytes =
      if codec.config_failed
      then invalid codec_config
      else (if ltb (length bytes) 5
          then invalid too_short
          else (if ltb max_packet_size (length bytes)
              then invalid (too_long (length bytes))
              else elim (codec.unmarshal bytes) [
                | none ↦ invalid not_deserialised
                | some p ↦ checked_header p
              ]))

  abbrev pub unsigned : WirePacket → WirePacket
  unsigned p = record p { signature = [] }

  module _ (lib : Crypto) where
    -- The packet and whether it was signed.
    unfoldable pub sign_packet : Identity → WirePacket → WirePacket × Option WireError
    sign_packet id p = elim (encode (unsigned p)) [
      | failed e ↦ (unsigned p, some e)
      | encoded bytes ↦ (record p { signature = sign lib id bytes }, none)
    ]

    abbrev pub signature_holds : WirePacket → Option Bytes → Encoded → Bool
    signature_holds p none content = false
    signature_holds p (some pub_key) (failed e) = false
    signature_holds p (some pub_key) (encoded bytes) =
        verify_signature lib pub_key bytes p.signature

    -- Its error is false here: the callers treat both alike.
    unfoldable pub verify_packet_signature : WirePacket → Bool
    verify_packet_signature p =
        if length p.signature == 0
        then false
        else signature_holds p (public_key_from_did lib p.source_did) (encode (unsigned p))
