-- ===== src/L1/Sessions.antt =====
-- PQCSessionManager of src/pkg/l1/session_manager.go: handshakes, and packets under the keys that
-- come of them. Cryptography, JSON and CBOR are parameters, each reading of the clock is an
-- argument, and each call is one step.
pub mod Accepting
pub mod Completing
pub mod Guards
pub mod Once
pub mod Data
mod Tests
use ipvn.Base.{
  ℕ, ◌+◌, ◌*◌, ◌/◌, ◌%◌, ◌^◌, String, Bool, true, false, ◌&&◌, ◌||◌, List, [], ◌∷◌, ◌++◌, Option,
  none, some, ltb, ◌==◌, if◌then◌else◌, take, drop, length, not, str_eq, replicate, ◌-◌,
}
use ipvn.Base.Int.{ℤ, pos, negsuc, ◌-ℤ◌, ltb_ℤ, s64}
use ipvn.Base.Dict.{lookup, insert, delete}
use ipvn.L0.Identity.{
  Crypto, Identity, did, canonical_did, compact_did_from_public_key, public_key_from_did,
}
use ipvn.L0.Wire.{WirePacket, Codec, new_packet, sign_packet, verify_packet_signature, WireError}
use ipvn.L1.Firewall.{Firewall, is_allowed}
use ipvn.L1.Handshake.{
  Bytes, SessionKeys, Ciphertext, HybridKeyPair, Initiation, Response, Kem, initiate_1rtt,
  respond_1rtt, finalize_1rtt,
}

abbrev pub raw_kem_payload_size : ℕ
raw_kem_payload_size = 1120

pub record PendingHandshake : Type 0 where
  pub target_did : String
  pub session_keys : SessionKeys
  pub created_at : ℤ

pub record SessionManager : Type 0 where
  pub identity : Identity
  pub local_keys : Option HybridKeyPair
  pub firewall : Option Firewall
  pub sessions : List (String × SessionKeys)
  pub pending_sessions : List (String × PendingHandshake)
  pub seq_counter : ℕ

-- The libraries around a session: JSON of a response, and ChaCha20-Poly1305.
pub record Envelopes : Type 0 where
  pub marshal_response : Response → Option Bytes
  pub unmarshal_response : Bytes → Option Response
  pub seal : Bytes → Bytes → Bytes → Bytes → Option Bytes
  pub open_sealed : Bytes → Bytes → Bytes → Bytes → Option Bytes

pub data SessionError : Type 0 where
  no_active_session : SessionError
  invalid_signature : SessionError
  malformed : SessionError
  no_local_keys : SessionError
  not_initiated : SessionError
  wrong_destination : SessionError
  bad_source : SessionError
  out_of_time : SessionError
  not_authorised : SessionError
  not_responded : SessionError
  not_marshalled : SessionError
  not_signed : SessionError
  no_pending : SessionError
  pending_expired : SessionError
  not_finalised : SessionError
  not_sealed : SessionError
  not_opened : SessionError

pub data Answer : Type 0 where
  error : SessionError → Answer
  reply : WirePacket → Answer

abbrev pub new_session_manager : Identity → Option HybridKeyPair → Option Firewall → SessionManager
new_session_manager id keys fw = record {
  identity = id;
  local_keys = keys;
  firewall = fw;
  sessions = [];
  pending_sessions = [];
  seq_counter = 0;
}

abbrev pub next_seq : SessionManager → SessionManager
next_seq m = record m { seq_counter = (m.seq_counter + 1) % 2 ^ 64 }

abbrev pub or_else {ℓ} : {A : Type ℓ} → Option A → Option A → Option A
or_else none later = later
or_else (some a) later = some a

module _ (lib : Crypto) (codec : Codec) (kem : Kem) (env : Envelopes) where
  unfoldable pub get_session : SessionManager → String → Option SessionKeys
  get_session m peer_did =
      or_else (lookup peer_did m.sessions) (lookup (canonical_did lib peer_did) m.sessions)

  abbrev pub is_some {ℓ} : {A : Type ℓ} → Option A → Bool
  is_some none = false
  is_some (some a) = true

  unfoldable pub has_session : SessionManager → String → Bool
  has_session m peer_did =
      if is_some (lookup peer_did m.sessions)
      then true
      else is_some (lookup (canonical_did lib peer_did) m.sessions)

  unfoldable pub set_session : SessionManager → String → SessionKeys → SessionManager
  set_session m peer_did keys = record m {
    sessions = insert (canonical_did lib peer_did) keys m.sessions;
  }

  -- A packet that is signed, or an error.
  abbrev pub signed_reply : Identity → WirePacket → Answer
  signed_reply id p =
      let (signed, e) = sign_packet codec lib id p in
      elim e as (λ x. Answer) [ none ↦ reply signed | some err ↦ error not_signed ]

  -- The copy of some bytes into n zero bytes, which pads or cuts them.
  abbrev pub filled : ℕ → Bytes → Bytes
  filled n bytes = take n (bytes ++ replicate n 0)

  abbrev pub raw_kem : Ciphertext → Bytes
  raw_kem c =
      filled 32 c.ephemeral_x25519 ++ filled (raw_kem_payload_size - 32) c.full_pqc_ciphertext

  abbrev pub pend :
      SessionManager
      → String
      → ℤ
      → ℤ
      → ℤ
      → Option (Initiation × SessionKeys)
      → SessionManager × Answer
  pend m target_did created_at stamped now_sec none = (m, error not_initiated)
  pend m target_did created_at stamped now_sec (some (init_msg, keys)) =
      let target = canonical_did lib target_did in
      let m' = next_seq (record m {
        pending_sessions =
            insert target
              (record { target_did = target; session_keys = keys; created_at = created_at })
              m.pending_sessions;
      }) in
      let p =
        new_packet 1 (compact_did_from_public_key lib m.identity.public_key) "" m'.seq_counter []
          (raw_kem init_msg.ciphertext) stamped in
      (m', signed_reply m.identity (record p { timestamp = now_sec }))

  unfoldable pub create_handshake_init_packet :
      SessionManager → String → Option Bytes → String → ℤ → ℤ → ℤ → ℤ → SessionManager × Answer
  create_handshake_init_packet m target_did target_pub target_hex initiated created_at stamped
        now_sec =
      elim m.local_keys [
        | none ↦ (m, error no_local_keys)
        | some keys ↦
            pend m target_did created_at stamped now_sec
              (initiate_1rtt kem (some keys) target_pub target_hex target_did initiated)
      ]
