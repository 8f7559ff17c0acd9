-- ===== src/L1/Sessions/Completing.antt =====
-- HandleHandshakeRespPacket and the data packets of src/pkg/l1/session_manager.go.
use ipvn.Base.{◌+◌, ◌*◌, String, Bool, Option, none, some, if◌then◌else◌, not, str_eq}
use ipvn.Base.Int.{ℤ, pos, negsuc, ◌-ℤ◌, ltb_ℤ}
use ipvn.Base.Dict.{lookup, insert, delete}
use ipvn.L0.Identity.{Crypto, did, canonical_did}
use ipvn.L0.Wire.{WirePacket, Codec, new_packet, verify_packet_signature}
use ipvn.L1.Handshake.{Bytes, SessionKeys, Response, Kem, finalize_1rtt}
use ipvn.L1.Sessions.{
  PendingHandshake, SessionManager, Envelopes, SessionError, no_active_session, invalid_signature,
  malformed, wrong_destination, no_pending, pending_expired, not_finalised, not_sealed, not_opened,
  Answer, error, reply, next_seq, or_else, get_session,
}

-- Nanoseconds of a time in seconds.
abbrev pub seconds_ns : ℤ → ℤ
seconds_ns (pos n) = pos (n * 1000000000)
seconds_ns (negsuc n) = negsuc (n * 1000000000 + 999999999)

unfoldable pub is_expired_pending : ℤ → PendingHandshake → Bool
is_expired_pending now_ns pending =
    ltb_ℤ (pos 60000000000) (now_ns -ℤ seconds_ns pending.created_at)

module _ (lib : Crypto) (codec : Codec) (kem : Kem) (env : Envelopes) where
  abbrev pub find_pending : SessionManager → String → Option PendingHandshake
  find_pending m source_did =
      or_else (lookup (canonical_did lib source_did) m.pending_sessions)
        (lookup source_did m.pending_sessions)

  abbrev pub forget_pending : SessionManager → String → SessionManager
  forget_pending m source_did = record m {
    pending_sessions = delete source_did (delete (canonical_did lib source_did) m.pending_sessions);
  }

  abbrev pub complete :
      SessionManager
      → String
      → PendingHandshake
      → Option Response
      → SessionManager × Option SessionError
  complete m peer_did pending none = (m, some malformed)
  complete m peer_did pending (some resp_msg) =
      if finalize_1rtt kem pending.session_keys resp_msg
      then (record m { sessions = insert peer_did pending.session_keys m.sessions }, none)
      else (m, some not_finalised)

  abbrev pub answer_pending :
      SessionManager
      → WirePacket
      → ℤ
      → Option PendingHandshake
      → SessionManager × Option SessionError
  answer_pending m p now_ns none = (m, some no_pending)
  answer_pending m p now_ns (some pending) =
      let forgotten = forget_pending m p.source_did in
      if is_expired_pending now_ns pending
      then (forgotten, some pending_expired)
      else complete forgotten (canonical_did lib p.source_did) pending
          (env.unmarshal_response p.payload)

  unfoldable pub handle_handshake_resp_packet :
      SessionManager → WirePacket → ℤ → SessionManager × Option SessionError
  handle_handshake_resp_packet m p now_ns =
      let found = find_pending m p.source_did in
      let answered = answer_pending m p now_ns found in
      if not (str_eq p.dest_did (did lib m.identity))
      then (m, some wrong_destination)
      else (if not (verify_packet_signature codec lib p)
          then (m, some invalid_signature)
          else answered)

  abbrev pub data_packet :
      SessionManager → String → Bytes → ℤ → Option Bytes → SessionManager × Answer
  data_packet m dest_did nonce stamped none = (m, error not_sealed)
  data_packet m dest_did nonce stamped (some ciphertext) =
      let m' = next_seq m in
      (
        m',
        reply (new_packet 4 (did lib m.identity) dest_did m'.seq_counter nonce ciphertext stamped),
      )

  -- The nonce comes from the random source, or not.
  abbrev pub seal_data :
      SessionManager → String → Bytes → Option Bytes → ℤ → SessionKeys → SessionManager × Answer
  seal_data m dest_did plaintext none stamped session = (m, error not_sealed)
  seal_data m dest_did plaintext (some nonce) stamped session =
      data_packet m dest_did nonce stamped
        (env.seal session.tx_key nonce plaintext (kem.text_bytes dest_did))

  unfoldable pub encrypt_data_packet :
      SessionManager → String → Bytes → Option Bytes → ℤ → SessionManager × Answer
  encrypt_data_packet m dest_did plaintext nonce stamped =
      elim (get_session lib codec kem env m dest_did) [
        | none ↦ (m, error no_active_session)
        | some session ↦ seal_data m dest_did plaintext nonce stamped session
      ]

  abbrev pub opened_or : Option Bytes → Option Bytes × Option SessionError
  opened_or none = (none, some not_opened)
  opened_or (some plaintext) = (some plaintext, none)

  unfoldable pub decrypt_data_packet :
      SessionManager → WirePacket → Option Bytes × Option SessionError
  decrypt_data_packet m p = elim (get_session lib codec kem env m p.source_did) [
    | none ↦ (none, some no_active_session)
    | some session ↦
        opened_or (env.open_sealed session.rx_key p.nonce p.payload (kem.text_bytes p.dest_did))
  ]
