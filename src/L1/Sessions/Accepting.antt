-- ===== src/L1/Sessions/Accepting.antt =====
-- HandleHandshakeInitPacket of src/pkg/l1/session_manager.go.
use ipvn.Base.{
  ℕ, ◌/◌, String, Bool, true, ◌&&◌, ◌||◌, [], ◌++◌, Option, none, some, ltb, ◌==◌, if◌then◌else◌,
  take, drop, length, not, str_eq,
}
use ipvn.Base.Int.{ℤ, pos, negsuc, ◌-ℤ◌, ltb_ℤ, s64}
use ipvn.Base.Dict.{insert}
use ipvn.L0.Identity.{Crypto, did, canonical_did, public_key_from_did}
use ipvn.L0.Wire.{WirePacket, Codec, new_packet, verify_packet_signature}
use ipvn.L1.Firewall.{is_allowed}
use ipvn.L1.Handshake.{Bytes, SessionKeys, Initiation, Response, Kem, respond_1rtt}
use ipvn.L1.Sessions.{
  raw_kem_payload_size, SessionManager, Envelopes, SessionError, invalid_signature, malformed,
  wrong_destination, bad_source, out_of_time, not_authorised, not_responded, not_marshalled, Answer,
  error, next_seq, is_some, signed_reply,
}

-- The difference in seconds, more than a minute or below minus ten.
unfoldable pub is_expired_init : ℤ → ℤ → Bool
is_expired_init now_sec timestamp =
    let ts_sec = elim timestamp as (λ t. ℤ) [
      | pos n ↦ if ltb 100000000000000 n then pos (n / 1000000000) else pos n
      | negsuc n ↦ negsuc n
    ] in
    let diff = s64 (now_sec -ℤ ts_sec) in ltb_ℤ (pos 60) diff || ltb_ℤ diff (negsuc 9)

module _ (lib : Crypto) (codec : Codec) (kem : Kem) (env : Envelopes) where
  abbrev pub init_message : SessionManager → WirePacket → Initiation
  init_message m p =
      let eph_pub = take 32 p.payload in
      let full_cipher = drop 32 p.payload in
      record {
        sender_did = canonical_did lib p.source_did;
        recipient_did = did lib m.identity;
        ciphertext = record {
          ephemeral_x25519 = eph_pub;
          salt = take 16 (kem.sha256 (eph_pub ++ take 32 full_cipher));
          full_pqc_ciphertext = full_cipher;
        };
        timestamp = p.timestamp;
      }

  abbrev pub is_authorised : SessionManager → ℕ → String → Bool
  is_authorised m now peer_did = elim m.firewall [
    | none ↦ true
    | some fw ↦ is_allowed fw now peer_did
  ]

  -- The first refusal of HandleHandshakeInitPacket.
  unfoldable pub refused_init : SessionManager → WirePacket → ℤ → ℕ → Option SessionError
  refused_init m p now_sec now =
      if not (length p.payload == raw_kem_payload_size)
      then some malformed
      else (if not (str_eq p.dest_did "") && not (str_eq p.dest_did (did lib m.identity))
          then some wrong_destination
          else (if not (is_some lib codec kem env (public_key_from_did lib p.source_did))
              then some bad_source
              else (if not (verify_packet_signature codec lib p)
                  then some invalid_signature
                  else (if is_expired_init now_sec p.timestamp
                      then some out_of_time
                      else (if not (is_authorised m now (canonical_did lib p.source_did))
                          then some not_authorised
                          else none)))))

  abbrev pub confirm : SessionManager → String → ℤ → Option Bytes → SessionManager × Answer
  confirm m peer_did stamped none = (m, error not_marshalled)
  confirm m peer_did stamped (some payload) =
      let m' = next_seq m in
      (
        m',
        signed_reply lib codec kem env m.identity
            (new_packet 2 (did lib m.identity) peer_did m'.seq_counter [] payload stamped),
      )

  abbrev pub establish :
      SessionManager → String → ℤ → Option (Response × SessionKeys) → SessionManager × Answer
  establish m peer_did stamped none = (m, error not_responded)
  establish m peer_did stamped (some (resp_msg, keys)) =
      confirm (record m { sessions = insert peer_did keys m.sessions }) peer_did stamped
        (env.marshal_response resp_msg)

  unfoldable pub handle_handshake_init_packet :
      SessionManager → WirePacket → ℤ → ℕ → ℤ → ℤ → SessionManager × Answer
  handle_handshake_init_packet m p now_sec now received stamped =
      elim (refused_init m p now_sec now) [
        | some e ↦ (m, error e)
        | none ↦
            establish m (canonical_did lib p.source_did) stamped
              (respond_1rtt kem m.local_keys (init_message m p) received)
      ]
