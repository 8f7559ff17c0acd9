-- ===== src/L1/Sessions/Tests.antt =====
-- Two nodes with one session, a first packet and an answer.
use ipvn.Base.{◌≡◌, ◌⊎◌, refl, true, false, [], ◌∷◌, ◌++◌, none, some, replicate}
use ipvn.Base.Int.{pos}
use ipvn.Base.Dict.{lookup}
use ipvn.L0.Identity.{Crypto, did, did_from_public_key}
use ipvn.L0.Wire.{WirePacket, Codec, new_packet}
use ipvn.L1.Firewall.{new_firewall}
use ipvn.L1.Handshake.{SessionKeys, Kem}
use ipvn.L1.Sessions.{SessionManager, Envelopes, reply, next_seq, new_session_manager, get_session}
use ipvn.L1.Sessions.Accepting.{handle_handshake_init_packet}
use ipvn.L1.Sessions.Completing.{
  handle_handshake_resp_packet, encrypt_data_packet, decrypt_data_packet,
}
use ipvn.L1.Sessions.Guards.{IsOpened, handle_handshake_init_packet-outcome}
use ipvn.L1.Sessions.Once.{IsCompleted, handle_handshake_resp_packet-outcome}
use ipvn.L1.Sessions.Data.{decrypt_data_packet-encrypt_data_packet}

abbrev libs : Crypto
libs = record {
  hex_encode = λ b. elim b [ [] ↦ "00" | x ∷ rest ↦ "bb" ];
  hex_decode = λ t. some (replicate 32 0);
  base64_encode = λ b. "A";
  base64_decode = λ t. none;
  split_colon = λ t. "did" ∷ "ipvn7" ∷ "00" ∷ [];
  text_bytes = λ t. [];
  sha256 = λ b. b;
  ed25519_sign = λ k m. 7 ∷ m;
  ed25519_verify = λ k m s. true;
}

abbrev codec : Codec
codec = record { config_failed = false; marshal = λ p. some (1 ∷ 2 ∷ []); unmarshal = λ b. none }

abbrev kem : Kem
kem = record {
  sha256 = λ b. b;
  hmac = λ k m. k ++ m;
  text_bytes = λ t. [];
  encapsulate = λ p t. none;
  decapsulate = λ k c. some (9 ∷ []);
}

-- A cipher that leaves the text as it is.
abbrev envelopes : Envelopes
envelopes = record {
  marshal_response = λ r. some [];
  unmarshal_response = λ b. none;
  seal = λ key nonce text extra. some text;
  open_sealed = λ key nonce text extra. some text;
}

abbrev end_a : SessionKeys
end_a = record { tx_key = 1 ∷ []; rx_key = 2 ∷ []; session_id = 3 ∷ []; pfs_active = true }

abbrev end_b : SessionKeys
end_b = record { tx_key = 2 ∷ []; rx_key = 1 ∷ []; session_id = 3 ∷ []; pfs_active = true }

abbrev fresh : SessionManager
fresh =
    new_session_manager (record { public_key = []; private_key = [] })
      (some (record { did = "did:ipvn7:00"; secret = [] })) (some (new_firewall true 0))

abbrev node_a : SessionManager
node_a = record fresh { sessions = ("did:ipvn7:bb", end_a) ∷ [] }

abbrev node_b : SessionManager
node_b = record fresh {
  identity = record { public_key = 1 ∷ []; private_key = [] };
  sessions = ("did:ipvn7:00", end_b) ∷ [];
}

decrypt_data_packet-encrypt_data_packet_example :
    (p : WirePacket) × ((encrypt_data_packet libs codec kem envelopes node_a "did:ipvn7:bb"
          (104 ∷ [])
          (some (5 ∷ []))
          (pos 70)
        ≡ (next_seq node_a, reply p))
      × ((p.sequence ≡ (next_seq node_a).seq_counter)
          × (decrypt_data_packet libs codec kem envelopes node_b p ≡ (some (104 ∷ []), none))))
unfolding get_session lookup did did_from_public_key
decrypt_data_packet-encrypt_data_packet_example =
    decrypt_data_packet-encrypt_data_packet libs codec kem envelopes node_a node_b "did:ipvn7:bb"
      (104 ∷ []) (5 ∷ []) (pos 70) end_a end_b refl refl
      (record { there = refl; back = refl; same_session = refl })
      (record { sealed = 104 ∷ []; seals = refl; opens = refl })

abbrev first : WirePacket
first = record (new_packet 1 "did:ipvn7:00" "" 1 [] (replicate 1120 0) (pos 50)) {
  signature = 7 ∷ [];
}

handle_handshake_init_packet-outcome_example :
    ((handle_handshake_init_packet libs codec kem envelopes node_b first
        (pos 51)
        51
        (pos 51000000000)
        (pos 51000000001)).0.sessions
      ≡ node_b.sessions)
    ⊎ IsOpened libs codec kem envelopes node_b first
        (pos 51)
        51
        (pos 51000000000)
        (handle_handshake_init_packet libs codec kem envelopes node_b first
          (pos 51)
          51
          (pos 51000000000)
          (pos 51000000001)).0
handle_handshake_init_packet-outcome_example =
    handle_handshake_init_packet-outcome libs codec kem envelopes node_b first (pos 51) 51
      (pos 51000000000) (pos 51000000001)

handle_handshake_resp_packet-outcome_example :
    ((handle_handshake_resp_packet libs codec kem envelopes node_b first
        (pos 51000000000)).0.sessions
      ≡ node_b.sessions)
    ⊎ IsCompleted libs codec kem envelopes node_b first
        (pos 51000000000)
        (handle_handshake_resp_packet libs codec kem envelopes node_b first (pos 51000000000)).0
handle_handshake_resp_packet-outcome_example =
    handle_handshake_resp_packet-outcome libs codec kem envelopes node_b first (pos 51000000000)
