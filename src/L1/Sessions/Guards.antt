-- ===== src/L1/Sessions/Guards.antt =====
-- What a session of src/pkg/l1/session_manager.go needs before it is there.
use ipvn.Base.{
  ℕ, ◌≡◌, ◌⊎◌, refl, String, true, false, ◌&&◌, Option, none, some, ◌==◌, arith, Option-cases,
  Bool-cases, inl, inr, length, not, str_eq, ==_iff,
}
use ipvn.Base.Int.{ℤ}
use ipvn.Base.Dict.{insert}
use ipvn.L0.Identity.{Crypto, did, canonical_did, public_key_from_did}
use ipvn.L0.Wire.{WirePacket, Codec, verify_packet_signature}
use ipvn.L1.Handshake.{Bytes, SessionKeys, Response, Kem, respond_1rtt}
use ipvn.L1.Sessions.{raw_kem_payload_size, SessionManager, Envelopes, is_some}
use ipvn.L1.Sessions.Accepting.{
  is_expired_init, init_message, is_authorised, refused_init, confirm, establish,
  handle_handshake_init_packet,
}

module _ (lib : Crypto) (codec : Codec) (kem : Kem) (env : Envelopes) (m : SessionManager)
    (p : WirePacket) where
  -- A first packet that may open a session.
  pub record IsVetted (now_sec : ℤ) (now : ℕ) : Type 0 where
    pub whole : length p.payload ≡ raw_kem_payload_size
    pub for_us : (str_eq p.dest_did "" ≡ true) ⊎ (str_eq p.dest_did (did lib m.identity) ≡ true)
    pub named : is_some lib codec kem env (public_key_from_did lib p.source_did) ≡ true
    pub signed : verify_packet_signature codec lib p ≡ true
    pub recent : is_expired_init now_sec p.timestamp ≡ false
    pub authorised : is_authorised lib codec kem env m now (canonical_did lib p.source_did) ≡ true

  refused_init-none :
      (now_sec : ℤ) (now : ℕ)
      → refused_init lib codec kem env m p now_sec now ≡ none
      → IsVetted now_sec now
  unfolding refused_init
  refused_init-none now_sec now e = elim (Bool-cases (length p.payload == raw_kem_payload_size)) [
    | inr a ↦ absurd (ground (arith, a, e))
    | inl a ↦
        elim (Bool-cases
          (not (str_eq p.dest_did "") && not (str_eq p.dest_did (did lib m.identity)))) [
            | inl b ↦ absurd (ground (arith, a, b, e))
            | inr b ↦
                elim (Bool-cases
                  (is_some lib codec kem env (public_key_from_did lib p.source_did))) [
                    | inr c ↦ absurd (ground (arith, a, b, c, e))
                    | inl c ↦ elim (Bool-cases (verify_packet_signature codec lib p)) [
                      | inr d ↦ absurd (ground (arith, a, b, c, d, e))
                      | inl d ↦ elim (Bool-cases (is_expired_init now_sec p.timestamp)) [
                        | inl f ↦ absurd (ground (arith, a, b, c, d, f, e))
                        | inr f ↦
                            elim (Bool-cases (
                              is_authorised lib codec kem env m now
                                (canonical_did lib p.source_did))) [
                                  | inr g ↦ absurd (ground (arith, a, b, c, d, f, g, e))
                                  | inl g ↦ record {
                                    whole = (==_iff (length p.payload) raw_kem_payload_size).0 a;
                                    for_us = destination b;
                                    named = c;
                                    signed = d;
                                    recent = f;
                                    authorised = g;
                                  }
                                ]
                      ]
                    ]
                  ]
          ]
  ]
    where
      destination :
          (not (str_eq p.dest_did "") && not (str_eq p.dest_did (did lib m.identity))) ≡ false
          → (str_eq p.dest_did "" ≡ true) ⊎ (str_eq p.dest_did (did lib m.identity) ≡ true)
      destination b = ground arith

  -- A session that a first packet has opened, with the keys that the exchange gave.
  pub record IsOpened (now_sec : ℤ) (now : ℕ) (received : ℤ) (after : SessionManager) : Type 0 where
    pub vetted : IsVetted now_sec now
    pub response : Response
    pub keys : SessionKeys
    pub exchanged :
        respond_1rtt kem m.local_keys (init_message lib codec kem env m p) received
        ≡ some (response, keys)
    pub stored : after.sessions ≡ insert (canonical_did lib p.source_did) keys m.sessions

  confirm_sessions :
      (m' : SessionManager) (peer_did : String) (stamped : ℤ) (payload : Option Bytes)
      → (confirm lib codec kem env m' peer_did stamped payload).0.sessions ≡ m'.sessions
  confirm_sessions m' peer_did stamped none = refl
  confirm_sessions m' peer_did stamped (some payload) = refl

  establish-IsOpened :
      (now_sec : ℤ) (now : ℕ) (received stamped : ℤ)
      → IsVetted now_sec now
      → (response : Option (Response × SessionKeys))
      → respond_1rtt kem m.local_keys (init_message lib codec kem env m p) received ≡ response
      → ((establish lib codec kem env m
            (canonical_did lib p.source_did)
            stamped
            response).0.sessions
          ≡ m.sessions)
        ⊎ IsOpened now_sec now received
            (establish lib codec kem env m (canonical_did lib p.source_did) stamped response).0
  establish-IsOpened now_sec now received stamped v none e = inl refl
  establish-IsOpened now_sec now received stamped v (some (resp_msg, keys)) e = inr (record {
    vetted = v;
    response = resp_msg;
    keys = keys;
    exchanged = e;
    stored =
        confirm_sessions
          (record m { sessions = insert (canonical_did lib p.source_did) keys m.sessions })
          (canonical_did lib p.source_did) stamped (env.marshal_response resp_msg);
  })

  accepted-outcome :
      (now_sec : ℤ) (now : ℕ) (received stamped : ℤ)
      → ((handle_handshake_init_packet lib codec kem env m p now_sec now received
            stamped).0.sessions
          ≡ m.sessions)
        ⊎ IsOpened now_sec now received
            (handle_handshake_init_packet lib codec kem env m p now_sec now received stamped).0
  unfolding handle_handshake_init_packet
  accepted-outcome now_sec now received stamped =
      elim (Option-cases (refused_init lib codec kem env m p now_sec now)) [
        | inr (e, r) ↦ rw (handle_handshake_init_packet, r) (inl refl)
        | inl r ↦
            rw (handle_handshake_init_packet, r)
              (establish-IsOpened now_sec now received stamped (refused_init-none now_sec now r)
                (respond_1rtt kem m.local_keys (init_message lib codec kem env m p) received) refl)
      ]

-- HandleHandshakeInitPacket changes the sessions only for a packet that is whole, is addressed to
-- this node or to none, names a key, carries that key's signature, is neither older than a minute
-- nor more than ten seconds ahead, and comes from a name that the firewall allows, where there is
-- a firewall; and then to the keys that the exchange gives for this packet, under that name.
pub handle_handshake_init_packet-outcome :
    (lib : Crypto) (codec : Codec) (kem : Kem) (env : Envelopes) (m : SessionManager)
    (p : WirePacket) (now_sec : ℤ) (now : ℕ) (received stamped : ℤ)
    → ((handle_handshake_init_packet lib codec kem env m p now_sec now received stamped).0.sessions
        ≡ m.sessions)
      ⊎ IsOpened lib codec kem env m p now_sec now received
          (handle_handshake_init_packet lib codec kem env m p now_sec now received stamped).0
handle_handshake_init_packet-outcome lib codec kem env m p now_sec now received stamped =
    accepted-outcome lib codec kem env m p now_sec now received stamped
