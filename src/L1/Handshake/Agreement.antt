-- ===== src/L1/Handshake/Agreement.antt =====
-- Both ends of the exchange of src/pkg/l1/pqc_handshake.go.
use ipvn.Base.{◌≡◌, refl, String, true, false, [], ◌∷◌, some, arith}
use ipvn.Base.Int.{ℤ}
use ipvn.L1.Handshake.{
  Bytes, SessionKeys, Ciphertext, HybridKeyPair, Initiation, Response, Kem, bytes_eq,
  derive_handshake_keys, compute_auth_tag, initiation_of, initiate_1rtt, is_stale, response_of,
  respond_1rtt, finalize_1rtt,
}

pub bytes_eq_refl : (xs : Bytes) → bytes_eq xs xs ≡ true
bytes_eq_refl [] = refl
bytes_eq_refl (a ∷ xs) = ground (arith, bytes_eq_refl xs)

-- Each end's key for sending is the other's for receiving, in one session.
pub record AreCrossed (mine theirs : SessionKeys) : Type 0 where
  pub there : mine.tx_key ≡ theirs.rx_key
  pub back : mine.rx_key ≡ theirs.tx_key
  pub same_session : mine.session_id ≡ theirs.session_id

module _ (kem : Kem) (shared_key salt : Bytes) (sender recipient : String) where
  derived-AreCrossed :
      AreCrossed
        (derive_handshake_keys kem shared_key salt sender recipient true)
        (derive_handshake_keys kem shared_key salt sender recipient false)
  unfolding derive_handshake_keys
  derived-AreCrossed = record { there = refl; back = refl; same_session = refl }

module _ (kem : Kem) where
  finalize-response :
      (mine theirs : SessionKeys) (now : ℤ)
      → AreCrossed mine theirs
      → finalize_1rtt kem mine (record {
        session_id = theirs.session_id;
        auth_tag = compute_auth_tag kem theirs.tx_key theirs.session_id now;
        timestamp = now;
      })
        ≡ true
  unfolding finalize_1rtt
  finalize-response mine theirs now c =
      rw (c.same_session, c.back, bytes_eq_refl theirs.session_id)
        (bytes_eq_refl (compute_auth_tag kem theirs.tx_key theirs.session_id now))

  initiate-inv :
      (keys : HybridKeyPair) (target_pub : Bytes) (target_hex target_did : String) (now : ℤ)
      (shared_key : Bytes) (cipher : Ciphertext)
      → kem.encapsulate target_pub target_hex ≡ some (shared_key, cipher)
      → initiate_1rtt kem (some keys) (some target_pub) target_hex target_did now
        ≡ some (initiation_of kem keys target_did now (shared_key, cipher))
  unfolding initiate_1rtt
  initiate-inv keys target_pub target_hex target_did now shared_key cipher e =
      rw (initiate_1rtt, e) refl

  respond-inv :
      (keys : HybridKeyPair) (init_msg : Initiation) (now : ℤ) (shared_key : Bytes)
      → is_stale now init_msg.timestamp ≡ false
      → kem.decapsulate keys init_msg.ciphertext ≡ some shared_key
      → respond_1rtt kem (some keys) init_msg now
        ≡ some (response_of kem keys init_msg now shared_key)
  unfolding respond_1rtt
  respond-inv keys init_msg now shared_key f e = rw (respond_1rtt, f, e) refl

-- If the responder decapsulates what the initiator encapsulated for its name, and the message is not
-- older than a minute nor more than ten seconds ahead, then the responder answers, the initiator
-- accepts the answer, and the two hold keys of one session: what one sends with, the other
-- receives with.
pub finalize_1rtt-respond_1rtt :
    (kem : Kem) (initiator responder : HybridKeyPair) (target_pub : Bytes) (target_hex : String)
    (sent received : ℤ) (shared_key : Bytes) (cipher : Ciphertext)
    → kem.encapsulate target_pub target_hex ≡ some (shared_key, cipher)
    → kem.decapsulate responder cipher ≡ some shared_key
    → is_stale received sent ≡ false
    → (init_msg : Initiation) × ((mine : SessionKeys) × ((resp_msg : Response)
          × ((theirs : SessionKeys) × ((initiate_1rtt kem
                    (some initiator)
                    (some target_pub)
                    target_hex
                    responder.did
                    sent
                  ≡ some (init_msg, mine))
                × ((respond_1rtt kem (some responder) init_msg received ≡ some (resp_msg, theirs))
                    × ((finalize_1rtt kem mine resp_msg ≡ true) × AreCrossed mine theirs))))))
finalize_1rtt-respond_1rtt kem initiator responder target_pub target_hex sent received shared_key
      cipher enc dec fresh =
    let (init_msg, mine) = initiation_of kem initiator responder.did sent (shared_key, cipher) in
    let (resp_msg, theirs) = response_of kem responder init_msg received shared_key in
    let crossed = derived-AreCrossed kem shared_key cipher.salt initiator.did responder.did in
    (
      init_msg,
      (
        mine,
        (
          resp_msg,
          (
            theirs,
            (
              initiate-inv kem initiator target_pub target_hex responder.did sent shared_key cipher
                  enc,
              (
                respond-inv kem responder init_msg received shared_key fresh dec,
                (finalize-response kem mine theirs received crossed, crossed),
              ),
            ),
          ),
        ),
      ),
    )
