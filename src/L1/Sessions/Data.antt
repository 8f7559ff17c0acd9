-- ===== src/L1/Sessions/Data.antt =====
-- Data packets of src/pkg/l1/session_manager.go under the two ends of one session.
use ipvn.Base.{◌≡◌, refl, sym, ap, ◌∙◌, String, none, some}
use ipvn.Base.Int.{ℤ}
use ipvn.L0.Identity.{Crypto, did}
use ipvn.L0.Wire.{WirePacket, Codec, new_packet}
use ipvn.L1.Handshake.{Bytes, SessionKeys, Kem}
use ipvn.L1.Handshake.Agreement.{AreCrossed}
use ipvn.L1.Sessions.{SessionManager, Envelopes, reply, next_seq, get_session}
use ipvn.L1.Sessions.Completing.{encrypt_data_packet, decrypt_data_packet}

-- What the library promises of a key and a nonce: what it sealed, it opens with the same key, nonce
-- and additional data.
pub record Opens (env : Envelopes) (key nonce plaintext extra : Bytes) : Type 0 where
  pub sealed : Bytes
  pub seals : env.seal key nonce plaintext extra ≡ some sealed
  pub opens : env.open_sealed key nonce sealed extra ≡ some plaintext

module _ (lib : Crypto) (codec : Codec) (kem : Kem) (env : Envelopes) where
  encrypt-run :
      (m : SessionManager) (dest_did : String) (plaintext nonce sealed : Bytes) (stamped : ℤ)
      (session : SessionKeys)
      → get_session lib codec kem env m dest_did ≡ some session
      → env.seal session.tx_key nonce plaintext (kem.text_bytes dest_did) ≡ some sealed
      → encrypt_data_packet lib codec kem env m dest_did plaintext (some nonce) stamped ≡ (
        next_seq m,
        reply (
            new_packet 4
              (did lib m.identity)
              dest_did
              (next_seq m).seq_counter
              nonce
              sealed
              stamped),
      )
  unfolding encrypt_data_packet
  encrypt-run m dest_did plaintext nonce sealed stamped session e s =
      rw (encrypt_data_packet, e, s) refl

  decrypt-run :
      (m : SessionManager) (p : WirePacket) (plaintext : Bytes) (session : SessionKeys)
      → get_session lib codec kem env m p.source_did ≡ some session
      → env.open_sealed session.rx_key p.nonce p.payload (kem.text_bytes p.dest_did)
        ≡ some plaintext
      → decrypt_data_packet lib codec kem env m p ≡ (some plaintext, none)
  unfolding decrypt_data_packet
  decrypt-run m p plaintext session e s = rw (decrypt_data_packet, e, s) refl

-- When two nodes hold the two ends of one session, each under the name of the other, and the cipher
-- opens what it sealed, a data packet that one encrypts for the other is decrypted there to the
-- plaintext, and carries the next sequence number of its sender.
pub decrypt_data_packet-encrypt_data_packet :
    (lib : Crypto) (codec : Codec) (kem : Kem) (env : Envelopes) (sender receiver : SessionManager)
    (dest_did : String) (plaintext nonce : Bytes) (stamped : ℤ) (mine theirs : SessionKeys)
    → get_session lib codec kem env sender dest_did ≡ some mine
    → get_session lib codec kem env receiver (did lib sender.identity) ≡ some theirs
    → AreCrossed mine theirs
    → Opens env mine.tx_key nonce plaintext (kem.text_bytes dest_did)
    → (p : WirePacket) × ((encrypt_data_packet lib codec kem env sender dest_did plaintext
            (some nonce)
            stamped
          ≡ (next_seq sender, reply p))
        × ((p.sequence ≡ (next_seq sender).seq_counter)
            × (decrypt_data_packet lib codec kem env receiver p ≡ (some plaintext, none))))
decrypt_data_packet-encrypt_data_packet lib codec kem env sender receiver dest_did plaintext nonce
      stamped mine theirs out into crossed cipher =
    let p =
      new_packet 4 (did lib sender.identity) dest_did (next_seq sender).seq_counter nonce
        cipher.sealed stamped in
    (
      p,
      (
        encrypt-run lib codec kem env sender dest_did plaintext nonce cipher.sealed stamped mine out
            cipher.seals,
        (
          refl,
          decrypt-run lib codec kem env receiver p plaintext theirs into (
              ap (λ k. env.open_sealed k nonce cipher.sealed (kem.text_bytes dest_did))
                (sym crossed.there)
              ∙ cipher.opens),
        ),
      ),
    )
