-- ===== src/L1/Handshake/Tests.antt =====
-- An exchange with a hash that only shortens.
use ipvn.Base.{◌≡◌, refl, true, [], ◌∷◌, ◌++◌, some}
use ipvn.Base.Int.{pos, ◌-ℤ◌}
use ipvn.L1.Handshake.{
  SessionKeys, Ciphertext, HybridKeyPair, Initiation, Response, Kem, initiate_1rtt, respond_1rtt,
  finalize_1rtt, is_stale,
}
use ipvn.L1.Handshake.Agreement.{AreCrossed, finalize_1rtt-respond_1rtt}

abbrev envelope : Ciphertext
envelope = record { ephemeral_x25519 = 1 ∷ []; salt = 2 ∷ []; full_pqc_ciphertext = 3 ∷ [] }

abbrev plain : Kem
plain = record {
  sha256 = λ b. b;
  hmac = λ k m. k ++ m;
  text_bytes = λ t. [];
  encapsulate = λ p t. some (9 ∷ [], envelope);
  decapsulate = λ k c. some (9 ∷ []);
}

abbrev alice : HybridKeyPair
alice = record { did = "did:ipvn7:aa"; secret = [] }

abbrev bob : HybridKeyPair
bob = record { did = "did:ipvn7:bb"; secret = [] }

finalize_1rtt-respond_1rtt_example :
    (init_msg : Initiation) × ((mine : SessionKeys) × ((resp_msg : Response)
        × ((theirs : SessionKeys) × ((initiate_1rtt plain
                  (some alice)
                  (some (5 ∷ []))
                  ""
                  "did:ipvn7:bb"
                  (pos 1700000000)
                ≡ some (init_msg, mine))
              × ((respond_1rtt plain (some bob) init_msg (pos 1700000003000000000)
                    ≡ some (resp_msg, theirs))
                  × ((finalize_1rtt plain mine resp_msg ≡ true) × AreCrossed mine theirs))))))
unfolding is_stale ◌-ℤ◌
finalize_1rtt-respond_1rtt_example =
    finalize_1rtt-respond_1rtt plain alice bob (5 ∷ []) "" (pos 1700000000)
      (pos 1700000003000000000) (9 ∷ []) envelope refl refl refl
