-- ===== src/L1/Sessions/Once.antt =====
-- Answers to handshakes in src/pkg/l1/session_manager.go: each pending handshake is completed at most
-- once.
use ipvn.Base.{
  ◌≡◌, ◌⊎◌, refl, sym, subst, true, false, Option, none, some, arith, Option-cases, Bool-cases, inl,
  inr, str_eq, str_eq_iff, str_eq_refl,
}
use ipvn.Base.Int.{ℤ}
use ipvn.Base.Dict.{insert, delete, lookup-delete}
use ipvn.L0.Identity.{Crypto, did, canonical_did}
use ipvn.L0.Wire.{WirePacket, Codec, verify_packet_signature}
use ipvn.L1.Handshake.{Response, Kem, finalize_1rtt}
use ipvn.L1.Sessions.{PendingHandshake, SessionManager, Envelopes}
use ipvn.L1.Sessions.Completing.{
  is_expired_pending, find_pending, forget_pending, answer_pending, handle_handshake_resp_packet,
}

module _ (lib : Crypto) (codec : Codec) (kem : Kem) (env : Envelopes) (m : SessionManager)
    (p : WirePacket) where
  -- A session that an answer has completed.
  pub record IsCompleted (now_ns : ℤ) (after : SessionManager) : Type 0 where
    pub for_us : p.dest_did ≡ did lib m.identity
    pub signed : verify_packet_signature codec lib p ≡ true
    pub pending : PendingHandshake
    pub waited : find_pending lib codec kem env m p.source_did ≡ some pending
    pub in_time : is_expired_pending now_ns pending ≡ false
    pub response : Response
    pub read : env.unmarshal_response p.payload ≡ some response
    pub confirmed : finalize_1rtt kem pending.session_keys response ≡ true
    pub stored :
        after.sessions ≡ insert (canonical_did lib p.source_did) pending.session_keys m.sessions
    pub spent : find_pending lib codec kem env after p.source_did ≡ none

  forgotten-find :
      (after : SessionManager)
      → after.pending_sessions ≡ (forget_pending lib codec kem env m p.source_did).pending_sessions
      → find_pending lib codec kem env after p.source_did ≡ none
  forgotten-find after e =
      let raw = p.source_did in
      let name = canonical_did lib p.source_did in
      let one = lookup-delete raw name (delete name m.pending_sessions) in
      let two = lookup-delete name name m.pending_sessions in
      let three = lookup-delete raw raw (delete name m.pending_sessions) in
      ground (arith, e, one, two, three, str_eq_refl name, str_eq_refl raw)

  answered :
      (now_ns : ℤ)
      → p.dest_did ≡ did lib m.identity
      → verify_packet_signature codec lib p ≡ true
      → (found : Option PendingHandshake) → find_pending lib codec kem env m p.source_did ≡ found
      → ((answer_pending lib codec kem env m p now_ns found).0.sessions ≡ m.sessions)
        ⊎ IsCompleted now_ns (answer_pending lib codec kem env m p now_ns found).0
  answered now_ns d s none f = inl refl
  answered now_ns d s (some pending) f = elim (Bool-cases (is_expired_pending now_ns pending)) [
    | inl x ↦ rw x (inl refl)
    | inr x ↦ elim (Option-cases (env.unmarshal_response p.payload)) [
      | inl u ↦ rw (x, u) (inl refl)
      | inr (response, u) ↦ elim (Bool-cases (finalize_1rtt kem pending.session_keys response)) [
        | inr c ↦ rw (x, u, c) (inl refl)
        | inl c ↦
            let forgotten = forget_pending lib codec kem env m p.source_did in
            let after : SessionManager = record forgotten {
              sessions = insert (canonical_did lib p.source_did) pending.session_keys m.sessions;
            } in
            let run : answer_pending lib codec kem env m p now_ns (some pending) ≡ (after, none) =
              rw (x, u, c) refl in
            subst (λ r. (r.0.sessions ≡ m.sessions) ⊎ IsCompleted now_ns r.0) (sym run)
              (inr (record {
                for_us = d;
                signed = s;
                pending = pending;
                waited = f;
                in_time = x;
                response = response;
                read = u;
                confirmed = c;
                stored = refl;
                spent = forgotten-find after refl;
              }))
      ]
    ]
  ]

  completed-outcome :
      (now_ns : ℤ)
      → ((handle_handshake_resp_packet lib codec kem env m p now_ns).0.sessions ≡ m.sessions)
        ⊎ IsCompleted now_ns (handle_handshake_resp_packet lib codec kem env m p now_ns).0
  unfolding handle_handshake_resp_packet
  completed-outcome now_ns = elim (Bool-cases (str_eq p.dest_did (did lib m.identity))) [
    | inr d ↦ rw d (inl refl)
    | inl d ↦ elim (Bool-cases (verify_packet_signature codec lib p)) [
      | inr s ↦ rw (d, s) (inl refl)
      | inl s ↦
          rw (d, s)
            (answered now_ns ((str_eq_iff p.dest_did (did lib m.identity)).0 d) s
              (find_pending lib codec kem env m p.source_did) refl)
    ]
  ]

-- HandleHandshakeRespPacket changes the sessions only for an answer that is addressed to this node,
-- carries the signature of its source, belongs to a handshake that has been pending with that
-- source for at most a minute, and completes the exchange with the keys of that handshake; these
-- are stored under the name of the source, and no handshake with it is pending any more, so that
-- the answer cannot be given a second time.
pub handle_handshake_resp_packet-outcome :
    (lib : Crypto) (codec : Codec) (kem : Kem) (env : Envelopes) (m : SessionManager)
    (p : WirePacket) (now_ns : ℤ)
    → ((handle_handshake_resp_packet lib codec kem env m p now_ns).0.sessions ≡ m.sessions)
      ⊎ IsCompleted lib codec kem env m p now_ns
          (handle_handshake_resp_packet lib codec kem env m p now_ns).0
handle_handshake_resp_packet-outcome lib codec kem env m p now_ns =
    completed-outcome lib codec kem env m p now_ns
