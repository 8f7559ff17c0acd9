-- ===== src/L1/Qos/Buckets.antt =====
-- What EvaluatePacket and VerifyAndCreditPoW of src/pkg/l1/qos.go keep in the buckets and among the
-- pending challenges.
use ipvn.Base.{
  ℕ, ◌-◌, ◌≡◌, refl, ◌∙◌, subst, String, true, false, List, Option-cases, if◌then◌else◌, ltb,
  Bool-cases, inl, inr, All,
}
use ipvn.Base.Dict.{lookup, All-insert, All-lookup, All-delete}
use ipvn.L1.Qos.{
  TrafficClass, control, interactive, bulk, Floats, Hashing, Challenge, Readings, TokenBucket,
  QosManager, refill, consume, bucket_or_new, new_challenge, throttle, evaluate_data,
  evaluate_packet, restored, credit, check_solution, verify_and_credit_pow, is_solution,
}

-- What the buckets rely on of float64: no amount is above itself, and a debit that is covered does
-- not raise an amount above a bound it kept.
pub record IsArithmetic (f : Floats) : Type 0 where
  pub gt_irrefl : (a : f.F) → f.gt a a ≡ false
  pub gt-sub :
      (a c : f.F) (n : ℕ)
      → f.ge a (f.of_int n) ≡ true
      → f.gt a c ≡ false
      → f.gt (f.sub a (f.of_int n)) c ≡ false

module _ (f : Floats) where
  -- An entry whose bucket has the capacity of a burst, and no more tokens than that.
  abbrev pub HoldsAtMost : f.F → String × TokenBucket f → Type 0
  HoldsAtMost burst (did, tb) = (tb.capacity ≡ burst) × (f.gt tb.tokens burst ≡ false)

  abbrev pub StandsUnderItself : String × Challenge → Type 0
  StandsUnderItself (key, ch) = (key ≡ ch.challenge) × (ch.difficulty ≡ 16)

  pub record IsSound (qm : QosManager f) : Type 0 where
    pub bounded : All (HoldsAtMost qm.burst_limit) qm.buckets
    pub keyed : All StandsUnderItself qm.active_pows

  module _ (laws : IsArithmetic f) where
    capped : (tokens burst : f.F) → f.gt (if f.gt tokens burst then burst else tokens) burst ≡ false
    capped tokens burst = elim (Bool-cases (f.gt tokens burst)) [
      | inl e ↦ rw e (laws.gt_irrefl burst)
      | inr e ↦ rw (e, e) refl
    ]

    refill-bound :
        (tb : TokenBucket f) (now : ℕ) → f.gt (refill f tb now).tokens tb.capacity ≡ false
    unfolding refill
    refill-bound tb now =
        capped (f.add tb.tokens (f.mul (f.seconds (now - tb.last_refill)) tb.refill_rate))
          tb.capacity

    refill_capacity : (tb : TokenBucket f) (now : ℕ) → (refill f tb now).capacity ≡ tb.capacity
    unfolding refill
    refill_capacity tb now = refl

    consume-HoldsAtMost :
        (burst : f.F) (did : String) (tb : TokenBucket f) (size now : ℕ)
        → HoldsAtMost burst (did, tb)
        → HoldsAtMost burst (did, (consume f tb (f.of_int size) now).0)
    unfolding consume
    consume-HoldsAtMost burst did tb size now (room, low) =
        let filled = refill f tb now in
        let cap : filled.capacity ≡ burst = refill_capacity tb now ∙ room in
        let most : f.gt filled.tokens burst ≡ false =
          subst (λ c. f.gt filled.tokens c ≡ false) room (refill-bound tb now) in
        elim (Bool-cases (f.ge filled.tokens (f.of_int size))) [
          | inl e ↦ rw e (cap, laws.gt-sub filled.tokens burst size e most)
          | inr e ↦ rw e (cap, most)
        ]

    bucket_or_new-HoldsAtMost :
        (qm : QosManager f) (did : String) (now : ℕ)
        → IsSound qm
        → HoldsAtMost qm.burst_limit (did, bucket_or_new f qm did now)
    unfolding bucket_or_new
    bucket_or_new-HoldsAtMost qm did now ok = elim (Option-cases (lookup did qm.buckets)) [
      | inl e ↦ rw (bucket_or_new, e) (refl, laws.gt_irrefl qm.burst_limit)
      | inr (tb, e) ↦
          rw (bucket_or_new, e)
            (All-lookup (HoldsAtMost qm.burst_limit) did tb qm.buckets ok.bounded e)
    ]

    evaluate_data-IsSound :
        (h : Hashing) (qm : QosManager f) (did : String) (size : ℕ) (salt : List ℕ) (t : Readings)
        → IsSound qm
        → IsSound (evaluate_data f h qm did size salt t).0
    unfolding evaluate_data throttle
    evaluate_data-IsSound h qm did size salt t ok =
        let b = bucket_or_new f qm did t.created in
        let held =
          consume-HoldsAtMost qm.burst_limit did b size t.consumed
            (bucket_or_new-HoldsAtMost qm did t.created ok) in
        let next = (consume f b (f.of_int size) t.consumed).0 in
        let ch = new_challenge f h did salt t in
        elim (Bool-cases (consume f b (f.of_int size) t.consumed).1) [
          | inl e ↦ rw e (record {
            bounded = All-insert (HoldsAtMost qm.burst_limit) did next qm.buckets held ok.bounded;
            keyed = ok.keyed;
          })
          | inr e ↦ rw e (record {
            bounded = All-insert (HoldsAtMost qm.burst_limit) did next qm.buckets held ok.bounded;
            keyed =
                All-insert StandsUnderItself ch.challenge ch qm.active_pows (refl, refl) ok.keyed;
          })
        ]

    pub evaluate_packet-IsSound :
        (h : Hashing) (qm : QosManager f) (did : String) (tc : TrafficClass) (size : ℕ)
        (salt : List ℕ) (t : Readings)
        → IsSound qm
        → IsSound (evaluate_packet f h qm did tc size salt t).0
    unfolding evaluate_packet
    evaluate_packet-IsSound h qm did control size salt t ok = ok
    evaluate_packet-IsSound h qm did interactive size salt t ok =
        evaluate_data-IsSound h qm did size salt t ok
    evaluate_packet-IsSound h qm did bulk size salt t ok =
        evaluate_data-IsSound h qm did size salt t ok

    restored-HoldsAtMost :
        (qm : QosManager f) (did : String)
        → IsSound qm
        → All (HoldsAtMost qm.burst_limit) (restored f qm did)
    unfolding restored
    restored-HoldsAtMost qm did ok = elim (Option-cases (lookup did qm.buckets)) [
      | inl e ↦ rw (restored, e) ok.bounded
      | inr (tb, e) ↦
          rw (restored, e)
            (All-insert (HoldsAtMost qm.burst_limit) did (record tb { tokens = qm.burst_limit })
              qm.buckets
              (
                (All-lookup (HoldsAtMost qm.burst_limit) did tb qm.buckets ok.bounded e).0,
                laws.gt_irrefl qm.burst_limit,
              )
              ok.bounded)
    ]

    check_solution-IsSound :
        (h : Hashing) (qm : QosManager f) (challenge_hex : String) (ch : Challenge) (nonce : ℕ)
        → IsSound qm
        → IsSound (check_solution f h qm challenge_hex ch nonce).0
    unfolding credit check_solution
    check_solution-IsSound h qm challenge_hex ch nonce ok =
        elim (Option-cases (h.decode_hex ch.challenge)) [
          | inl e ↦ rw (check_solution, e) ok
          | inr (ch_bytes, e) ↦ elim (Bool-cases (is_solution h ch_bytes ch.difficulty nonce)) [
            | inl s ↦
                rw (check_solution, e, s)
                  (record {
                    bounded = restored-HoldsAtMost qm ch.peer_did ok;
                    keyed = All-delete StandsUnderItself challenge_hex qm.active_pows ok.keyed;
                  })
            | inr s ↦ rw (check_solution, e, s) ok
          ]
        ]

    pub verify_and_credit_pow-IsSound :
        (h : Hashing) (qm : QosManager f) (challenge_hex : String) (nonce now : ℕ)
        → IsSound qm
        → IsSound (verify_and_credit_pow f h qm challenge_hex nonce now).0
    unfolding verify_and_credit_pow
    verify_and_credit_pow-IsSound h qm challenge_hex nonce now ok =
        let gone = All-delete StandsUnderItself challenge_hex qm.active_pows ok.keyed in
        elim (Option-cases (lookup challenge_hex qm.active_pows)) [
          | inl e ↦ rw (verify_and_credit_pow, e) (record { bounded = ok.bounded; keyed = gone })
          | inr (ch, e) ↦ elim (Bool-cases (ltb ch.expires_at now)) [
            | inl s ↦
                rw (verify_and_credit_pow, e, s) (record { bounded = ok.bounded; keyed = gone })
            | inr s ↦
                rw (verify_and_credit_pow, e, s)
                  (check_solution-IsSound h qm challenge_hex ch nonce ok)
          ]
        ]
