-- ===== src/L1/Firewall/Freshness.antt =====
-- The age of the decisions that eval of src/pkg/l1/firewall.go takes from its cache.
use ipvn.Base.{
  ℕ, ◌+◌, ◌≤◌, ◌<◌, ◌≡◌, refl, ap, ◌∙◌, String, Bool, List, [], ◌∷◌, Option, none, some, ltb, arith,
  All, Bool-cases, inl, inr,
}
use ipvn.Base.Dict.{lookup, All-insert, All-lookup}
use ipvn.L1.Firewall.{
  Decision, Reason, DidPolicy, CachedDecision, Firewall, half_minute, new_firewall,
  set_default_deny, authorize_did, revoke_did, authorize_dids_batch, revoke_dids_batch, rule_of,
  rule, decide, from_cache, Op, sets_default_deny, authorizes, revokes, authorizes_batch,
  revokes_batch, evaluates, eval, step, steps,
}
use ipvn.L1.Firewall.Misses.{All-weaken, All-cleanup, entry, decide_parts}

-- The entry was decided at a time `at` by the policy of the DID.
record Based (default_deny : Bool) (o : Option DidPolicy) (did : String) (port : ℕ)
    (is_inbound : Bool) (clock : ℕ) (c : CachedDecision) : Type 0 where
  at : ℕ
  past : at ≤ clock
  expiry : c.expires ≡ at + half_minute
  decided : (c.decision, c.reason) ≡ rule_of default_deny o at did port is_inbound

-- The result is that of the rules over the policies of the firewall, at some time in the last half
-- minute.
abbrev pub IsRecent : Firewall → ℕ → String → ℕ → Bool → Decision × Reason → Type 0
IsRecent fw now did port is_inbound r =
    (at : ℕ) × (at ≤ now) × (now < at + half_minute) × (r ≡ rule fw at did port is_inbound)

-- One packet, whose cache key is the key of no other packet.
module _ (cache_key : String → ℕ → Bool → String) (did : String) (port : ℕ) (is_inbound : Bool)
    (own : (d : String) (p : ℕ) (i : Bool)
      → cache_key d p i ≡ cache_key did port is_inbound
      → (d ≡ did) × (p ≡ port) × (i ≡ is_inbound)) where
  IsEntry : Bool → Option DidPolicy → ℕ → String × CachedDecision → Type 0
  IsEntry dd o clock e =
      e.0 ≡ cache_key did port is_inbound → Based dd o did port is_inbound clock e.1

  record IsCurrent (fw : Firewall) (clock : ℕ) : Type 0 where
    ttl : fw.cache_ttl ≡ half_minute
    entries : All (IsEntry fw.default_deny (lookup did fw.policies) clock) fw.policy_cache

  later :
      (dd : Bool) (o : Option DidPolicy) (clock now : ℕ) (m : List (String × CachedDecision))
      → clock ≤ now
      → All (IsEntry dd o clock) m
      → All (IsEntry dd o now) m
  unfolding IsEntry
  later dd o clock now m h all =
      All-weaken (IsEntry dd o clock) (IsEntry dd o now) m
        (λ e q own_key.
          let b = q own_key in
          record {
            at = b.at;
            past = omega (arith, b.past);
            expiry = b.expiry;
            decided = b.decided;
          })
        all

  new_entry :
      (fw : Firewall) (now : ℕ) (d : String) (p : ℕ) (i : Bool)
      → fw.cache_ttl ≡ half_minute
      → IsEntry fw.default_deny
          (lookup did fw.policies)
          now
          (cache_key d p i, entry fw now (cache_key d p i) d p i)
  unfolding IsEntry
  new_entry fw now d p i ttl same =
      let (d_did, p_port, i_inbound) = own d p i same in
      record {
        at = now;
        past = omega arith;
        expiry = ap (λ n. now + n) ttl;
        decided = rw (d_did, p_port, i_inbound);
      }

  decide-IsCurrent :
      (fw : Firewall) (clock now : ℕ) (d : String) (p : ℕ) (i : Bool)
      → clock ≤ now
      → IsCurrent fw clock
      → IsCurrent (decide fw now (cache_key d p i) d p i).0 now
  decide-IsCurrent fw clock now d p i h v =
      let parts = decide_parts fw now (cache_key d p i) d p i in
      let Q = IsEntry fw.default_deny (lookup did fw.policies) now in
      record {
        ttl = parts.2 ∙ v.ttl;
        entries =
            rw (parts.0, parts.1, parts.3)
              (All-insert Q (cache_key d p i) (entry fw now (cache_key d p i) d p i) _
                (new_entry fw now d p i v.ttl)
                (All-cleanup fw now (cache_key d p i) d p i Q (
                  later fw.default_deny (lookup did fw.policies) clock now fw.policy_cache h
                    v.entries)));
      }

  from_cache-IsCurrent :
      (fw : Firewall) (clock now : ℕ) (d : String) (p : ℕ) (i : Bool) (o : Option CachedDecision)
      → clock ≤ now
      → IsCurrent fw clock
      → IsCurrent (from_cache fw now (cache_key d p i) d p i o).0 now
  from_cache-IsCurrent fw clock now d p i none h v = decide-IsCurrent fw clock now d p i h v
  from_cache-IsCurrent fw clock now d p i (some c) h v = elim (Bool-cases (ltb now c.expires)) [
    | inr old ↦ rw old (decide-IsCurrent fw clock now d p i h v)
    | inl young ↦ rw young (record {
      ttl = v.ttl;
      entries =
          later fw.default_deny (lookup did fw.policies) clock now fw.policy_cache h v.entries;
    })
  ]

  eval-IsCurrent :
      (fw : Firewall) (clock now : ℕ) (d : String) (p : ℕ) (i : Bool)
      → clock ≤ now
      → IsCurrent fw clock
      → IsCurrent (eval cache_key fw now d p i).0 now
  unfolding eval
  eval-IsCurrent fw clock now d p i h v =
      from_cache-IsCurrent _ clock now d p i _ h (record { ttl = v.ttl; entries = v.entries })

  step-IsCurrent :
      (fw : Firewall) (clock now : ℕ) (op : Op)
      → clock ≤ now
      → IsCurrent fw clock
      → IsCurrent (step cache_key fw now op) now
  unfolding step set_default_deny authorize_did revoke_did authorize_dids_batch revoke_dids_batch
  step-IsCurrent fw clock now (sets_default_deny b) h v = record { ttl = v.ttl; entries = tt }
  step-IsCurrent fw clock now (authorizes p) h v = record { ttl = v.ttl; entries = tt }
  step-IsCurrent fw clock now (revokes d) h v = record { ttl = v.ttl; entries = tt }
  step-IsCurrent fw clock now (authorizes_batch ps) h v = record { ttl = v.ttl; entries = tt }
  step-IsCurrent fw clock now (revokes_batch ds) h v = record { ttl = v.ttl; entries = tt }
  step-IsCurrent fw clock now (evaluates d p i) h v = eval-IsCurrent fw clock now d p i h v

  steps-IsCurrent :
      (fw : Firewall) (clock : ℕ) (ops : List (ℕ × Op))
      → IsCurrent fw clock
      → IsCurrent (steps cache_key fw clock ops).0 (steps cache_key fw clock ops).1
  unfolding steps
  steps-IsCurrent fw clock [] v = v
  steps-IsCurrent fw clock ((wait, op) ∷ ops) v =
      steps-IsCurrent (step cache_key fw (clock + wait) op) (clock + wait) ops
        (step-IsCurrent fw clock (clock + wait) op (omega arith) v)

  new_firewall-IsCurrent : (dd : Bool) (start : ℕ) → IsCurrent (new_firewall dd start) start
  unfolding new_firewall
  new_firewall-IsCurrent dd start = record { ttl = refl; entries = tt }

  from_cache-IsRecent :
      (fw : Firewall) (clock now : ℕ) (o : Option CachedDecision)
      → clock ≤ now
      → IsCurrent fw clock
      → lookup (cache_key did port is_inbound) fw.policy_cache ≡ o
      → IsRecent fw now did port is_inbound
          (from_cache fw now (cache_key did port is_inbound) did port is_inbound o).1
  unfolding IsEntry
  from_cache-IsRecent fw clock now none h v e =
      (now, omega arith, omega arith, (decide_parts fw now _ did port is_inbound).4)
  from_cache-IsRecent fw clock now (some c) h v e = elim (Bool-cases (ltb now c.expires)) [
    | inr old ↦
        rw old (now, omega arith, omega arith, (decide_parts fw now _ did port is_inbound).4)
    | inl young ↦
        let b =
          All-lookup (IsEntry fw.default_deny (lookup did fw.policies) clock)
            (cache_key did port is_inbound) c fw.policy_cache v.entries e refl in
        rw young (b.at, omega (arith, b.past), ground (arith, b.expiry), b.decided)
  ]

  IsCurrent-eval-IsRecent :
      (fw : Firewall) (clock now : ℕ)
      → clock ≤ now
      → IsCurrent fw clock
      → IsRecent fw now did port is_inbound (eval cache_key fw now did port is_inbound).1
  unfolding eval
  IsCurrent-eval-IsRecent fw clock now h v =
      from_cache-IsRecent _ clock now _ h (record { ttl = v.ttl; entries = v.entries }) refl

-- In any history of a new firewall (changes of policies, evaluations and waits), and for a packet
-- whose cache key is the key of no other packet: an evaluation at a time no earlier than the last
-- call gives the decision and the reason of the rules, over the policies as they are now, at some
-- time less than half a minute ago.
pub eval-IsRecent :
    (cache_key : String → ℕ → Bool → String) (did : String) (port : ℕ) (is_inbound : Bool)
    (default_deny : Bool) (start : ℕ) (ops : List (ℕ × Op)) (now : ℕ)
    → ((d : String) (p : ℕ) (i : Bool)
        → cache_key d p i ≡ cache_key did port is_inbound
        → (d ≡ did) × (p ≡ port) × (i ≡ is_inbound))
    → (steps cache_key (new_firewall default_deny start) start ops).1 ≤ now
    → IsRecent
        (steps cache_key (new_firewall default_deny start) start ops).0
        now
        did
        port
        is_inbound
        (eval cache_key
          (steps cache_key (new_firewall default_deny start) start ops).0
          now
          did
          port
          is_inbound).1
eval-IsRecent cache_key did port is_inbound default_deny start ops now own h =
    IsCurrent-eval-IsRecent cache_key did port is_inbound own
      (steps cache_key (new_firewall default_deny start) start ops).0
      (steps cache_key (new_firewall default_deny start) start ops).1 now h
      (steps-IsCurrent cache_key did port is_inbound own (new_firewall default_deny start) start ops
        (new_firewall-IsCurrent cache_key did port is_inbound own default_deny start))
