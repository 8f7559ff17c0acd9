-- ===== src/L1/Firewall/Misses.antt =====
-- What a miss of the cache of src/pkg/l1/firewall.go leaves, and what its clean-up keeps.
use ipvn.Base.{ℕ, ◌+◌, ◌≡◌, String, Bool, List, [], ◌∷◌, ltb, arith, All, Bool-cases, inl, inr}
use ipvn.Base.Dict.{insert}
use ipvn.L1.Firewall.{CachedDecision, Firewall, drop_expired, cleanup_expired_cache, rule, decide}

pub All-drop_expired :
    (Q : String × CachedDecision → Type 0) (now : ℕ) (m : List (String × CachedDecision))
    → All Q m
    → All Q (drop_expired now m)
unfolding drop_expired
All-drop_expired Q now [] h = tt
All-drop_expired Q now ((k, c) ∷ m) h = elim (Bool-cases (ltb c.expires now)) [
  | inl old ↦ rw old (All-drop_expired Q now m h.1)
  | inr young ↦ rw young (h.0, All-drop_expired Q now m h.1)
]

pub All-weaken :
    (P Q : String × CachedDecision → Type 0) (m : List (String × CachedDecision))
    → ((e : String × CachedDecision) → P e → Q e)
    → All P m
    → All Q m
All-weaken P Q [] f h = tt
All-weaken P Q (e ∷ m) f h = (f e h.0, All-weaken P Q m f h.1)

-- What a miss of the cache leaves.
module _ (fw : Firewall) (now : ℕ) (key did : String) (port : ℕ) (is_inbound : Bool) where
  pub cleanup_kept :
      ((cleanup_expired_cache fw now).default_deny ≡ fw.default_deny)
      × ((cleanup_expired_cache fw now).policies ≡ fw.policies)
      × ((cleanup_expired_cache fw now).cache_ttl ≡ fw.cache_ttl)
  unfolding cleanup_expired_cache
  cleanup_kept = ground arith

  pub All-cleanup :
      (Q : String × CachedDecision → Type 0)
      → All Q fw.policy_cache
      → All Q (cleanup_expired_cache fw now).policy_cache
  unfolding cleanup_expired_cache
  All-cleanup Q h = elim (Bool-cases (ltb now fw.cache_cleanup)) [
    | inl early ↦ rw early h
    | inr due ↦ rw due (All-drop_expired Q now fw.policy_cache h)
  ]

  abbrev pub entry : CachedDecision
  entry = record {
    decision = (rule fw now did port is_inbound).0;
    reason = (rule fw now did port is_inbound).1;
    expires = now + fw.cache_ttl;
  }

  pub decide_parts :
      ((decide fw now key did port is_inbound).0.default_deny ≡ fw.default_deny)
      × ((decide fw now key did port is_inbound).0.policies ≡ fw.policies)
      × ((decide fw now key did port is_inbound).0.cache_ttl ≡ fw.cache_ttl)
      × ((decide fw now key did port is_inbound).0.policy_cache
          ≡ insert key entry (cleanup_expired_cache fw now).policy_cache)
      × ((decide fw now key did port is_inbound).1 ≡ rule fw now did port is_inbound)
  unfolding decide cleanup_expired_cache
  decide_parts = ground arith
