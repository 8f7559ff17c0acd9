-- ===== src/L1/Firewall.antt =====
-- ZTNAFirewall of src/pkg/l1/firewall.go: policies by DID, and a cache of decisions. Times are in
-- nanoseconds, 0 the zero time; a call reads the clock once here. fmt's text of the cache key is
-- the parameter `cache_key`. A policy that was handed over is not changed by its owner any more.
pub mod Admission
pub mod Misses
pub mod Freshness
pub mod Revocation
mod Tests
use ipvn.Base.{
  ℕ, zero, suc, ◌+◌, String, Bool, true, false, ◌&&◌, ◌||◌, not, List, [], ◌∷◌, Option, none, some,
  ltb, leb, ◌==◌, if◌then◌else◌,
}
use ipvn.Base.Dict.{lookup, insert, delete}
use ipvn.Base.Words.{u64}

pub data Decision : Type 0 where
  allow deny drop_acl : Decision

pub data Reason : Type 0 where
  permissive valid_policy : Reason
  not_listed expired inbound_denied outbound_denied : String → Reason
  port_denied : ℕ → String → Reason

pub record DidPolicy : Type 0 where
  pub did : String
  pub allow_inbound : Bool
  pub allow_outbound : Bool
  pub allow_relay : Bool
  pub allowed_ports : List ℕ
  pub created_at : ℕ
  pub expires_at : ℕ

pub record CachedDecision : Type 0 where
  pub decision : Decision
  pub reason : Reason
  pub expires : ℕ

pub record Firewall : Type 0 where
  pub default_deny : Bool
  pub policies : List (String × DidPolicy)
  pub policy_cache : List (String × CachedDecision)
  pub cache_ttl : ℕ
  pub cache_cleanup : ℕ
  pub packets_evaluated : ℕ
  pub packets_accepted : ℕ
  pub packets_dropped_dd : ℕ
  pub packets_dropped_acl : ℕ

abbrev pub half_minute : ℕ
half_minute = 30000000000

unfoldable pub new_firewall : Bool → ℕ → Firewall
new_firewall default_deny now = record {
  default_deny = default_deny;
  policies = [];
  policy_cache = [];
  cache_ttl = half_minute;
  cache_cleanup = now + half_minute;
  packets_evaluated = 0;
  packets_accepted = 0;
  packets_dropped_dd = 0;
  packets_dropped_acl = 0;
}

unfoldable pub set_default_deny : Firewall → Bool → Firewall
set_default_deny fw enabled = record fw { default_deny = enabled; policy_cache = [] }

abbrev pub stamped : DidPolicy → ℕ → DidPolicy
stamped p now = record p { created_at = if p.created_at == 0 then now else p.created_at }

unfoldable pub authorize_did : Firewall → ℕ → DidPolicy → Firewall
authorize_did fw now p = record fw {
  policies = insert p.did (stamped p now) fw.policies;
  policy_cache = [];
}

unfoldable pub revoke_did : Firewall → String → Firewall
revoke_did fw did = record fw { policies = delete did fw.policies; policy_cache = [] }

unfoldable pub insert_all :
    ℕ → List DidPolicy → List (String × DidPolicy) → List (String × DidPolicy)
insert_all now [] m = m
insert_all now (p ∷ ps) m = insert_all now ps (insert p.did (stamped p now) m)

unfoldable pub authorize_dids_batch : Firewall → ℕ → List DidPolicy → Firewall
authorize_dids_batch fw now ps = record fw {
  policies = insert_all now ps fw.policies;
  policy_cache = [];
}

unfoldable pub delete_all : List String → List (String × DidPolicy) → List (String × DidPolicy)
delete_all [] m = m
delete_all (d ∷ ds) m = delete_all ds (delete d m)

unfoldable pub revoke_dids_batch : Firewall → List String → Firewall
revoke_dids_batch fw dids = record fw { policies = delete_all dids fw.policies; policy_cache = [] }

-- `!p.ExpiresAt.IsZero() && time.Now().After(p.ExpiresAt)`.
abbrev pub is_expired : DidPolicy → ℕ → Bool
is_expired p now = not (p.expires_at == 0) && ltb p.expires_at now

abbrev pub allowed_by : Bool → ℕ → Option DidPolicy → Bool
allowed_by default_deny now none = not default_deny
allowed_by default_deny now (some p) = if is_expired p now then false else p.allow_inbound

unfoldable pub is_allowed : Firewall → ℕ → String → Bool
is_allowed fw now peer_did = allowed_by fw.default_deny now (lookup peer_did fw.policies)

unfoldable pub drop_expired : ℕ → List (String × CachedDecision) → List (String × CachedDecision)
drop_expired now [] = []
drop_expired now ((k, c) ∷ m) =
    let rest = drop_expired now m in if ltb c.expires now then rest else (k, c) ∷ rest

unfoldable pub cleanup_expired_cache : Firewall → ℕ → Firewall
cleanup_expired_cache fw now = if ltb now fw.cache_cleanup then fw else record fw {
  cache_cleanup = now + half_minute;
  policy_cache = drop_expired now fw.policy_cache;
}

abbrev pub has_port : ℕ → List ℕ → Bool
has_port port [] = false
has_port port (p ∷ ps) = p == port || has_port port ps

abbrev pub any_port : List ℕ → Bool
any_port [] = true
any_port (p ∷ ps) = false

-- The chain of tests of eval, on the policy read for the DID.
unfoldable pub rule_of : Bool → Option DidPolicy → ℕ → String → ℕ → Bool → Decision × Reason
rule_of default_deny none now did port is_inbound =
    if default_deny then (deny, not_listed did) else (allow, permissive)
rule_of default_deny (some p) now did port is_inbound =
    if is_expired p now
    then (drop_acl, expired did)
    else (if is_inbound && not p.allow_inbound
        then (drop_acl, inbound_denied did)
        else (if not is_inbound && not p.allow_outbound
            then (drop_acl, outbound_denied did)
            else (if is_inbound && not (any_port p.allowed_ports)
                then (if has_port port p.allowed_ports
                    then (allow, valid_policy)
                    else (drop_acl, port_denied port did))
                else (allow, valid_policy))))

abbrev pub rule : Firewall → ℕ → String → ℕ → Bool → Decision × Reason
rule fw now did port is_inbound =
    rule_of fw.default_deny (lookup did fw.policies) now did port is_inbound

abbrev count_decision : Decision → Firewall → Firewall
count_decision allow fw = record fw { packets_accepted = u64 (fw.packets_accepted + 1) }
count_decision deny fw = record fw { packets_dropped_dd = u64 (fw.packets_dropped_dd + 1) }
count_decision drop_acl fw = record fw { packets_dropped_acl = u64 (fw.packets_dropped_acl + 1) }

-- The part of eval after a miss of the cache.
unfoldable pub decide : Firewall → ℕ → String → String → ℕ → Bool → Firewall × (Decision × Reason)
decide fw0 now key did port is_inbound =
    let fw = cleanup_expired_cache fw0 now in
    let (decision, reason) = rule fw now did port is_inbound in
    let entry : CachedDecision = record {
      decision = decision;
      reason = reason;
      expires = now + fw.cache_ttl;
    } in
    (
      record (count_decision decision fw) { policy_cache = insert key entry fw.policy_cache },
      (decision, reason),
    )

abbrev pub from_cache :
    Firewall
    → ℕ
    → String
    → String
    → ℕ
    → Bool
    → Option CachedDecision
    → Firewall × (Decision × Reason)
from_cache fw now key did port is_inbound none = decide fw now key did port is_inbound
from_cache fw now key did port is_inbound (some c) =
    if ltb now c.expires
    then (fw, (c.decision, c.reason))
    else decide fw now key did port is_inbound

pub data Op : Type 0 where
  sets_default_deny : Bool → Op
  authorizes : DidPolicy → Op
  revokes : String → Op
  authorizes_batch : List DidPolicy → Op
  revokes_batch : List String → Op
  evaluates : String → ℕ → Bool → Op

module _ (cache_key : String → ℕ → Bool → String) where
  unfoldable pub eval : Firewall → ℕ → String → ℕ → Bool → Firewall × (Decision × Reason)
  eval fw0 now did port is_inbound =
      let fw = record fw0 { packets_evaluated = u64 (fw0.packets_evaluated + 1) } in
      let key = cache_key did port is_inbound in
      from_cache fw now key did port is_inbound (lookup key fw.policy_cache)

  unfoldable pub step : Firewall → ℕ → Op → Firewall
  step fw now (sets_default_deny enabled) = set_default_deny fw enabled
  step fw now (authorizes p) = authorize_did fw now p
  step fw now (revokes did) = revoke_did fw did
  step fw now (authorizes_batch ps) = authorize_dids_batch fw now ps
  step fw now (revokes_batch dids) = revoke_dids_batch fw dids
  step fw now (evaluates did port is_inbound) = (eval fw now did port is_inbound).0

  -- Calls one after the other, each with the time that has passed since the one before it.
  unfoldable pub steps : Firewall → ℕ → List (ℕ × Op) → Firewall × ℕ
  steps fw now [] = (fw, now)
  steps fw now ((wait, op) ∷ ops) = steps (step fw (now + wait) op) (now + wait) ops
