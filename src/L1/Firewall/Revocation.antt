-- ===== src/L1/Firewall/Revocation.antt =====
-- Packets of a DID without a policy, in src/pkg/l1/firewall.go.
use ipvn.Base.{
  ℕ, ◌+◌, ◌≤◌, ◌≡◌, ◌≢◌, refl, ap, ◌∙◌, String, Bool, List, [], ◌∷◌, Option, none, some,
  if◌then◌else◌, arith, All, ◌++◌, str_eq_iff,
}
use ipvn.Base.Dict.{lookup, delete, lookup-insert, lookup-delete}
use ipvn.L1.Firewall.{
  allow, deny, not_listed, permissive, DidPolicy, Firewall, new_firewall, set_default_deny,
  authorize_did, revoke_did, insert_all, authorize_dids_batch, delete_all, revoke_dids_batch,
  rule_of, rule, from_cache, CachedDecision, Op, sets_default_deny, authorizes, revokes,
  authorizes_batch, revokes_batch, evaluates, eval, step, steps, stamped,
}
use ipvn.L1.Firewall.Misses.{decide_parts}
use ipvn.L1.Firewall.Freshness.{eval-IsRecent}

-- A call that gives the DID no policy.
abbrev pub Spares : String → Op → Type 0
Spares did (authorizes p) = p.did ≢ did
Spares did (authorizes_batch ps) = All (λ p. p.did ≢ did) ps
Spares did op = Unit

Unlisted : String → Firewall → Type 0
Unlisted did fw = lookup did fw.policies ≡ none

module _ (did : String) where
  lookup-insert_all :
      (now : ℕ) (ps : List DidPolicy) (m : List (String × DidPolicy))
      → All (λ p. p.did ≢ did) ps
      → lookup did m ≡ none
      → lookup did (insert_all now ps m) ≡ none
  unfolding insert_all
  lookup-insert_all now [] m h e = e
  lookup-insert_all now (p ∷ ps) m h e =
      lookup-insert_all now ps _ h.1
        (ground (arith, lookup-insert p.did did (stamped p now) m, str_eq_iff p.did did, h.0))

  lookup-delete_all :
      (ds : List String) (m : List (String × DidPolicy))
      → lookup did m ≡ none
      → lookup did (delete_all ds m) ≡ none
  unfolding delete_all
  lookup-delete_all [] m e = e
  lookup-delete_all (d ∷ ds) m e =
      lookup-delete_all ds (delete d m) (ground (arith, lookup-delete d did m))

  from_cache-policies :
      (fw : Firewall) (now : ℕ) (key d : String) (p : ℕ) (i : Bool) (o : Option CachedDecision)
      → (from_cache fw now key d p i o).0.policies ≡ fw.policies
  from_cache-policies fw now key d p i none = (decide_parts fw now key d p i).1
  from_cache-policies fw now key d p i (some c) = ground (arith, decide_parts fw now key d p i)

  step-Unlisted :
      (cache_key : String → ℕ → Bool → String) (fw : Firewall) (now : ℕ) (op : Op)
      → Spares did op
      → Unlisted did fw
      → Unlisted did (step cache_key fw now op)
  unfolding Unlisted step set_default_deny authorize_did revoke_did authorize_dids_batch
      revoke_dids_batch eval
  step-Unlisted cache_key fw now (sets_default_deny b) h e = e
  step-Unlisted cache_key fw now (authorizes p) h e =
      ground (arith, lookup-insert p.did did (stamped p now) fw.policies, str_eq_iff p.did did)
  step-Unlisted cache_key fw now (revokes d) h e = ground (arith, lookup-delete d did fw.policies)
  step-Unlisted cache_key fw now (authorizes_batch ps) h e = lookup-insert_all now ps _ h e
  step-Unlisted cache_key fw now (revokes_batch ds) h e = lookup-delete_all ds _ e
  step-Unlisted cache_key fw now (evaluates d p i) h e =
      ap (lookup did) (from_cache-policies _ now _ d p i _) ∙ e

  steps-Unlisted :
      (cache_key : String → ℕ → Bool → String) (fw : Firewall) (now : ℕ) (ops : List (ℕ × Op))
      → All (λ o. Spares did o.1) ops
      → Unlisted did fw
      → Unlisted did (steps cache_key fw now ops).0
  unfolding steps
  steps-Unlisted cache_key fw now [] h e = e
  steps-Unlisted cache_key fw now ((wait, op) ∷ ops) h e =
      steps-Unlisted cache_key (step cache_key fw (now + wait) op) (now + wait) ops h.1
        (step-Unlisted cache_key fw (now + wait) op h.0 e)

steps-append :
    (cache_key : String → ℕ → Bool → String) (fw : Firewall) (now : ℕ) (xs ys : List (ℕ × Op))
    → steps cache_key fw now (xs ++ ys)
      ≡ steps cache_key (steps cache_key fw now xs).0 (steps cache_key fw now xs).1 ys
unfolding steps
steps-append cache_key fw now [] ys = refl
steps-append cache_key fw now ((wait, op) ∷ xs) ys =
    steps-append cache_key (step cache_key fw (now + wait) op) (now + wait) xs ys

revoked-Unlisted :
    (cache_key : String → ℕ → Bool → String) (did : String) (fw : Firewall) (now wait : ℕ)
    (ops : List (ℕ × Op))
    → All (λ o. Spares did o.1) ops
    → Unlisted did (steps cache_key fw now ((wait, revokes did) ∷ ops)).0
unfolding steps step revoke_did Unlisted
revoked-Unlisted cache_key did fw now wait ops h =
    steps-Unlisted did cache_key (revoke_did fw did) (now + wait) ops h
      (ground (arith, lookup-delete did did fw.policies, str_eq_iff did did))

Unlisted-rule :
    (fw : Firewall) (at : ℕ) (did : String) (port : ℕ) (is_inbound : Bool)
    → Unlisted did fw
    → rule fw at did port is_inbound
      ≡ (if fw.default_deny then (deny, not_listed did) else (allow, permissive))
unfolding Unlisted rule_of
Unlisted-rule fw at did port is_inbound e = rw e

-- In any history of a new firewall that revokes a DID and does not authorize it again after that,
-- for a packet of the DID whose cache key is the key of no other packet: an evaluation no earlier
-- than the last call denies the packet under Default-Deny, and allows it otherwise.
pub revoked_denied :
    (cache_key : String → ℕ → Bool → String) (did : String) (port : ℕ) (is_inbound : Bool)
    (default_deny : Bool) (start wait : ℕ) (before after : List (ℕ × Op)) (now : ℕ)
    → ((d : String) (p : ℕ) (i : Bool)
        → cache_key d p i ≡ cache_key did port is_inbound
        → (d ≡ did) × (p ≡ port) × (i ≡ is_inbound))
    → All (λ o. Spares did o.1) after
    → (steps cache_key
        (new_firewall default_deny start)
        start
        (before ++ ((wait, revokes did) ∷ after))).1
      ≤ now
    → (eval cache_key
        (steps cache_key
          (new_firewall default_deny start)
          start
          (before ++ ((wait, revokes did) ∷ after))).0
        now
        did
        port
        is_inbound).1
      ≡ (if (steps cache_key
            (new_firewall default_deny start)
            start
            (before ++ ((wait, revokes did) ∷ after))).0.default_deny
          then (deny, not_listed did)
          else (allow, permissive))
revoked_denied cache_key did port is_inbound default_deny start wait before after now own h k =
    let recent =
      eval-IsRecent cache_key did port is_inbound default_deny start
        (before ++ ((wait, revokes did) ∷ after)) now own k in
    recent.3
    ∙ Unlisted-rule
        (steps cache_key (new_firewall default_deny start) start
          (before ++ ((wait, revokes did) ∷ after))).0
        recent.0 did port is_inbound
        (rw
          (steps-append cache_key (new_firewall default_deny start) start before
            ((wait, revokes did) ∷ after))
          (revoked-Unlisted cache_key did _ _ wait after h))
