-- ===== src/L1/Firewall/Tests.antt =====
-- A history of one DID, and the theorems at it.
use ipvn.Base.{
  ◌↔◌, ℕ, ◌≡◌, refl, sym, ap, ◌∙◌, String, Bool, true, false, List, [], ◌∷◌, arith, ◌==◌,
  if◌then◌else◌, str_eq, str_eq_iff, ◌++◌,
}
use ipvn.Base.Dict.{lookup, insert, delete}
use ipvn.L1.Firewall.{
  Firewall, rule, is_allowed, allow, deny, not_listed, valid_policy, DidPolicy, new_firewall, Op,
  authorizes, revokes, evaluates, rule_of, decide, cleanup_expired_cache, drop_expired,
  authorize_did, revoke_did, eval, step, steps,
}
use ipvn.L1.Firewall.Freshness.{IsRecent, eval-IsRecent}
use ipvn.L1.Firewall.Revocation.{revoked_denied}
use ipvn.L1.Firewall.Admission.{admits_port, is_allowed-rule}

-- The text of one packet, and of all others.
abbrev key_text : String → ℕ → Bool → String
key_text did port is_inbound =
    if str_eq did "did:a"
    then (if port == 80 then (if is_inbound then "did:a:80:true" else "-") else "-")
    else "-"

choice_test :
    (a b c : Bool)
    → str_eq
        (if a then (if b then (if c then "did:a:80:true" else "-") else "-") else "-")
        "did:a:80:true"
      ≡ (if a then (if b then c else false) else false)
choice_test false b c = refl
choice_test true false c = refl
choice_test true true false = refl
choice_test true true true = refl

key_text_own :
    (d : String) (p : ℕ) (i : Bool)
    → key_text d p i ≡ key_text "did:a" 80 true
    → (d ≡ "did:a") × (p ≡ 80) × (i ≡ true)
key_text_own d p i e =
    let chosen : (if str_eq d "did:a" then (if p == 80 then i else false) else false) ≡ true =
      sym (choice_test (str_eq d "did:a") (p == 80) i) ∙ ap (λ t. str_eq t "did:a:80:true") e in
    ground (arith, str_eq_iff d "did:a")

abbrev web_policy : DidPolicy
web_policy = record {
  did = "did:a";
  allow_inbound = true;
  allow_outbound = false;
  allow_relay = false;
  allowed_ports = 80 ∷ [];
  created_at = 0;
  expires_at = 0;
}

abbrev served : List (ℕ × Op)
served = (5, authorizes web_policy) ∷ (5, evaluates "did:a" 80 true) ∷ []

abbrev history : List (ℕ × Op)
history = served ++ ((1, revokes "did:a") ∷ (1, evaluates "did:a" 22 true) ∷ [])

served_allowed :
    (eval key_text (steps key_text (new_firewall true 100) 100 served).0 115 "did:a" 80 true).1
    ≡ (allow, valid_policy)
unfolding eval steps step new_firewall authorize_did decide cleanup_expired_cache drop_expired
    rule_of lookup insert
served_allowed = refl

eval-IsRecent_example :
    IsRecent
      (steps key_text (new_firewall true 100) 100 served).0
      115
      "did:a"
      80
      true
      (eval key_text (steps key_text (new_firewall true 100) 100 served).0 115 "did:a" 80 true).1
unfolding steps
eval-IsRecent_example =
    eval-IsRecent key_text "did:a" 80 true true 100 served 115 key_text_own (omega arith)

revoked_denied_example :
    (eval key_text (steps key_text (new_firewall true 100) 100 history).0 115 "did:a" 80 true).1
    ≡ (deny, not_listed "did:a")
unfolding steps step new_firewall authorize_did revoke_did eval decide cleanup_expired_cache
    drop_expired rule_of lookup insert delete
revoked_denied_example =
    revoked_denied key_text "did:a" 80 true true 100 1 served ((1, evaluates "did:a" 22 true) ∷ [])
      115 key_text_own (tt, tt) (omega arith)

abbrev serving : Firewall
serving = (steps key_text (new_firewall true 100) 100 served).0

is_allowed-rule_example : ((rule serving 115 "did:a" 80 true).0 ≡ allow) ↔ (
    (is_allowed serving 115 "did:a" ≡ true)
    × (admits_port (lookup "did:a" serving.policies) 80 ≡ true))
is_allowed-rule_example = is_allowed-rule serving 115 "did:a" 80
