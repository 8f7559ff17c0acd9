-- ===== src/L1/Firewall/Admission.antt =====
-- IsAllowed beside the rules of eval, in src/pkg/l1/firewall.go.
use ipvn.Base.{ℕ, ◌≡◌, ◌↔◌, if◌then◌else◌, String, Bool, true, Option, none, some, arith}
use ipvn.Base.Dict.{lookup}
use ipvn.L1.Firewall.{
  allow, DidPolicy, Firewall, allowed_by, any_port, has_port, is_allowed, rule_of, rule,
}

-- The ports of a policy admit a port: all do if it lists none.
abbrev pub admits_port : Option DidPolicy → ℕ → Bool
admits_port none port = true
admits_port (some p) port = if any_port p.allowed_ports then true else has_port port p.allowed_ports

rule_of-allowed_by :
    (default_deny : Bool) (o : Option DidPolicy) (now : ℕ) (did : String) (port : ℕ)
    → ((rule_of default_deny o now did port true).0 ≡ allow)
      ↔ ((allowed_by default_deny now o ≡ true) × (admits_port o port ≡ true))
unfolding rule_of
rule_of-allowed_by default_deny none now did port = ((λ e. ground arith), (λ e. ground arith))
rule_of-allowed_by default_deny (some p) now did port = ((λ e. ground arith), (λ e. ground arith))

-- The rules admit an incoming packet exactly if IsAllowed holds of its DID at that time and the
-- ports of the DID's policy, where it has one that lists any, include the packet's.
pub is_allowed-rule :
    (fw : Firewall) (now : ℕ) (did : String) (port : ℕ)
    → ((rule fw now did port true).0 ≡ allow)
      ↔ ((is_allowed fw now did ≡ true) × (admits_port (lookup did fw.policies) port ≡ true))
unfolding is_allowed
is_allowed-rule fw now did port =
    rule_of-allowed_by fw.default_deny (lookup did fw.policies) now did port
