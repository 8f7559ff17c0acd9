-- ===== src/L1/Qos/Credit.antt =====
-- Packets and proofs of work in any order at the QoSManager of src/pkg/l1/qos.go, and a proof of work
-- from its issue to its reward.
use ipvn.Base.{ℕ, ◌≡◌, String, true, false, List, [], ◌∷◌, Option, none, some}
use ipvn.Base.Dict.{lookup}
use ipvn.L1.Qos.{
  TrafficClass, Floats, Hashing, Readings, TokenBucket, QosManager, new_qos_manager,
  evaluate_packet, verify_and_credit_pow,
}
use ipvn.L1.Qos.Buckets.{
  IsArithmetic, IsSound, evaluate_packet-IsSound, verify_and_credit_pow-IsSound,
}

pub data Event : Type 0 where
  packet : String → TrafficClass → ℕ → List ℕ → Readings → Event
  solution : String → ℕ → ℕ → Event

module _ (f : Floats) (h : Hashing) where
  unfoldable pub serve : QosManager f → Event → QosManager f
  serve qm (packet did tc size salt t) = (evaluate_packet f h qm did tc size salt t).0
  serve qm (solution challenge_hex nonce now) =
      (verify_and_credit_pow f h qm challenge_hex nonce now).0

  unfoldable pub serve_all : QosManager f → List Event → QosManager f
  serve_all qm [] = qm
  serve_all qm (e ∷ events) = serve_all (serve qm e) events

  serve-IsSound :
      IsArithmetic f → (qm : QosManager f) (e : Event) → IsSound f qm → IsSound f (serve qm e)
  unfolding serve
  serve-IsSound laws qm (packet did tc size salt t) ok =
      evaluate_packet-IsSound f laws h qm did tc size salt t ok
  serve-IsSound laws qm (solution hex nonce now) ok =
      verify_and_credit_pow-IsSound f laws h qm hex nonce now ok

  all-IsSound :
      IsArithmetic f
      → (qm : QosManager f) (events : List Event) → IsSound f qm
      → IsSound f (serve_all qm events)
  unfolding serve_all
  all-IsSound laws qm [] ok = ok
  all-IsSound laws qm (e ∷ events) ok =
      all-IsSound laws (serve qm e) events (serve-IsSound laws qm e ok)

-- Whatever packets are evaluated and whatever solutions come in, in any order: every bucket of a
-- manager has the capacity of one burst and holds no more than that, and every pending challenge
-- stands under its own text and asks for 16 bits. Of float64 this relies on two laws: no amount is
-- above itself, and a debit that is covered keeps an upper bound.
pub serve_all-IsSound :
    (f : Floats) (h : Hashing) (events : List Event)
    → IsArithmetic f
    → IsSound f (serve_all f h (new_qos_manager f) events)
unfolding new_qos_manager
serve_all-IsSound f h events laws =
    all-IsSound f h laws (new_qos_manager f) events (record { bounded = tt; keyed = tt })

abbrev pub tokens_of : (f : Floats) → Option (TokenBucket f) → Option f.F
tokens_of f none = none
tokens_of f (some tb) = some tb.tokens

-- The solution is accepted, fills the bucket of the identity, and is refused afterwards, as every
-- other solution of the challenge is.
pub record IsCredited (f : Floats) (h : Hashing) (qm : QosManager f) (did hex : String)
    (nonce now : ℕ) : Type 0 where
  pub accepted : (verify_and_credit_pow f h qm hex nonce now).1 ≡ true
  pub full :
      tokens_of f (lookup did (verify_and_credit_pow f h qm hex nonce now).0.buckets)
      ≡ some qm.burst_limit
  pub once :
      (m later : ℕ)
      → (verify_and_credit_pow f h (verify_and_credit_pow f h qm hex nonce now).0 hex m later).1
        ≡ false
