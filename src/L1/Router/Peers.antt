-- ===== src/L1/Router/Peers.antt =====
-- The peers of src/pkg/l1/routing.go, the state of the router, and its helpers on lists.
use ipvn.Base.{
  ℕ, zero, suc, String, Bool, true, false, List, [], ◌∷◌, Option, none, some, if◌then◌else◌, str_eq,
}

pub data HealthState : Type 0 where
  healthy : HealthState
  degraded : HealthState
  unstable : HealthState
  unreachable : HealthState
  quarantined : HealthState

-- float64 with its literals `lit n d`, for n / d.
pub record Floats : Type 1 where
  pub F : Type 0
  pub lit : ℕ → ℕ → F
  pub add : F → F → F
  pub sub : F → F → F
  pub mul : F → F → F
  pub div : F → F → F
  pub less : F → F → Bool

pub record RouterPeer (f : Floats) : Type 0 where
  pub did : String
  pub public_key : List ℕ
  pub physical_addr : String
  pub last_seen : ℕ
  pub latency_ms : f.F
  pub ring_index : ℕ
  pub health_state : HealthState
  pub jitter_ms : f.F
  pub loss_rate : f.F
  pub health_score : f.F
  pub quarantine_until : ℕ

pub record Router (f : Floats) : Type 0 where
  pub local_did : String
  pub local_pub : List ℕ
  pub num_rings : ℕ
  pub peers_per_ring : ℕ
  pub max_total_peers : ℕ
  pub alpha : f.F
  pub rings : List (List String)
  pub peer_index : List (String × RouterPeer f)
  pub total_routes : ℕ

abbrev pub is_down : HealthState → Bool
is_down quarantined = true
is_down unreachable = true
is_down s = false

abbrev pub is_unstable : HealthState → Bool
is_unstable unstable = true
is_unstable s = false

abbrev pub is_healthy : HealthState → Bool
is_healthy healthy = true
is_healthy s = false

-- The first position from i on that passes.
abbrev pub first_index : (String → Bool) → ℕ → List String → Option ℕ
first_index test i [] = none
first_index test i (did ∷ dids) = if test did then some i else first_index test (suc i) dids

abbrev pub one_of {ℓ} : {A : Type ℓ} → Option A → Option A → Option A
one_of none later = later
one_of (some a) later = some a

abbrev pub remove_at : List String → ℕ → List String
remove_at [] i = []
remove_at (x ∷ xs) zero = xs
remove_at (x ∷ xs) (suc i) = x ∷ remove_at xs i

abbrev pub without : String → List String → List String
without did [] = []
without did (x ∷ xs) = let rest = without did xs in if str_eq x did then rest else x ∷ rest
