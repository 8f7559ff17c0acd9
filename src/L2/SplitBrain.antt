-- ===== src/L2/SplitBrain.antt =====
-- SplitBrainGuard of src/pkg/l2/split_brain_guard.go. Times and durations are in nanoseconds; the
-- zero time of a peer never heard of is `none`. `float64(active) / float64(total) < threshold` is
-- the parameter `below`. The lock makes each call one step. The texts of AuditLiveness are left
-- out.
pub mod Recovery
pub mod Return
mod Tests
use ipvn.Base.{
  ℕ, zero, suc, ◌+◌, ◌-◌, String, Bool, true, false, List, [], ◌∷◌, Option, none, some, leb, ltb,
  ◌==◌, if◌then◌else◌, length,
}
use ipvn.Base.Dict.{lookup, insert}

pub data PartitionState : Type 0 where
  healthy partitioned recovering : PartitionState

pub record PeerLiveness : Type 0 where
  pub last_seen : Option ℕ
  pub is_active : Bool

pub record Guard : Type 0 where
  pub peers : List (String × PeerLiveness)
  pub state : PartitionState
  pub heartbeat_timeout : ℕ
  pub state_changed_at : ℕ
  pub recovery_window : ℕ

abbrev pub recovery_window_ns : ℕ
recovery_window_ns = 5000000000

-- The longest duration: the difference to the zero time is cut to it.
abbrev pub max_duration : ℕ
max_duration = 9223372036854775807

unfoldable pub new_guard : ℕ → ℕ → Guard
new_guard timeout now = record {
  peers = [];
  state = healthy;
  heartbeat_timeout = if timeout == 0 then 10000000000 else timeout;
  state_changed_at = now;
  recovery_window = recovery_window_ns;
}

unfoldable pub record_heartbeat_at : Guard → String → ℕ → Guard
record_heartbeat_at g did at = record g {
  peers = insert did (record { last_seen = some at; is_active = true }) g.peers;
}

abbrev known_or_new : Guard → String → Option PeerLiveness → Guard
known_or_new g did none = record g {
  peers = insert did (record { last_seen = none; is_active = false }) g.peers;
}
known_or_new g did (some p) = g

unfoldable pub register_peer : Guard → String → Guard
register_peer g did = known_or_new g did (lookup did g.peers)

-- `now.Sub(p.LastSeen) <= g.heartbeatTimeout`.
abbrev pub is_alive : ℕ → ℕ → Option ℕ → Bool
is_alive timeout now none = leb max_duration timeout
is_alive timeout now (some at) = leb (now - at) timeout

unfoldable pub refresh : ℕ → ℕ → List (String × PeerLiveness) → List (String × PeerLiveness)
refresh timeout now [] = []
refresh timeout now ((did, p) ∷ m) =
    (did, record p { is_active = is_alive timeout now p.last_seen }) ∷ refresh timeout now m

unfoldable pub active_count : List (String × PeerLiveness) → ℕ
active_count [] = 0
active_count ((did, p) ∷ m) = let rest = active_count m in if p.is_active then suc rest else rest

-- The states after enough peers were found active.
abbrev pub after_quorum : PartitionState → Bool → PartitionState
after_quorum healthy stable = healthy
after_quorum partitioned stable = recovering
after_quorum recovering stable = if stable then healthy else recovering

abbrev pub same_partition : PartitionState → PartitionState → Bool
same_partition healthy healthy = true
same_partition partitioned partitioned = true
same_partition recovering recovering = true
same_partition s t = false

-- A state that is set anew notes the time.
abbrev pub move_to : Guard → ℕ → PartitionState → Guard
move_to g now s =
    if same_partition g.state s then g else record g { state = s; state_changed_at = now }

unfoldable pub is_safe_to_write : Guard → Bool
is_safe_to_write g = same_partition g.state healthy

unfoldable pub get_status : Guard → PartitionState × ℕ × ℕ
get_status g = (g.state, active_count g.peers, length g.peers)

pub data Event : Type 0 where
  heartbeat : String → ℕ → Event
  register : String → Event
  audit : Event

module _ (below : ℕ → ℕ → Bool) where
  unfoldable pub audit_liveness : Guard → ℕ → Guard
  audit_liveness g0 now =
      let total = length g0.peers in
      let peers = refresh g0.heartbeat_timeout now g0.peers in
      let g = record g0 { peers = peers } in
      if total == 0
      then g0
      else (if below (active_count peers) total
          then move_to g now partitioned
          else move_to g now
              (after_quorum g.state (leb g.recovery_window (now - g.state_changed_at))))

  unfoldable pub handle : Guard → ℕ → Event → Guard
  handle g now (heartbeat did at) = record_heartbeat_at g did at
  handle g now (register did) = register_peer g did
  handle g now audit = audit_liveness g now

  -- Events one after the other, each with the time that has passed since the one before it.
  unfoldable pub handle_all : Guard → ℕ → List (ℕ × Event) → Guard × ℕ
  handle_all g now [] = (g, now)
  handle_all g now ((wait, e) ∷ es) = handle_all (handle g (now + wait) e) (now + wait) es
