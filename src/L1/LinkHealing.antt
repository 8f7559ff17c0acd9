-- ===== src/L1/LinkHealing.antt =====
-- LinkHealingEngine of src/pkg/l1/link_healing.go. Latencies, floats that are only compared, stand
-- as microseconds; times are in nanoseconds, 0 the zero time. The peers that the router lists are
-- an argument, each with the fields that the choice reads. Counts of probes stay below the bounds of int and are not cut.
pub mod Selection
pub mod Hysteresis
mod Tests
use ipvn.Base.{
  ℕ, ◌+◌, ◌-◌, ◌*◌, ◌%◌, ◌^◌, String, Bool, true, false, ◌&&◌, ◌||◌, not, List, [], ◌∷◌, Option,
  none, some, ltb, leb, ◌==◌, if◌then◌else◌, str_eq,
}
use ipvn.Base.Dict.{lookup, insert}

pub record Limits : Type 0 where
  pub max_consecutive_losses : ℕ
  pub degraded_latency : ℕ
  pub recovery_successes : ℕ

pub record PeerHealthStats : Type 0 where
  pub consecutive_losses : ℕ
  pub consecutive_successes : ℕ
  pub last_latency : ℕ
  pub last_evaluation : ℕ
  pub degraded : Bool
  pub failover_count : ℕ
  pub last_failover_time : ℕ
  pub hold_down_until : ℕ
  pub flap_penalty_count : ℕ

pub record PeerNode : Type 0 where
  pub did : String
  pub health_state : ℕ
  pub latency : ℕ

abbrev pub second : ℕ
second = 1000000000

abbrev pub new_stats : ℕ → PeerHealthStats
new_stats now = record {
  consecutive_losses = 0;
  consecutive_successes = 0;
  last_latency = 0;
  last_evaluation = now;
  degraded = false;
  failover_count = 0;
  last_failover_time = 0;
  hold_down_until = 0;
  flap_penalty_count = 0;
}

-- The branch of RecordProbeResult for a lost probe.
unfoldable pub note_loss : Limits → PeerHealthStats → PeerHealthStats
note_loss limits s =
    let losses = s.consecutive_losses + 1 in
    record s {
      consecutive_losses = losses;
      consecutive_successes = 0;
      degraded = if leb limits.max_consecutive_losses losses then true else s.degraded;
    }

-- The branch for an answered probe.
unfoldable pub note_success : Limits → PeerHealthStats → ℕ → ℕ → PeerHealthStats
note_success limits s latency now =
    let successes = s.consecutive_successes + 1 in
    if ltb 1500000 latency || ltb limits.degraded_latency latency
    then record s { consecutive_losses = 0; consecutive_successes = 0; degraded = true }
    else (if leb limits.recovery_successes successes && not (ltb now s.hold_down_until)
        then record s {
          consecutive_losses = 0;
          consecutive_successes = successes;
          degraded = false;
          flap_penalty_count = 0;
        }
        else record s { consecutive_losses = 0; consecutive_successes = successes })

unfoldable pub note_probe : Limits → PeerHealthStats → Bool → ℕ → ℕ → PeerHealthStats
unfolding note_loss note_success
note_probe limits s0 success latency now =
    let s = record s0 { last_evaluation = now; last_latency = latency } in
    if success then note_success limits s latency now else note_loss limits s

abbrev pub penalty : ℕ → ℕ
penalty count = if ltb (30 * second) (count * 2 * second) then 30 * second else count * 2 * second

-- The hold-down after failovers within ten seconds, and the time of this failover.
unfoldable pub damp_flaps : PeerHealthStats → ℕ → PeerHealthStats
damp_flaps s now =
    let count = s.flap_penalty_count + 1 in
    if not (s.last_failover_time == 0) && ltb (now - s.last_failover_time) (10 * second)
    then record s {
      flap_penalty_count = count;
      hold_down_until = now + penalty count;
      last_failover_time = now;
    }
    else record s { last_failover_time = now }

abbrev pub rtt : PeerNode → ℕ
rtt p = if ltb 0 p.latency then p.latency else 1000

abbrev pub better : Option PeerNode → PeerNode → Bool
better none p = true
better (some best) p = ltb (rtt p) (rtt best)

-- The loop of selectAlternativePeerLocked, with the best candidate so far.
unfoldable pub select_from : String → Option PeerNode → List PeerNode → Option PeerNode
select_from degraded_did best [] = best
select_from degraded_did best (p ∷ ps) =
    select_from degraded_did
      (if not (str_eq p.did degraded_did) && p.health_state == 0 && better best p
        then some p
        else best)
      ps

unfoldable pub select_alternative_peer : List PeerNode → String → Option PeerNode
select_alternative_peer peers degraded_did = select_from degraded_did none peers

abbrev pub known_stats : Option PeerHealthStats → ℕ → PeerHealthStats
known_stats none now = new_stats now
known_stats (some s) now = s

abbrev counted_failover : Option PeerNode → PeerHealthStats → PeerHealthStats
counted_failover none s = s
counted_failover (some p) s = record s { failover_count = (s.failover_count + 1) % 2 ^ 32 }

-- RecordProbeResult on the statistics of the peer: `some p` is a failover to p.
unfoldable pub probe_stats :
    Limits
    → List PeerNode
    → String
    → PeerHealthStats
    → Bool
    → ℕ
    → ℕ
    → PeerHealthStats × Option PeerNode
probe_stats limits peers did s0 success latency now =
    let s = note_probe limits s0 success latency now in
    let alternative = select_alternative_peer peers did in
    if (not success || ltb limits.degraded_latency latency) && s.degraded
    then (counted_failover alternative (damp_flaps s now), alternative)
    else (s, none)

unfoldable pub record_probe_result :
    Limits
    → List PeerNode
    → List (String × PeerHealthStats)
    → String
    → Bool
    → ℕ
    → ℕ
    → List (String × PeerHealthStats) × Option PeerNode
record_probe_result limits peers stats did success latency now =
    let (s, alternative) =
      probe_stats limits peers did (known_stats (lookup did stats) now) success latency now in
    (insert did s stats, alternative)

pub record Probe : Type 0 where
  pub success : Bool
  pub latency : ℕ
  pub now : ℕ

-- Probes of one peer, one after the other.
unfoldable pub probe_all :
    Limits → List PeerNode → String → PeerHealthStats → List Probe → PeerHealthStats
probe_all limits peers did s [] = s
probe_all limits peers did s (p ∷ ps) =
    probe_all limits peers did (probe_stats limits peers did s p.success p.latency p.now).0 ps
