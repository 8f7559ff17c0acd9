-- ===== src/L1/LinkHealing/Hysteresis.antt =====
-- How long a link stays degraded, in src/pkg/l1/link_healing.go.
use ipvn.Base.{ℕ, ◌+◌, ◌≤◌, ◌<◌, ◌≡◌, String, true, List, [], ◌∷◌, length, arith}
use ipvn.L1.LinkHealing.{
  Limits, PeerHealthStats, PeerNode, Probe, note_loss, note_success, note_probe, damp_flaps,
  probe_stats, probe_all, penalty,
}

-- Probes at times that do not go back, from a clock on and before a time.
abbrev pub InOrder : ℕ → ℕ → List Probe → Type 0
InOrder clock until [] = Unit
InOrder clock until (p ∷ ps) = (clock ≤ p.now) × (p.now < until) × InOrder p.now until ps

module _ (limits : Limits) (peers : List PeerNode) (did : String) where
  probe-few :
      (s : PeerHealthStats) (p : Probe)
      → s.degraded ≡ true
      → s.consecutive_successes + 1 < limits.recovery_successes
      → ((probe_stats limits peers did s p.success p.latency p.now).0.degraded ≡ true)
        × ((probe_stats limits peers did s p.success p.latency p.now).0.consecutive_successes
            ≤ s.consecutive_successes + 1)
  unfolding probe_stats note_probe note_loss note_success damp_flaps
  probe-few s p d h = ground arith

  -- A degraded link that has answered `k` times in a row is still degraded after fewer probes than
  -- are missing to the number of successes that recovery takes.
  pub probe_all-few :
      (s : PeerHealthStats) (ps : List Probe)
      → s.degraded ≡ true
      → s.consecutive_successes + length ps < limits.recovery_successes
      → (probe_all limits peers did s ps).degraded ≡ true
  unfolding probe_all
  probe_all-few s [] d h = d
  probe_all-few s (p ∷ ps) d h =
      let (still, few) = probe-few s p d (omega arith) in
      probe_all-few (probe_stats limits peers did s p.success p.latency p.now).0 ps still
        (omega (arith, few))

  -- The end of the hold-down is no further away than the penalty of the flaps counted so far.
  abbrev pub IsDamped : PeerHealthStats → ℕ → Type 0
  IsDamped s clock = s.hold_down_until ≤ clock + penalty s.flap_penalty_count

  probe-held :
      (s : PeerHealthStats) (p : Probe) (clock until : ℕ)
      → s.degraded ≡ true
      → s.hold_down_until ≤ clock + penalty s.flap_penalty_count
      → until ≤ s.hold_down_until
      → clock ≤ p.now
      → p.now < until
      → ((probe_stats limits peers did s p.success p.latency p.now).0.degraded ≡ true)
        × IsDamped (probe_stats limits peers did s p.success p.latency p.now).0 p.now
        × (until ≤ (probe_stats limits peers did s p.success p.latency p.now).0.hold_down_until)
  unfolding probe_stats note_probe note_loss note_success damp_flaps
  probe-held s p clock until d damped h c k = ground arith

  probe_all-held :
      (s : PeerHealthStats) (ps : List Probe) (clock until : ℕ)
      → s.degraded ≡ true
      → IsDamped s clock
      → until ≤ s.hold_down_until
      → InOrder clock until ps
      → (probe_all limits peers did s ps).degraded ≡ true
  unfolding probe_all
  probe_all-held s [] clock until d damped h o = d
  probe_all-held s (p ∷ ps) clock until d damped h (c, k, o) =
      let (still, damped', held) = probe-held s p clock until d damped h c k in
      probe_all-held (probe_stats limits peers did s p.success p.latency p.now).0 ps p.now until
        still damped' held o

-- A degraded link whose hold-down ends no later than its penalty allows stays degraded through any
-- probes, answered or lost, at times in order from the clock on and before the end of the
-- hold-down.
pub hold_down-kept :
    (limits : Limits) (peers : List PeerNode) (did : String) (s : PeerHealthStats) (ps : List Probe)
    (clock : ℕ)
    → s.degraded ≡ true
    → s.hold_down_until ≤ clock + penalty s.flap_penalty_count
    → InOrder clock s.hold_down_until ps
    → (probe_all limits peers did s ps).degraded ≡ true
hold_down-kept limits peers did s ps clock d damped o =
    probe_all-held limits peers did s ps clock s.hold_down_until d damped (omega arith) o
