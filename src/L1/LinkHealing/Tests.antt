-- ===== src/L1/LinkHealing/Tests.antt =====
-- A link that fails, is held down, and the peers around it.
use ipvn.Base.{ℕ, ◌*◌, ◌≡◌, refl, true, false, List, [], ◌∷◌, arith}
use ipvn.L1.LinkHealing.{
  Limits, PeerHealthStats, PeerNode, Probe, new_stats, note_loss, note_probe, damp_flaps,
  select_from, select_alternative_peer, probe_stats, probe_all, second,
}
use ipvn.L1.LinkHealing.Hysteresis.{hold_down-kept}

abbrev limits : Limits
limits = record { max_consecutive_losses = 3; degraded_latency = 500000; recovery_successes = 2 }

abbrev peers : List PeerNode
peers =
    record { did = "did:a"; health_state = 0; latency = 10 }
    ∷ record { did = "did:b"; health_state = 0; latency = 3000 }
    ∷ record { did = "did:c"; health_state = 0; latency = 0 }
    ∷ record { did = "did:d"; health_state = 2; latency = 1 }
    ∷ []

abbrev lost : ℕ → Probe
lost now = record { success = false; latency = 0; now = now }

abbrev answered : ℕ → Probe
answered now = record { success = true; latency = 1000; now = now }

-- Two failovers within ten seconds: the hold-down begins.
abbrev flapping : PeerHealthStats
flapping =
    probe_all limits peers "did:a" (new_stats second)
      (lost second ∷ lost (2 * second) ∷ lost (3 * second) ∷ lost (4 * second) ∷ [])

flapping_state : (flapping.degraded ≡ true) × (flapping.hold_down_until ≡ 6 * second)
unfolding probe_all probe_stats note_probe note_loss damp_flaps select_alternative_peer select_from
flapping_state = (refl, refl)

hold_down-kept_example :
    (probe_all limits peers "did:a" flapping
      (answered (4 * second) ∷ answered (5 * second) ∷ answered (5 * second) ∷ [])).degraded
    ≡ true
unfolding probe_all probe_stats note_probe note_loss damp_flaps select_alternative_peer select_from
hold_down-kept_example =
    hold_down-kept limits peers "did:a" flapping
      (answered (4 * second) ∷ answered (5 * second) ∷ answered (5 * second) ∷ []) (4 * second) refl
      (omega arith)
      (omega arith, omega arith, (omega arith, omega arith, (omega arith, omega arith, tt)))
