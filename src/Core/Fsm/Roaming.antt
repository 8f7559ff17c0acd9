-- ===== src/Core/Fsm/Roaming.antt =====
-- The two events that the topology station of src/pkg/core/pipeline_stages.go triggers for an
-- accepted roaming update, and where they take the automaton.
use ipvn.Base.{◌≡◌, arith}
use ipvn.Core.Fsm.{
  NodeState, disconnected, syncing, validating, active, quarantined, network_signal, did_verified,
  Fsm, trigger_event,
}

-- The state in which a roaming update leaves each state.
abbrev pub after_roaming : NodeState → NodeState
after_roaming disconnected = syncing
after_roaming syncing = syncing
after_roaming validating = active
after_roaming active = syncing
after_roaming quarantined = quarantined

-- `fsm.TriggerEvent(EventNetworkSignal, …)`, then `fsm.TriggerEvent(EventDIDVerified, …)`.
unfoldable pub roaming_events : Fsm → Fsm
unfolding trigger_event
roaming_events m = (trigger_event (trigger_event m network_signal).0 did_verified).0

-- A roaming update takes a validating node to active, a disconnected and an active one to syncing,
-- and leaves a syncing and a quarantined one where they are.
pub roaming_events_state :
    (m : Fsm) → (roaming_events m).current_state ≡ after_roaming m.current_state
unfolding roaming_events
roaming_events_state m = ground arith
