-- ===== src/Core/Fsm/Tests.antt =====
-- Lives of a node.
use ipvn.Base.{◌≡◌, ◌↔◌, refl, List, [], ◌∷◌, false}
use ipvn.Core.Fsm.{
  disconnected, active, FsmEvent, network_signal, sync_completed, did_verified, heartbeat_lost,
  security_threat, Fsm, new_fsm, register_hook, can_transition_to, trigger_event, trigger_all,
}
use ipvn.Core.Fsm.Paths.{trigger_event-can_transition_to}
use ipvn.Core.Fsm.Roaming.{roaming_events, after_roaming, roaming_events_state}

abbrev life : List FsmEvent
life = network_signal ∷ heartbeat_lost ∷ network_signal ∷ sync_completed ∷ did_verified ∷ []

life_ends_active : (trigger_all (new_fsm disconnected) life).current_state ≡ active
unfolding trigger_all new_fsm
life_ends_active = refl

trigger_event-can_transition_to_example :
    (can_transition_to
        (new_fsm disconnected)
        (trigger_event (new_fsm disconnected) security_threat).0.current_state
      ≡ false)
    ↔ (((new_fsm disconnected).current_state ≡ disconnected) × (security_threat ≡ security_threat))
unfolding trigger_event new_fsm
trigger_event-can_transition_to_example =
    trigger_event-can_transition_to (new_fsm disconnected) security_threat refl

abbrev hooked : Fsm
hooked = register_hook (register_hook (new_fsm disconnected) 1) 2

roaming_events_state_example :
    (roaming_events (new_fsm active)).current_state ≡ after_roaming (new_fsm active).current_state
roaming_events_state_example = roaming_events_state (new_fsm active)
