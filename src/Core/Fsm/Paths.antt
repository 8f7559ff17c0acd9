-- ===== src/Core/Fsm/Paths.antt =====
-- Which transitions happen, which paths they make, and what a hook sees.
use ipvn.Base.{
  ◌≡◌, ◌≢◌, ◌↔◌, ◌⊎◌, refl, ap, inl, inr, false, List, [], ◌∷◌, ◌++◌, map, none, arith, All, ℕ,
}
use ipvn.Core.Fsm.{
  NodeState, disconnected, syncing, validating, active, quarantined, FsmEvent, network_signal,
  sync_completed, did_verified, heartbeat_lost, security_threat, reset, Fsm, new_fsm,
  can_transition_to, run_hooks, trigger_event, trigger_all, resolve_next_state, Resolved, goes,
  fails,
}

-- An accepted event takes the automaton where CanTransitionTo allows, with one exception: a
-- security threat quarantines a disconnected node although the matrix forbids it.
pub trigger_event-can_transition_to :
    (m : Fsm) (e : FsmEvent)
    → (trigger_event m e).2 ≡ none
    → (can_transition_to m (trigger_event m e).0.current_state ≡ false)
      ↔ ((m.current_state ≡ disconnected) × (e ≡ security_threat))
unfolding trigger_event can_transition_to
trigger_event-can_transition_to m e h = (λ k. ground arith, λ k. ground arith)

run_hooks-map :
    (s t : NodeState) (e : FsmEvent) (hs : List ℕ)
    → run_hooks s t e hs
      ≡ map (λ h. record { hook = h; from_state = s; to_state = t; event = e }) hs
unfolding run_hooks
run_hooks-map s t e [] = refl
run_hooks-map s t e (h ∷ hs) =
    ap (λ r. record { hook = h; from_state = s; to_state = t; event = e } ∷ r)
      (run_hooks-map s t e hs)

-- An event that is refused changes nothing. An accepted one returns the new state, and calls each
-- registered hook once, in the order of registration, with the state before, the state after and
-- the event.
pub trigger_event_hooks :
    (m : Fsm) (e : FsmEvent)
    → (((trigger_event m e).2 ≢ none) × ((trigger_event m e).0 ≡ m))
      ⊎ (((trigger_event m e).2 ≡ none)
          × ((trigger_event m e).1 ≡ (trigger_event m e).0.current_state)
          × ((trigger_event m e).0.hooks ≡ m.hooks)
          × ((trigger_event m e).0.calls
              ≡ m.calls
                ++ map
                    (λ h. record {
                      hook = h;
                      from_state = m.current_state;
                      to_state = (trigger_event m e).1;
                      event = e;
                    })
                    m.hooks))
unfolding trigger_event
trigger_event_hooks m e =
    ground (arith, run_hooks-map m.current_state (trigger_event m e).1 e m.hooks)

stays_quarantined :
    (m : Fsm) (e : FsmEvent)
    → m.current_state ≡ quarantined
    → e ≢ reset
    → (trigger_event m e).0.current_state ≡ quarantined
unfolding trigger_event
stays_quarantined m e h k = ground arith

-- A quarantined node stays quarantined through any list of events without a reset.
pub trigger_all-quarantined :
    (m : Fsm) (es : List FsmEvent)
    → m.current_state ≡ quarantined
    → All (λ e. e ≢ reset) es
    → (trigger_all m es).current_state ≡ quarantined
unfolding trigger_all
trigger_all-quarantined m [] h k = h
trigger_all-quarantined m (e ∷ es) h k =
    trigger_all-quarantined (trigger_event m e).0 es (stays_quarantined m e h k.0) k.1

-- The events of the first list occur in the second, in its order.
abbrev pub Occur : List FsmEvent → List FsmEvent → Type 0
Occur [] es = Unit {0}
Occur (x ∷ xs) [] = ⊥
Occur (x ∷ xs) (e ∷ es) = ((e ≡ x) × Occur xs es) ⊎ Occur (x ∷ xs) es

-- What still has to occur before a node in a given state is active.
abbrev pub needs : NodeState → List FsmEvent
needs active = []
needs validating = did_verified ∷ []
needs syncing = sync_completed ∷ did_verified ∷ []
needs s = network_signal ∷ sync_completed ∷ did_verified ∷ []

Occur-tail : (x : FsmEvent) (xs es : List FsmEvent) → Occur (x ∷ xs) es → Occur xs es
Occur-tail x [] es o = tt
Occur-tail x (y ∷ xs) [] o = elim o [ ]
Occur-tail x (y ∷ xs) (e ∷ es) (inl o) = inr o.1
Occur-tail x (y ∷ xs) (e ∷ es) (inr o) = inr (Occur-tail x (y ∷ xs) es o)

behind_signal :
    (es : List FsmEvent)
    → Occur (network_signal ∷ sync_completed ∷ did_verified ∷ []) es
    → Occur (sync_completed ∷ did_verified ∷ []) es
behind_signal es o = Occur-tail network_signal (sync_completed ∷ did_verified ∷ []) es o

behind_sync :
    (es : List FsmEvent)
    → Occur (network_signal ∷ sync_completed ∷ did_verified ∷ []) es
    → Occur (did_verified ∷ []) es
behind_sync es o = Occur-tail sync_completed (did_verified ∷ []) es (behind_signal es o)

-- The state after an event, the old one where the event is refused.
abbrev after_event : NodeState → Resolved → NodeState
after_event s (goes t) = t
after_event s (fails err) = s

needs-step :
    (s : NodeState) (e : FsmEvent) (es : List FsmEvent)
    → Occur (needs (after_event s (resolve_next_state s e))) es
    → Occur (needs s) (e ∷ es)
unfolding resolve_next_state
needs-step active e es o = tt
needs-step disconnected network_signal es o = inl (refl, o)
needs-step syncing sync_completed es o = inl (refl, o)
needs-step syncing heartbeat_lost es o = inr (behind_signal es o)
needs-step syncing security_threat es o = inr (behind_signal es o)
needs-step syncing reset es o = inr (behind_signal es o)
needs-step validating did_verified es o = inl (refl, o)
needs-step validating heartbeat_lost es o = inr (behind_sync es o)
needs-step validating security_threat es o = inr (behind_sync es o)
needs-step validating reset es o = inr (behind_sync es o)
needs-step quarantined reset es o = inr o
needs-step s e es o = inr o

trigger_event-after :
    (m : Fsm) (e : FsmEvent)
    → (trigger_event m e).0.current_state
      ≡ after_event m.current_state (resolve_next_state m.current_state e)
unfolding trigger_event
trigger_event-after m e = ground arith

trigger_all-needs :
    (m : Fsm) (es : List FsmEvent)
    → (trigger_all m es).current_state ≡ active
    → Occur (needs m.current_state) es
unfolding trigger_all
trigger_all-needs m [] h = rw h tt
trigger_all-needs m (e ∷ es) h =
    needs-step m.current_state e es
      (rw (trigger_event-after m e) at (trigger_all-needs (trigger_event m e).0 es h))

-- Every list of events after which a node that began disconnected is active contains, in this
-- order, a network signal, a completed synchronisation and a verified DID.
pub trigger_all-active :
    (es : List FsmEvent)
    → (trigger_all (new_fsm disconnected) es).current_state ≡ active
    → Occur (network_signal ∷ sync_completed ∷ did_verified ∷ []) es
unfolding new_fsm
trigger_all-active es h = trigger_all-needs (new_fsm disconnected) es h
