-- ===== src/Core/Fsm.antt =====
-- src/pkg/core/fsm.go and src/pkg/interfaces/fsm.go: the automaton of a node's life cycle. A hook
-- is a callback with effects of its own; it is recorded as a call with its arguments.
pub mod Paths
pub mod Roaming
mod Tests
use ipvn.Base.{
  Bool, true, false, ◌||◌, List, [], ◌∷◌, ◌++◌, Option, none, some, String, if◌then◌else◌, ℕ,
}

pub data NodeState : Type 0 where
  disconnected syncing validating active quarantined : NodeState

-- FSMEvent is a string type; any other text is an event that no state knows.
pub data FsmEvent : Type 0 where
  network_signal sync_completed did_verified heartbeat_lost security_threat reset : FsmEvent
  other_event : String → FsmEvent

pub data FsmError : Type 0 where
  quarantine_denied invalid_transition : FsmError

pub NodeState-discrete : Discrete NodeState
NodeState-discrete = hlevel

abbrev pub same_state : NodeState → NodeState → Bool
same_state disconnected disconnected = true
same_state syncing syncing = true
same_state validating validating = true
same_state active active = true
same_state quarantined quarantined = true
same_state s t = false

-- The matrix of isTransitionAllowed, its `switch` on the state that is left.
abbrev allowed_from : NodeState → NodeState → Bool
allowed_from disconnected to = same_state to syncing
allowed_from syncing to =
    same_state to validating || same_state to disconnected || same_state to quarantined
allowed_from validating to =
    same_state to active || same_state to disconnected || same_state to quarantined
allowed_from active to =
    same_state to syncing || same_state to disconnected || same_state to quarantined
allowed_from quarantined to = same_state to disconnected

unfoldable pub is_transition_allowed : NodeState → NodeState → Bool
is_transition_allowed from to = if same_state from to then true else allowed_from from to

-- A new state, or an error that leaves the old one.
pub data Resolved : Type 0 where
  goes : NodeState → Resolved
  fails : FsmError → Resolved

-- The `switch` of resolveNextState, behind its two tests on the event.
abbrev resolve_in : NodeState → FsmEvent → Resolved
resolve_in disconnected network_signal = goes syncing
resolve_in syncing sync_completed = goes validating
resolve_in syncing heartbeat_lost = goes disconnected
resolve_in validating did_verified = goes active
resolve_in validating heartbeat_lost = goes disconnected
resolve_in active heartbeat_lost = goes disconnected
resolve_in active network_signal = goes syncing
resolve_in quarantined e = fails quarantine_denied
resolve_in s e = fails invalid_transition

unfoldable pub resolve_next_state : NodeState → FsmEvent → Resolved
resolve_next_state current reset = goes disconnected
resolve_next_state current security_threat = goes quarantined
resolve_next_state current e = resolve_in current e

-- A call of a hook, named by its place in the order of registration.
pub record HookCall : Type 0 where
  pub hook : ℕ
  pub from_state : NodeState
  pub to_state : NodeState
  pub event : FsmEvent

pub record Fsm : Type 0 where
  pub current_state : NodeState
  pub hooks : List ℕ
  pub calls : List HookCall

unfoldable pub new_fsm : NodeState → Fsm
new_fsm initial = record { current_state = initial; hooks = []; calls = [] }

unfoldable pub can_transition_to : Fsm → NodeState → Bool
unfolding is_transition_allowed
can_transition_to m next = is_transition_allowed m.current_state next

unfoldable pub register_hook : Fsm → ℕ → Fsm
register_hook m h = record m { hooks = m.hooks ++ h ∷ [] }

-- The loop over the hooks, in the order of registration.
unfoldable pub run_hooks : NodeState → NodeState → FsmEvent → List ℕ → List HookCall
run_hooks from to e [] = []
run_hooks from to e (h ∷ hs) =
    record { hook = h; from_state = from; to_state = to; event = e } ∷ run_hooks from to e hs

abbrev apply_resolved : Fsm → FsmEvent → Resolved → Fsm × NodeState × Option FsmError
apply_resolved m e (fails err) = (m, m.current_state, some err)
apply_resolved m e (goes next) = (
  record m { current_state = next; calls = m.calls ++ run_hooks m.current_state next e m.hooks },
  next,
  none,
)

unfoldable pub trigger_event : Fsm → FsmEvent → Fsm × NodeState × Option FsmError
unfolding resolve_next_state
trigger_event m e = apply_resolved m e (resolve_next_state m.current_state e)

-- A list of events, in its order, the errors ignored.
unfoldable pub trigger_all : Fsm → List FsmEvent → Fsm
unfolding trigger_event
trigger_all m [] = m
trigger_all m (e ∷ es) = trigger_all (trigger_event m e).0 es
