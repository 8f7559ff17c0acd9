-- ===== src/L2/SplitBrain/Return.antt =====
-- The way of src/pkg/l2/split_brain_guard.go back to writing, once a quorum holds.
use ipvn.Base.{
  ℕ, ◌+◌, ◌≤◌, ◌≡◌, refl, ◌∙◌, String, Bool, true, false, List, [], ◌∷◌, ◌==◌, length, arith,
}
use ipvn.L2.SplitBrain.{
  partitioned, recovering, Guard, Event, heartbeat, register, audit, handle, handle_all,
  audit_liveness, is_safe_to_write, refresh, active_count, record_heartbeat_at, register_peer,
  same_partition,
}

module _ (below : ℕ → ℕ → Bool) where
  -- An audit finds a peer and a quorum.
  abbrev pub HasQuorum : Guard → ℕ → Type 0
  HasQuorum g now =
      ((length g.peers == 0) ≡ false)
      × (below (active_count (refresh g.heartbeat_timeout now g.peers)) (length g.peers) ≡ false)

  abbrev pub StepHasQuorum : Guard → ℕ → Event → Type 0
  StepHasQuorum g now audit = HasQuorum g now
  StepHasQuorum g now (heartbeat did at) = Unit
  StepHasQuorum g now (register did) = Unit

  -- Every audit on the way finds a quorum.
  abbrev pub KeepsQuorum : Guard → ℕ → List (ℕ × Event) → Type 0
  KeepsQuorum g now [] = Unit
  KeepsQuorum g now ((wait, e) ∷ events) =
      StepHasQuorum g (now + wait) e
      × KeepsQuorum (handle below g (now + wait) e) (now + wait) events

-- Not partitioned; and if it recovers, then since a time that the deadline allows for.
record IsOnTheWay (window deadline : ℕ) (g : Guard) : Type 0 where
  same_window : g.recovery_window ≡ window
  steady : same_partition g.state partitioned ≡ false
  due : same_partition g.state recovering ≡ true → g.state_changed_at + window ≤ deadline

module _ (below : ℕ → ℕ → Bool) (window deadline : ℕ) where
  audit_window :
      (g : Guard) (now : ℕ) → (audit_liveness below g now).recovery_window ≡ g.recovery_window
  unfolding audit_liveness
  audit_window g now = ground arith

  quorum-IsOnTheWay :
      (g : Guard) (now : ℕ)
      → g.recovery_window ≡ window
      → HasQuorum below g now
      → g.state_changed_at ≤ now
      → now + window ≤ deadline
      → IsOnTheWay window deadline (audit_liveness below g now)
  unfolding audit_liveness
  quorum-IsOnTheWay g now w (some_peer, quorum) past room = record {
    same_window = audit_window g now ∙ w;
    steady = ground arith;
    due = λ h. ground arith;
  }

  audit-IsOnTheWay :
      (g : Guard) (now : ℕ)
      → HasQuorum below g now
      → IsOnTheWay window deadline g
      → IsOnTheWay window deadline (audit_liveness below g now)
  unfolding audit_liveness
  audit-IsOnTheWay g now (some_peer, quorum) way =
      let steady' = way.steady in
      let due' = way.due in
      record {
        same_window = audit_window g now ∙ way.same_window;
        steady = ground arith;
        due = λ h. ground arith;
      }

  register_peer_kept :
      (g : Guard) (did : String)
      → ((register_peer g did).state ≡ g.state)
        × ((register_peer g did).state_changed_at ≡ g.state_changed_at)
        × ((register_peer g did).recovery_window ≡ g.recovery_window)
  unfolding register_peer
  register_peer_kept g did = ground arith

  handle-IsOnTheWay :
      (g : Guard) (now : ℕ) (e : Event)
      → StepHasQuorum below g now e
      → IsOnTheWay window deadline g
      → IsOnTheWay window deadline (handle below g now e)
  unfolding handle record_heartbeat_at
  handle-IsOnTheWay g now (heartbeat did at) q way = record {
    same_window = way.same_window;
    steady = way.steady;
    due = way.due;
  }
  handle-IsOnTheWay g now (register did) q way =
      let (same_state, same_time, same_window) = register_peer_kept g did in
      record {
        same_window = same_window ∙ way.same_window;
        steady = rw same_state way.steady;
        due = rw (same_state, same_time) way.due;
      }
  handle-IsOnTheWay g now audit q way = audit-IsOnTheWay g now q way

  handle_all-IsOnTheWay :
      (g : Guard) (now : ℕ) (events : List (ℕ × Event))
      → KeepsQuorum below g now events
      → IsOnTheWay window deadline g
      → IsOnTheWay window deadline (handle_all below g now events).0
  unfolding handle_all
  handle_all-IsOnTheWay g now [] q way = way
  handle_all-IsOnTheWay g now ((wait, e) ∷ events) (here, rest) way =
      handle_all-IsOnTheWay (handle below g (now + wait) e) (now + wait) events rest
        (handle-IsOnTheWay g (now + wait) e here way)

  audit-arrives :
      (g : Guard) (now : ℕ)
      → HasQuorum below g now
      → deadline ≤ now
      → IsOnTheWay window deadline g
      → is_safe_to_write (audit_liveness below g now) ≡ true
  unfolding audit_liveness is_safe_to_write
  audit-arrives g now (some_peer, quorum) late way =
      let steady' = way.steady in
      let due' = way.due in let window' = way.same_window in ground arith

-- Whatever state a guard is in: after an audit that finds a quorum, any heartbeats, registrations and
-- further audits that all find a quorum, and one more such audit when the recovery window has passed
-- since the first, writing is safe again. The guard's last change of state does not lie ahead of
-- the first audit.
pub quorum-recovers :
    (below : ℕ → ℕ → Bool) (g : Guard) (now later : ℕ) (events : List (ℕ × Event))
    → g.state_changed_at ≤ now
    → HasQuorum below g now
    → KeepsQuorum below (audit_liveness below g now) now events
    → HasQuorum below (handle_all below (audit_liveness below g now) now events).0 later
    → now + g.recovery_window ≤ later
    → is_safe_to_write
        (audit_liveness below (handle_all below (audit_liveness below g now) now events).0 later)
      ≡ true
quorum-recovers below g now later events past first keeps last room =
    let w = g.recovery_window in
    audit-arrives below w (now + w) (handle_all below (audit_liveness below g now) now events).0
      later last room
      (handle_all-IsOnTheWay below w (now + w) (audit_liveness below g now) now events keeps
        (quorum-IsOnTheWay below w (now + w) g now refl first past (omega arith)))
