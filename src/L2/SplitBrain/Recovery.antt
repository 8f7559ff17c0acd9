-- ===== src/L2/SplitBrain/Recovery.antt =====
-- Audits and writes around a partition, in src/pkg/l2/split_brain_guard.go.
use ipvn.Base.{
  ℕ, suc, ◌+◌, ◌≤◌, ◌<◌, ◌≡◌, refl, sym, ap, ◌∙◌, String, Bool, true, false, List, [], ◌∷◌, ltb,
  length, arith, Bool-cases, inl, inr,
}
use ipvn.L2.SplitBrain.{
  healthy, partitioned, recovering, PeerLiveness, Guard, recovery_window_ns, record_heartbeat_at,
  register_peer, refresh, active_count, same_partition, is_safe_to_write, get_status, Event,
  heartbeat, register, audit, audit_liveness, handle, handle_all,
}

-- The guard is not healthy, and if it recovers, it has only done so since `start`.
abbrev Unstable : ℕ → Guard → Type 0
Unstable start g =
    (same_partition g.state healthy ≡ false)
    × (same_partition g.state recovering ≡ true → start ≤ g.state_changed_at)

-- Before a recovery window has passed since `start`.
record IsWaiting (start : ℕ) (g : Guard) (now : ℕ) : Type 0 where
  window : g.recovery_window ≡ recovery_window_ns
  later : start ≤ now
  unstable : now < start + recovery_window_ns → Unstable start g

module _ (below : ℕ → ℕ → Bool) (start : ℕ) where
  audit-Unstable :
      (g : Guard) (now : ℕ)
      → g.recovery_window ≡ recovery_window_ns
      → start ≤ now
      → now < start + recovery_window_ns
      → same_partition g.state healthy ≡ false
      → (same_partition g.state recovering ≡ true → start ≤ g.state_changed_at)
      → Unstable start (audit_liveness below g now)
  unfolding audit_liveness
  audit-Unstable g now w l h u v = ground arith

  audit-IsWaiting :
      (g : Guard) (now wait : ℕ)
      → IsWaiting start g now
      → IsWaiting start (audit_liveness below g (now + wait)) (now + wait)
  unfolding audit_liveness
  audit-IsWaiting g now wait w = record {
    window = ground (arith, w.window);
    later = omega (arith, w.later);
    unstable = λ h.
        let before = w.unstable (omega arith) in
        audit-Unstable g (now + wait) w.window (omega (arith, w.later)) h before.0 before.1;
  }

  register_peer_kept :
      (g : Guard) (did : String)
      → ((register_peer g did).state ≡ g.state)
        × ((register_peer g did).state_changed_at ≡ g.state_changed_at)
        × ((register_peer g did).recovery_window ≡ g.recovery_window)
  unfolding register_peer
  register_peer_kept g did = ground arith

  handle-IsWaiting :
      (g : Guard) (now wait : ℕ) (e : Event)
      → IsWaiting start g now
      → IsWaiting start (handle below g (now + wait) e) (now + wait)
  unfolding handle record_heartbeat_at
  handle-IsWaiting g now wait (heartbeat did at) w = record {
    window = w.window;
    later = omega (arith, w.later);
    unstable = λ h. w.unstable (omega arith);
  }
  handle-IsWaiting g now wait (register did) w =
      let (same_state, same_time, same_window) = register_peer_kept g did in
      record {
        window = same_window ∙ w.window;
        later = omega (arith, w.later);
        unstable = λ h. rw (same_state, same_time) (w.unstable (omega arith));
      }
  handle-IsWaiting g now wait audit w = audit-IsWaiting g now wait w

  handle_all-IsWaiting :
      (g : Guard) (now : ℕ) (es : List (ℕ × Event))
      → IsWaiting start g now
      → IsWaiting start (handle_all below g now es).0 (handle_all below g now es).1
  unfolding handle_all
  handle_all-IsWaiting g now [] w = w
  handle_all-IsWaiting g now ((wait, e) ∷ es) w =
      handle_all-IsWaiting (handle below g (now + wait) e) (now + wait) es
        (handle-IsWaiting g now wait e w)

-- From a partitioned guard with the recovery window of the constructor, after any events: where
-- writes are safe again, at least the recovery window of five seconds has passed.
pub no_early_writes :
    (below : ℕ → ℕ → Bool) (g : Guard) (start : ℕ) (es : List (ℕ × Event))
    → g.state ≡ partitioned
    → g.recovery_window ≡ recovery_window_ns
    → is_safe_to_write (handle_all below g start es).0 ≡ true
    → start + recovery_window_ns ≤ (handle_all below g start es).1
unfolding is_safe_to_write
no_early_writes below g start es p w safe =
    let waits =
      handle_all-IsWaiting below start g start es
        (record { window = w; later = omega arith; unstable = λ h. ground arith }) in
    elim (Bool-cases (ltb (handle_all below g start es).1 (start + recovery_window_ns))) [
      | inl early ↦
          let unstable = waits.unstable (ground arith) in
          let contradiction : true ≡ false = sym safe ∙ unstable.0 in ground arith
      | inr late ↦ ground arith
    ]

refresh-active_count :
    (timeout now : ℕ) (m : List (String × PeerLiveness))
    → active_count (refresh timeout now m) ≤ length m
unfolding refresh active_count
refresh-active_count timeout now [] = omega arith
refresh-active_count timeout now ((did, p) ∷ m) = ground (arith, refresh-active_count timeout now m)

length-refresh :
    (timeout now : ℕ) (m : List (String × PeerLiveness)) → length (refresh timeout now m) ≡ length m
unfolding refresh
length-refresh timeout now [] = refl
length-refresh timeout now ((did, p) ∷ m) = ap suc (length-refresh timeout now m)

-- An audit of a guard that has peers leaves it partitioned exactly if too few of them are active
-- by the audit's own count. The count is at most the number of peers, and no peer is added or
-- dropped.
pub audit_partition :
    (below : ℕ → ℕ → Bool) (g : Guard) (now : ℕ)
    → 0 < length g.peers
    → (same_partition (audit_liveness below g now).state partitioned
        ≡ below (get_status (audit_liveness below g now)).1 (length g.peers))
      × ((get_status (audit_liveness below g now)).1 ≤ length g.peers)
      × (length (audit_liveness below g now).peers ≡ length g.peers)
unfolding audit_liveness get_status
audit_partition below g now some_peers =
    let count = refresh-active_count g.heartbeat_timeout now g.peers in
    let kept = length-refresh g.heartbeat_timeout now g.peers in ground arith
