-- ===== src/L2/SplitBrain/Tests.antt =====
-- A mesh of two peers that falls apart and comes together again.
use ipvn.Base.{ℕ, ◌*◌, ◌≤◌, ◌≡◌, refl, Bool, true, List, [], ◌∷◌, arith, ltb}
use ipvn.Base.Dict.{lookup, insert}
use ipvn.L2.SplitBrain.{
  Guard, recovery_window_ns, new_guard, Event, heartbeat, register, audit, handle, handle_all,
  record_heartbeat_at, register_peer, refresh, active_count, audit_liveness, is_safe_to_write,
}
use ipvn.L2.SplitBrain.Return.{quorum-recovers}
use ipvn.L2.SplitBrain.Recovery.{no_early_writes}

abbrev below_half : ℕ → ℕ → Bool
below_half active total = ltb (2 * active) total

abbrev second : ℕ
second = 1000000000

abbrev cut_off : Guard
cut_off =
    (handle_all below_half (new_guard 0 0) 0
      ((0, register "did:a") ∷ (0, register "did:b") ∷ (0, audit) ∷ [])).0

abbrev reunion : List (ℕ × Event)
reunion = (second, heartbeat "did:a" second) ∷ (0, audit) ∷ (5 * second, audit) ∷ []

no_early_writes_example : recovery_window_ns ≤ (handle_all below_half cut_off 0 reunion).1
unfolding handle_all handle new_guard record_heartbeat_at register_peer refresh active_count
    audit_liveness is_safe_to_write lookup insert
no_early_writes_example = no_early_writes below_half cut_off 0 reunion refl refl refl

-- Cut off, with both peers heard of again.
abbrev heard : Guard
heard = record_heartbeat_at (record_heartbeat_at cut_off "did:a" second) "did:b" second

quorum-recovers_example :
    is_safe_to_write (
      audit_liveness below_half
        (handle_all below_half
          (audit_liveness below_half heard (2 * second))
          (2 * second)
          ((second, heartbeat "did:a" (3 * second)) ∷ (second, audit) ∷ [])).0
        (7 * second))
    ≡ true
unfolding handle_all handle new_guard record_heartbeat_at register_peer refresh active_count
    audit_liveness lookup insert
quorum-recovers_example =
    quorum-recovers below_half heard (2 * second) (7 * second)
      ((second, heartbeat "did:a" (3 * second)) ∷ (second, audit) ∷ []) (omega arith) (refl, refl)
      (tt, ((refl, refl), tt)) (refl, refl) (omega arith)
