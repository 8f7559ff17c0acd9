-- ===== src/L1/SessionReplay/Budget.antt =====
-- The trackers of the sessions and the share of memory that the arbiter has for replay.
use ipvn.Base.{
  ℕ, ◌+◌, ◌*◌, ◌^◌, ◌≤◌, ◌<◌, ◌≡◌, refl, String, true, false, ◌||◌, List, [], ◌∷◌, Option, none,
  some, arith, length, Bool-cases, inl, inr,
}
use ipvn.Base.Dict.{lookup, length-insert_new, length-insert_old}
use ipvn.L1.Memory.{Arbiter, replay, reserve}
use ipvn.L1.Memory.Balance.{IsBalanced, reserve-IsBalanced}
use ipvn.L1.SessionReplay.{
  SessionReplayTracker, SessionFilter, new_session_filter, Packet, to_seconds, is_out_of_time,
  is_cross_session, note_latest, reserve_session, open_session, follow_session, in_session, key_of,
  accept, accept_all,
}
use ipvn.L1.SessionReplay.Sessions.{follow_session-parts, open_granted, open_refused, opened}
use ipvn.L1.SessionReplay.Guarantees.{known, counted, accept_dropped, accept_judged}

-- The replay class of an arbiter is charged 256 bytes for each of n trackers.
abbrev pub Charged : ℕ → ℕ → Option Arbiter → Type 0
Charged limit n none = ⊥
Charged limit n (some a) =
    IsBalanced a × (a.replay_quota.limit_bytes ≡ limit) × (a.replay_quota.allocated ≡ 256 * n)

reserved :
    (limit n : ℕ) (a : Arbiter)
    → limit + 256 < 2 ^ 64
    → Charged limit n (some a)
    → ((reserve a replay 256).1 ≡ true → Charged limit (n + 1) (some (reserve a replay 256).0))
      × ((reserve a replay 256).1 ≡ false → Charged limit n (some (reserve a replay 256).0))
unfolding reserve
reserved limit n a fits (v, l, e) = (
  λ g. (reserve-IsBalanced a replay 256 (omega arith) v, ground arith, ground arith),
  λ g. (reserve-IsBalanced a replay 256 (omega arith) v, ground arith, ground arith),
)

reserve_session-Charged :
    (limit n : ℕ) (o : Option Arbiter)
    → limit + 256 < 2 ^ 64
    → Charged limit n o
    → ((reserve_session o).1 ≡ true → Charged limit (n + 1) (reserve_session o).0)
      × ((reserve_session o).1 ≡ false → Charged limit n (reserve_session o).0)
unfolding reserve_session
reserve_session-Charged limit n none fits h = elim h [ ]
reserve_session-Charged limit n (some a) fits h = reserved limit n a fits h

module _ (limit : ℕ) (fits : limit + 256 < 2 ^ 64) where
  abbrev InBudget : SessionFilter → Type 0
  InBudget f = Charged limit (length f.sessions) f.arbiter

  open_arbiter :
      (f : SessionFilter) (key : String) (p : Packet)
      → (open_session f key p).0.arbiter ≡ (reserve_session f.arbiter).0
  unfolding open_session note_latest
  open_arbiter f key p = ground arith

  follow_arbiter :
      (f : SessionFilter) (key : String) (p : Packet) (t : SessionReplayTracker)
      → (follow_session f key p t).0.arbiter ≡ f.arbiter
  unfolding follow_session note_latest
  follow_arbiter f key p t = refl

  in_session-InBudget :
      (f : SessionFilter) (key : String) (p : Packet) (o : Option SessionReplayTracker)
      → lookup key f.sessions ≡ o
      → InBudget f
      → InBudget (in_session f key p o).0
  in_session-InBudget f key p none e h = elim (Bool-cases (reserve_session f.arbiter).1) [
    | inl granted ↦
        rw
          (
            (open_granted f key p granted).0,
            open_arbiter f key p,
            length-insert_new key (opened p) f.sessions e,
          )
          ((reserve_session-Charged limit (length f.sessions) f.arbiter fits h).0 granted)
    | inr refused ↦
        rw ((open_refused f key p refused).0, open_arbiter f key p)
          ((reserve_session-Charged limit (length f.sessions) f.arbiter fits h).1 refused)
  ]
  in_session-InBudget f key p (some t) e h =
      rw
        (
          (follow_session-parts f key p t).0,
          follow_arbiter f key p t,
          length-insert_old key _ t f.sessions e,
        )
        h

  module _ (session_key : String → ℕ → String) where
    accept-InBudget :
        (f : SessionFilter) (p : Packet) → InBudget f → InBudget (accept session_key f p).0
    accept-InBudget f p h =
        elim (Bool-cases (is_out_of_time p.now (to_seconds p.ts) || is_cross_session f p)) [
          | inl bad ↦
              rw ((accept_dropped session_key f p bad).0, (accept_dropped session_key f p bad).2) h
          | inr good ↦ rw (accept_judged session_key f p good) (
              in_session-InBudget (counted session_key f p) (key_of session_key p) p
                (known session_key f p) refl h)
        ]

    accept_all-InBudget :
        (f : SessionFilter) (ps : List Packet)
        → InBudget f
        → InBudget (accept_all session_key f ps).0
    unfolding accept_all
    accept_all-InBudget f [] h = h
    accept_all-InBudget f (p ∷ ps) h =
        accept_all-InBudget (accept session_key f p).0 ps (accept-InBudget f p h)

    within_limit : (f : SessionFilter) → InBudget f → 256 * length f.sessions ≤ limit
    within_limit f h = within (length f.sessions) f.arbiter h
      where
        within : (n : ℕ) (o : Option Arbiter) → Charged limit n o → 256 * n ≤ limit
        within n none h = elim h [ ]
        within n (some a) (v, l, e) = omega (arith, v.replay_within)

new_session_filter-Charged :
    (a : Arbiter)
    → IsBalanced a
    → a.replay_quota.allocated ≡ 0
    → Charged a.replay_quota.limit_bytes
        (length (new_session_filter (some a)).sessions)
        (new_session_filter (some a)).arbiter
unfolding new_session_filter
new_session_filter-Charged a v e = (v, refl, e)

-- From a new filter over a balanced arbiter with nothing charged to replay, and whose replay limit
-- stays 256 below 2 ^ 64: after any packets, 256 bytes for each session are within that limit.
pub sessions_within_budget :
    (session_key : String → ℕ → String) (a : Arbiter) (ps : List Packet)
    → IsBalanced a
    → a.replay_quota.allocated ≡ 0
    → a.replay_quota.limit_bytes + 256 < 2 ^ 64
    → 256 * length (accept_all session_key (new_session_filter (some a)) ps).0.sessions
      ≤ a.replay_quota.limit_bytes
sessions_within_budget session_key a ps v e fits =
    within_limit a.replay_quota.limit_bytes fits session_key
      (accept_all session_key (new_session_filter (some a)) ps).0
      (accept_all-InBudget a.replay_quota.limit_bytes fits session_key (new_session_filter (some a))
        ps (new_session_filter-Charged a v e))
