-- ===== src/L1/SessionReplay/Guarantees.antt =====
-- Accept of src/pkg/l1/anti_replay_session.go over any packets, seen from each session.
use ipvn.Base.{
  ℕ, ◌^◌, ◌<◌, ◌≡◌, refl, sym, ap, subst, ◌∙◌, String, Bool, true, false, ◌&&◌, ◌||◌, List, [], ◌∷◌,
  Option, none, some, arith, if◌then◌else◌, Bool-cases, inl, inr, str_eq, str_eq_iff,
}
use ipvn.Base.Dict.{lookup}
use ipvn.Base.Int.{ℤ, pos, negsuc, ◌+ℤ◌, ◌-ℤ◌, ◌≤ℤ◌, IsS64}
use ipvn.Window.{member, admits, record_if, IsDistinct, admits-not_member}
use ipvn.L1.Memory.{Arbiter}
use ipvn.L1.SessionReplay.{
  SessionReplayTracker, SessionFilter, new_session_filter, Packet, to_seconds, is_out_of_time,
  is_cross_session, count_evaluated, reserve_session, in_session, key_of, accept, accept_all,
}
use ipvn.L1.SessionReplay.Steps.{slide-admits}
use ipvn.L1.SessionReplay.Sessions.{
  Follows, open_session-Follows, follow_session-Follows, follow_session-parts, open_granted,
  open_refused,
}

-- The decision on a packet that is in time and not of an older session.
abbrev pub admits_in : Option SessionReplayTracker → Bool → List ℕ → ℕ → Bool
admits_in none room past seq = room
admits_in (some t) room past seq = admits past seq

-- The numbers accepted in session `key`, newest first.
abbrev pub accepted_in : (String → ℕ → String) → String → List ℕ → List Packet → List Bool → List ℕ
accepted_in session_key key past [] vs = past
accepted_in session_key key past (p ∷ ps) [] = past
accepted_in session_key key past (p ∷ ps) (v ∷ vs) =
    accepted_in session_key key (record_if (v && str_eq (key_of session_key p) key) p.seq past) ps
      vs

in_session-Follows :
    (f : SessionFilter) (key j : String) (p : Packet) (past : List ℕ)
    (o : Option SessionReplayTracker)
    → Follows (lookup j f.sessions) past
    → lookup key f.sessions ≡ o
    → Follows
        (lookup j (in_session f key p o).0.sessions)
        (record_if ((in_session f key p o).1 && str_eq key j) p.seq past)
in_session-Follows f key j p past none h e = open_session-Follows f key j p past h e
in_session-Follows f key j p past (some t) h e = follow_session-Follows f key j p past h t e

in_session-admits :
    (f : SessionFilter) (key : String) (p : Packet) (past : List ℕ)
    (o : Option SessionReplayTracker)
    → Follows o past
    → (in_session f key p o).1 ≡ admits_in o (reserve_session f.arbiter).1 past p.seq
in_session-admits f key p past none h = elim (Bool-cases (reserve_session f.arbiter).1) [
  | inl granted ↦ ground (arith, open_granted f key p granted)
  | inr refused ↦ ground (arith, open_refused f key p refused)
]
in_session-admits f key p past (some t) h =
    (follow_session-parts f key p t).1
    ∙ slide-admits (record t { last_seen = p.now }) p.seq past
        (record { whole = h.whole; topmost = h.topmost; positions = h.positions })

-- The three ways through Accept.
module _ (session_key : String → ℕ → String) (f : SessionFilter) (p : Packet) where
  abbrev pub known : Option SessionReplayTracker
  known = lookup (key_of session_key p) f.sessions

  abbrev pub counted : SessionFilter
  counted = count_evaluated f

  pub accept_dropped :
      (is_out_of_time p.now (to_seconds p.ts) || is_cross_session f p) ≡ true
      → ((accept session_key f p).0.sessions ≡ f.sessions)
        × ((accept session_key f p).1 ≡ false)
        × ((accept session_key f p).0.arbiter ≡ f.arbiter)
  unfolding accept is_cross_session
  accept_dropped h = ground arith

  pub accept_judged :
      (is_out_of_time p.now (to_seconds p.ts) || is_cross_session f p) ≡ false
      → accept session_key f p ≡ in_session counted (key_of session_key p) p known
  unfolding accept is_cross_session
  accept_judged h = ground arith

-- A packet is accepted exactly if it is in time, not of an older session with an older time, and:
-- in a session that has a tracker which has seen exactly the numbers `past`, the replay window
-- over `past` admits its number; in a session without one, the arbiter has room for a tracker.
pub accept-admits :
    (session_key : String → ℕ → String) (f : SessionFilter) (p : Packet) (past : List ℕ)
    → Follows (known session_key f p) past
    → (accept session_key f p).1 ≡ (
        if is_out_of_time p.now (to_seconds p.ts) || is_cross_session f p
        then false
        else admits_in (known session_key f p) (reserve_session f.arbiter).1 past p.seq)
accept-admits session_key f p past h =
    elim (Bool-cases (is_out_of_time p.now (to_seconds p.ts) || is_cross_session f p)) [
      | inl bad ↦ rw bad (accept_dropped session_key f p bad).1
      | inr good ↦
          let judged = ap (λ r. r.1) (accept_judged session_key f p good) in
          rw good (
            judged
            ∙ in_session-admits (counted session_key f p) (key_of session_key p) p past
                (known session_key f p) h)
    ]

accept-Follows :
    (session_key : String → ℕ → String) (f : SessionFilter) (p : Packet) (j : String)
    (past : List ℕ)
    → Follows (lookup j f.sessions) past
    → Follows
        (lookup j (accept session_key f p).0.sessions)
        (record_if ((accept session_key f p).1 && str_eq (key_of session_key p) j) p.seq past)
accept-Follows session_key f p j past h =
    elim (Bool-cases (is_out_of_time p.now (to_seconds p.ts) || is_cross_session f p)) [
      | inl bad ↦
          rw ((accept_dropped session_key f p bad).0, (accept_dropped session_key f p bad).1) h
      | inr good ↦ rw (accept_judged session_key f p good) (
          in_session-Follows (counted session_key f p) (key_of session_key p) j p past
            (known session_key f p) h refl)
    ]

admits_in-not_member :
    (o : Option SessionReplayTracker) (room : Bool) (past : List ℕ) (seq : ℕ)
    → Follows o past
    → admits_in o room past seq ≡ true
    → member seq past ≡ false
admits_in-not_member none room past seq h e = rw h
admits_in-not_member (some t) room past seq h e = admits-not_member past seq e

accept-not_member :
    (session_key : String → ℕ → String) (f : SessionFilter) (p : Packet) (past : List ℕ)
    → Follows (known session_key f p) past
    → (accept session_key f p).1 ≡ true
    → member p.seq past ≡ false
accept-not_member session_key f p past h e =
    admits_in-not_member (known session_key f p) (reserve_session f.arbiter).1 past p.seq h
      (ground (arith, accept-admits session_key f p past h))

accept-IsDistinct :
    (session_key : String → ℕ → String) (f : SessionFilter) (p : Packet) (j : String)
    (past : List ℕ)
    → Follows (lookup j f.sessions) past
    → IsDistinct past
    → IsDistinct
        (record_if ((accept session_key f p).1 && str_eq (key_of session_key p) j) p.seq past)
accept-IsDistinct session_key f p j past h d =
    elim (Bool-cases ((accept session_key f p).1 && str_eq (key_of session_key p) j)) [
      | inr other ↦ rw other d
      | inl same ↦
          let key : key_of session_key p ≡ j =
            ground (arith, str_eq_iff (key_of session_key p) j) in
          let accepted : (accept session_key f p).1 ≡ true = ground arith in
          rw same (
            accept-not_member session_key f p past
                (subst (λ k. Follows (lookup k f.sessions) past) (sym key) h) accepted,
            d,
          )
    ]

accept_all-IsDistinct :
    (session_key : String → ℕ → String) (f : SessionFilter) (j : String) (past : List ℕ)
    (ps : List Packet)
    → Follows (lookup j f.sessions) past
    → IsDistinct past
    → IsDistinct (accepted_in session_key j past ps (accept_all session_key f ps).1)
unfolding accept_all
accept_all-IsDistinct session_key f j past [] h d = d
accept_all-IsDistinct session_key f j past (p ∷ ps) h d =
    accept_all-IsDistinct session_key (accept session_key f p).0 j _ ps
      (accept-Follows session_key f p j past h) (accept-IsDistinct session_key f p j past h d)

new_session_filter-Follows :
    (arbiter : Option Arbiter) (j : String)
    → Follows (lookup j (new_session_filter arbiter).sessions) []
unfolding new_session_filter lookup
new_session_filter-Follows arbiter j = refl

-- From a new filter, with or without an arbiter, no sequence number is accepted twice in any
-- session, whatever packets arrive in whatever order and at whatever times.
pub session_accepted_once :
    (session_key : String → ℕ → String) (arbiter : Option Arbiter) (key : String) (ps : List Packet)
    → IsDistinct (
        accepted_in session_key key [] ps
          (accept_all session_key (new_session_filter arbiter) ps).1)
session_accepted_once session_key arbiter key ps =
    accept_all-IsDistinct session_key (new_session_filter arbiter) key [] ps
      (new_session_filter-Follows arbiter key) tt

in_time :
    (n : ℕ) (s : ℤ)
    → n < 2 ^ 62
    → IsS64 s
    → is_out_of_time (pos n) s ≡ false
    → (pos n -ℤ pos 60 ≤ℤ s) × (s ≤ℤ pos n +ℤ pos 10)
unfolding is_out_of_time ◌-ℤ◌ ◌+ℤ◌
in_time n (pos m) h k e = ground arith
in_time n (negsuc m) h k e = ground arith

to_seconds-IsS64 : (ts : ℤ) → IsS64 ts → IsS64 (to_seconds ts)
unfolding to_seconds
to_seconds-IsS64 (pos n) h = ground arith
to_seconds-IsS64 (negsuc n) h = h

-- An accepted packet with an int64 timestamp was stamped, in seconds, at most a minute before and
-- ten seconds after the clock, for a clock from 0 up to 2 ^ 62.
pub accept_in_time :
    (session_key : String → ℕ → String) (f : SessionFilter) (p : Packet) (now : ℕ)
    → p.now ≡ pos now
    → now < 2 ^ 62
    → IsS64 p.ts
    → (accept session_key f p).1 ≡ true
    → (pos now -ℤ pos 60 ≤ℤ to_seconds p.ts) × (to_seconds p.ts ≤ℤ pos now +ℤ pos 10)
accept_in_time session_key f p now clock h k e =
    in_time now (to_seconds p.ts) h (to_seconds-IsS64 p.ts k)
      (elim (Bool-cases (is_out_of_time (pos now) (to_seconds p.ts))) [
        | inr inside ↦ inside
        | inl outside ↦ ground (
          arith,
          accept_dropped session_key f p (
              let out : is_out_of_time p.now (to_seconds p.ts) ≡ true = rw clock outside in
              ground arith),
        )
      ])
