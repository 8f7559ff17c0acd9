-- ===== src/L1/SessionReplay/Sessions.antt =====
-- The tracker of each session keeps in step with the numbers accepted in the session, through the
-- two branches of Accept for a new and a known session.
use ipvn.Base.{
  ℕ, ◌≡◌, refl, String, Bool, true, false, ◌&&◌, List, [], Option, none, some, arith, Bool-cases,
  inl, inr, str_eq, str_eq_iff,
}
use ipvn.Base.Dict.{lookup, insert, lookup-insert}
use ipvn.Window.{record_if}
use ipvn.L1.SessionReplay.{
  SessionReplayTracker, SessionFilter, Packet, note_latest, reserve_session, open_session, slide,
  is_fresh, follow_session, fresh_bits, mark_bit,
}
use ipvn.L1.SessionReplay.Steps.{Saw, slide-Saw, opened-Saw}

-- The tracker of a session, if it has one, has seen the numbers accepted in it.
abbrev pub Follows : Option SessionReplayTracker → List ℕ → Type 0
Follows none past = past ≡ []
Follows (some t) past = Saw t past

Follows-insert :
    (key j : String) (t : SessionReplayTracker) (m : List (String × SessionReplayTracker))
    (past : List ℕ) (verdict : Bool) (seq : ℕ)
    → Follows (lookup j m) past
    → (key ≡ j → Saw t (record_if verdict seq past))
    → Follows (lookup j (insert key t m)) (record_if (verdict && str_eq key j) seq past)
Follows-insert key j t m past verdict seq h saw =
    rw (lookup-insert key j t m) (elim (Bool-cases (str_eq key j)) [
      | inl same ↦
          let both : (verdict && true) ≡ verdict = ground arith in
          rw (same, both) (saw (ground (arith, str_eq_iff key j)))
      | inr other ↦ let neither : (verdict && false) ≡ false = ground arith in rw (other, neither) h
    ])

Follows-none :
    (j : String) (m : List (String × SessionReplayTracker)) (past : List ℕ)
    → lookup j m ≡ none
    → Follows (lookup j m) past
    → past ≡ []
Follows-none j m past e h = rw e at h

pub Follows-some :
    (j : String) (m : List (String × SessionReplayTracker)) (past : List ℕ)
    (t : SessionReplayTracker)
    → lookup j m ≡ some t
    → Follows (lookup j m) past
    → Saw t past
Follows-some j m past t e h = rw e at h

abbrev pub opened : Packet → SessionReplayTracker
opened p = record {
  session_id = p.session_id;
  max_seq = p.seq;
  seen_bits = mark_bit fresh_bits 0;
  last_seen = p.now;
}

module _ (f : SessionFilter) (key : String) (p : Packet) where
  pub open_granted :
      (reserve_session f.arbiter).1 ≡ true
      → ((open_session f key p).0.sessions ≡ insert key (opened p) f.sessions)
        × ((open_session f key p).1 ≡ true)
  unfolding open_session note_latest
  open_granted g = ground arith

  pub open_refused :
      (reserve_session f.arbiter).1 ≡ false
      → ((open_session f key p).0.sessions ≡ f.sessions) × ((open_session f key p).1 ≡ false)
  unfolding open_session note_latest
  open_refused g = ground arith

  pub follow_session-parts :
      (t : SessionReplayTracker)
      → ((follow_session f key p t).0.sessions
          ≡ insert key (slide (record t { last_seen = p.now }) p.seq).0 f.sessions)
        × ((follow_session f key p t).1 ≡ is_fresh (slide (record t { last_seen = p.now }) p.seq).1)
  unfolding follow_session note_latest
  follow_session-parts t = (refl, refl)

module _ (f : SessionFilter) (key j : String) (p : Packet) (past : List ℕ)
    (h : Follows (lookup j f.sessions) past) where
  pub open_session-Follows :
      lookup key f.sessions ≡ none
      → Follows
          (lookup j (open_session f key p).0.sessions)
          (record_if ((open_session f key p).1 && str_eq key j) p.seq past)
  open_session-Follows new = elim (Bool-cases (reserve_session f.arbiter).1) [
    | inl granted ↦
        rw ((open_granted f key p granted).0, (open_granted f key p granted).1)
          (Follows-insert key j (opened p) f.sessions past true p.seq h (λ same.
            let first : past ≡ [] = Follows-none j f.sessions past (rw same at new) h in
            rw first (opened-Saw p.session_id p.seq p.now)))
    | inr refused ↦ rw ((open_refused f key p refused).0, (open_refused f key p refused).1) h
  ]

  module _ (t : SessionReplayTracker) where
    pub follow_session-Follows :
        lookup key f.sessions ≡ some t
        → Follows
            (lookup j (follow_session f key p t).0.sessions)
            (record_if ((follow_session f key p t).1 && str_eq key j) p.seq past)
    follow_session-Follows old =
        rw ((follow_session-parts f key p t).0, (follow_session-parts f key p t).1)
          (Follows-insert key j _ f.sessions past _ p.seq h (λ same.
            slide-Saw (record t { last_seen = p.now }) p.seq past
              (let saw : Saw t past = Follows-some j f.sessions past t (rw same at old) h in
                record { whole = saw.whole; topmost = saw.topmost; positions = saw.positions })))
