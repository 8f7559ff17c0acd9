-- ===== src/L1/SessionReplay/Steps.antt =====
-- One call of Accept, seen from the history of one session: the tracker of the session has seen
-- exactly the accepted numbers.
use ipvn.Base.{
  ℕ, ◌-◌, ◌≤◌, ◌<◌, ◌≡◌, ap, ◌∙◌, Bool, true, false, ◌||◌, List, [], ◌∷◌, arith, leb, ltb,
  Bool-cases, inl, inr,
}
use ipvn.Base.Int.{ℤ}
use ipvn.Window.{
  Tracks, Tracks-shift, Tracks-cleared, Tracks-mark, Tracks-first, test-late, admits, record_if,
}
use ipvn.L0.Replay.{no_words, mark}
use ipvn.L0.Replay.Marks.{no_words-IsWhole}
use ipvn.L1.SessionReplay.{
  SessionReplayTracker, fresh, is_fresh, slide, mark_bit, is_bit_set, shift_window, fresh_bits,
}
use ipvn.L1.SessionReplay.Words.{
  tracker_bitmap, mark_bit-mark, is_bit_set-position, shift_window-IsWhole,
}

-- The tracker has seen exactly the numbers of a history.
abbrev pub Saw : SessionReplayTracker → List ℕ → Type 0
Saw t past = Tracks tracker_bitmap t.max_seq t.seen_bits past

module _ (t : SessionReplayTracker) (s : ℕ) where
  after_far :
      t.max_seq < s
      → 1024 ≤ s - t.max_seq
      → ((slide t s).0.max_seq ≡ s)
        × ((slide t s).0.seen_bits ≡ mark_bit fresh_bits 0)
        × ((slide t s).1 ≡ fresh)
  unfolding slide
  after_far h k = ground arith

  after_near :
      t.max_seq < s
      → s - t.max_seq < 1024
      → ((slide t s).0.max_seq ≡ s)
        × ((slide t s).0.seen_bits ≡ mark_bit (shift_window t.seen_bits (s - t.max_seq)) 0)
        × ((slide t s).1 ≡ fresh)
  unfolding slide
  after_near h k = ground arith

  after_late :
      s ≤ t.max_seq
      → t.max_seq - s < 1024
      → is_bit_set t.seen_bits (t.max_seq - s) ≡ false
      → ((slide t s).0.max_seq ≡ t.max_seq)
        × ((slide t s).0.seen_bits ≡ mark_bit t.seen_bits (t.max_seq - s))
        × ((slide t s).1 ≡ fresh)
  unfolding slide
  after_late h k m = ground arith

  after_reject :
      s ≤ t.max_seq
      → (leb 1024 (t.max_seq - s) || is_bit_set t.seen_bits (t.max_seq - s)) ≡ true
      → ((slide t s).0.max_seq ≡ t.max_seq)
        × ((slide t s).0.seen_bits ≡ t.seen_bits)
        × (is_fresh (slide t s).1 ≡ false)
  unfolding slide
  after_reject h k = ground arith

  module _ (past : List ℕ) (saw : Saw t past) where
    kept :
        (top : ℕ) (bits : List ℕ) (verdict : Bool)
        → ((slide t s).0.max_seq ≡ top)
          × ((slide t s).0.seen_bits ≡ bits)
          × (is_fresh (slide t s).1 ≡ verdict)
        → Tracks tracker_bitmap top bits (record_if verdict s past)
        → Saw (slide t s).0 (record_if (is_fresh (slide t s).1) s past)
    kept top bits verdict e tracked = rw (e.0, e.1, e.2) tracked

    fresh_kept :
        (top k : ℕ) (bits : List ℕ)
        → ((slide t s).0.max_seq ≡ top)
          × ((slide t s).0.seen_bits ≡ mark_bit bits k)
          × ((slide t s).1 ≡ fresh)
        → mark_bit bits k ≡ mark bits k
        → Tracks tracker_bitmap top (mark bits k) (s ∷ past)
        → Saw (slide t s).0 (record_if (is_fresh (slide t s).1) s past)
    fresh_kept top k bits e m tracked =
        kept top (mark bits k) true (e.0, e.1 ∙ m, ap is_fresh e.2) tracked

    -- One number keeps the tracker in step with its history.
    pub slide-Saw : Saw (slide t s).0 (record_if (is_fresh (slide t s).1) s past)
    slide-Saw = elim (Bool-cases (ltb t.max_seq s)) [
      | inl above ↦ elim (Bool-cases (leb 1024 (s - t.max_seq))) [
        | inl far ↦
            fresh_kept s 0 no_words (after_far (ground arith) (ground arith))
              (mark_bit-mark no_words 0 no_words-IsWhole (omega arith))
              (Tracks-cleared tracker_bitmap t.max_seq s t.seen_bits past saw (ground arith)
                (ground arith))
        | inr near ↦
            fresh_kept s 0 (shift_window t.seen_bits (s - t.max_seq))
              (after_near (ground arith) (ground arith))
              (mark_bit-mark _ 0 (shift_window-IsWhole t.seen_bits saw.whole (s - t.max_seq))
                (omega arith))
              (Tracks-shift tracker_bitmap t.max_seq s t.seen_bits past saw (ground arith)
                (ground arith))
      ]
      | inr below ↦
          elim (Bool-cases (leb 1024 (t.max_seq - s) || is_bit_set t.seen_bits (t.max_seq - s))) [
            | inl bad ↦ kept t.max_seq _ false (after_reject (ground arith) bad) saw
            | inr good ↦
                fresh_kept t.max_seq (t.max_seq - s) t.seen_bits
                  (after_late (ground arith) (ground arith) (ground arith))
                  (mark_bit-mark t.seen_bits (t.max_seq - s) saw.whole (ground arith))
                  (Tracks-mark tracker_bitmap t.max_seq s t.seen_bits past saw (ground arith)
                    (ground arith))
          ]
    ]

    -- The verdict is the specification's.
    pub slide-admits : is_fresh (slide t s).1 ≡ admits past s
    unfolding slide admits
    slide-admits = ground (
      arith,
      saw.topmost,
      is_bit_set-position t.seen_bits (t.max_seq - s) saw.whole,
      test-late tracker_bitmap t.max_seq s t.seen_bits past saw,
    )

-- The tracker a session is opened with has seen the first number.
pub opened-Saw :
    (session_id s : ℕ) (now : ℤ)
    → Saw
        (record {
          session_id = session_id;
          max_seq = s;
          seen_bits = mark_bit fresh_bits 0;
          last_seen = now;
        })
        (s ∷ [])
opened-Saw session_id s now =
    rw (mark_bit-mark no_words 0 no_words-IsWhole (omega arith)) (Tracks-first tracker_bitmap s)
