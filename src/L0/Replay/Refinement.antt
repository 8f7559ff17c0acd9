-- ===== src/L0/Replay/Refinement.antt =====
-- ValidateAndUpdate of src/pkg/l0/anti_replay.go beside the specification over histories.
use ipvn.Base.{
  ℕ, ◌+◌, ◌-◌, ◌≤◌, ◌<◌, ◌≡◌, refl, ap, Bool, true, false, ◌||◌, List, [], ◌∷◌, arith, leb, ltb,
  length, Bool-cases, inl, inr,
}
use ipvn.Base.Words.{shl64, u64}
use ipvn.Window.{
  Tracks, Tracks-shift, Tracks-cleared, Tracks-mark, Tracks-empty, test-late, admits, decide_all,
  record_if, remember, IsDistinct, remember-IsDistinct,
}
use ipvn.L0.Replay.{
  Filter, new_filter, no_words, shift_left, mark, is_marked, advance, validate_and_update,
  validate_all,
}
use ipvn.L0.Replay.Marks.{filter_bitmap, is_marked-position}

-- Bit 0 set by `= 1` or by `|= 1` is a mark at position 0.
advance_far : (bm : List ℕ) (n : ℕ) → 1024 ≤ n → advance bm n ≡ mark no_words 0
unfolding advance mark shl64
advance_far bm n h = ground arith

advance_near : (bm : List ℕ) (n : ℕ) → n < 1024 → advance bm n ≡ mark (shift_left bm n) 0
unfolding advance mark shl64
advance_near bm n h = ground arith

-- The filter has seen exactly the numbers of a history.
abbrev pub Saw : Filter → List ℕ → Type 0
Saw f past = Tracks filter_bitmap f.last_seq f.bitmap past

-- The five ways through `ValidateAndUpdate`.
module _ (f : Filter) (s : ℕ) where
  after_far :
      f.last_seq < s
      → 1024 ≤ s - f.last_seq
      → ((validate_and_update f s).0.last_seq ≡ s)
        × ((validate_and_update f s).0.bitmap ≡ mark no_words 0)
        × ((validate_and_update f s).1 ≡ true)
  unfolding validate_and_update
  after_far h k = ground (arith, advance_far f.bitmap (s - f.last_seq) k)

  after_near :
      f.last_seq < s
      → s - f.last_seq < 1024
      → ((validate_and_update f s).0.last_seq ≡ s)
        × ((validate_and_update f s).0.bitmap ≡ mark (shift_left f.bitmap (s - f.last_seq)) 0)
        × ((validate_and_update f s).1 ≡ true)
  unfolding validate_and_update
  after_near h k = ground (arith, advance_near f.bitmap (s - f.last_seq) k)

  after_late :
      s ≤ f.last_seq
      → f.last_seq - s < 1024
      → is_marked f.bitmap (f.last_seq - s) ≡ false
      → ((validate_and_update f s).0.last_seq ≡ f.last_seq)
        × ((validate_and_update f s).0.bitmap ≡ mark f.bitmap (f.last_seq - s))
        × ((validate_and_update f s).1 ≡ true)
  unfolding validate_and_update
  after_late h k m = ground arith

  after_reject :
      s ≤ f.last_seq
      → (leb 1024 (f.last_seq - s) || is_marked f.bitmap (f.last_seq - s)) ≡ true
      → ((validate_and_update f s).0.last_seq ≡ f.last_seq)
        × ((validate_and_update f s).0.bitmap ≡ f.bitmap)
        × ((validate_and_update f s).1 ≡ false)
  unfolding validate_and_update
  after_reject h k = ground arith

  module _ (past : List ℕ) (saw : Saw f past) where
    kept :
        (top : ℕ) (bm : List ℕ) (verdict : Bool)
        → ((validate_and_update f s).0.last_seq ≡ top)
          × ((validate_and_update f s).0.bitmap ≡ bm)
          × ((validate_and_update f s).1 ≡ verdict)
        → Tracks filter_bitmap top bm (record_if verdict s past)
        → Saw (validate_and_update f s).0 (record_if (validate_and_update f s).1 s past)
    kept top bm verdict e t = rw (e.0, e.1, e.2) t

    -- One number keeps the filter in step with its history.
    pub validate_and_update-Saw :
        Saw (validate_and_update f s).0 (record_if (validate_and_update f s).1 s past)
    validate_and_update-Saw = elim (Bool-cases (ltb f.last_seq s)) [
      | inl above ↦ elim (Bool-cases (leb 1024 (s - f.last_seq))) [
        | inl far ↦ kept s _ true (after_far (ground arith) (ground arith)) (
            Tracks-cleared filter_bitmap f.last_seq s f.bitmap past saw (ground arith)
              (ground arith))
        | inr near ↦ kept s _ true (after_near (ground arith) (ground arith)) (
            Tracks-shift filter_bitmap f.last_seq s f.bitmap past saw (ground arith) (ground arith))
      ]
      | inr below ↦
          elim (Bool-cases (leb 1024 (f.last_seq - s) || is_marked f.bitmap (f.last_seq - s))) [
            | inl bad ↦ kept f.last_seq _ false (after_reject (ground arith) bad) saw
            | inr good ↦
                kept f.last_seq _ true (after_late (ground arith) (ground arith) (ground arith)) (
                  Tracks-mark filter_bitmap f.last_seq s f.bitmap past saw (ground arith)
                    (ground arith))
          ]
    ]

    -- The verdict is the specification's.
    pub validate_and_update-admits : (validate_and_update f s).1 ≡ admits past s
    unfolding validate_and_update admits
    validate_and_update-admits = ground (
      arith,
      saw.topmost,
      is_marked-position f.bitmap (f.last_seq - s),
      test-late filter_bitmap f.last_seq s f.bitmap past saw,
    )

-- The numbers of a list that were accepted, on top of a history.
abbrev pub accepted_of : List ℕ → List ℕ → List Bool → List ℕ
accepted_of past [] vs = past
accepted_of past (s ∷ ss) [] = past
accepted_of past (s ∷ ss) (v ∷ vs) = accepted_of (record_if v s past) ss vs

validate_all-remember :
    (f : Filter) (past seqs : List ℕ)
    → Saw f past
    → accepted_of past seqs (validate_all f seqs).1 ≡ remember past seqs
unfolding validate_all remember
validate_all-remember f past [] saw = refl
validate_all-remember f past (s ∷ rest) saw = rw (← validate_and_update-admits f s past saw) (
    validate_all-remember (validate_and_update f s).0 _ rest (validate_and_update-Saw f s past saw))

new_filter-Saw : Saw new_filter []
unfolding new_filter
new_filter-Saw = Tracks-empty filter_bitmap

validate_all-decide_all :
    (f : Filter) (past seqs : List ℕ) → Saw f past → (validate_all f seqs).1 ≡ decide_all past seqs
unfolding validate_all decide_all
validate_all-decide_all f past [] saw = refl
validate_all-decide_all f past (s ∷ rest) saw = rw (← validate_and_update-admits f s past saw) (
    ap (λ vs. (validate_and_update f s).1 ∷ vs)
      (validate_all-decide_all (validate_and_update f s).0 _ rest
        (validate_and_update-Saw f s past saw)))

-- For every list of sequence numbers, the verdicts of a new filter are those of the specification
-- over the accepted numbers: a number is accepted exactly if it is above all accepted ones, or
-- less than 1024 below the highest and not accepted before.
pub validate_all-eq-decide_all :
    (seqs : List ℕ) → (validate_all new_filter seqs).1 ≡ decide_all [] seqs
validate_all-eq-decide_all seqs = validate_all-decide_all new_filter [] seqs new_filter-Saw

-- A new filter accepts no sequence number twice, whatever numbers arrive in whatever order.
pub accepted_once :
    (seqs : List ℕ) → IsDistinct (accepted_of [] seqs (validate_all new_filter seqs).1)
accepted_once seqs =
    rw (validate_all-remember new_filter [] seqs new_filter-Saw) (remember-IsDistinct [] seqs tt)

counted :
    (f : Filter) (s : ℕ)
    → u64 ((validate_and_update f s).0.accepted + (validate_and_update f s).0.rejected)
      ≡ u64 (f.accepted + f.rejected + 1)
unfolding validate_and_update
counted f s = ground arith

-- The two counters add up, modulo 2 ^ 64, to what they were plus the numbers that have arrived.
pub validate_all_counts :
    (f : Filter) (seqs : List ℕ)
    → u64 ((validate_all f seqs).0.accepted + (validate_all f seqs).0.rejected)
      ≡ u64 (f.accepted + f.rejected + length seqs)
unfolding validate_all
validate_all_counts f [] = omega arith
validate_all_counts f (s ∷ rest) =
    omega (arith, counted f s, validate_all_counts (validate_and_update f s).0 rest)
