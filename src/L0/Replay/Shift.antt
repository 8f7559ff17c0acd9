-- ===== src/L0/Replay/Shift.antt =====
-- What `shiftLeft` does to each position, through the three loops that it runs in place.
use ipvn.Base.{
  ℕ, zero, suc, ◌+◌, ◌-◌, ◌≤◌, ◌<◌, ◌≡◌, refl, ap, ◌∙◌, false, List, arith, ltb, if◌then◌else◌,
  get_or, length, length-set, get_or-set_self, get_or-set_ne, Bool-cases, inl, inr,
}
use ipvn.L0.Replay.{move_words, clear_words, carry_bits, shift_words}

pub length-move_words : (w r : ℕ) (bm : List ℕ) → length (move_words w r bm) ≡ length bm
unfolding move_words
length-move_words w zero bm = refl
length-move_words w (suc r) bm = length-move_words w r _ ∙ length-set bm (w + r) (get_or bm r 0)

pub length-clear_words : (r i : ℕ) (bm : List ℕ) → length (clear_words r i bm) ≡ length bm
unfolding clear_words
length-clear_words zero i bm = refl
length-clear_words (suc r) i bm = length-clear_words r (suc i) _ ∙ length-set bm i 0

pub length-carry_bits : (b r : ℕ) (bm : List ℕ) → length (carry_bits b r bm) ≡ length bm
unfolding carry_bits
length-carry_bits b zero bm = refl
length-carry_bits b (suc r) bm = length-carry_bits b r _ ∙ length-set bm (suc r) _

move_words_above :
    (w r j : ℕ) (bm : List ℕ) → w + r ≤ j → get_or (move_words w r bm) j 0 ≡ get_or bm j 0
unfolding move_words
move_words_above w zero j bm h = refl
move_words_above w (suc r) j bm h =
    move_words_above w r j _ (omega arith)
    ∙ get_or-set_ne bm (w + r) j (get_or bm r 0) 0 (omega arith)

-- The moved words, although each round reads what earlier rounds may have written.
move_words_moved :
    (w r j : ℕ) (bm : List ℕ)
    → w + r ≤ length bm
    → j < r
    → get_or (move_words w r bm) (w + j) 0 ≡ get_or bm j 0
unfolding move_words
move_words_moved w zero j bm h lt = elim lt [ ]
move_words_moved w (suc r) j bm h lt = elim (Bool-cases (ltb j r)) [
  | inl inner ↦
      move_words_moved w r j _ (omega (arith, length-set bm (w + r) (get_or bm r 0))) (ground arith)
      ∙ get_or-set_ne bm (w + r) j (get_or bm r 0) 0 (ground arith)
  | inr outer ↦
      let last : j ≡ r = ground arith in
      rw last (
        move_words_above w r (w + r) _ (omega arith)
        ∙ get_or-set_self bm (w + r) (get_or bm r 0) 0 (omega arith))
]

clear_words_outside :
    (r i j : ℕ) (bm : List ℕ) → i + r ≤ j → get_or (clear_words r i bm) j 0 ≡ get_or bm j 0
unfolding clear_words
clear_words_outside zero i j bm h = refl
clear_words_outside (suc r) i j bm h =
    clear_words_outside r (suc i) j _ (omega arith) ∙ get_or-set_ne bm i j 0 0 (omega arith)

clear_words_below :
    (r i j : ℕ) (bm : List ℕ) → j < i → get_or (clear_words r i bm) j 0 ≡ get_or bm j 0
unfolding clear_words
clear_words_below zero i j bm h = refl
clear_words_below (suc r) i j bm h =
    clear_words_below r (suc i) j _ (omega arith) ∙ get_or-set_ne bm i j 0 0 (omega arith)

clear_words_inside :
    (r i j : ℕ) (bm : List ℕ)
    → i + r ≤ length bm
    → i ≤ j
    → j < i + r
    → get_or (clear_words r i bm) j 0 ≡ 0
unfolding clear_words
clear_words_inside zero i j bm h a b = absurd (omega arith)
clear_words_inside (suc r) i j bm h a b = elim (Bool-cases (ltb i j)) [
  | inl later ↦
      clear_words_inside r (suc i) j _ (omega (arith, length-set bm i 0)) (ground arith)
        (omega arith)
  | inr now ↦
      let here : j ≡ i = ground arith in
      rw here
        (clear_words_below r (suc i) i _ (omega arith) ∙ get_or-set_self bm i 0 0 (omega arith))
]

shift_words-suc :
    (w : ℕ) (bm : List ℕ)
    → shift_words (suc w) bm ≡ clear_words (suc w) 0 (move_words (suc w) (16 - suc w) bm)
unfolding shift_words
shift_words-suc w bm = ground arith

-- Word j after the two loops over whole words.
pub shift_words_at :
    (w j : ℕ) (bm : List ℕ)
    → length bm ≡ 16
    → w < 16
    → j < 16
    → get_or (shift_words w bm) j 0 ≡ (if ltb j w then 0 else get_or bm (j - w) 0)
shift_words_at zero j bm l hw hj =
    let e : j - 0 ≡ j = omega arith in
    let f : ltb j 0 ≡ false = ground arith in unfold shift_words in rw (e, f)
shift_words_at (suc w) j bm l hw hj = elim (Bool-cases (ltb j (suc w))) [
  | inl low ↦
      rw (low, shift_words-suc w bm)
        (clear_words_inside (suc w) 0 j (move_words (suc w) (16 - suc w) bm)
          (omega (arith, length-move_words (suc w) (16 - suc w) bm)) (omega arith) (ground arith))
  | inr high ↦
      let back : j ≡ suc w + (j - suc w) = ground arith in
      rw (high, shift_words-suc w bm)
        (clear_words_outside (suc w) 0 j (move_words (suc w) (16 - suc w) bm) (ground arith)
          ∙ (ap (λ t. get_or (move_words (suc w) (16 - suc w) bm) t 0) back
              ∙ move_words_moved (suc w) (16 - suc w) (j - suc w) bm (omega arith) (ground arith)))
]

pub length-shift_words : (w : ℕ) (bm : List ℕ) → length (shift_words w bm) ≡ length bm
unfolding shift_words
length-shift_words w bm =
    ground
      (arith, length-clear_words w 0 (move_words w (16 - w) bm), length-move_words w (16 - w) bm)
