-- ===== src/L0/Replay/Marks.antt =====
-- The row of 16 words of src/pkg/l0/anti_replay.go as a bitmap of 1024 positions.
use ipvn.Base.{
  ℕ, zero, suc, ◌+◌, ◌-◌, ◌*◌, ◌/◌, ◌%◌, ◌≤◌, ◌<◌, ◌≡◌, ◌≢◌, refl, ap, ◌∙◌, bit_or, true, false,
  List, arith, leb, ltb, ◌==◌, if◌then◌else◌, get_or, length, length-set, get_or-set_self,
  get_or-set_ne, get_or-replicate, get_or_beyond, Bool-cases, inl, inr,
}
use ipvn.Base.Bits.{bit, bit-or, bit-zero}
use ipvn.Base.Words.{
  shl64, IsWord, shl64-IsWord, shr64-IsWord, or-IsWord, bit-mask, test-mask, position,
}
use native.Mathlib.Decide.{ℕ_discrete}
use ipvn.Window.{Bitmap}
use ipvn.L0.Replay.{no_words, shift_words, shift_bits, shift_left, mark, is_marked}
use ipvn.L0.Replay.Shift.{shift_words_at, length-shift_words}
use ipvn.L0.Replay.Carry.{
  IsWhole, shift_bits_first, shift_bits_later, bit-shift_bits, length-shift_bits,
}

pub no_words-IsWhole : IsWhole no_words
no_words-IsWhole = record {
  sixteen = refl;
  words = λ q i h. ap (λ t. bit t i) (get_or-replicate 16 0 q) ∙ bit-zero i;
}

pub position-no_words : (d : ℕ) → position no_words d ≡ false
position-no_words d = ap (λ t. bit t (d % 64)) (get_or-replicate 16 0 (d / 64)) ∙ bit-zero (d % 64)

IsWord-beyond : (bm : List ℕ) (q : ℕ) → length bm ≡ 16 → 16 ≤ q → IsWord (get_or bm q 0)
IsWord-beyond bm q l h i hi = ap (λ t. bit t i) (get_or_beyond bm q 0 (omega arith)) ∙ bit-zero i

shift_words-IsWhole : (w : ℕ) (bm : List ℕ) → w < 16 → IsWhole bm → IsWhole (shift_words w bm)
shift_words-IsWhole w bm h whole = record { sixteen = sixteen; words = words }
  where
    sixteen : length (shift_words w bm) ≡ 16
    sixteen = length-shift_words w bm ∙ whole.sixteen

    words : (q : ℕ) → IsWord (get_or (shift_words w bm) q 0)
    words q i hi = elim (Bool-cases (ltb q 16)) [
      | inl inside ↦
          ground
            (arith, shift_words_at w q bm whole.sixteen h, whole.words (q - w) i hi, bit-zero i)
      | inr outside ↦ IsWord-beyond (shift_words w bm) q sixteen (ground arith) i hi
    ]

position-shift_words :
    (w d : ℕ) (bm : List ℕ)
    → IsWhole bm
    → w < 16
    → d < 1024
    → position (shift_words w bm) d ≡ (if ltb d (w * 64) then false else position bm (d - w * 64))
position-shift_words w d bm whole hw hd = elim (Bool-cases (ltb d (w * 64))) [
  | inl low ↦ ground (arith, shift_words_at w (d / 64) bm whole.sixteen hw, bit-zero (d % 64))
  | inr high ↦
      let quotient : (d - w * 64) / 64 ≡ d / 64 - w = ground arith in
      let remainder : (d - w * 64) % 64 ≡ d % 64 = ground arith in
      ground (arith, shift_words_at w (d / 64) bm whole.sixteen hw)
]

shift_bits_none : (bm : List ℕ) → shift_bits 0 bm ≡ bm
unfolding shift_bits
shift_bits_none bm = refl

shift_bits-IsWhole : (b : ℕ) (bm : List ℕ) → b < 64 → IsWhole bm → IsWhole (shift_bits b bm)
shift_bits-IsWhole zero bm h whole = rw (shift_bits_none bm) whole
shift_bits-IsWhole (suc b) bm h whole = record { sixteen = sixteen; words = words }
  where
    some_bits : 0 < suc b
    some_bits = omega arith

    sixteen : length (shift_bits (suc b) bm) ≡ 16
    sixteen = length-shift_bits (suc b) bm ∙ whole.sixteen

    words : (q : ℕ) → IsWord (get_or (shift_bits (suc b) bm) q 0)
    words zero i hi =
        rw (shift_bits_first (suc b) bm whole some_bits h)
          (shl64-IsWord (get_or bm 0 0) (suc b) i hi)
    words (suc p) i hi = elim (Bool-cases (ltb p 15)) [
      | inl inside ↦
          rw (shift_bits_later (suc b) bm whole some_bits h p (ground arith))
            (or-IsWord _ _ (shl64-IsWord _ (suc b)) (shr64-IsWord _ _ (whole.words p)) i hi)
      | inr outside ↦ IsWord-beyond (shift_bits (suc b) bm) (suc p) sixteen (ground arith) i hi
    ]

position-shift_bits :
    (b d : ℕ) (bm : List ℕ)
    → IsWhole bm
    → b < 64
    → d < 1024
    → position (shift_bits b bm) d ≡ (if ltb d b then false else position bm (d - b))
position-shift_bits zero d bm whole hb hd =
    let same : d - 0 ≡ d = omega arith in ground (arith, shift_bits_none bm)
position-shift_bits (suc b) d bm whole hb hd =
    let split : d / 64 * 64 + d % 64 ≡ d = omega arith in
    rw split at (
      bit-shift_bits (suc b) bm whole (omega arith) hb (d / 64) (d % 64) (omega arith)
        (omega arith))

shift_left_near :
    (bm : List ℕ) (n : ℕ)
    → n < 1024
    → shift_left bm n ≡ shift_bits (n % 64) (shift_words (n / 64) bm)
unfolding shift_left
shift_left_near bm n h = ground arith

pub shift_left-IsWhole : (bm : List ℕ) (n : ℕ) → IsWhole bm → IsWhole (shift_left bm n)
unfolding shift_left
shift_left-IsWhole bm n whole = elim (Bool-cases (leb 16 (n / 64))) [
  | inl far ↦ rw far no_words-IsWhole
  | inr near ↦ rw near (
      shift_bits-IsWhole (n % 64) _ (omega arith)
        (shift_words-IsWhole (n / 64) bm (ground arith) whole))
]

-- `shiftLeft` moves each position up, and brings in empty ones.
pub position-shift_left :
    (bm : List ℕ) (n d : ℕ)
    → IsWhole bm
    → n < 1024
    → d < 1024
    → position (shift_left bm n) d ≡ (if ltb d n then false else position bm (d - n))
position-shift_left bm n d whole hn hd = rw (shift_left_near bm n hn) (
    ground (
      arith,
      position-shift_bits (n % 64) d (shift_words (n / 64) bm)
          (shift_words-IsWhole (n / 64) bm (omega arith) whole) (omega arith) hd,
      position-shift_words (n / 64) (d - n % 64) bm whole (omega arith) (omega arith),
      regroup,
    ))
  where
    regroup : d - n % 64 - n / 64 * 64 ≡ d - n
    regroup = omega arith

marked_word : List ℕ → ℕ → ℕ
marked_word bm k = bit_or (get_or bm (k / 64) 0) (shl64 1 (k % 64))

mark_same :
    (bm : List ℕ) (k : ℕ) → k / 64 < length bm → get_or (mark bm k) (k / 64) 0 ≡ marked_word bm k
unfolding mark marked_word
mark_same bm k h = get_or-set_self bm (k / 64) _ 0 h

mark_other : (bm : List ℕ) (k q : ℕ) → k / 64 ≢ q → get_or (mark bm k) q 0 ≡ get_or bm q 0
unfolding mark
mark_other bm k q h = get_or-set_ne bm (k / 64) q _ 0 h

pub length-mark : (bm : List ℕ) (k : ℕ) → length (mark bm k) ≡ length bm
unfolding mark
length-mark bm k = length-set bm _ _

pub mark-IsWhole : (bm : List ℕ) (k : ℕ) → IsWhole bm → IsWhole (mark bm k)
unfolding marked_word
mark-IsWhole bm k whole = record { sixteen = sixteen; words = words }
  where
    sixteen : length (mark bm k) ≡ 16
    sixteen = length-mark bm k ∙ whole.sixteen

    words : (q : ℕ) → IsWord (get_or (mark bm k) q 0)
    words q i hi = elim (ℕ_discrete (k / 64) q) [
      | no other ↦ rw (mark_other bm k q other) (whole.words q i hi)
      | yes same ↦ elim (Bool-cases (ltb q 16)) [
        | inl inside ↦
            rw (← same, mark_same bm k (ground (arith, whole.sixteen)))
              (or-IsWord _ _ (whole.words (k / 64)) (shl64-IsWord 1 (k % 64)) i hi)
        | inr outside ↦ IsWord-beyond (mark bm k) q sixteen (ground arith) i hi
      ]
    ]

-- Marking a position leaves the others alone.
pub position-mark :
    (bm : List ℕ) (k d : ℕ)
    → IsWhole bm
    → k < 1024
    → d < 1024
    → position (mark bm k) d ≡ (if d == k then true else position bm d)
unfolding marked_word
position-mark bm k d whole hk hd = elim (ℕ_discrete (k / 64) (d / 64)) [
  | no other ↦ rw (mark_other bm k (d / 64) other) (ground arith)
  | yes same ↦
      rw
        (
          ← same,
          mark_same bm k (omega (arith, whole.sixteen)),
          bit-or (get_or bm (k / 64) 0) (shl64 1 (k % 64)) (d % 64),
        )
        (ground (arith, bit-mask (k % 64) (d % 64) (omega arith)))
]

-- The test of `ValidateAndUpdate` reads the position.
pub is_marked-position : (bm : List ℕ) (d : ℕ) → is_marked bm d ≡ position bm d
unfolding is_marked
is_marked-position bm d = ground (arith, test-mask (get_or bm (d / 64) 0) (d % 64) (omega arith))

-- The contract of a replay window, met by the 16 words.
abbrev pub filter_bitmap : Bitmap (List ℕ)
filter_bitmap = record {
  IsWhole = IsWhole;
  test = position;
  cleared = no_words;
  shift = shift_left;
  mark = mark;
  cleared-IsWhole = no_words-IsWhole;
  shift-IsWhole = shift_left-IsWhole;
  mark-IsWhole = mark-IsWhole;
  test-cleared = position-no_words;
  test-shift = position-shift_left;
  test-mark = position-mark;
}
