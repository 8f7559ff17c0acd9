-- ===== src/L1/SessionReplay/Words.antt =====
-- The words of a tracker meet the contract of a replay window: shiftWindow, which builds new
-- words, does to every position what the in-place shift of pkg/l0 does.
use ipvn.Base.{
  ℕ, zero, suc, ◌+◌, ◌-◌, ◌*◌, ◌/◌, ◌%◌, ◌≤◌, ◌<◌, ◌≡◌, refl, sym, ap, ◌∙◌, bit_or, false, ◌&&◌,
  List, arith, leb, ltb, if◌then◌else◌, get_or, length, Bool-cases, inl, inr, replicate,
  get_or_beyond,
}
use ipvn.Base.Bits.{bit, bit-or, bit-zero}
use ipvn.Base.Words.{
  shl64, shr64, IsWord, shl64-IsWord, shr64-IsWord, bit-shl64_low, bit-shl64_high, bit-shr64,
  position, test-mask,
}
use ipvn.Window.{Bitmap}
use ipvn.L0.Replay.{no_words, mark, shift_left}
use ipvn.L0.Replay.Carry.{IsWhole}
use ipvn.L0.Replay.Marks.{
  no_words-IsWhole, position-no_words, mark-IsWhole, position-mark, position-shift_left,
}
use ipvn.L1.SessionReplay.{mark_bit, is_bit_set, new_word, new_words, shift_window}

-- Both filters mark and test a position alike.
pub mark_bit-mark :
    (bits : List ℕ) (k : ℕ) → IsWhole bits → k < 1024 → mark_bit bits k ≡ mark bits k
unfolding mark_bit mark
mark_bit-mark bits k whole h = ground (arith, whole.sixteen)

pub is_bit_set-position :
    (bits : List ℕ) (k : ℕ) → IsWhole bits → k < 1024 → is_bit_set bits k ≡ position bits k
unfolding is_bit_set
is_bit_set-position bits k whole h =
    let inside : k / 64 < length bits = omega (arith, whole.sixteen) in
    ground (arith, test-mask (get_or bits (k / 64) 0) (k % 64) (omega arith))

length-new_words : (bits : List ℕ) (w b n i : ℕ) → length (new_words bits w b n i) ≡ n
unfolding new_words
length-new_words bits w b zero i = refl
length-new_words bits w b (suc n) i = ap suc (length-new_words bits w b n (suc i))

new_words_at :
    (bits : List ℕ) (w b n i q : ℕ)
    → q < n
    → get_or (new_words bits w b n i) q 0 ≡ new_word bits w b (i + q)
unfolding new_words
new_words_at bits w b zero i q h = elim h [ ]
new_words_at bits w b (suc n) i zero h = ap (new_word bits w b) (omega arith)
new_words_at bits w b (suc n) i (suc q) h =
    new_words_at bits w b n (suc i) q (omega arith) ∙ ap (new_word bits w b) (omega arith)

module _ (bits : List ℕ) (whole : IsWhole bits) where
  low_word : ℕ → ℕ → ℕ → ℕ
  low_word w b q = if leb w q then bit_or 0 (shl64 (get_or bits (q - w) 0) b) else 0

  bit-low_word :
      (w b q j : ℕ)
      → j < 64
      → bit (low_word w b q) j
        ≡ (if leb w q && leb b j then bit (get_or bits (q - w) 0) (j - b) else false)
  unfolding low_word
  bit-low_word w b q j hj = ground (
    arith,
    bit-zero j,
    bit-or 0 (shl64 (get_or bits (q - w) 0) b) j,
    bit-shl64_low (get_or bits (q - w) 0) b j hj,
    bit-shl64_high (get_or bits (q - w) 0) b j hj,
  )

  low_word-IsWord : (w b q : ℕ) → IsWord (low_word w b q)
  unfolding low_word
  low_word-IsWord w b q i hi = ground (
    arith,
    bit-zero i,
    bit-or 0 (shl64 (get_or bits (q - w) 0) b) i,
    shl64-IsWord (get_or bits (q - w) 0) b i hi,
  )

  new_word-low :
      (w b q : ℕ)
      → new_word bits w b q ≡ (
          if ltb 0 b && ltb w q
          then bit_or (low_word w b q) (shr64 (get_or bits (q - w - 1) 0) (64 - b))
          else low_word w b q)
  unfolding new_word low_word
  new_word-low w b q = refl

  new_word-IsWord : (w b q : ℕ) → IsWord (new_word bits w b q)
  new_word-IsWord w b q i hi = ground (
    arith,
    new_word-low w b q,
    low_word-IsWord w b q i hi,
    bit-or (low_word w b q) (shr64 (get_or bits (q - w - 1) 0) (64 - b)) i,
    shr64-IsWord (get_or bits (q - w - 1) 0) (64 - b) (whole.words (q - w - 1)) i hi,
  )

  -- Bit j of word q comes from w words and b bits further down.
  bit-new_word :
      (w b q j : ℕ)
      → b < 64
      → j < 64
      → bit (new_word bits w b q) j ≡ (
          if ltb (q * 64 + j) (w * 64 + b)
          then false
          else position bits (q * 64 + j - (w * 64 + b)))
  bit-new_word w b q j hb hj = elim (Bool-cases (ltb j b)) [
    | inl low ↦ elim (Bool-cases (ltb w q)) [
      | inl above ↦
          let quotient : (q * 64 + j - (w * 64 + b)) / 64 ≡ q - w - 1 = ground arith in
          let remainder : (q * 64 + j - (w * 64 + b)) % 64 ≡ 64 - b + j = ground arith in
          ground (
            arith,
            new_word-low w b q,
            bit-low_word w b q j hj,
            bit-or (low_word w b q) (shr64 (get_or bits (q - w - 1) 0) (64 - b)) j,
            bit-shr64 (get_or bits (q - w - 1) 0) (64 - b) j,
          )
      | inr below ↦ ground (arith, new_word-low w b q, bit-low_word w b q j hj)
    ]
    | inr high ↦ elim (Bool-cases (leb w q)) [
      | inl above ↦
          let quotient : (q * 64 + j - (w * 64 + b)) / 64 ≡ q - w = ground arith in
          let remainder : (q * 64 + j - (w * 64 + b)) % 64 ≡ j - b = ground arith in
          ground (
            arith,
            new_word-low w b q,
            bit-low_word w b q j hj,
            bit-or (low_word w b q) (shr64 (get_or bits (q - w - 1) 0) (64 - b)) j,
            bit-shr64 (get_or bits (q - w - 1) 0) (64 - b) j,
            whole.words (q - w - 1) (64 - b + j),
          )
      | inr below ↦ ground (arith, new_word-low w b q, bit-low_word w b q j hj)
    ]
  ]

  position-new_words :
      (w b d : ℕ)
      → b < 64
      → d < 1024
      → position (new_words bits w b 16 0) d
        ≡ (if ltb d (w * 64 + b) then false else position bits (d - (w * 64 + b)))
  position-new_words w b d hb hd =
      let split : d / 64 * 64 + d % 64 ≡ d = omega arith in
      let same : 0 + d / 64 ≡ d / 64 = omega arith in
      ap (λ x. bit x (d % 64))
        (new_words_at bits w b 16 0 (d / 64) (omega arith) ∙ ap (new_word bits w b) same)
      ∙ rw split at (bit-new_word w b (d / 64) (d % 64) hb (omega arith))

  new_words-IsWhole : (w b : ℕ) → IsWhole (new_words bits w b 16 0)
  new_words-IsWhole w b = record { sixteen = length-new_words bits w b 16 0; words = words }
    where
      words : (q : ℕ) → IsWord (get_or (new_words bits w b 16 0) q 0)
      words q i hi = elim (Bool-cases (ltb q 16)) [
        | inl inside ↦
            rw (new_words_at bits w b 16 0 q (ground arith)) (new_word-IsWord w b (0 + q) i hi)
        | inr outside ↦
            rw
              (get_or_beyond (new_words bits w b 16 0) q 0
                (ground (arith, length-new_words bits w b 16 0)))
              (bit-zero i)
      ]

  zeroed_none : replicate (length bits) 0 ≡ no_words
  zeroed_none = ap (λ n. replicate n 0) whole.sixteen

  shift_window_far : (n : ℕ) → 1024 ≤ n → shift_window bits n ≡ no_words
  unfolding shift_window
  shift_window_far n h = ground (arith, zeroed_none)

  shift_window_near :
      (n : ℕ) → n < 1024 → shift_window bits n ≡ new_words bits (n / 64) (n % 64) 16 0
  unfolding shift_window
  shift_window_near n h = ground (arith, whole.sixteen)

  pub shift_window-IsWhole : (n : ℕ) → IsWhole (shift_window bits n)
  shift_window-IsWhole n = elim (Bool-cases (leb 1024 n)) [
    | inl far ↦ rw (shift_window_far n (ground arith)) no_words-IsWhole
    | inr near ↦ rw (shift_window_near n (ground arith)) (new_words-IsWhole (n / 64) (n % 64))
  ]

  -- shiftWindow moves each position up, and brings in empty ones.
  pub position-shift_window :
      (n d : ℕ)
      → n < 1024
      → d < 1024
      → position (shift_window bits n) d ≡ (if ltb d n then false else position bits (d - n))
  position-shift_window n d hn hd =
      let split : n / 64 * 64 + n % 64 ≡ n = omega arith in
      rw (shift_window_near n hn)
        (rw split at (position-new_words (n / 64) (n % 64) d (omega arith) hd))

-- For a row of 16 words of 64 bits and a shift by less than 1024: the shift that builds new words
-- and the one that moves them in place leave the same bit at each of the 1024 positions.
pub shift_window-shift_left :
    (bits : List ℕ) (n d : ℕ)
    → IsWhole bits
    → n < 1024
    → d < 1024
    → position (shift_window bits n) d ≡ position (shift_left bits n) d
shift_window-shift_left bits n d whole hn hd =
    position-shift_window bits whole n d hn hd ∙ sym (position-shift_left bits n d whole hn hd)

-- The contract of a replay window, met by the words of a tracker.
abbrev pub tracker_bitmap : Bitmap (List ℕ)
tracker_bitmap = record {
  IsWhole = IsWhole;
  test = position;
  cleared = no_words;
  shift = shift_window;
  mark = mark;
  cleared-IsWhole = no_words-IsWhole;
  shift-IsWhole = λ b n whole. shift_window-IsWhole b whole n;
  mark-IsWhole = mark-IsWhole;
  test-cleared = position-no_words;
  test-shift = λ b n d whole. position-shift_window b whole n d;
  test-mark = position-mark;
}
