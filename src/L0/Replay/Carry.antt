-- ===== src/L0/Replay/Carry.antt =====
-- The loop of `shiftLeft` that carries bits from word to word, read bit by bit.
use ipvn.Base.{
  ℕ, zero, suc, ◌+◌, ◌-◌, ◌*◌, ◌/◌, ◌%◌, ◌≤◌, ◌<◌, ◌≡◌, refl, ap, ap₂, ◌∙◌, bit_or, false, List,
  arith, ltb, if◌then◌else◌, get_or, set, length, length-set, get_or-set_self, get_or-set_ne,
  lt→ltb, Bool-cases, inl, inr,
}
use ipvn.Base.Bits.{bit, bit-or}
use ipvn.Base.Words.{shl64, shr64, IsWord, bit-shl64_low, bit-shl64_high, bit-shr64, position}
use ipvn.L0.Replay.{carry_bits, shift_bits}
use ipvn.L0.Replay.Shift.{length-carry_bits}

carry_bits_above :
    (b r j : ℕ) (bm : List ℕ) → r < j → get_or (carry_bits b r bm) j 0 ≡ get_or bm j 0
unfolding carry_bits
carry_bits_above b zero j bm h = refl
carry_bits_above b (suc r) j bm h =
    carry_bits_above b r j _ (omega arith) ∙ get_or-set_ne bm (suc r) j _ 0 (omega arith)

carry_bits_first : (b r : ℕ) (bm : List ℕ) → get_or (carry_bits b r bm) 0 0 ≡ get_or bm 0 0
unfolding carry_bits
carry_bits_first b zero bm = refl
carry_bits_first b (suc r) bm =
    carry_bits_first b r _ ∙ get_or-set_ne bm (suc r) 0 _ 0 (omega arith)

carry_bits_at :
    (b r j : ℕ) (bm : List ℕ)
    → suc r ≤ length bm
    → j < r
    → get_or (carry_bits b r bm) (suc j) 0
      ≡ bit_or (shl64 (get_or bm (suc j) 0) b) (shr64 (get_or bm j 0) (64 - b))
unfolding carry_bits
carry_bits_at b zero j bm h lt = elim lt [ ]
carry_bits_at b (suc r) j bm h lt = elim (Bool-cases (ltb j r)) [
  | inl inner ↦
      carry_bits_at b r j _ (omega (arith, length-set bm (suc r) _)) (ground arith)
      ∙ ap₂ (λ (x y : ℕ). bit_or (shl64 x b) (shr64 y (64 - b)))
          (get_or-set_ne bm (suc r) (suc j) _ 0 (ground arith))
          (get_or-set_ne bm (suc r) j _ 0 (ground arith))
  | inr outer ↦
      let last : j ≡ r = ground arith in
      rw last (
        carry_bits_above b r (suc r) _ (omega arith) ∙ get_or-set_self bm (suc r) _ 0 (omega arith))
]

-- All words are there, and each holds 64 bits at most.
pub record IsWhole (bm : List ℕ) : Type 0 where
  pub sixteen : length bm ≡ 16
  pub words : (q : ℕ) → IsWord (get_or bm q 0)

module _ (b : ℕ) (bm : List ℕ) (whole : IsWhole bm) (some_bits : 0 < b) (in_word : b < 64) where
  pub carried-length : length (carry_bits b 15 bm) ≡ 16
  carried-length = length-carry_bits b 15 bm ∙ whole.sixteen

  pub shift_bits_def :
      shift_bits b bm ≡ set (carry_bits b 15 bm) 0 (shl64 (get_or (carry_bits b 15 bm) 0 0) b)
  unfolding shift_bits
  shift_bits_def = rw (lt→ltb 0 b some_bits)

  pub shift_bits_first : get_or (shift_bits b bm) 0 0 ≡ shl64 (get_or bm 0 0) b
  shift_bits_first = rw shift_bits_def (
      get_or-set_self (carry_bits b 15 bm) 0 _ 0 (omega (arith, carried-length))
      ∙ ap (λ t. shl64 t b) (carry_bits_first b 15 bm))

  pub shift_bits_later :
      (p : ℕ)
      → p < 15
      → get_or (shift_bits b bm) (suc p) 0
        ≡ bit_or (shl64 (get_or bm (suc p) 0) b) (shr64 (get_or bm p 0) (64 - b))
  shift_bits_later p h = rw shift_bits_def (
      get_or-set_ne (carry_bits b 15 bm) 0 (suc p) _ 0 (omega arith)
      ∙ carry_bits_at b 15 p bm (omega (arith, whole.sixteen)) h)

  -- Bit j of word q comes from b positions further down.
  pub bit-shift_bits :
      (q j : ℕ)
      → q < 16
      → j < 64
      → bit (get_or (shift_bits b bm) q 0) j
        ≡ (if ltb (q * 64 + j) b then false else position bm (q * 64 + j - b))
  bit-shift_bits zero j hq hj =
      let quotient : (zero * 64 + j - b) / 64 ≡ 0 = omega arith in
      ground (
        arith,
        shift_bits_first,
        quotient,
        bit-shl64_low (get_or bm 0 0) b j hj,
        bit-shl64_high (get_or bm 0 0) b j hj,
      )
  bit-shift_bits (suc p) j hq hj = elim (Bool-cases (ltb j b)) [
    | inl low ↦
        let quotient : (suc p * 64 + j - b) / 64 ≡ p = ground arith in
        let remainder : (suc p * 64 + j - b) % 64 ≡ 64 - b + j = ground arith in
        ground (
          arith,
          shift_bits_later p (omega arith),
          bit-or (shl64 (get_or bm (suc p) 0) b) (shr64 (get_or bm p 0) (64 - b)) j,
          bit-shl64_low (get_or bm (suc p) 0) b j hj,
          bit-shr64 (get_or bm p 0) (64 - b) j,
        )
    | inr high ↦
        let quotient : (suc p * 64 + j - b) / 64 ≡ suc p = ground arith in
        let remainder : (suc p * 64 + j - b) % 64 ≡ j - b = ground arith in
        ground (
          arith,
          shift_bits_later p (omega arith),
          bit-or (shl64 (get_or bm (suc p) 0) b) (shr64 (get_or bm p 0) (64 - b)) j,
          bit-shl64_high (get_or bm (suc p) 0) b j hj,
          bit-shr64 (get_or bm p 0) (64 - b) j,
          whole.words p (64 - b + j),
        )
  ]

pub length-shift_bits : (b : ℕ) (bm : List ℕ) → length (shift_bits b bm) ≡ length bm
unfolding shift_bits
length-shift_bits b bm = ground (
  arith,
  length-carry_bits b 15 bm,
  length-set (carry_bits b 15 bm) 0 (shl64 (get_or (carry_bits b 15 bm) 0 0) b),
)
