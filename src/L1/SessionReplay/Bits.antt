-- ===== src/L1/SessionReplay/Bits.antt =====
-- The bits of a window in src/pkg/l1/anti_replay_session.go: marking, testing and shifting.
use ipvn.Base.{
  ℕ, zero, suc, ◌-◌, ◌/◌, ◌%◌, bit_and, bit_or, Bool, false, ◌&&◌, not, List, [], ◌∷◌, ltb, leb,
  ◌==◌, if◌then◌else◌, get_or, set, replicate, length,
}
use ipvn.Base.Words.{shl64, shr64}

abbrev pub anti_replay_window_size : ℕ
anti_replay_window_size = 1024

-- `make([]uint64, AntiReplayWindowSize/64)`.
abbrev pub fresh_bits : List ℕ
fresh_bits = replicate 16 0

-- markBit: an offset past the words marks nothing.
unfoldable pub mark_bit : List ℕ → ℕ → List ℕ
mark_bit bits offset =
    if ltb (offset / 64) (length bits)
    then set bits (offset / 64) (bit_or (get_or bits (offset / 64) 0) (shl64 1 (offset % 64)))
    else bits

unfoldable pub is_bit_set : List ℕ → ℕ → Bool
is_bit_set bits offset =
    if ltb (offset / 64) (length bits)
    then not (bit_and (get_or bits (offset / 64) 0) (shl64 1 (offset % 64)) == 0)
    else false

-- Word i of `newBits`; `srcIdx` is i - word_shift, and its tests for a negative index are those on
-- i here.
unfoldable pub new_word : List ℕ → ℕ → ℕ → ℕ → ℕ
new_word bits word_shift bit_shift i =
    let low =
      if leb word_shift i then bit_or 0 (shl64 (get_or bits (i - word_shift) 0) bit_shift) else 0 in
    if ltb 0 bit_shift && ltb word_shift i
    then bit_or low (shr64 (get_or bits (i - word_shift - 1) 0) (64 - bit_shift))
    else low

-- The loop over i of shiftWindow, with the rounds left.
unfoldable pub new_words : List ℕ → ℕ → ℕ → ℕ → ℕ → List ℕ
unfolding new_word
new_words bits word_shift bit_shift zero i = []
new_words bits word_shift bit_shift (suc rounds) i =
    new_word bits word_shift bit_shift i ∷ new_words bits word_shift bit_shift rounds (suc i)

-- `for i := range t.SeenBits { t.SeenBits[i] = 0 }`.
abbrev zeroed : List ℕ → List ℕ
zeroed bits = replicate (length bits) 0

unfoldable pub shift_window : List ℕ → ℕ → List ℕ
unfolding new_words
shift_window bits shift =
    if leb anti_replay_window_size shift
    then zeroed bits
    else new_words bits (shift / 64) (shift % 64) (length bits) 0
