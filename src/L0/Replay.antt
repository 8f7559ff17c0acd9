-- ===== src/L0/Replay.antt =====
-- AntiReplayFilter of src/pkg/l0/anti_replay.go: a window of 1024 positions in 16 words of 64 bits.
pub mod Shift
pub mod Carry
pub mod Marks
pub mod Refinement
mod Tests
use ipvn.Base.{
  ℕ, zero, suc, ◌+◌, ◌-◌, ◌/◌, ◌%◌, bit_and, bit_or, Bool, true, false, not, List, leb, ltb, ◌==◌,
  if◌then◌else◌, get_or, set, replicate, [], ◌∷◌,
}
use ipvn.Base.Words.{shl64, shr64, u64}

abbrev pub replay_window_size1024 : ℕ
replay_window_size1024 = 1024

pub record Filter : Type 0 where
  pub last_seq : ℕ
  pub bitmap : List ℕ
  pub accepted : ℕ
  pub rejected : ℕ

-- `[16]uint64{}`.
abbrev pub no_words : List ℕ
no_words = replicate 16 0

unfoldable pub new_filter : Filter
new_filter = record { last_seq = 0; bitmap = no_words; accepted = 0; rejected = 0 }

-- `for i := 15; i >= words; i-- { bitmap[i] = bitmap[i-words] }`, with the rounds left: the index
-- of the next round is `words` above the rounds left after it.
unfoldable pub move_words : ℕ → ℕ → List ℕ → List ℕ
move_words words zero bm = bm
move_words words (suc r) bm = move_words words r (set bm (words + r) (get_or bm r 0))

-- `for i := 0; i < words; i++ { bitmap[i] = 0 }`, from index i with the rounds left.
unfoldable pub clear_words : ℕ → ℕ → List ℕ → List ℕ
clear_words zero i bm = bm
clear_words (suc r) i bm = clear_words r (suc i) (set bm i 0)

-- `for i := 15; i > 0; i-- { bitmap[i] = bitmap[i] << bits | bitmap[i-1] >> (64 - bits) }`.
unfoldable pub carry_bits : ℕ → ℕ → List ℕ → List ℕ
carry_bits bits zero bm = bm
carry_bits bits (suc r) bm =
    carry_bits bits r (
      set bm (suc r)
        (bit_or (shl64 (get_or bm (suc r) 0) bits) (shr64 (get_or bm r 0) (64 - bits))))

unfoldable pub shift_words : ℕ → List ℕ → List ℕ
shift_words words bm =
    if ltb 0 words then clear_words words 0 (move_words words (16 - words) bm) else bm

unfoldable pub shift_bits : ℕ → List ℕ → List ℕ
shift_bits bits bm =
    let carried = carry_bits bits 15 bm in
    if ltb 0 bits then set carried 0 (shl64 (get_or carried 0 0) bits) else bm

unfoldable pub shift_left : List ℕ → ℕ → List ℕ
shift_left bm diff =
    if leb 16 (diff / 64) then no_words else shift_bits (diff % 64) (shift_words (diff / 64) bm)

-- `bitmap[diff/64] |= 1 << (diff%64)`.
unfoldable pub mark : List ℕ → ℕ → List ℕ
mark bm diff = set bm (diff / 64) (bit_or (get_or bm (diff / 64) 0) (shl64 1 (diff % 64)))

-- `bitmap[diff/64] & (1 << (diff%64)) != 0`.
unfoldable pub is_marked : List ℕ → ℕ → Bool
is_marked bm diff = not (bit_and (get_or bm (diff / 64) 0) (shl64 1 (diff % 64)) == 0)

-- `seq > lastSeq`: `bitmap[0] = 1` on a cleared bitmap, or `bitmap[0] |= 1` on a shifted one.
unfoldable pub advance : List ℕ → ℕ → List ℕ
advance bm diff =
    let shifted = shift_left bm diff in
    if leb replay_window_size1024 diff
    then set no_words 0 1
    else set shifted 0 (bit_or (get_or shifted 0 0) 1)

unfoldable pub validate_and_update : Filter → ℕ → Filter × Bool
validate_and_update f seq =
    let diff = f.last_seq - seq in
    let reject = record f { rejected = u64 (f.rejected + 1) } in
    if ltb f.last_seq seq
    then (
      record f {
        last_seq = seq;
        bitmap = advance f.bitmap (seq - f.last_seq);
        accepted = u64 (f.accepted + 1);
      },
      true,
    )
    else (if leb replay_window_size1024 diff
        then (reject, false)
        else (if is_marked f.bitmap diff
            then (reject, false)
            else (record f { bitmap = mark f.bitmap diff; accepted = u64 (f.accepted + 1) }, true)))

-- The verdicts on the numbers of a list, in its order, with the filter after them.
unfoldable pub validate_all : Filter → List ℕ → Filter × List Bool
validate_all f [] = (f, [])
validate_all f (seq ∷ rest) =
    let (f', verdict) = validate_and_update f seq in
    let (f'', verdicts) = validate_all f' rest in (f'', verdict ∷ verdicts)
