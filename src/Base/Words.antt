-- ===== src/Base/Words.antt =====
-- uint64 words: shifts that drop what leaves the word, and a row of words read as one bitmap.
use mathlib.Core.Bool.{not}
use mathlib.Core.List.{List}
use mathlib.Core.Path.{◌≡◌, ap, ◌∙◌}
use mathlib.Core.Bool.{Bool, false}
use native.Mathlib.Nat.{mod-eq_of_lt, pow-le-pow_right, pow-suc}
use native.Mathlib.Omega.{arith}
use Prim.Native.Nat.{ℕ, suc, ◌+◌, ◌-◌, ◌*◌, ◌/◌, ◌%◌, ◌^◌, ◌≤◌, ◌<◌, bit_or, bit_and}
use ipvn.Base.Tests.{◌==◌}
use ipvn.Base.Lists.{get_or}
use ipvn.Base.Bits.{
  bit, bit-zero, bit-or, and-pow, bit-shl_low, bit-shl_high, bit-shr, bit-cut_low, bit-cut_high,
  bit-pow,
}

abbrev pub u64 : ℕ → ℕ
u64 x = x % 2 ^ 64

unfoldable pub shl64 : ℕ → ℕ → ℕ
shl64 x k = x * 2 ^ k % 2 ^ 64

unfoldable pub shr64 : ℕ → ℕ → ℕ
shr64 x k = x / 2 ^ k

-- No bit stands outside the 64 of the word.
abbrev pub IsWord : ℕ → Type 0
IsWord x = (i : ℕ) → 64 ≤ i → bit x i ≡ false

pub zero-IsWord : IsWord 0
zero-IsWord i h = bit-zero i

pub shl64-IsWord : (x k : ℕ) → IsWord (shl64 x k)
unfolding shl64
shl64-IsWord x k i h = bit-cut_high (x * 2 ^ k) 64 i h

pub shr64-IsWord : (x k : ℕ) → IsWord x → IsWord (shr64 x k)
unfolding shr64
shr64-IsWord x k w i h = bit-shr x k i ∙ w (k + i) (omega arith)

pub or-IsWord : (x y : ℕ) → IsWord x → IsWord y → IsWord (bit_or x y)
or-IsWord x y p q i h = rw (bit-or x y i, p i h, q i h)

pub bit-shl64_low : (x k i : ℕ) → i < 64 → i < k → bit (shl64 x k) i ≡ false
unfolding shl64
bit-shl64_low x k i h l = bit-cut_low (x * 2 ^ k) 64 i h ∙ bit-shl_low x k i l

pub bit-shl64_high : (x k i : ℕ) → i < 64 → k ≤ i → bit (shl64 x k) i ≡ bit x (i - k)
unfolding shl64
bit-shl64_high x k i h l =
    let e : i ≡ k + (i - k) = omega arith in
    bit-cut_low (x * 2 ^ k) 64 i h ∙ (ap (bit (x * 2 ^ k)) e ∙ bit-shl_high x k (i - k))

pub bit-shr64 : (x k i : ℕ) → bit (shr64 x k) i ≡ bit x (k + i)
unfolding shr64
bit-shr64 x k i = bit-shr x k i

-- `uint64(1) << k`.
pub shl64_one : (k : ℕ) → k < 64 → shl64 1 k ≡ 2 ^ k
unfolding shl64
shl64_one k h =
    let one_less : 2 ^ suc k ≤ 2 ^ 64 = pow-le-pow_right {n = 2} (omega arith) h in
    let fits : 2 ^ k < 2 ^ 64 = omega (arith, pow-suc 2 k) in
    let one : 1 * 2 ^ k ≡ 2 ^ k = omega arith in rw one (mod-eq_of_lt fits)

pub bit-mask : (k i : ℕ) → k < 64 → bit (shl64 1 k) i ≡ (i == k)
bit-mask k i h = rw (shl64_one k h) (bit-pow k i)

-- `w & (1 << k) != 0`.
pub test-mask : (w k : ℕ) → k < 64 → (bit_and w (shl64 1 k) == 0) ≡ not (bit w k)
test-mask w k h = rw (shl64_one k h) (and-pow w k)

-- Position d of a row of words.
abbrev pub position : List ℕ → ℕ → Bool
position ws d = bit (get_or ws (d / 64) 0) (d % 64)
