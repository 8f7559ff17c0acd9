-- ===== src/Base/Bits.antt =====
-- The bits of a native number, and what `|`, `&`, `<<`, `>>` and a cut to w bits do to them.
use Prim.Native.Nat.{
  ℕ, zero, suc, ◌+◌, ◌*◌, ◌/◌, ◌%◌, ◌^◌, ◌≤◌, ◌<◌, min, max, bit_or, bit_and, digits, bitwise,
  bit_or-bitwise, bit_and-bitwise,
}
use mathlib.Core.Path.{◌≡◌, refl, sym, ap, ◌∙◌}
use mathlib.Core.Bool.{Bool, false, ◌||◌, not}
use native.Mathlib.Nat.{pow-suc, le_refl, div-div-eq-div-mul, mod_def}
use native.Mathlib.Omega.{arith}
use ipvn.Base.Tests.{◌==◌}

-- Bit i of x.
abbrev pub bit : ℕ → ℕ → Bool
bit x zero = x % 2 == 1
bit x (suc i) = bit (x / 2) i

-- The native operations recur on binary digits with fuel; any fuel from `a` on gives the same.
module _ (z : ℕ → ℕ) (f : ℕ → ℕ → ℕ) where
  digits_suffice : (n m a b : ℕ) → a ≤ n → a ≤ m → digits z f n a b ≡ digits z f m a b
  digits_suffice zero zero a b p q = refl
  digits_suffice zero (suc m) zero b p q = refl
  digits_suffice zero (suc m) (suc a) b p q = absurd (omega arith)
  digits_suffice (suc n) zero zero b p q = refl
  digits_suffice (suc n) zero (suc a) b p q = absurd (omega arith)
  digits_suffice (suc n) (suc m) zero b p q = refl
  digits_suffice (suc n) (suc m) (suc a) b p q =
      rw (digits_suffice n m (suc a / 2) (b / 2) (omega arith) (omega arith))

  bitwise_halves :
      (x y : ℕ)
      → bitwise z f (suc x) y ≡ bitwise z f (suc x / 2) (y / 2) * 2 + f (suc x % 2) (y % 2)
  bitwise_halves x y =
      let same = digits_suffice x (suc x / 2) (suc x / 2) (y / 2) (omega arith) (le_refl _) in
      omega (arith, same)

or_lowest : (a b : ℕ) → bit_or a b ≡ bit_or (a / 2) (b / 2) * 2 + max (a % 2) (b % 2)
or_lowest zero b = simp bit_or-bitwise (omega arith)
or_lowest (suc a) b = simp bit_or-bitwise (bitwise_halves (λ y. y) max a b)

and_lowest : (a b : ℕ) → bit_and a b ≡ bit_and (a / 2) (b / 2) * 2 + min (a % 2) (b % 2)
and_lowest zero b = simp bit_and-bitwise (omega arith)
and_lowest (suc a) b = simp bit_and-bitwise (bitwise_halves (λ y. 0) min a b)

pub bit-zero : (i : ℕ) → bit 0 i ≡ false
bit-zero zero = refl
bit-zero (suc i) = bit-zero i

pub bit-or : (a b i : ℕ) → bit (bit_or a b) i ≡ (bit a i || bit b i)
bit-or a b zero = ground (arith, or_lowest a b)
bit-or a b (suc i) =
    let half : bit_or a b / 2 ≡ bit_or (a / 2) (b / 2) = omega (arith, or_lowest a b) in
    rw half (bit-or (a / 2) (b / 2) i)

and-zero_fuel : (n a : ℕ) → a ≤ n → bit_and a 0 ≡ 0
and-zero_fuel n zero h = refl
and-zero_fuel zero (suc a) h = absurd (omega arith)
and-zero_fuel (suc n) (suc a) h =
    omega (arith, and_lowest (suc a) 0, and-zero_fuel n (suc a / 2) (omega arith))

-- `x & (1 << k) == 0` tests bit k.
pub and-pow : (x k : ℕ) → (bit_and x (2 ^ k) == 0) ≡ not (bit x k)
and-pow x zero = ground (arith, and_lowest x 1, and-zero_fuel (x / 2) (x / 2) (omega arith))
and-pow x (suc k) = ground (arith, and_lowest x (2 ^ suc k), pow-suc 2 k, and-pow (x / 2) k)

pow-suc_left : (k : ℕ) → 2 ^ suc k ≡ 2 * 2 ^ k
pow-suc_left k = omega (arith, pow-suc 2 k)

twice : (x k : ℕ) → x * 2 ^ suc k ≡ 2 * (x * 2 ^ k)
twice x k = omega (arith, ap (λ (t : ℕ). x * t) (pow-suc 2 k))

pub bit-shl_low : (x k i : ℕ) → i < k → bit (x * 2 ^ k) i ≡ false
bit-shl_low x zero i h = elim h [ ]
bit-shl_low x (suc k) zero h = ground (arith, twice x k)
bit-shl_low x (suc k) (suc i) h =
    let half : x * 2 ^ suc k / 2 ≡ x * 2 ^ k = omega (arith, twice x k) in
    rw half (bit-shl_low x k i (omega arith))

pub bit-shl_high : (x k i : ℕ) → bit (x * 2 ^ k) (k + i) ≡ bit x i
bit-shl_high x zero i =
    let e : x * 2 ^ 0 ≡ x = omega arith in let f : 0 + i ≡ i = omega arith in rw (e, f)
bit-shl_high x (suc k) i =
    let e : suc k + i ≡ suc (k + i) = omega arith in
    let half : x * 2 ^ suc k / 2 ≡ x * 2 ^ k = omega (arith, twice x k) in
    rw e (ap (λ (t : ℕ). bit t (k + i)) half ∙ bit-shl_high x k i)

pub bit-shr : (x k i : ℕ) → bit (x / 2 ^ k) i ≡ bit x (k + i)
bit-shr x zero i =
    let e : x / 2 ^ 0 ≡ x = omega arith in let f : 0 + i ≡ i = omega arith in rw (e, f)
bit-shr x (suc k) i =
    let e : suc k + i ≡ suc (k + i) = omega arith in
    let half : x / 2 ^ suc k ≡ x / 2 / 2 ^ k =
      ap (λ (t : ℕ). x / t) (pow-suc_left k) ∙ sym (div-div-eq-div-mul x 2 (2 ^ k)) in
    rw (e, half) (bit-shr (x / 2) k i)

cut-odd : (x n : ℕ) → x % 2 ^ suc n % 2 ≡ x % 2
cut-odd x n = rw (pow-suc_left n) (omega (arith, mod_def x (2 * 2 ^ n)))

cut-half : (x n : ℕ) → x % 2 ^ suc n / 2 ≡ x / 2 % 2 ^ n
cut-half x n = rw (pow-suc_left n) (
    omega (
      arith,
      mod_def x (2 * 2 ^ n),
      mod_def (x / 2) (2 ^ n),
      ap (λ (t : ℕ). 2 ^ n * t) (div-div-eq-div-mul x 2 (2 ^ n)),
    ))

-- A cut to n bits.
pub bit-cut_low : (x n i : ℕ) → i < n → bit (x % 2 ^ n) i ≡ bit x i
bit-cut_low x zero i h = elim h [ ]
bit-cut_low x (suc n) zero h = rw (cut-odd x n)
bit-cut_low x (suc n) (suc i) h = rw (cut-half x n) (bit-cut_low (x / 2) n i (omega arith))

pub bit-cut_high : (x n i : ℕ) → n ≤ i → bit (x % 2 ^ n) i ≡ false
bit-cut_high x zero i h = let e : x % 2 ^ 0 ≡ 0 = omega arith in rw e (bit-zero i)
bit-cut_high x (suc n) zero h = absurd (omega arith)
bit-cut_high x (suc n) (suc i) h = rw (cut-half x n) (bit-cut_high (x / 2) n i (omega arith))

pub bit-pow : (k i : ℕ) → bit (2 ^ k) i ≡ (i == k)
bit-pow zero zero = refl
bit-pow zero (suc i) = bit-zero i ∙ ground arith
bit-pow (suc k) zero = ground (arith, pow-suc 2 k)
bit-pow (suc k) (suc i) =
    let half : 2 ^ suc k / 2 ≡ 2 ^ k = omega (arith, pow-suc 2 k) in
    rw half (bit-pow k i ∙ ground arith)
