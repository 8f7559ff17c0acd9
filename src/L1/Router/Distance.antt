-- ===== src/L1/Router/Distance.antt =====
-- XORKeyDistanceN of src/pkg/l1/routing_rings.go: the ring of a key.
use Prim.Native.Nat.{bit_xor}
use ipvn.Base.{
  ℕ, zero, suc, ◌+◌, ◌-◌, ◌*◌, ◌/◌, ◌^◌, ◌<◌, ◌≡◌, Bool, ◌||◌, List, [], ◌∷◌, leb, ◌==◌,
  if◌then◌else◌, length, take, drop, not, arith, Bool-cases, inl, inr,
}

-- binary.BigEndian.Uint64.
abbrev pub big_endian : ℕ → List ℕ → ℕ
big_endian acc [] = acc
big_endian acc (b ∷ bytes) = big_endian (acc * 256 + b) bytes

abbrev pub chunk : List ℕ → ℕ → ℕ
chunk key i = big_endian 0 (take 8 (drop (i * 8) key))

-- The leading zeros of a number of so many bits.
abbrev pub leading_zeros : ℕ → ℕ → ℕ
leading_zeros zero x = 0
leading_zeros (suc n) x = let rest = leading_zeros n x in if leb (2 ^ n) x then 0 else suc rest

-- The loop over the chunks, so many of them left from i on.
abbrev pub zeros_of : ℕ → ℕ → List ℕ → List ℕ → ℕ
zeros_of zero i key_a key_b = 0
zeros_of (suc n) i key_a key_b =
    let x = bit_xor (chunk key_a i) (chunk key_b i) in
    let rest = zeros_of n (suc i) key_a key_b in if x == 0 then 64 + rest else leading_zeros 64 x

abbrev pub cut_ring : ℕ → ℕ → ℕ
cut_ring num_rings ring = if leb num_rings ring then num_rings - 1 else ring

unfoldable pub xor_key_distance_n : List ℕ → List ℕ → ℕ → ℕ
xor_key_distance_n key_a key_b num_rings =
    let n = if num_rings == 0 then 16 else num_rings in
    let lz = zeros_of 4 0 key_a key_b in
    let bits_per_ring = if 256 / n == 0 then 1 else 256 / n in
    if not (length key_a == 32) || not (length key_b == 32)
    then n - 1
    else cut_ring n ((256 - lz) / bits_per_ring)

cut_ring_bound : (n ring : ℕ) → 0 < n → cut_ring n ring < n
cut_ring_bound n ring h = ground arith

-- The three ways out of the measure.
ring_bound : (short : Bool) (n ring : ℕ) → 0 < n → (if short then n - 1 else cut_ring n ring) < n
ring_bound short n ring h = elim (Bool-cases short) [
  | inl e ↦ rw e (ground arith)
  | inr e ↦ rw e (cut_ring_bound n ring h)
]

some_rings : (n : ℕ) → 0 < n → (if n == 0 then 16 else n) ≡ n
some_rings n h = ground arith

pub xor_key_distance_n_bound :
    (key_a key_b : List ℕ) (num_rings : ℕ)
    → 0 < num_rings
    → xor_key_distance_n key_a key_b num_rings < num_rings
unfolding xor_key_distance_n
xor_key_distance_n_bound key_a key_b num_rings h =
    let lz = zeros_of 4 0 key_a key_b in
    let bits_per_ring = if 256 / num_rings == 0 then 1 else 256 / num_rings in
    rw (some_rings num_rings h) (
      ring_bound (not (length key_a == 32) || not (length key_b == 32)) num_rings
        ((256 - lz) / bits_per_ring) h)
