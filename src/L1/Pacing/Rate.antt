-- ===== src/L1/Pacing/Rate.antt =====
-- The rate that a pacer keeps to.
use ipvn.Base.{ℕ, zero, suc, ◌+◌, ◌-◌, ◌*◌, ◌/◌, ◌^◌, ◌≤◌, ◌<◌, ◌≡◌, arith}
use ipvn.Base.Words.{u64}
use ipvn.L1.Pacing.{Pacer, rate_or_least, rate_below_margin, update_bottleneck_rate}

below-bounds :
    (rate taken : ℕ)
    → rate * 100 < 2 ^ 64
    → taken ≤ rate * 100
    → (u64 (rate + 2 ^ 64 - u64 taken / 100) ≤ rate)
      × (rate * 100 ≤ u64 (rate + 2 ^ 64 - u64 taken / 100) * 100 + taken)
below-bounds rate taken k m = (omega arith, omega arith)

scaled : (rate percent : ℕ) → percent ≤ 100 → rate * percent ≤ rate * 100
scaled zero percent h = omega arith
scaled (suc rate) percent h = omega (arith, scaled rate percent h)

-- A rate whose hundredfold stays in uint64, and a margin of at most 100 percent: the rate kept to is
-- not above the one given, and falls short of it by at most the margin.
pub update_bottleneck_rate-bounds :
    (p : Pacer) (rate : ℕ)
    → 0 < rate
    → rate * 100 < 2 ^ 64
    → p.config.safety_margin_percent ≤ 100
    → ((update_bottleneck_rate p rate).limit ≤ rate)
      × (rate * 100
          ≤ (update_bottleneck_rate p rate).limit * 100 + rate * p.config.safety_margin_percent)
unfolding update_bottleneck_rate rate_below_margin
update_bottleneck_rate-bounds p rate h k m =
    let same : rate_or_least rate ≡ rate = ground arith in
    rw same (
      below-bounds rate (rate * p.config.safety_margin_percent) k
        (scaled rate p.config.safety_margin_percent m))

-- A margin above 100 percent that takes more than the rate, with its product in uint64: the rate
-- kept to wraps around, and is above the one given.
pub update_bottleneck_rate-wraps :
    (p : Pacer) (rate : ℕ)
    → 0 < rate
    → rate < 2 ^ 64
    → rate * p.config.safety_margin_percent < 2 ^ 64
    → rate < rate * p.config.safety_margin_percent / 100
    → rate < (update_bottleneck_rate p rate).limit
unfolding update_bottleneck_rate rate_below_margin
update_bottleneck_rate-wraps p rate h w k m =
    let same : rate_or_least rate ≡ rate = ground arith in rw same (omega arith)
