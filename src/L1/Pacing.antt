-- ===== src/L1/Pacing.antt =====
-- PacketPacer of src/pkg/l1/pacing.go. The token bucket of golang.org/x/time/rate stands as the
-- limit and the burst it was given; whether it lets a packet go is an argument of Pace.
pub mod Rate
mod Tests
use ipvn.Base.{ℕ, ◌+◌, ◌-◌, ◌*◌, ◌/◌, ◌%◌, ◌^◌, Bool, true, false, leb, ltb, ◌==◌, if◌then◌else◌}
use ipvn.Base.Words.{u64}

pub record PacerConfig : Type 0 where
  pub bottleneck_rate : ℕ
  pub safety_margin_percent : ℕ
  pub max_burst_packets : ℕ
  pub min_interval : ℕ

unfoldable pub default_pacer_config : PacerConfig
default_pacer_config = record {
  bottleneck_rate = 10 * 1024 * 1024 / 8;
  safety_margin_percent = 10;
  max_burst_packets = 1;
  min_interval = 100000;
}

pub record Pacer : Type 0 where
  pub config : PacerConfig
  pub limit : ℕ
  pub burst : ℕ
  pub effective_rate : ℕ
  pub packets_sent : ℕ
  pub bytes_sent : ℕ
  pub throttled_count : ℕ

-- 128 KiB per second in place of no rate.
abbrev pub rate_or_least : ℕ → ℕ
rate_or_least rate = if rate == 0 then 131072 else rate

-- `rateBytesPerSec - margin` in uint64.
unfoldable pub rate_below_margin : ℕ → ℕ → ℕ
rate_below_margin rate percent =
    let margin = u64 (rate * percent) / 100 in u64 (rate + 2 ^ 64 - margin)

unfoldable pub recalculate_rate : Pacer → ℕ → ℕ → Pacer
recalculate_rate p rate burst =
    let effective = rate_below_margin (rate_or_least rate) p.config.safety_margin_percent in
    record p { effective_rate = effective; limit = effective; burst = burst }

abbrev pub with_burst : PacerConfig → PacerConfig
with_burst cfg = record cfg {
  max_burst_packets = if cfg.max_burst_packets == 0 then 1 else cfg.max_burst_packets;
}

unfoldable pub new_packet_pacer : PacerConfig → Pacer
unfolding recalculate_rate
new_packet_pacer cfg =
    recalculate_rate
      (record {
        config = with_burst cfg;
        limit = 0;
        burst = 0;
        effective_rate = 0;
        packets_sent = 0;
        bytes_sent = 0;
        throttled_count = 0;
      })
      cfg.bottleneck_rate ((with_burst cfg).max_burst_packets * 1280)

unfoldable pub update_bottleneck_rate : Pacer → ℕ → Pacer
unfolding recalculate_rate
update_bottleneck_rate p rate =
    recalculate_rate (record p { config = record (p.config) { bottleneck_rate = rate } }) rate
      (p.config.max_burst_packets * 1280)

-- The error of a cancelled wait is `false`; a size of 0 stands for all that are not positive.
unfoldable pub pace : Pacer → ℕ → Bool → Pacer × Bool
pace p packet_size granted =
    let size = if packet_size == 0 then 1280 else packet_size in
    if granted
    then (
      record p { packets_sent = u64 (p.packets_sent + 1); bytes_sent = u64 (p.bytes_sent + size) },
      true,
    )
    else (record p { throttled_count = u64 (p.throttled_count + 1) }, false)
