-- ===== src/L1/Pacing/Tests.antt =====
-- A pacer with a margin of ten percent, and one with a margin that is more than the rate.
use ipvn.Base.{◌<◌, ◌≡◌, refl, arith}
use ipvn.L1.Pacing.{
  Pacer, default_pacer_config, new_packet_pacer, update_bottleneck_rate, recalculate_rate,
  rate_below_margin,
}
use ipvn.L1.Pacing.Rate.{update_bottleneck_rate-wraps}

abbrev pacer : Pacer
pacer = new_packet_pacer default_pacer_config

pacer_rate : pacer.limit ≡ 1179648
unfolding new_packet_pacer default_pacer_config recalculate_rate rate_below_margin
pacer_rate = refl

abbrev greedy : Pacer
greedy = new_packet_pacer (record {
  bottleneck_rate = 1000;
  safety_margin_percent = 200;
  max_burst_packets = 1;
  min_interval = 0;
})

update_bottleneck_rate-wraps_example : 1000 < (update_bottleneck_rate greedy 1000).limit
unfolding new_packet_pacer recalculate_rate
update_bottleneck_rate-wraps_example =
    update_bottleneck_rate-wraps greedy 1000 (omega arith) (omega arith) (omega arith) (omega arith)
