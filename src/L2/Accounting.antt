-- ===== src/L2/Accounting.antt =====
-- TransitAccounting of src/pkg/l2/accounting.go: the traffic with each peer and the tier it is given.
-- Go's float64 is a parameter, each reading of the clock an argument, and a call one step under the
-- lock.
pub mod Ledger
pub mod Tiers
mod Tests
use ipvn.Base.{
  ℕ, ◌+◌, ◌%◌, ◌^◌, String, Bool, true, false, ◌&&◌, List, [], ◌∷◌, Option, none, some, leb, ◌==◌,
  if◌then◌else◌, length,
}
use ipvn.Base.Dict.{lookup, insert}

pub data ServiceTier : Type 0 where
  priority : ServiceTier
  normal : ServiceTier
  best_effort : ServiceTier
  throttled : ServiceTier

-- float64(a) / float64(b), the two constants and the three comparisons of recalculateTier.
pub record Ratios : Type 1 where
  pub R : Type 0
  pub quotient : ℕ → ℕ → R
  pub zero_ratio : R
  pub one_ratio : R
  pub is_whole : R → Bool
  pub is_half : R → Bool
  pub is_fifth : R → Bool

pub record PeerAccounting (f : Ratios) : Type 0 where
  pub did : String
  pub bytes_tx : ℕ
  pub bytes_rx : ℕ
  pub packets_tx : ℕ
  pub packets_rx : ℕ
  pub ratio : f.R
  pub tier : ServiceTier
  pub last_active : ℕ

pub record TransitAccounting (f : Ratios) : Type 0 where
  pub accounts : List (String × PeerAccounting f)
  pub courtesy_bytes : ℕ
  pub courtesy_packets : ℕ
  pub total_enforced : ℕ
  pub total_throttled : ℕ

pub record AccountingStats : Type 0 where
  pub total_peers_tracked : ℕ
  pub priority_peers : ℕ
  pub normal_peers : ℕ
  pub best_effort_peers : ℕ
  pub throttled_peers : ℕ
  pub throttled_enforcements : ℕ

module _ (f : Ratios) where
  unfoldable pub new_transit_accounting : TransitAccounting f
  new_transit_accounting = record {
    accounts = [];
    courtesy_bytes = 1048576;
    courtesy_packets = 1000;
    total_enforced = 0;
    total_throttled = 0;
  }

  abbrev pub new_account : String → ℕ → PeerAccounting f
  new_account did now = record {
    did = did;
    bytes_tx = 0;
    bytes_rx = 0;
    packets_tx = 0;
    packets_rx = 0;
    ratio = f.zero_ratio;
    tier = normal;
    last_active = now;
  }

  -- The account that getOrCreate returns.
  unfoldable pub account_or_new : TransitAccounting f → String → ℕ → PeerAccounting f
  account_or_new ta did now = elim (lookup did ta.accounts) [
    | none ↦ new_account did now
    | some acc ↦ acc
  ]

  unfoldable pub within_courtesy : TransitAccounting f → PeerAccounting f → Bool
  within_courtesy ta acc =
      leb acc.bytes_tx ta.courtesy_bytes && leb acc.packets_tx ta.courtesy_packets

  unfoldable pub tier_of_ratio : f.R → ServiceTier
  tier_of_ratio r =
      if f.is_whole r
      then priority
      else (if f.is_half r then normal else (if f.is_fifth r then best_effort else throttled))

  -- The account after recalculateTier.
  unfoldable pub with_tier : TransitAccounting f → PeerAccounting f → PeerAccounting f
  with_tier ta acc =
      let r = f.quotient acc.bytes_rx acc.bytes_tx in
      if within_courtesy ta acc
      then record acc { ratio = f.one_ratio; tier = normal }
      else (if acc.bytes_tx == 0
          then record acc { ratio = f.one_ratio; tier = priority }
          else record acc { ratio = r; tier = tier_of_ratio r })

  abbrev pub is_throttled : ServiceTier → Bool
  is_throttled throttled = true
  is_throttled tier = false

  -- recalculateTier of the account that stands under `did`, and its counters.
  unfoldable pub recalculate_tier :
      TransitAccounting f → String → PeerAccounting f → TransitAccounting f
  recalculate_tier ta did acc =
      let stored = record ta { accounts = insert did (with_tier ta acc) ta.accounts } in
      let r = f.quotient acc.bytes_rx acc.bytes_tx in
      if within_courtesy ta acc
      then stored
      else (if acc.bytes_tx == 0 then stored else record stored {
        total_throttled =
            if is_throttled (tier_of_ratio r)
            then (ta.total_throttled + 1) % 2 ^ 64
            else ta.total_throttled;
        total_enforced = (ta.total_enforced + 1) % 2 ^ 64;
      })

  unfoldable pub record_tx : TransitAccounting f → String → ℕ → ℕ → TransitAccounting f
  record_tx ta did bytes now =
      let acc = account_or_new ta did now in
      recalculate_tier ta did (record acc {
        bytes_tx = (acc.bytes_tx + bytes) % 2 ^ 64;
        packets_tx = (acc.packets_tx + 1) % 2 ^ 64;
        last_active = now;
      })

  unfoldable pub record_rx : TransitAccounting f → String → ℕ → ℕ → TransitAccounting f
  record_rx ta did bytes now =
      let acc = account_or_new ta did now in
      recalculate_tier ta did (record acc {
        bytes_rx = (acc.bytes_rx + bytes) % 2 ^ 64;
        packets_rx = (acc.packets_rx + 1) % 2 ^ 64;
        last_active = now;
      })

  unfoldable pub get_peer_tier : TransitAccounting f → String → ServiceTier
  get_peer_tier ta did = elim (lookup did ta.accounts) [ none ↦ normal | some acc ↦ acc.tier ]

  unfoldable pub force_throttle : TransitAccounting f → String → ℕ → TransitAccounting f
  force_throttle ta did now =
      let acc = account_or_new ta did now in
      record ta {
        accounts =
            insert did (record acc { tier = throttled; ratio = f.zero_ratio; last_active = now })
              ta.accounts;
        total_throttled = (ta.total_throttled + 1) % 2 ^ 64;
        total_enforced = (ta.total_enforced + 1) % 2 ^ 64;
      }

  unfoldable pub slash_peer : TransitAccounting f → String → ℕ → TransitAccounting f
  slash_peer ta did now = force_throttle ta did now

  unfoldable pub get_peer_stats : TransitAccounting f → String → Option (PeerAccounting f)
  get_peer_stats ta did = lookup did ta.accounts

  abbrev pub count_tier : AccountingStats → ServiceTier → AccountingStats
  count_tier s priority = record s { priority_peers = s.priority_peers + 1 }
  count_tier s normal = record s { normal_peers = s.normal_peers + 1 }
  count_tier s best_effort = record s { best_effort_peers = s.best_effort_peers + 1 }
  count_tier s throttled = record s { throttled_peers = s.throttled_peers + 1 }

  unfoldable pub count_tiers : AccountingStats → List (String × PeerAccounting f) → AccountingStats
  count_tiers s [] = s
  count_tiers s ((did, acc) ∷ accounts) = count_tiers (count_tier s acc.tier) accounts

  unfoldable pub stats : TransitAccounting f → AccountingStats
  stats ta =
      count_tiers
        (record {
          total_peers_tracked = length ta.accounts;
          priority_peers = 0;
          normal_peers = 0;
          best_effort_peers = 0;
          throttled_peers = 0;
          throttled_enforcements = ta.total_throttled;
        })
        ta.accounts
