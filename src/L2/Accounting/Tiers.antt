-- ===== src/L2/Accounting/Tiers.antt =====
-- The tiers of src/pkg/l2/accounting.go and the traffic they come from.
use ipvn.Base.{
  ℕ, ◌+◌, ◌*◌, ◌%◌, ◌^◌, ◌<◌, ◌≡◌, refl, ap, ◌∙◌, String, true, ◌&&◌, List, [], ◌∷◌, some, leb,
  if◌then◌else◌, arith, str_eq_refl, length,
}
use ipvn.Base.Dict.{lookup, lookup-insert_self}
use ipvn.L2.Accounting.{
  ServiceTier, priority, normal, best_effort, throttled, Ratios, PeerAccounting, TransitAccounting,
  new_transit_accounting, account_or_new, within_courtesy, with_tier, tier_of_ratio,
  recalculate_tier, record_tx, record_rx, force_throttle, slash_peer, get_peer_tier,
  AccountingStats, count_tier, count_tiers, stats,
}
use ipvn.L2.Accounting.Ledger.{
  Event, tx, rx, force, Traffic, no_traffic, plus_event, total_traffic, wrapped, apply, apply_all,
  traffic_of, apply_all-total_traffic, lookup-recalculate_tier, traffic_of-account_or_new,
}

-- The quotient of two numbers below 2^53 is compared as float64 does: exactly.
pub record IsExact (f : Ratios) : Type 0 where
  pub whole : (a b : ℕ) → 0 < b → a < 2 ^ 53 → b < 2 ^ 53 → f.is_whole (f.quotient a b) ≡ leb b a
  pub half :
      (a b : ℕ) → 0 < b → a < 2 ^ 53 → b < 2 ^ 53 → f.is_half (f.quotient a b) ≡ leb b (2 * a)
  pub fifth :
      (a b : ℕ) → 0 < b → a < 2 ^ 53 → b < 2 ^ 53 → f.is_fifth (f.quotient a b) ≡ leb b (5 * a)

-- The tier that reciprocity asks for, in whole numbers.
abbrev pub fair_tier : Traffic → ServiceTier
fair_tier t =
    if leb t.bytes_tx 1048576 && leb t.packets_tx 1000
    then normal
    else (if leb t.bytes_tx t.bytes_rx
        then priority
        else (if leb t.bytes_tx (2 * t.bytes_rx)
            then normal
            else (if leb t.bytes_tx (5 * t.bytes_rx) then best_effort else throttled)))

module _ (f : Ratios) where
  get_peer_tier-recalculate_tier :
      (ta : TransitAccounting f) (did : String) (acc : PeerAccounting f)
      → get_peer_tier f (recalculate_tier f ta did acc) did ≡ (with_tier f ta acc).tier
  unfolding get_peer_tier
  get_peer_tier-recalculate_tier ta did acc =
      rw (get_peer_tier, lookup-recalculate_tier f ta did did acc, str_eq_refl did) refl

  -- The margins of courtesy that no operation changes.
  abbrev HasMargins : TransitAccounting f → Type 0
  HasMargins ta = (ta.courtesy_bytes ≡ 1048576) × (ta.courtesy_packets ≡ 1000)

  recalculate_tier-HasMargins :
      (ta : TransitAccounting f) (did : String) (acc : PeerAccounting f)
      → HasMargins ta
      → HasMargins (recalculate_tier f ta did acc)
  unfolding recalculate_tier
  recalculate_tier-HasMargins ta did acc (b, p) = (ground arith, ground arith)

  apply_all-HasMargins :
      (ta : TransitAccounting f) (events : List Event)
      → HasMargins ta
      → HasMargins (apply_all f ta events)
  unfolding apply_all apply record_tx record_rx force_throttle
  apply_all-HasMargins ta [] h = h
  apply_all-HasMargins ta (tx did bytes now ∷ events) h =
      apply_all-HasMargins (apply f ta (tx did bytes now)) events
        (recalculate_tier-HasMargins ta did _ h)
  apply_all-HasMargins ta (rx did bytes now ∷ events) h =
      apply_all-HasMargins (apply f ta (rx did bytes now)) events
        (recalculate_tier-HasMargins ta did _ h)
  apply_all-HasMargins ta (force did now ∷ events) h =
      apply_all-HasMargins (apply f ta (force did now)) events h

  with_tier-fair_tier :
      IsExact f
      → (ta : TransitAccounting f) (acc : PeerAccounting f) → HasMargins ta
      → acc.bytes_tx < 2 ^ 53
      → acc.bytes_rx < 2 ^ 53
      → (with_tier f ta acc).tier ≡ fair_tier (traffic_of f (some acc))
  unfolding with_tier within_courtesy tier_of_ratio
  with_tier-fair_tier exact ta acc (b, p) low_tx low_rx = ground (
    arith,
    b,
    p,
    exact.whole acc.bytes_rx acc.bytes_tx,
    exact.half acc.bytes_rx acc.bytes_tx,
    exact.fifth acc.bytes_rx acc.bytes_tx,
  )

  tier-of_totals :
      IsExact f
      → (ta : TransitAccounting f) (did : String) (bytes now : ℕ) (t : Traffic) → HasMargins ta
      → traffic_of f (lookup did ta.accounts) ≡ wrapped t
      → t.bytes_tx + bytes < 2 ^ 53
      → t.bytes_rx < 2 ^ 53
      → t.packets_tx + 1 < 2 ^ 64
      → get_peer_tier f (record_tx f ta did bytes now) did
        ≡ fair_tier (plus_event did t (tx did bytes now))
  unfolding record_tx
  tier-of_totals exact ta did bytes now t margins known low_tx low_rx low_packets =
      let acc = account_or_new f ta did now in
      let next : PeerAccounting f = record acc {
        bytes_tx = (acc.bytes_tx + bytes) % 2 ^ 64;
        packets_tx = (acc.packets_tx + 1) % 2 ^ 64;
        last_active = now;
      } in
      let own = traffic_of-account_or_new f ta did now ∙ known in
      let sent : next.bytes_tx ≡ t.bytes_tx + bytes = ground (arith, ap (λ x. x.bytes_tx) own) in
      let back : next.bytes_rx ≡ t.bytes_rx = ground (arith, ap (λ x. x.bytes_rx) own) in
      let count : next.packets_tx ≡ t.packets_tx + 1 = ground (arith, ap (λ x. x.packets_tx) own) in
      get_peer_tier-recalculate_tier ta did next
      ∙ (with_tier-fair_tier exact ta next margins (omega (arith, sent)) (omega (arith, back))
          ∙ ground (arith, sent, back, count, str_eq_refl did))

-- After any traffic and any forced penalties, a datagram of RecordTx leaves its peer in the tier that
-- its own totals ask for: normal within the margin of 1 MB and 1000 packets, else by what it gave
-- back: all of it, half, a fifth or less. The sums stay below 2^53 bytes and 2^64 packets, and
-- float64 compares quotients of numbers below 2^53 exactly. A penalty leaves no trace.
pub get_peer_tier-record_tx :
    (f : Ratios) (did : String) (events : List Event) (bytes now : ℕ)
    → IsExact f
    → (total_traffic did no_traffic events).bytes_tx + bytes < 2 ^ 53
    → (total_traffic did no_traffic events).bytes_rx < 2 ^ 53
    → (total_traffic did no_traffic events).packets_tx + 1 < 2 ^ 64
    → get_peer_tier f
        (record_tx f (apply_all f (new_transit_accounting f) events) did bytes now)
        did
      ≡ fair_tier (plus_event did (total_traffic did no_traffic events) (tx did bytes now))
unfolding new_transit_accounting
get_peer_tier-record_tx f did events bytes now exact low_tx low_rx low_packets =
    tier-of_totals f exact (apply_all f (new_transit_accounting f) events) did bytes now
      (total_traffic did no_traffic events)
      (apply_all-HasMargins f (new_transit_accounting f) events (refl, refl))
      (apply_all-total_traffic f did events) low_tx low_rx low_packets

module _ (f : Ratios) (ta : TransitAccounting f) (did : String) (acc : PeerAccounting f) where
  account_or_new-found :
      (now : ℕ) → lookup did ta.accounts ≡ some acc → account_or_new f ta did now ≡ acc
  unfolding account_or_new
  account_or_new-found now e = rw (account_or_new, e) refl

  get_peer_tier-found : lookup did ta.accounts ≡ some acc → get_peer_tier f ta did ≡ acc.tier
  unfolding get_peer_tier
  get_peer_tier-found e = rw (get_peer_tier, e) refl

  -- What a peer within its courtesy is given for a received datagram.
  record_rx-normal :
      (bytes now : ℕ)
      → lookup did ta.accounts ≡ some acc
      → within_courtesy f ta acc ≡ true
      → get_peer_tier f (record_rx f ta did bytes now) did ≡ normal
  unfolding record_rx with_tier within_courtesy
  record_rx-normal bytes now e h =
      let found = account_or_new-found now e in
      get_peer_tier-recalculate_tier f ta did _
      ∙ ground (arith, ap (λ a. a.bytes_tx) found, ap (λ a. a.packets_tx) found)

-- SlashPeer, called on a peer within the margin of courtesy, throttles it; but the next datagram that
-- is received from it gives it back the normal tier.
pub slash_peer-undone :
    (f : Ratios) (ta : TransitAccounting f) (did : String) (now bytes later : ℕ)
    → within_courtesy f ta (account_or_new f ta did now) ≡ true
    → (get_peer_tier f (slash_peer f ta did now) did ≡ throttled)
      × (get_peer_tier f (record_rx f (slash_peer f ta did now) did bytes later) did ≡ normal)
unfolding slash_peer force_throttle within_courtesy
slash_peer-undone f ta did now bytes later h =
    let acc = account_or_new f ta did now in
    let slashed : PeerAccounting f = record acc {
      tier = throttled;
      ratio = f.zero_ratio;
      last_active = now;
    } in
    let here = lookup-insert_self did slashed ta.accounts in
    (
      get_peer_tier-found f (slash_peer f ta did now) did slashed here,
      record_rx-normal f (slash_peer f ta did now) did slashed bytes later here h,
    )

module _ (f : Ratios) where
  abbrev pub sum_tiers : AccountingStats → ℕ
  sum_tiers s = s.priority_peers + s.normal_peers + s.best_effort_peers + s.throttled_peers

  sum-count_tier :
      (s : AccountingStats) (t : ServiceTier) → sum_tiers (count_tier f s t) ≡ sum_tiers s + 1
  sum-count_tier s priority = omega arith
  sum-count_tier s normal = omega arith
  sum-count_tier s best_effort = omega arith
  sum-count_tier s throttled = omega arith

  sum-count_tiers :
      (s : AccountingStats) (accounts : List (String × PeerAccounting f))
      → sum_tiers (count_tiers f s accounts) ≡ sum_tiers s + length accounts
  unfolding count_tiers
  sum-count_tiers s [] = omega arith
  sum-count_tiers s ((did, acc) ∷ accounts) =
      omega (arith, sum-count_tiers (count_tier f s acc.tier) accounts, sum-count_tier s acc.tier)

  kept-count_tiers :
      (s : AccountingStats) (accounts : List (String × PeerAccounting f))
      → (count_tiers f s accounts).total_peers_tracked ≡ s.total_peers_tracked
  unfolding count_tiers
  kept-count_tiers s [] = refl
  kept-count_tiers s ((did, acc) ∷ accounts) =
      kept-count_tiers (count_tier f s acc.tier) accounts ∙ kept-count_tier acc.tier
    where
      kept-count_tier :
          (t : ServiceTier) → (count_tier f s t).total_peers_tracked ≡ s.total_peers_tracked
      kept-count_tier priority = refl
      kept-count_tier normal = refl
      kept-count_tier best_effort = refl
      kept-count_tier throttled = refl

-- The four tiers of Stats add up to the peers that are tracked.
pub stats_lem :
    (f : Ratios) (ta : TransitAccounting f)
    → sum_tiers f (stats f ta) ≡ (stats f ta).total_peers_tracked
unfolding stats
stats_lem f ta = omega (
  arith,
  sum-count_tiers f
      (record {
        total_peers_tracked = length ta.accounts;
        priority_peers = 0;
        normal_peers = 0;
        best_effort_peers = 0;
        throttled_peers = 0;
        throttled_enforcements = ta.total_throttled;
      })
      ta.accounts,
  kept-count_tiers f
      (record {
        total_peers_tracked = length ta.accounts;
        priority_peers = 0;
        normal_peers = 0;
        best_effort_peers = 0;
        throttled_peers = 0;
        throttled_enforcements = ta.total_throttled;
      })
      ta.accounts,
)
