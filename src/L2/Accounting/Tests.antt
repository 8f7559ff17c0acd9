-- ===== src/L2/Accounting/Tests.antt =====
-- Two peers, and quotients kept as pairs of numbers.
use ipvn.Base.{ℕ, ◌*◌, ◌≡◌, refl, List, [], ◌∷◌, leb, arith}
use ipvn.Base.Dict.{lookup}
use ipvn.L2.Accounting.{
  throttled, normal, Ratios, new_transit_accounting, account_or_new, within_courtesy, record_tx,
  record_rx, slash_peer, get_peer_tier,
}
use ipvn.L2.Accounting.Ledger.{
  Event, tx, rx, force, no_traffic, plus_event, total_traffic, wrapped, apply_all, traffic_of,
  apply_all-total_traffic,
}
use ipvn.L2.Accounting.Tiers.{IsExact, fair_tier, get_peer_tier-record_tx, slash_peer-undone}

abbrev pairs : Ratios
pairs = record {
  R = ℕ × ℕ;
  quotient = λ a b. (a, b);
  zero_ratio = (0, 1);
  one_ratio = (1, 1);
  is_whole = λ r. leb r.1 r.0;
  is_half = λ r. leb r.1 (2 * r.0);
  is_fifth = λ r. leb r.1 (5 * r.0);
}

pairs-IsExact : IsExact pairs
pairs-IsExact = record {
  whole = λ a b p q r. refl;
  half = λ a b p q r. refl;
  fifth = λ a b p q r. refl;
}

abbrev day : List Event
day = tx "did:a" 900000 1 ∷ rx "did:a" 400000 2 ∷ force "did:a" 3 ∷ rx "did:b" 70 4 ∷ []

apply_all-total_traffic_example :
    traffic_of pairs (lookup "did:a" (apply_all pairs (new_transit_accounting pairs) day).accounts)
    ≡ wrapped (total_traffic "did:a" no_traffic day)
apply_all-total_traffic_example = apply_all-total_traffic pairs "did:a" day

get_peer_tier-record_tx_example :
    get_peer_tier pairs
      (record_tx pairs (apply_all pairs (new_transit_accounting pairs) day) "did:a" 900000 5)
      "did:a"
    ≡ fair_tier (plus_event "did:a" (total_traffic "did:a" no_traffic day) (tx "did:a" 900000 5))
unfolding total_traffic
get_peer_tier-record_tx_example =
    get_peer_tier-record_tx pairs "did:a" day 900000 5 pairs-IsExact (omega arith) (omega arith)
      (omega arith)

slash_peer-undone_example :
    (get_peer_tier pairs (slash_peer pairs (new_transit_accounting pairs) "did:a" 1) "did:a"
      ≡ throttled)
    × (get_peer_tier pairs
          (record_rx pairs (slash_peer pairs (new_transit_accounting pairs) "did:a" 1) "did:a" 70 2)
          "did:a"
        ≡ normal)
unfolding within_courtesy account_or_new new_transit_accounting lookup
slash_peer-undone_example =
    slash_peer-undone pairs (new_transit_accounting pairs) "did:a" 1 70 2 refl
