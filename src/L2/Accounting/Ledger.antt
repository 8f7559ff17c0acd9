-- ===== src/L2/Accounting/Ledger.antt =====
-- What any sequence of RecordTx, RecordRx and ForceThrottle of src/pkg/l2/accounting.go leaves in the
-- account of a peer.
use ipvn.Base.{
  ℕ, ◌+◌, ◌%◌, ◌^◌, ◌≡◌, refl, ap, ◌∙◌, String, true, List, [], ◌∷◌, Option, none, some,
  if◌then◌else◌, arith, Bool-cases, Option-cases, inl, inr, str_eq, str_eq_iff,
}
use ipvn.Base.Dict.{lookup, lookup-insert}
use ipvn.L2.Accounting.{
  Ratios, PeerAccounting, TransitAccounting, new_transit_accounting, account_or_new, with_tier,
  throttled, recalculate_tier, record_tx, record_rx, force_throttle,
}

pub data Event : Type 0 where
  tx : String → ℕ → ℕ → Event
  rx : String → ℕ → ℕ → Event
  force : String → ℕ → Event

-- The four counts of an account; zeros where a peer has none.
pub record Traffic : Type 0 where
  pub bytes_tx : ℕ
  pub bytes_rx : ℕ
  pub packets_tx : ℕ
  pub packets_rx : ℕ

abbrev pub no_traffic : Traffic
no_traffic = record { bytes_tx = 0; bytes_rx = 0; packets_tx = 0; packets_rx = 0 }

abbrev pub wrapped : Traffic → Traffic
wrapped t = record {
  bytes_tx = t.bytes_tx % 2 ^ 64;
  bytes_rx = t.bytes_rx % 2 ^ 64;
  packets_tx = t.packets_tx % 2 ^ 64;
  packets_rx = t.packets_rx % 2 ^ 64;
}

-- The traffic of one peer, added up without a bound.
abbrev pub plus_event : String → Traffic → Event → Traffic
plus_event asked t (tx did bytes now) =
    if str_eq did asked
    then record t { bytes_tx = t.bytes_tx + bytes; packets_tx = t.packets_tx + 1 }
    else t
plus_event asked t (rx did bytes now) =
    if str_eq did asked
    then record t { bytes_rx = t.bytes_rx + bytes; packets_rx = t.packets_rx + 1 }
    else t
plus_event asked t (force did now) = t

unfoldable pub total_traffic : String → Traffic → List Event → Traffic
total_traffic asked t [] = t
total_traffic asked t (e ∷ events) = total_traffic asked (plus_event asked t e) events

module _ (f : Ratios) where
  unfoldable pub apply : TransitAccounting f → Event → TransitAccounting f
  apply ta (tx did bytes now) = record_tx f ta did bytes now
  apply ta (rx did bytes now) = record_rx f ta did bytes now
  apply ta (force did now) = force_throttle f ta did now

  unfoldable pub apply_all : TransitAccounting f → List Event → TransitAccounting f
  apply_all ta [] = ta
  apply_all ta (e ∷ events) = apply_all (apply ta e) events

  abbrev pub traffic_of : Option (PeerAccounting f) → Traffic
  traffic_of none = no_traffic
  traffic_of (some acc) = record {
    bytes_tx = acc.bytes_tx;
    bytes_rx = acc.bytes_rx;
    packets_tx = acc.packets_tx;
    packets_rx = acc.packets_rx;
  }

  pub lookup-recalculate_tier :
      (ta : TransitAccounting f) (did asked : String) (acc : PeerAccounting f)
      → lookup asked (recalculate_tier f ta did acc).accounts
        ≡ (if str_eq did asked then some (with_tier f ta acc) else lookup asked ta.accounts)
  unfolding recalculate_tier
  lookup-recalculate_tier ta did asked acc =
      ground (arith, lookup-insert did asked (with_tier f ta acc) ta.accounts)

  traffic_of-with_tier :
      (ta : TransitAccounting f) (acc : PeerAccounting f)
      → traffic_of (some (with_tier f ta acc)) ≡ traffic_of (some acc)
  unfolding with_tier
  traffic_of-with_tier ta acc = ground arith

  pub traffic_of-account_or_new :
      (ta : TransitAccounting f) (did : String) (now : ℕ)
      → traffic_of (some (account_or_new f ta did now)) ≡ traffic_of (lookup did ta.accounts)
  unfolding account_or_new
  traffic_of-account_or_new ta did now = elim (Option-cases (lookup did ta.accounts)) [
    | inl e ↦ rw (account_or_new, e) refl
    | inr (acc, e) ↦ rw (account_or_new, e) refl
  ]

  -- A recorded datagram, whose account is the peer's own or not.
  recorded :
      (ta : TransitAccounting f) (did asked : String) (acc : PeerAccounting f) (t : Traffic)
      → traffic_of (lookup asked ta.accounts) ≡ t
      → traffic_of (lookup asked (recalculate_tier f ta did acc).accounts)
        ≡ (if str_eq did asked then traffic_of (some acc) else t)
  recorded ta did asked acc t h = elim (Bool-cases (str_eq did asked)) [
    | inl e ↦ rw (lookup-recalculate_tier ta did asked acc, e) (traffic_of-with_tier ta acc)
    | inr e ↦ rw (lookup-recalculate_tier ta did asked acc, e) h
  ]

  mod_add : (a b : ℕ) → (a % 2 ^ 64 + b) % 2 ^ 64 ≡ (a + b) % 2 ^ 64
  mod_add a b = omega arith

  own :
      (ta : TransitAccounting f) (did asked : String) (now : ℕ) (t : Traffic)
      → str_eq did asked ≡ true
      → traffic_of (lookup asked ta.accounts) ≡ t
      → traffic_of (some (account_or_new f ta did now)) ≡ t
  own ta did asked now t e h =
      let same : did ≡ asked = (str_eq_iff did asked).0 e in
      traffic_of-account_or_new ta did now ∙ (ap (λ x. traffic_of (lookup x ta.accounts)) same ∙ h)

  apply-plus_event :
      (ta : TransitAccounting f) (asked : String) (t : Traffic) (e : Event)
      → traffic_of (lookup asked ta.accounts) ≡ wrapped t
      → traffic_of (lookup asked (apply ta e).accounts) ≡ wrapped (plus_event asked t e)
  unfolding apply record_tx record_rx force_throttle
  apply-plus_event ta asked t (tx did bytes now) h =
      let acc = account_or_new f ta did now in
      let next : PeerAccounting f = record acc {
        bytes_tx = (acc.bytes_tx + bytes) % 2 ^ 64;
        packets_tx = (acc.packets_tx + 1) % 2 ^ 64;
        last_active = now;
      } in
      elim (Bool-cases (str_eq did asked)) [
        | inl e ↦ ground (
          arith,
          recorded ta did asked next (wrapped t) h,
          own ta did asked now (wrapped t) e h,
          e,
          mod_add t.bytes_tx bytes,
          mod_add t.packets_tx 1,
        )
        | inr e ↦ ground (arith, recorded ta did asked next (wrapped t) h, e)
      ]
  apply-plus_event ta asked t (rx did bytes now) h =
      let acc = account_or_new f ta did now in
      let next : PeerAccounting f = record acc {
        bytes_rx = (acc.bytes_rx + bytes) % 2 ^ 64;
        packets_rx = (acc.packets_rx + 1) % 2 ^ 64;
        last_active = now;
      } in
      elim (Bool-cases (str_eq did asked)) [
        | inl e ↦ ground (
          arith,
          recorded ta did asked next (wrapped t) h,
          own ta did asked now (wrapped t) e h,
          e,
          mod_add t.bytes_rx bytes,
          mod_add t.packets_rx 1,
        )
        | inr e ↦ ground (arith, recorded ta did asked next (wrapped t) h, e)
      ]
  apply-plus_event ta asked t (force did now) h =
      let acc = account_or_new f ta did now in
      let next : PeerAccounting f = record acc {
        tier = throttled;
        ratio = f.zero_ratio;
        last_active = now;
      } in
      elim (Bool-cases (str_eq did asked)) [
        | inl e ↦
            rw (lookup-insert did asked next ta.accounts, e) (own ta did asked now (wrapped t) e h)
        | inr e ↦ rw (lookup-insert did asked next ta.accounts, e) h
      ]

  apply_all-total :
      (ta : TransitAccounting f) (asked : String) (t : Traffic) (events : List Event)
      → traffic_of (lookup asked ta.accounts) ≡ wrapped t
      → traffic_of (lookup asked (apply_all ta events).accounts)
        ≡ wrapped (total_traffic asked t events)
  unfolding apply_all total_traffic
  apply_all-total ta asked t [] h = h
  apply_all-total ta asked t (e ∷ events) h =
      apply_all-total (apply ta e) asked (plus_event asked t e) events
        (apply-plus_event ta asked t e h)

-- After any sequence of RecordTx, RecordRx and ForceThrottle, the four counts of every peer are the
-- sums over its own datagrams, in 64-bit words: forced penalties and the traffic of other peers
-- change none of them.
pub apply_all-total_traffic :
    (f : Ratios) (asked : String) (events : List Event)
    → traffic_of f (lookup asked (apply_all f (new_transit_accounting f) events).accounts)
      ≡ wrapped (total_traffic asked no_traffic events)
unfolding new_transit_accounting lookup
apply_all-total_traffic f asked events =
    apply_all-total f (new_transit_accounting f) asked no_traffic events refl
