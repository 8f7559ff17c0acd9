-- ===== src/L1/Router/NextHop.antt =====
-- The choice of a next hop: FindNextHop of src/pkg/l1/routing.go and the candidates of
-- src/pkg/l1/routing_metrics.go.
use ipvn.Base.{
  ℕ, ◌≡◌, refl, String, true, false, ◌⊎◌, inl, inr, List, [], ◌∷◌, Option, none, some,
  if◌then◌else◌, Bool-cases, Option-cases, arith,
}
use ipvn.Base.Dict.{lookup}
use ipvn.L0.Identity.{Crypto, public_key_from_did}
use ipvn.L1.Router.Distance.{xor_key_distance_n}
use ipvn.L1.Router.{
  Floats, RouterPeer, Router, HealthState, healthy, degraded, unstable, unreachable, quarantined,
  is_down, is_healthy,
}

-- The next hop, or the error.
pub data Hop (f : Floats) : Type 0 where
  hop : RouterPeer f → Hop f
  invalid_destination : Hop f
  no_routes : Hop f

is_healthy-is_down : (s : HealthState) → is_healthy s ≡ true → is_down s ≡ false
is_healthy-is_down healthy h = refl
is_healthy-is_down degraded h = refl
is_healthy-is_down unstable h = refl
is_healthy-is_down unreachable h = ground (arith, h)
is_healthy-is_down quarantined h = ground (arith, h)

module _ {f : Floats} where
  unfoldable pub calculate_hybrid_cost : RouterPeer f → List ℕ → ℕ → f.F → f.F
  calculate_hybrid_cost peer pub_dest num_rings alpha =
      let normalized_xor =
        f.div (f.lit (xor_key_distance_n peer.public_key pub_dest num_rings) 1)
          (f.lit num_rings 1) in
      let latency = f.div peer.latency_ms (f.lit 250 1) in
      let norm_lat = if f.less (f.lit 1 1) latency then f.lit 1 1 else latency in
      let health_bonus = f.mul (f.div peer.health_score (f.lit 100 1)) (f.lit 2 10) in
      f.sub (f.add (f.mul (f.sub (f.lit 1 1) alpha) normalized_xor) (f.mul alpha norm_lat))
        health_bonus

  -- The loop over the peers that are not down, with the best so far and its cost.
  abbrev pub best_from :
      (RouterPeer f → f.F)
      → List (String × RouterPeer f)
      → Option (RouterPeer f)
      → f.F
      → Option (RouterPeer f)
  best_from cost [] best best_cost = best
  best_from cost ((did, peer) ∷ peers) best best_cost =
      let skip = best_from cost peers best best_cost in
      let take = best_from cost peers (some peer) (cost peer) in
      if is_down peer.health_state
      then skip
      else if f.less (cost peer) best_cost
      then take
      else skip

  abbrev pub healthiest_from :
      List (String × RouterPeer f) → Option (RouterPeer f) → Option (RouterPeer f)
  healthiest_from [] best = best
  healthiest_from ((did, peer) ∷ peers) none = healthiest_from peers (some peer)
  healthiest_from ((did, peer) ∷ peers) (some best) =
      healthiest_from peers
        (if f.less best.health_score peer.health_score then some peer else some best)

  unfoldable pub find_best_peer_candidate : List (String × RouterPeer f) → List ℕ → ℕ → f.F → Hop f
  find_best_peer_candidate peers pub_dest num_rings alpha =
      elim (best_from (λ p. calculate_hybrid_cost p pub_dest num_rings alpha) peers none
        (f.lit 999999 1)) [
          | some best ↦ hop best
          | none ↦ elim (healthiest_from peers none) [ some best ↦ hop best | none ↦ no_routes ]
        ]

  unfoldable pub find_next_hop : Crypto → Router f → String → Hop f
  find_next_hop lib r dest_did = elim (public_key_from_did lib dest_did) [
    | none ↦ invalid_destination
    | some pub_dest ↦
        let search = find_best_peer_candidate r.peer_index pub_dest r.num_rings r.alpha in
        elim (lookup dest_did r.peer_index) [
          | none ↦ search
          | some direct ↦ if is_healthy direct.health_state then hop direct else search
        ]
  ]

  -- A peer that is up, and one of them that costs less than the limit.
  abbrev pub IsUp : RouterPeer f → Type 0
  IsUp p = is_down p.health_state ≡ false

  abbrev pub HasRoute : (RouterPeer f → f.F) → f.F → List (String × RouterPeer f) → Type 0
  HasRoute cost limit [] = ⊥
  HasRoute cost limit ((did, p) ∷ peers) =
      (IsUp p × (f.less (cost p) limit ≡ true)) ⊎ HasRoute cost limit peers

  -- A best peer that is up stays or gives way to one that is up.
  best_from-IsUp :
      (cost : RouterPeer f → f.F) (peers : List (String × RouterPeer f)) (best : RouterPeer f)
      (best_cost : f.F)
      → IsUp best
      → (p : RouterPeer f) × (best_from cost peers (some best) best_cost ≡ some p) × IsUp p
  best_from-IsUp cost [] best best_cost up = (best, refl, up)
  best_from-IsUp cost ((did, peer) ∷ peers) best best_cost up =
      elim (Bool-cases (is_down peer.health_state)) [
        | inl down ↦ rw down (best_from-IsUp cost peers best best_cost up)
        | inr peer_up ↦ elim (Bool-cases (f.less (cost peer) best_cost)) [
          | inl e ↦ rw (peer_up, e) (best_from-IsUp cost peers peer (cost peer) peer_up)
          | inr e ↦ rw (peer_up, e) (best_from-IsUp cost peers best best_cost up)
        ]
      ]

  best_from-HasRoute :
      (cost : RouterPeer f → f.F) (peers : List (String × RouterPeer f)) (limit : f.F)
      → HasRoute cost limit peers
      → (p : RouterPeer f) × (best_from cost peers none limit ≡ some p) × IsUp p
  best_from-HasRoute cost [] limit route = absurd route
  best_from-HasRoute cost ((did, peer) ∷ peers) limit (inl (up, cheap)) =
      rw (up, cheap) (best_from-IsUp cost peers peer (cost peer) up)
  best_from-HasRoute cost ((did, peer) ∷ peers) limit (inr route) =
      elim (Bool-cases (is_down peer.health_state)) [
        | inl down ↦ rw down (best_from-HasRoute cost peers limit route)
        | inr up ↦ elim (Bool-cases (f.less (cost peer) limit)) [
          | inl e ↦ rw (up, e) (best_from-IsUp cost peers peer (cost peer) up)
          | inr e ↦ rw (up, e) (best_from-HasRoute cost peers limit route)
        ]
      ]

  search-IsUp :
      (peers : List (String × RouterPeer f)) (pub_dest : List ℕ) (num_rings : ℕ) (alpha : f.F)
      → HasRoute (λ p. calculate_hybrid_cost p pub_dest num_rings alpha) (f.lit 999999 1) peers
      → (p : RouterPeer f) × (find_best_peer_candidate peers pub_dest num_rings alpha ≡ hop p)
        × IsUp p
  unfolding find_best_peer_candidate
  search-IsUp peers pub_dest num_rings alpha route =
      let (p, found, up) =
        best_from-HasRoute (λ p. calculate_hybrid_cost p pub_dest num_rings alpha) peers
          (f.lit 999999 1) route in
      (p, rw (find_best_peer_candidate, found) refl, up)

  -- Where the destination is a valid DID and some indexed peer, neither quarantined nor unreachable,
  -- costs less than the limit 999999, there is a next hop, and it is neither quarantined nor
  -- unreachable, whatever the order of the index.
  pub find_next_hop-IsUp :
      (lib : Crypto) (r : Router f) (dest_did : String) (pub_dest : List ℕ)
      → public_key_from_did lib dest_did ≡ some pub_dest
      → HasRoute
          (λ p. calculate_hybrid_cost p pub_dest r.num_rings r.alpha)
          (f.lit 999999 1)
          r.peer_index
      → (p : RouterPeer f) × (find_next_hop lib r dest_did ≡ hop p) × IsUp p
  unfolding find_next_hop
  find_next_hop-IsUp lib r dest_did pub_dest valid route =
      let searched = search-IsUp r.peer_index pub_dest r.num_rings r.alpha route in
      elim (Option-cases (lookup dest_did r.peer_index)) [
        | inl absent ↦ rw (find_next_hop, valid, absent) searched
        | inr (direct, present) ↦ elim (Bool-cases (is_healthy direct.health_state)) [
          | inl fit ↦
              rw (find_next_hop, valid, present, fit)
                (direct, refl, is_healthy-is_down direct.health_state fit)
          | inr e ↦ rw (find_next_hop, valid, present, e) searched
        ]
      ]
