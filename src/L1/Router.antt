-- ===== src/L1/Router.antt =====
-- KleinbergRouter of src/pkg/l1/routing.go. A peer is found by its DID, so a ring holds the DIDs of
-- its peers. Go's float64 is a parameter. The index stands in the order of a range loop.
pub mod Peers
pub use Peers.*
pub mod Distance
pub mod Rings
pub mod Calls
pub mod NextHop
mod Tests
use ipvn.Base.{
  ℕ, zero, suc, ◌+◌, ◌*◌, String, Bool, true, false, ◌||◌, List, [], ◌∷◌, ◌++◌, Option, none, some,
  ltb, leb, ◌==◌, if◌then◌else◌, length, get_or, set, replicate, str_eq, not,
}
use ipvn.Base.Dict.{lookup, insert, delete}
use ipvn.L0.Identity.{Crypto, public_key_from_did}
use ipvn.L1.Router.Distance.{xor_key_distance_n}

module _ {f : Floats} where
  unfoldable pub new_router : String → List ℕ → ℕ → ℕ → ℕ → f.F → Router f
  new_router local_did local_pub rings per_ring total alpha =
      let n = if rings == 0 then 16 else rings in
      let p = if per_ring == 0 then 16 else per_ring in
      let out_of_range = f.less alpha (f.lit 0 1) || f.less (f.lit 1 1) alpha in
      record {
        local_did = local_did;
        local_pub = local_pub;
        num_rings = n;
        peers_per_ring = p;
        max_total_peers = if total == 0 then n * p else total;
        alpha = if out_of_range then f.lit 35 100 else alpha;
        rings = replicate n [];
        peer_index = [];
        total_routes = 0;
      }

  -- A test on the state of an indexed peer.
  abbrev pub peer_is : (HealthState → Bool) → Router f → String → Bool
  peer_is test r did = elim (lookup did r.peer_index) [
    | none ↦ false
    | some p ↦ test p.health_state
  ]

  abbrev pub latency_of : Router f → String → f.F
  latency_of r did = elim (lookup did r.peer_index) [ none ↦ f.lit 0 1 | some p ↦ p.latency_ms ]

  -- The position of the greatest latency, and that latency.
  abbrev pub worst_from : Router f → ℕ → List String → ℕ × f.F → ℕ × f.F
  worst_from r i [] worst = worst
  worst_from r i (did ∷ dids) (worst_idx, worst_latency) =
      let better = f.less worst_latency (latency_of r did) in
      worst_from r (suc i) dids
        (if better then (i, latency_of r did) else (worst_idx, worst_latency))

  -- The position in a full ring that the new peer takes.
  unfoldable pub evict_index : Router f → List String → f.F → Option ℕ
  evict_index r ring latency =
      let (worst_idx, worst_latency) = worst_from r 0 ring (0, latency_of r (get_or ring 0 "")) in
      one_of (first_index (peer_is is_down r) 0 ring) (
        one_of (first_index (peer_is is_unstable r) 0 ring)
          (if f.less latency worst_latency then some worst_idx else none))

  abbrev pub new_peer : String → List ℕ → String → ℕ → f.F → ℕ → RouterPeer f
  new_peer did pub_key addr now latency ring = record {
    did = did;
    public_key = pub_key;
    physical_addr = addr;
    last_seen = now;
    latency_ms = latency;
    ring_index = ring;
    health_state = healthy;
    jitter_ms = f.lit 0 1;
    loss_rate = f.lit 0 1;
    health_score = f.lit 100 1;
    quarantine_until = 0;
  }

  abbrev pub replace_peer : Router f → RouterPeer f → Option ℕ → Router f
  replace_peer r p none = r
  replace_peer r p (some i) =
      let ring = get_or r.rings p.ring_index [] in
      record r {
        rings = set r.rings p.ring_index (set ring i p.did);
        peer_index = insert p.did p (delete (get_or ring i "") r.peer_index);
      }

  -- `p.HealthScore - (p.Locator.LatencyMs / 10.0)`.
  abbrev pub score_of : Router f → String → f.F
  score_of r did = elim (lookup did r.peer_index) [
    | none ↦ f.lit 0 1
    | some p ↦ f.sub p.health_score (f.div p.latency_ms (f.lit 10 1))
  ]

  -- The peer to give up: its DID, ring and position, and the score.
  abbrev pub worst_in_ring :
      Router f → ℕ → ℕ → List String → Option (String × ℕ × ℕ) × f.F → Option (String × ℕ × ℕ) × f.F
  worst_in_ring r ring i [] found = found
  worst_in_ring r ring i (did ∷ dids) (found, score) =
      let worse = f.less (score_of r did) score in
      worst_in_ring r ring (suc i) dids
        (if worse then (some (did, ring, i), score_of r did) else (found, score))

  abbrev pub worst_in_rings :
      Router f
      → ℕ
      → List (List String)
      → Option (String × ℕ × ℕ) × f.F
      → Option (String × ℕ × ℕ) × f.F
  worst_in_rings r ring [] found = found
  worst_in_rings r ring (dids ∷ rings) found =
      worst_in_rings r (suc ring) rings
        (if leb (length dids) 1 then found else worst_in_ring r ring 0 dids found)

  abbrev pub give_up : Router f → Option (String × ℕ × ℕ) → Router f
  give_up r none = r
  give_up r (some (did, ring, i)) = if str_eq did "" then r else record r {
    peer_index = delete did r.peer_index;
    rings = set r.rings ring (remove_at (get_or r.rings ring []) i);
  }

  -- Room for one more peer in all.
  unfoldable pub make_room : Router f → Router f
  make_room r =
      if leb r.max_total_peers (length r.peer_index)
      then give_up r (worst_in_rings r 0 r.rings (none, f.lit 999 1)).0
      else r

  unfoldable pub append_peer : Router f → RouterPeer f → Router f
  append_peer r p = record r {
    rings = set r.rings p.ring_index (get_or r.rings p.ring_index [] ++ (p.did ∷ []));
    peer_index = insert p.did p r.peer_index;
    total_routes = r.total_routes + 1;
  }

  unfoldable pub add_peer : Router f → RouterPeer f → Router f
  add_peer r p =
      let ring = get_or r.rings p.ring_index [] in
      if leb r.peers_per_ring (length ring)
      then replace_peer r p (evict_index r ring p.latency_ms)
      else append_peer (make_room r) p

  abbrev pub moved : Router f → RouterPeer f → String → String → ℕ → f.F → Router f
  moved r p did addr now latency = record r {
    peer_index =
        insert did (record p { physical_addr = addr; last_seen = now; latency_ms = latency })
          r.peer_index;
  }

  -- The router, and whether the DID was valid.
  unfoldable pub add_or_update_peer :
      Crypto → Router f → String → String → f.F → ℕ → Router f × Bool
  add_or_update_peer lib r did addr latency now =
      if str_eq did r.local_did || str_eq did ""
      then (r, true)
      else elim (public_key_from_did lib did) [
        | none ↦ (r, false)
        | some pub_key ↦ elim (lookup did r.peer_index) [
          | some existing ↦ (moved r existing did addr now latency, true)
          | none ↦ (
            add_peer r (
                new_peer did pub_key addr now latency
                  (xor_key_distance_n r.local_pub pub_key r.num_rings)),
            true,
          )
        ]
      ]

  unfoldable pub remove_peer : Router f → String → Router f
  remove_peer r did = elim (lookup did r.peer_index) [
    | none ↦ r
    | some p ↦ record r {
      peer_index = delete did r.peer_index;
      rings = set r.rings p.ring_index (without did (get_or r.rings p.ring_index []));
    }
  ]
