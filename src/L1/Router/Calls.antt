-- ===== src/L1/Router/Calls.antt =====
-- The router of src/pkg/l1/routing.go over any sequence of calls.
use ipvn.Base.{
  ℕ, ◌<◌, ◌≤◌, ◌≡◌, sym, ◌∙◌, subst, String, ◌||◌, List, [], ◌∷◌, leb, ◌==◌, if◌then◌else◌, length,
  get_or, All-replicate, length-set, length-replicate, arith, Bool-cases, Option-cases, inl, inr,
  str_eq,
}
use ipvn.Base.Dict.{lookup}
use ipvn.L0.Identity.{Crypto, public_key_from_did}
use ipvn.L1.Router.Distance.{xor_key_distance_n, xor_key_distance_n_bound}
use ipvn.L1.Router.Rings.{
  IsBounded, Fit-get_or, Fit-set, without_shorter, replace_peer-IsBounded, make_room-IsBounded,
  append_peer-IsBounded,
}
use ipvn.L1.Router.{
  Floats, RouterPeer, Router, new_router, new_peer, make_room, evict_index, add_peer, moved,
  add_or_update_peer, without, remove_peer,
}

-- A call of the router.
pub data Call (f : Floats) : Type 0 where
  add_call : String → String → f.F → ℕ → Call f
  remove_call : String → Call f

module _ {f : Floats} where
  abbrev pub call : Crypto → Router f → Call f → Router f
  call lib r (add_call did addr latency now) = (add_or_update_peer lib r did addr latency now).0
  call lib r (remove_call did) = remove_peer r did

  unfoldable pub call_all : Crypto → Router f → List (Call f) → Router f
  call_all lib r [] = r
  call_all lib r (c ∷ calls) = call_all lib (call lib r c) calls

  new_router-IsBounded :
      (local_did : String) (local_pub : List ℕ) (rings per_ring total : ℕ) (alpha : f.F)
      → 0 < rings
      → 0 < per_ring
      → IsBounded rings per_ring (new_router {f = f} local_did local_pub rings per_ring total alpha)
  unfolding new_router
  new_router-IsBounded local_did local_pub rings per_ring total alpha some_rings some_peers =
      let n_eq : (if rings == 0 then 16 else rings) ≡ rings = ground arith in
      let empty : List (List String) = [] in
      record {
        some_rings = some_rings;
        ring_number = ground arith;
        ring_size = ground arith;
        all_rings = rw n_eq (length-replicate {A = List String} rings []);
        fit =
            rw n_eq (
              All-replicate (λ (ring : List String). length ring ≤ per_ring) rings []
                (omega arith));
      }

  add_peer-IsBounded :
      {n k : ℕ} (r : Router f) (p : RouterPeer f) → IsBounded n k r → IsBounded n k (add_peer r p)
  unfolding add_peer
  add_peer-IsBounded {n = n} {k = k} r p ok =
      let ring = get_or r.rings p.ring_index [] in
      elim (Bool-cases (leb r.peers_per_ring (length ring))) [
        | inl e ↦ rw e (replace_peer-IsBounded r p (evict_index r ring p.latency_ms) ok)
        | inr e ↦
            let (bounded, shorter) = make_room-IsBounded r p.ring_index ok in
            let room : length ring < k = ground (arith, e, ok.ring_size) in
            rw e (append_peer-IsBounded (make_room r) p bounded (omega (arith, shorter, room)))
      ]

  moved-IsBounded :
      {n k : ℕ} (r : Router f) (p : RouterPeer f) (did addr : String) (now : ℕ) (latency : f.F)
      → IsBounded n k r
      → IsBounded n k (moved r p did addr now latency)
  moved-IsBounded r p did addr now latency ok = record {
    some_rings = ok.some_rings;
    ring_number = ok.ring_number;
    ring_size = ok.ring_size;
    all_rings = ok.all_rings;
    fit = ok.fit;
  }

  add_or_update_peer-IsBounded :
      {n k : ℕ} (lib : Crypto) (r : Router f) (did addr : String) (latency : f.F) (now : ℕ)
      → IsBounded n k r
      → IsBounded n k (add_or_update_peer lib r did addr latency now).0
  unfolding add_or_update_peer
  add_or_update_peer-IsBounded {n = n} {k = k} lib r did addr latency now ok =
      elim (Bool-cases (str_eq did r.local_did || str_eq did "")) [
        | inl e ↦ rw e ok
        | inr e ↦ elim (Option-cases (public_key_from_did lib did)) [
          | inl none_eq ↦ rw (e, none_eq) ok
          | inr (pub_key, key_eq) ↦ elim (Option-cases (lookup did r.peer_index)) [
            | inl none_eq ↦
                rw (e, key_eq, none_eq)
                  (add_peer-IsBounded r
                    (new_peer did pub_key addr now latency
                      (xor_key_distance_n r.local_pub pub_key r.num_rings))
                    ok)
            | inr (p, p_eq) ↦ rw (e, key_eq, p_eq) (moved-IsBounded r p did addr now latency ok)
          ]
        ]
      ]

  remove_peer-IsBounded :
      {n k : ℕ} (r : Router f) (did : String) → IsBounded n k r → IsBounded n k (remove_peer r did)
  unfolding remove_peer
  remove_peer-IsBounded {n = n} {k = k} r did ok = elim (Option-cases (lookup did r.peer_index)) [
    | inl e ↦ rw (remove_peer, e) ok
    | inr (p, e) ↦
        let ring = get_or r.rings p.ring_index [] in
        rw (remove_peer, e)
          (record {
            some_rings = ok.some_rings;
            ring_number = ok.ring_number;
            ring_size = ok.ring_size;
            all_rings = length-set r.rings p.ring_index (without did ring) ∙ ok.all_rings;
            fit =
                Fit-set k r.rings p.ring_index (without did ring) ok.fit (
                  omega
                    (arith, without_shorter did ring, Fit-get_or k r.rings p.ring_index ok.fit));
          })
  ]

  calls-IsBounded :
      {n k : ℕ} (lib : Crypto) (r : Router f) (calls : List (Call f))
      → IsBounded n k r
      → IsBounded n k (call_all lib r calls)
  unfolding call_all
  calls-IsBounded lib r [] ok = ok
  calls-IsBounded lib r (add_call did addr latency now ∷ calls) ok =
      calls-IsBounded lib (add_or_update_peer lib r did addr latency now).0 calls
        (add_or_update_peer-IsBounded lib r did addr latency now ok)
  calls-IsBounded lib r (remove_call did ∷ calls) ok =
      calls-IsBounded lib (remove_peer r did) calls (remove_peer-IsBounded r did ok)

  -- From a new router with some rings of some peers each, any sequence of additions, moves and
  -- removals leaves as many rings as there were and no ring longer than its bound, whoever was
  -- evicted on the way; and the ring that any key is measured into is one of them.
  pub call_all-IsBounded :
      (lib : Crypto) (local_did : String) (local_pub : List ℕ) (rings per_ring total : ℕ)
      (alpha : f.F) (calls : List (Call f))
      → 0 < rings
      → 0 < per_ring
      → IsBounded rings per_ring
          (call_all lib (new_router local_did local_pub rings per_ring total alpha) calls)
        × ((key : List ℕ)
            → xor_key_distance_n local_pub key rings
              < length
                  (call_all lib
                    (new_router {f = f} local_did local_pub rings per_ring total alpha)
                    calls).rings)
  call_all-IsBounded lib local_did local_pub rings per_ring total alpha calls some_rings
        some_peers =
      let start = new_router {f = f} local_did local_pub rings per_ring total alpha in
      let ok : IsBounded rings per_ring (call_all lib start calls) =
        calls-IsBounded lib start calls (
          new_router-IsBounded local_did local_pub rings per_ring total alpha some_rings
            some_peers) in
      (
        ok,
        λ key.
            subst (λ n. xor_key_distance_n local_pub key rings < n) (sym ok.all_rings)
              (xor_key_distance_n_bound local_pub key rings some_rings),
      )
