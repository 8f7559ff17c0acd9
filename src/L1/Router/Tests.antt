-- ===== src/L1/Router/Tests.antt =====
-- Three peers for two places in one ring, over numbers in thousandths.
use ipvn.Base.{
  inl, ℕ, ◌-◌, ◌*◌, ◌/◌, ◌<◌, ◌≡◌, refl, length, true, List, [], ◌∷◌, some, replicate, ltb, arith,
}
use ipvn.Base.Dict.{lookup, insert, delete}
use ipvn.L0.Identity.{Crypto, public_key_from_did}
use ipvn.L1.Router.{
  RouterPeer, Floats, Router, new_router, add_or_update_peer, add_peer, append_peer, make_room,
  evict_index,
}
use ipvn.L1.Router.Calls.{Call, add_call, call_all, call_all-IsBounded}
use ipvn.L1.Router.NextHop.{hop, IsUp, calculate_hybrid_cost, find_next_hop, find_next_hop-IsUp}
use ipvn.L1.Router.Rings.{IsBounded}
use ipvn.L1.Router.Distance.{xor_key_distance_n}

abbrev thousandths : Floats
thousandths = record {
  F = ℕ;
  lit = λ n d. n * 1000 / d;
  add = λ a b. a;
  sub = λ a b. a - b;
  mul = λ a b. a * b / 1000;
  div = λ a b. a * 1000 / b;
  less = λ a b. ltb a b;
}

abbrev libs : Crypto
libs = record {
  hex_encode = λ b. "00";
  hex_decode = λ t. some (replicate 32 5);
  base64_encode = λ b. "A";
  base64_decode = λ t. some (replicate 32 5);
  split_colon = λ t. "did" ∷ "ipvn7" ∷ t ∷ [];
  text_bytes = λ t. [];
  sha256 = λ b. b;
  ed25519_sign = λ k m. m;
  ed25519_verify = λ k m s. true;
}

abbrev start : Router thousandths
start = new_router {f = thousandths} "did:ipvn7:n" (replicate 32 5) 4 2 8 400

abbrev calls : List (Call thousandths)
calls =
    add_call "did:ipvn7:a" "10.0.0.1" 20 1
    ∷ add_call "did:ipvn7:b" "10.0.0.2" 30 2
    ∷ add_call "did:ipvn7:c" "10.0.0.3" 10 3
    ∷ []

-- The fastest takes the place of the slowest.
third_evicts :
    (call_all libs start calls).rings ≡ ("did:ipvn7:a" ∷ "did:ipvn7:c" ∷ []) ∷ [] ∷ [] ∷ [] ∷ []
unfolding call_all add_or_update_peer new_router public_key_from_did lookup add_peer
    xor_key_distance_n append_peer make_room insert evict_index
third_evicts = refl

call_all-IsBounded_example :
    IsBounded 4 2 (call_all libs start calls)
    × ((key : List ℕ)
        → xor_key_distance_n (replicate 32 5) key 4 < length (call_all libs start calls).rings)
call_all-IsBounded_example =
    call_all-IsBounded {f = thousandths} libs "did:ipvn7:n" (replicate 32 5) 4 2 8 400 calls
      (omega arith) (omega arith)

abbrev two_peers : Router thousandths
two_peers = call_all libs start calls

find_next_hop-IsUp_example :
    (p : RouterPeer thousandths) × (find_next_hop libs two_peers "did:ipvn7:z" ≡ hop p) × IsUp p
unfolding call_all add_or_update_peer new_router public_key_from_did lookup add_peer
    xor_key_distance_n append_peer make_room insert evict_index calculate_hybrid_cost delete
find_next_hop-IsUp_example =
    find_next_hop-IsUp libs two_peers "did:ipvn7:z" (replicate 32 5) refl (inl (refl, refl))
