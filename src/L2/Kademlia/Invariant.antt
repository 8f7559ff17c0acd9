-- ===== src/L2/Kademlia/Invariant.antt =====
-- The routing table of src/pkg/l2/dht_kademlia.go over any sequence of Update.
use ipvn.Base.{
  ℕ, ◌<◌, ◌≡◌, refl, sym, ◌∙◌, subst, Bool, true, List, [], ◌∷◌, length, get_or, set, replicate,
  length-set, get_or-set_self, get_or-set_ne, get_or-replicate, length-replicate, arith, Bool-cases,
  inl, inr,
}
use native.Mathlib.Decide.{ℕ_discrete}
use ipvn.L2.Kademlia.{
  NodeId, Contact, same_id, RoutingTable, new_routing_table, bucket_of, has_id, update_bucket,
  update, update_all,
}
use ipvn.L2.Kademlia.Buckets.{IsPair, has_id-moved, has_id-append}
use ipvn.L2.Kademlia.Table.{update_bucket-IsPair}

pub record IsTable (rt : RoutingTable) : Type 0 where
  pub bucket_count : length rt.buckets ≡ 256
  pub cache_count : length rt.replacements ≡ 256
  pub pairs :
      (i : ℕ) → i < 256 → IsPair rt.self_id i (get_or rt.buckets i []) (get_or rt.replacements i [])

bucket_of_bound : (self_id id : NodeId) → bucket_of self_id id < 256
unfolding bucket_of
bucket_of_bound self_id id = ground arith

new_routing_table-IsTable : (self_id : NodeId) → IsTable (new_routing_table self_id)
unfolding new_routing_table
new_routing_table-IsTable self_id = record {
  bucket_count = length-replicate {A = List Contact} 256 [];
  cache_count = length-replicate {A = List Contact} 256 [];
  pairs = λ i e.
      subst (λ b. IsPair self_id i b (get_or (replicate 256 []) i []))
        (sym (get_or-replicate 256 [] i))
        (subst (λ r. IsPair self_id i [] r) (sym (get_or-replicate 256 [] i))
          (record {
            fits = ground arith;
            distinct = tt;
            belong = tt;
            rep_fits = ground arith;
            rep_distinct = tt;
            rep_belong = tt;
            apart = tt;
            queued = λ r. refl;
          }));
}

-- The pair of rows of bucket i once bucket k has been written.
set-IsPair :
    (self_id : NodeId) (buckets reps : List (List Contact)) (k : ℕ) (bucket rep : List Contact)
    → k < length buckets
    → k < length reps
    → IsPair self_id k bucket rep
    → (i : ℕ) → IsPair self_id i (get_or buckets i []) (get_or reps i [])
    → IsPair self_id i (get_or (set buckets k bucket) i []) (get_or (set reps k rep) i [])
set-IsPair self_id buckets reps k bucket rep b r new i old = elim (ℕ_discrete k i) [
  | yes e ↦
      subst
        (λ i. IsPair self_id i (get_or (set buckets k bucket) i []) (get_or (set reps k rep) i []))
        e (rw (get_or-set_self buckets k bucket [] b, get_or-set_self reps k rep [] r) new)
  | no e ↦ rw (get_or-set_ne buckets k i bucket [] e, get_or-set_ne reps k i rep [] e) old
]

update-IsTable : (rt : RoutingTable) (c : Contact) → IsTable rt → IsTable (update rt c)
unfolding update
update-IsTable rt c ok =
    let k = bucket_of rt.self_id c.id in
    elim (Bool-cases (same_id c.id rt.self_id)) [
      | inl e ↦ rw e ok
      | inr e ↦
          let bound : k < 256 = bucket_of_bound rt.self_id c.id in
          rw e (record {
            bucket_count =
                length-set rt.buckets k
                  (update_bucket c (get_or rt.buckets k []) (get_or rt.replacements k [])).0
                ∙ ok.bucket_count;
            cache_count =
                length-set rt.replacements k
                  (update_bucket c (get_or rt.buckets k []) (get_or rt.replacements k [])).1
                ∙ ok.cache_count;
            pairs = λ i h.
                set-IsPair rt.self_id rt.buckets rt.replacements k
                  (update_bucket c (get_or rt.buckets k []) (get_or rt.replacements k [])).0
                  (update_bucket c (get_or rt.buckets k []) (get_or rt.replacements k [])).1
                  (omega (arith, bound, ok.bucket_count)) (omega (arith, bound, ok.cache_count))
                  (update_bucket-IsPair rt.self_id k c (refl, e) (get_or rt.buckets k [])
                    (get_or rt.replacements k []) (ok.pairs k bound))
                  i (ok.pairs i h);
          })
    ]

all-IsTable : (rt : RoutingTable) (cs : List Contact) → IsTable rt → IsTable (update_all rt cs)
unfolding update_all
all-IsTable rt [] ok = ok
all-IsTable rt (c ∷ cs) ok = all-IsTable (update rt c) cs (update-IsTable rt c ok)

-- Whatever contacts a new table is given, each of its 256 buckets holds at most 8 contacts and each
-- of its caches at most 4, no identifier stands twice in one, every contact stands in the bucket of
-- the prefix it shares with the node, the node itself is in none, no replacement is in its bucket,
-- and a bucket with room has no replacements.
pub update_all-IsTable :
    (self_id : NodeId) (cs : List Contact) → IsTable (update_all (new_routing_table self_id) cs)
update_all-IsTable self_id cs =
    all-IsTable (new_routing_table self_id) cs (new_routing_table-IsTable self_id)

-- The identifier stands in its bucket.
abbrev pub knows : RoutingTable → NodeId → Bool
knows rt id = has_id id (get_or rt.buckets (bucket_of rt.self_id id) [])

update_bucket-keeps :
    (c : Contact) (id : NodeId) (bucket rep : List Contact)
    → has_id id bucket ≡ true
    → has_id id (update_bucket c bucket rep).0 ≡ true
unfolding update_bucket
update_bucket-keeps c id bucket rep h =
    ground (arith, has_id-append id bucket c, has_id-moved id c bucket)

-- A contact that is in the table of a node stays in it, whichever contacts arrive: no newcomer
-- drives out a contact that is known.
pub knows-update :
    (rt : RoutingTable) (c : Contact) (id : NodeId)
    → IsTable rt
    → knows rt id ≡ true
    → knows (update rt c) id ≡ true
unfolding update
knows-update rt c id ok h =
    let k = bucket_of rt.self_id c.id in
    let next = (update_bucket c (get_or rt.buckets k []) (get_or rt.replacements k [])).0 in
    elim (Bool-cases (same_id c.id rt.self_id)) [
      | inl e ↦ rw e h
      | inr e ↦ elim (ℕ_discrete k (bucket_of rt.self_id id)) [
        | yes s ↦ rw e (
            subst (λ i. has_id id (get_or (set rt.buckets k next) i []) ≡ true) s
              (rw
                (get_or-set_self rt.buckets k next []
                  (omega (arith, bucket_of_bound rt.self_id c.id, ok.bucket_count)))
                (update_bucket-keeps c id (get_or rt.buckets k []) (get_or rt.replacements k [])
                  (subst (λ i. has_id id (get_or rt.buckets i []) ≡ true) (sym s) h))))
        | no s ↦ rw (e, get_or-set_ne rt.buckets k (bucket_of rt.self_id id) next [] s) h
      ]
    ]
