-- ===== src/L2/Kademlia.antt =====
-- RoutingTable of src/pkg/l2/dht_kademlia.go: 256 buckets of contacts by the prefix they share with
-- the node. An identifier is its row of 32 bytes. SHA-256, and sort.Slice of the Go library, are
-- parameters. The lock makes each call one step.
pub mod Buckets
pub mod Table
pub mod Invariant
pub mod Distances
pub mod Closest
mod Tests
use Prim.Native.Nat.{bit_xor}
use ipvn.Base.{
  take, ℕ, zero, suc, ◌+◌, ◌-◌, ◌*◌, String, Bool, true, false, ◌&&◌, List, [], ◌∷◌, ◌++◌, Option,
  none, some, ltb, leb, ◌==◌, if◌then◌else◌, length, get_or, set, replicate,
}

abbrev pub k_bucket_size : ℕ
k_bucket_size = 8

abbrev pub replacement_cache_size : ℕ
replacement_cache_size = 4

abbrev pub id_byte_len : ℕ
id_byte_len = 32

abbrev pub NodeId : Type 0
NodeId = List ℕ

pub record Contact : Type 0 where
  pub id : NodeId
  pub did : String
  pub endpoint : String
  pub last_seen : ℕ

abbrev pub same_id : NodeId → NodeId → Bool
same_id [] [] = true
same_id (a ∷ xs) (b ∷ ys) = a == b && same_id xs ys
same_id xs ys = false

abbrev pub xor_distance : NodeId → NodeId → List ℕ
xor_distance [] ys = []
xor_distance (a ∷ xs) [] = []
xor_distance (a ∷ xs) (b ∷ ys) = bit_xor a b ∷ xor_distance xs ys

-- bits.LeadingZeros8.
abbrev pub leading_zeros8 : ℕ → ℕ
leading_zeros8 x =
    if leb 128 x
    then 0
    else (if leb 64 x
        then 1
        else (if leb 32 x
            then 2
            else (if leb 16 x
                then 3
                else (if leb 8 x
                    then 4
                    else (if leb 4 x
                        then 5
                        else (if leb 2 x then 6 else (if leb 1 x then 7 else 8)))))))

-- The loop of CommonPrefixLen from byte i on.
unfoldable pub zeros_from : ℕ → List ℕ → ℕ
zeros_from i [] = id_byte_len * 8
zeros_from i (val ∷ dist) =
    let rest = zeros_from (suc i) dist in if val == 0 then rest else i * 8 + leading_zeros8 val

unfoldable pub common_prefix_len : NodeId → NodeId → ℕ
common_prefix_len a b = zeros_from 0 (xor_distance a b)

-- `CompareDistance(d1, d2) < 0`: bytes.Compare.
abbrev pub is_less : List ℕ → List ℕ → Bool
is_less ds [] = false
is_less [] (e ∷ es) = true
is_less (d ∷ ds) (e ∷ es) = if ltb d e then true else (if d == e then is_less ds es else false)

pub record RoutingTable : Type 0 where
  pub self_id : NodeId
  pub buckets : List (List Contact)
  pub replacements : List (List Contact)

unfoldable pub new_routing_table : NodeId → RoutingTable
new_routing_table self_id = record {
  self_id = self_id;
  buckets = replicate 256 [];
  replacements = replicate 256 [];
}

-- The bucket of an identifier.
unfoldable pub bucket_of : NodeId → NodeId → ℕ
bucket_of self_id id = let cpl = common_prefix_len self_id id in if leb 256 cpl then 255 else cpl

abbrev pub has_id : NodeId → List Contact → Bool
has_id id [] = false
has_id id (item ∷ bucket) = if same_id item.id id then true else has_id id bucket

-- `append(bucket[:i], bucket[i+1:]...)` at the first contact with the identifier.
abbrev pub without_id : NodeId → List Contact → List Contact
without_id id [] = []
without_id id (item ∷ bucket) = if same_id item.id id then bucket else item ∷ without_id id bucket

-- `rep[i] = c` at the first contact with the identifier of c.
abbrev pub replaced : Contact → List Contact → List Contact
replaced c [] = []
replaced c (item ∷ rep) = if same_id item.id c.id then c ∷ rep else item ∷ replaced c rep

abbrev pub without_oldest : List Contact → List Contact
without_oldest [] = []
without_oldest (item ∷ rep) = rep

-- The cache of replacements after a contact for which its bucket has no room.
unfoldable pub queue_replacement : Contact → List Contact → List Contact
queue_replacement c rep =
    if has_id c.id rep
    then replaced c rep
    else (if ltb (length rep) replacement_cache_size
        then rep ++ (c ∷ [])
        else without_oldest rep ++ (c ∷ []))

-- The bucket and the cache after the contact.
unfoldable pub update_bucket : Contact → List Contact → List Contact → List Contact × List Contact
update_bucket c bucket rep =
    if has_id c.id bucket
    then (without_id c.id bucket ++ (c ∷ []), rep)
    else (if ltb (length bucket) k_bucket_size
        then (bucket ++ (c ∷ []), rep)
        else (bucket, queue_replacement c rep))

unfoldable pub update : RoutingTable → Contact → RoutingTable
update rt c =
    let cpl = bucket_of rt.self_id c.id in
    let (bucket, rep) =
      update_bucket c (get_or rt.buckets cpl []) (get_or rt.replacements cpl []) in
    if same_id c.id rt.self_id then rt else record rt {
      buckets = set rt.buckets cpl bucket;
      replacements = set rt.replacements cpl rep;
    }

unfoldable pub update_all : RoutingTable → List Contact → RoutingTable
update_all rt [] = rt
update_all rt (c ∷ cs) = update_all (update rt c) cs

-- All contacts, bucket by bucket.
abbrev pub all_contacts : List (List Contact) → List Contact
all_contacts [] = []
all_contacts (bucket ∷ buckets) = bucket ++ all_contacts buckets

abbrev pub total_in : List (List Contact) → ℕ
total_in [] = 0
total_in (bucket ∷ buckets) = length bucket + total_in buckets

unfoldable pub total_contacts : RoutingTable → ℕ
total_contacts rt = total_in rt.buckets

-- `CompareDistance` of the scores of two contacts.
abbrev pub is_closer : NodeId → Contact → Contact → Bool
is_closer target a b = is_less (xor_distance target a.id) (xor_distance target b.id)

-- A contact stands with its score, which is a function of it.
module _ (sort_slice : (Contact → Contact → Bool) → List Contact → List Contact) where
  unfoldable pub find_closest : RoutingTable → NodeId → ℕ → List Contact
  find_closest rt target count =
      let scored = sort_slice (is_closer target) (all_contacts rt.buckets) in
      if ltb count (length scored) then take count scored else scored
