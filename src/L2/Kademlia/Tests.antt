-- ===== src/L2/Kademlia/Tests.antt =====
-- A table of a node with three contacts, and insertion sort as the sorting routine.
use ipvn.Base.{
  ℕ, ◌≡◌, Bool, false, List, [], ◌∷◌, if◌then◌else◌, All, Bool-cases, inl, inr, length, replicate,
  ltb,
}
use mathlib.Core.List.{Perm}
use mathlib.Core.List.Perm
use ipvn.L2.Kademlia.{
  NodeId, Contact, RoutingTable, new_routing_table, update_all, find_closest, all_contacts,
  total_contacts,
}
use ipvn.L2.Kademlia.Distances.{IsLess, IsAscending, Sorts}
use ipvn.L2.Kademlia.Closest.{IsNearest, find_closest-IsNearest}
use ipvn.L2.Kademlia.Invariant.{IsTable, update_all-IsTable}

module _ (less : Contact → Contact → Bool) where
  abbrev insert : Contact → List Contact → List Contact
  insert c [] = c ∷ []
  insert c (d ∷ ds) = if less d c then d ∷ insert c ds else c ∷ d ∷ ds

  abbrev insertion_sort : List Contact → List Contact
  insertion_sort [] = []
  insertion_sort (c ∷ cs) = insert c (insertion_sort cs)

  insert-Perm : (c : Contact) (ds : List Contact) → Perm (insert c ds) (c ∷ ds)
  insert-Perm c [] = Perm.refl (c ∷ [])
  insert-Perm c (d ∷ ds) = elim (Bool-cases (less d c)) [
    | inl e ↦ rw e (Perm.trans (Perm.cons d (insert-Perm c ds)) (Perm.swap c d ds))
    | inr e ↦ rw e (Perm.refl (c ∷ d ∷ ds))
  ]

  insertion_sort-Perm : (cs : List Contact) → Perm (insertion_sort cs) cs
  insertion_sort-Perm [] = Perm.nil
  insertion_sort-Perm (c ∷ cs) =
      Perm.trans (insert-Perm c (insertion_sort cs)) (Perm.cons c (insertion_sort-Perm cs))

  insert-All :
      (P : Contact → Type 0) (c : Contact) (ds : List Contact)
      → P c
      → All P ds
      → All P (insert c ds)
  insert-All P c [] p a = (p, tt)
  insert-All P c (d ∷ ds) p (here, rest) = elim (Bool-cases (less d c)) [
    | inl e ↦ rw e (here, insert-All P c ds p rest)
    | inr e ↦ rw e (p, (here, rest))
  ]

  bound-All :
      IsLess less
      → (c d : Contact) (ds : List Contact) → less d c ≡ false
      → All (λ e. less e d ≡ false) ds
      → All (λ e. less e c ≡ false) ds
  bound-All l c d [] h a = tt
  bound-All l c d (e ∷ ds) h (here, rest) = (l.negative e d c here h, bound-All l c d ds h rest)

  insert-IsAscending :
      IsLess less
      → (c : Contact) (ds : List Contact) → IsAscending less ds
      → IsAscending less (insert c ds)
  insert-IsAscending l c [] a = (tt, tt)
  insert-IsAscending l c (d ∷ ds) (here, rest) = elim (Bool-cases (less d c)) [
    | inl e ↦ rw e (
      insert-All (λ x. less x d ≡ false) c ds (l.asymmetric d c e) here,
      insert-IsAscending l c ds rest,
    )
    | inr e ↦ rw e ((e, bound-All l c d ds e here), (here, rest))
  ]

  insertion_sort-IsAscending :
      IsLess less → (cs : List Contact) → IsAscending less (insertion_sort cs)
  insertion_sort-IsAscending l [] = tt
  insertion_sort-IsAscending l (c ∷ cs) =
      insert-IsAscending l c (insertion_sort cs) (insertion_sort-IsAscending l cs)

insertion_sort-Sorts : Sorts insertion_sort
insertion_sort-Sorts less cs l = (insertion_sort-Perm less cs, insertion_sort-IsAscending less l cs)

abbrev short_id : ℕ → NodeId
short_id first = first ∷ replicate 31 0

abbrev contact : ℕ → Contact
contact first = record {
  id = short_id first;
  did = "did:a";
  endpoint = "10.0.0.1:7000";
  last_seen = 0;
}

abbrev arrivals : List Contact
arrivals = contact 128 ∷ contact 1 ∷ contact 3 ∷ contact 1 ∷ []

abbrev table : RoutingTable
table = update_all (new_routing_table (short_id 0)) arrivals

update_all-IsTable_example : IsTable table
update_all-IsTable_example = update_all-IsTable (short_id 0) arrivals

find_closest-IsNearest_example :
    (length (find_closest insertion_sort table (short_id 2) 2)
      ≡ (if ltb 2 (total_contacts table) then 2 else total_contacts table))
    × ((left : List Contact) × IsNearest
          (short_id 2)
          (all_contacts table.buckets)
          (find_closest insertion_sort table (short_id 2) 2)
          left)
find_closest-IsNearest_example =
    find_closest-IsNearest insertion_sort table (short_id 2) 2 insertion_sort-Sorts
