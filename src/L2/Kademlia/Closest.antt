-- ===== src/L2/Kademlia/Closest.antt =====
-- What FindClosest of src/pkg/l2/dht_kademlia.go returns.
use ipvn.Base.{
  take, drop, take-drop, append_nil, ℕ, zero, suc, ◌≡◌, refl, sym, ap, ◌∙◌, subst, Bool, false,
  List, [], ◌∷◌, ◌++◌, ltb, if◌then◌else◌, length, length-append, All, arith, Bool-cases, inl, inr,
}
use mathlib.Core.List.{Perm, Permᴰ}
use mathlib.Core.Logic.{∥∥₁_elim}
use native.Mathlib.Nat.{ℕ_set}
use ipvn.L2.Kademlia.{
  NodeId, Contact, RoutingTable, is_closer, find_closest, all_contacts, total_in, total_contacts,
}
use ipvn.L2.Kademlia.Distances.{IsAscending, Sorts, is_closer-IsLess}

length-Permᴰ : {a b : List Contact} → Permᴰ a b → length a ≡ length b
length-Permᴰ Permᴰ.nil = refl
length-Permᴰ (Permᴰ.cons e d) = ap suc (length-Permᴰ d)
length-Permᴰ (Permᴰ.swap e f) = refl
length-Permᴰ (Permᴰ.trans d e) = length-Permᴰ d ∙ length-Permᴰ e

length-Perm : (a b : List Contact) → Perm a b → length a ≡ length b
length-Perm a b p = ∥∥₁_elim p (ℕ_set _ _) length-Permᴰ

length-all_contacts :
    (buckets : List (List Contact)) → length (all_contacts buckets) ≡ total_in buckets
length-all_contacts [] = refl
length-all_contacts (bucket ∷ buckets) =
    omega (arith, length-append bucket (all_contacts buckets), length-all_contacts buckets)

length-take :
    (n : ℕ) (cs : List Contact) → length (take n cs) ≡ (if ltb n (length cs) then n else length cs)
length-take zero [] = refl
length-take zero (c ∷ cs) = ground arith
length-take (suc n) [] = ground arith
length-take (suc n) (c ∷ cs) = ground (arith, length-take n cs)

module _ (less : Contact → Contact → Bool) where
  -- No contact of the second list is less than one of the first.
  abbrev pub Bounds : List Contact → List Contact → Type 0
  Bounds front back = All (λ c. All (λ d. less d c ≡ false) back) front

  All-back : (P : Contact → Type 0) (front back : List Contact) → All P (front ++ back) → All P back
  All-back P [] back a = a
  All-back P (c ∷ front) back a = All-back P front back a.1

  All-front :
      (P : Contact → Type 0) (front back : List Contact) → All P (front ++ back) → All P front
  All-front P [] back a = tt
  All-front P (c ∷ front) back a = (a.0, All-front P front back a.1)

  front-IsAscending :
      (front back : List Contact) → IsAscending less (front ++ back) → IsAscending less front
  front-IsAscending [] back a = tt
  front-IsAscending (c ∷ front) back (here, rest) =
      (All-front (λ d. less d c ≡ false) front back here, front-IsAscending front back rest)

  front-Bounds : (front back : List Contact) → IsAscending less (front ++ back) → Bounds front back
  front-Bounds [] back a = tt
  front-Bounds (c ∷ front) back (here, rest) =
      (All-back (λ d. less d c ≡ false) front back here, front-Bounds front back rest)

-- The first contacts of a list in order, the rest of it, and how they stand to each other.
pub record IsNearest (target : NodeId) (all found left : List Contact) : Type 0 where
  pub complete : Perm (found ++ left) all
  pub ascending : IsAscending (is_closer target) found
  pub nearest : Bounds (is_closer target) found left

take-IsNearest :
    (target : NodeId) (n : ℕ) (all scored : List Contact)
    → Perm scored all
    → IsAscending (is_closer target) scored
    → IsNearest target all (take n scored) (drop n scored)
take-IsNearest target n all scored p a =
    let joined : IsAscending (is_closer target) (take n scored ++ drop n scored) =
      subst (IsAscending (is_closer target)) (sym (take-drop n scored)) a in
    record {
      complete = subst (λ cs. Perm cs all) (sym (take-drop n scored)) p;
      ascending = front-IsAscending (is_closer target) (take n scored) (drop n scored) joined;
      nearest = front-Bounds (is_closer target) (take n scored) (drop n scored) joined;
    }

whole-IsNearest :
    (target : NodeId) (all scored : List Contact)
    → Perm scored all
    → IsAscending (is_closer target) scored
    → IsNearest target all scored []
whole-IsNearest target all scored p a =
    let joined : scored ++ [] ≡ scored = append_nil scored in
    record {
      complete = subst (λ cs. Perm cs all) (sym joined) p;
      ascending = a;
      nearest =
          front-Bounds (is_closer target) scored []
            (subst (IsAscending (is_closer target)) (sym joined) a);
    }

-- With a sorting routine that keeps the elements and puts them in the order it is given:
-- FindClosest returns as many contacts as were asked for, or all when there are fewer; with the
-- contacts it leaves out they are those of the table; they stand in ascending distance to the
-- target, and none that is left out is closer to it than one that is returned.
pub find_closest-IsNearest :
    (sort_slice : (Contact → Contact → Bool) → List Contact → List Contact) (rt : RoutingTable)
    (target : NodeId) (count : ℕ)
    → Sorts sort_slice
    → (length (find_closest sort_slice rt target count)
        ≡ (if ltb count (total_contacts rt) then count else total_contacts rt))
      × ((left : List Contact) × IsNearest target
            (all_contacts rt.buckets)
            (find_closest sort_slice rt target count)
            left)
unfolding find_closest total_contacts
find_closest-IsNearest sort_slice rt target count sorts =
    let all = all_contacts rt.buckets in
    let scored = sort_slice (is_closer target) all in
    let (p, a) = sorts (is_closer target) all (is_closer-IsLess target) in
    let size : length scored ≡ total_in rt.buckets =
      length-Perm scored all p ∙ length-all_contacts rt.buckets in
    elim (Bool-cases (ltb count (length scored))) [
      | inl e ↦ rw e (
          (
            ground (arith, length-take count scored, size, e),
            (drop count scored, take-IsNearest target count all scored p a),
          ))
      | inr e ↦ rw e ((ground (arith, size, e), ([], whole-IsNearest target all scored p a)))
    ]
