-- ===== src/L2/Kademlia/Distances.antt =====
-- CompareDistance of src/pkg/l2/dht_kademlia.go as an order, and what sort.Slice owes a caller that
-- brings one.
use ipvn.Base.{ℕ, ◌≡◌, refl, Bool, true, false, List, [], ◌∷◌, All, arith}
use mathlib.Core.List.{Perm}
use ipvn.L2.Kademlia.{NodeId, Contact, is_less, is_closer, xor_distance}

-- The demands of sort.Slice on its less function.
pub record IsLess (less : Contact → Contact → Bool) : Type 0 where
  pub asymmetric : (a b : Contact) → less a b ≡ true → less b a ≡ false
  pub transitive : (a b c : Contact) → less a b ≡ true → less b c ≡ true → less a c ≡ true
  pub negative : (a b c : Contact) → less a b ≡ false → less b c ≡ false → less a c ≡ false

-- No later contact is less than an earlier one.
abbrev pub IsAscending : (Contact → Contact → Bool) → List Contact → Type 0
IsAscending less [] = Unit
IsAscending less (c ∷ cs) = All (λ d. less d c ≡ false) cs × IsAscending less cs

abbrev pub Sorts : ((Contact → Contact → Bool) → List Contact → List Contact) → Type 0
Sorts sort_slice =
    (less : Contact → Contact → Bool) (cs : List Contact)
    → IsLess less
    → Perm (sort_slice less cs) cs × IsAscending less (sort_slice less cs)

is_less_asym : (a b : List ℕ) → is_less a b ≡ true → is_less b a ≡ false
is_less_asym [] [] h = refl
is_less_asym [] (b ∷ bs) h = refl
is_less_asym (a ∷ ds) [] h = absurd (ground arith)
is_less_asym (a ∷ ds) (b ∷ es) h = ground (arith, is_less_asym ds es)

is_less_trans : (a b c : List ℕ) → is_less a b ≡ true → is_less b c ≡ true → is_less a c ≡ true
is_less_trans a b [] h k = absurd (ground arith)
is_less_trans a [] (c ∷ cs) h k = absurd (ground arith)
is_less_trans [] (b ∷ bs) (c ∷ cs) h k = refl
is_less_trans (a ∷ xs) (b ∷ bs) (c ∷ cs) h k = ground (arith, is_less_trans xs bs cs)

is_less_negative :
    (a b c : List ℕ) → is_less a b ≡ false → is_less b c ≡ false → is_less a c ≡ false
is_less_negative a b [] h k = refl
is_less_negative a [] (c ∷ cs) h k = absurd (ground arith)
is_less_negative [] (b ∷ bs) (c ∷ cs) h k = absurd (ground arith)
is_less_negative (a ∷ xs) (b ∷ bs) (c ∷ cs) h k = ground (arith, is_less_negative xs bs cs)

pub is_closer-IsLess : (target : NodeId) → IsLess (is_closer target)
is_closer-IsLess target = record {
  asymmetric = λ a b. is_less_asym (xor_distance target a.id) (xor_distance target b.id);
  transitive = λ a b c.
      is_less_trans (xor_distance target a.id) (xor_distance target b.id)
        (xor_distance target c.id);
  negative = λ a b c.
      is_less_negative (xor_distance target a.id) (xor_distance target b.id)
        (xor_distance target c.id);
}
