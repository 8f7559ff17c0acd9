-- ===== src/L2/Kademlia/Buckets.antt =====
-- What Update of src/pkg/l2/dht_kademlia.go keeps in the buckets.
use ipvn.Base.{
  ℕ, suc, ◌≤◌, ◌<◌, ◌≡◌, refl, sym, ap, ◌∙◌, subst, true, false, List, [], ◌∷◌, ◌++◌, if◌then◌else◌,
  length, All, arith, Bool-cases, inl, inr,
}
use ipvn.L2.Kademlia.{
  NodeId, Contact, same_id, bucket_of, has_id, without_id, replaced, k_bucket_size,
  replacement_cache_size,
}

pub same_id_refl : (a : NodeId) → same_id a a ≡ true
same_id_refl [] = refl
same_id_refl (a ∷ xs) = ground (arith, same_id_refl xs)

pub same_id-eq : (a b : NodeId) → same_id a b ≡ true → a ≡ b
same_id-eq [] [] h = refl
same_id-eq [] (b ∷ ys) h = absurd (ground arith)
same_id-eq (a ∷ xs) [] h = absurd (ground arith)
same_id-eq (a ∷ xs) (b ∷ ys) h = ground (arith, same_id-eq xs ys)

-- No identifier stands twice.
abbrev pub IsDistinctById : List Contact → Type 0
IsDistinctById [] = Unit
IsDistinctById (c ∷ cs) = (has_id c.id cs ≡ false) × IsDistinctById cs

-- A contact that belongs into bucket i of a node.
abbrev pub BelongsTo : NodeId → ℕ → Contact → Type 0
BelongsTo self_id i c = (bucket_of self_id c.id ≡ i) × (same_id c.id self_id ≡ false)

-- A bucket with its cache of replacements: they fit, no identifier stands twice, the replacements
-- are not in the bucket, and there is none while the bucket has room.
pub record IsPair (self_id : NodeId) (i : ℕ) (bucket rep : List Contact) : Type 0 where
  pub fits : length bucket ≤ k_bucket_size
  pub distinct : IsDistinctById bucket
  pub belong : All (BelongsTo self_id i) bucket
  pub rep_fits : length rep ≤ replacement_cache_size
  pub rep_distinct : IsDistinctById rep
  pub rep_belong : All (BelongsTo self_id i) rep
  pub apart : All (λ c. has_id c.id bucket ≡ false) rep
  pub queued : length bucket < k_bucket_size → rep ≡ []

pub has_id-append :
    (id : NodeId) (cs : List Contact) (c : Contact)
    → has_id id (cs ++ (c ∷ [])) ≡ (if has_id id cs then true else same_id c.id id)
has_id-append id [] c = ground arith
has_id-append id (x ∷ cs) c = ground (arith, has_id-append id cs c)

same_id_sym : (a b : NodeId) → same_id a b ≡ same_id b a
same_id_sym [] [] = refl
same_id_sym [] (b ∷ ys) = refl
same_id_sym (a ∷ xs) [] = refl
same_id_sym (a ∷ xs) (b ∷ ys) = ground (arith, same_id_sym xs ys)

pub append-IsDistinctById :
    (c : Contact) (cs : List Contact)
    → has_id c.id cs ≡ false
    → IsDistinctById cs
    → IsDistinctById (cs ++ (c ∷ []))
append-IsDistinctById c [] h d = (refl, tt)
append-IsDistinctById c (x ∷ cs) h (new, d) = (
  ground (arith, has_id-append x.id cs c, same_id_sym x.id c.id),
  append-IsDistinctById c cs (ground arith) d,
)

pub has_id-same :
    (a b : NodeId) (cs : List Contact) → same_id a b ≡ true → has_id a cs ≡ has_id b cs
has_id-same a b cs h = ap (λ x. has_id x cs) (same_id-eq a b h)

has_id-without_id :
    (x id : NodeId) (cs : List Contact) → has_id x cs ≡ false → has_id x (without_id id cs) ≡ false
has_id-without_id x id [] h = refl
has_id-without_id x id (c ∷ cs) h = ground (arith, has_id-without_id x id cs)

pub without_id-IsDistinctById :
    (id : NodeId) (cs : List Contact) → IsDistinctById cs → IsDistinctById (without_id id cs)
without_id-IsDistinctById id [] d = tt
without_id-IsDistinctById id (c ∷ cs) (new, d) = elim (Bool-cases (same_id c.id id)) [
  | inl e ↦ subst (λ t. IsDistinctById (if t then cs else c ∷ without_id id cs)) (sym e) d
  | inr e ↦
      subst (λ t. IsDistinctById (if t then cs else c ∷ without_id id cs)) (sym e)
        (has_id-without_id c.id id cs new, without_id-IsDistinctById id cs d)
]

pub without_id-gone :
    (id : NodeId) (cs : List Contact) → IsDistinctById cs → has_id id (without_id id cs) ≡ false
without_id-gone id [] d = refl
without_id-gone id (c ∷ cs) (new, d) =
    ground (arith, without_id-gone id cs d, has_id-same c.id id cs)

pub length-without_id :
    (id : NodeId) (cs : List Contact)
    → has_id id cs ≡ true
    → suc (length (without_id id cs)) ≡ length cs
length-without_id id [] h = absurd (ground arith)
length-without_id id (c ∷ cs) h = ground (arith, length-without_id id cs)

pub without_id-All :
    (P : Contact → Type 0) (id : NodeId) (cs : List Contact) → All P cs → All P (without_id id cs)
without_id-All P id [] a = tt
without_id-All P id (c ∷ cs) (here, rest) = elim (Bool-cases (same_id c.id id)) [
  | inl e ↦ subst (λ t. All P (if t then cs else c ∷ without_id id cs)) (sym e) rest
  | inr e ↦
      subst (λ t. All P (if t then cs else c ∷ without_id id cs)) (sym e)
        (here, without_id-All P id cs rest)
]

-- The move to the end keeps the identifiers of a bucket.
pub has_id-moved :
    (x : NodeId) (c : Contact) (cs : List Contact)
    → has_id c.id cs ≡ true
    → has_id x (without_id c.id cs ++ (c ∷ [])) ≡ has_id x cs
has_id-moved x c [] h = absurd (ground arith)
has_id-moved x c (y ∷ cs) h =
    ground (arith, has_id-append x cs c, has_id-moved x c cs, same_id-eq y.id c.id)

pub has_id-replaced :
    (x : NodeId) (c : Contact) (cs : List Contact) → has_id x (replaced c cs) ≡ has_id x cs
has_id-replaced x c [] = refl
has_id-replaced x c (y ∷ cs) = ground (arith, has_id-replaced x c cs, same_id-eq y.id c.id)

pub length-replaced : (c : Contact) (cs : List Contact) → length (replaced c cs) ≡ length cs
length-replaced c [] = refl
length-replaced c (y ∷ cs) = ground (arith, length-replaced c cs)

pub replaced-All :
    (P : Contact → Type 0) (c : Contact) (cs : List Contact)
    → P c
    → All P cs
    → All P (replaced c cs)
replaced-All P c [] p a = tt
replaced-All P c (y ∷ cs) p (here, rest) = elim (Bool-cases (same_id y.id c.id)) [
  | inl e ↦ subst (λ t. All P (if t then c ∷ cs else y ∷ replaced c cs)) (sym e) (p, rest)
  | inr e ↦
      subst (λ t. All P (if t then c ∷ cs else y ∷ replaced c cs)) (sym e)
        (here, replaced-All P c cs p rest)
]

pub replaced-IsDistinctById :
    (c : Contact) (cs : List Contact) → IsDistinctById cs → IsDistinctById (replaced c cs)
replaced-IsDistinctById c [] d = tt
replaced-IsDistinctById c (y ∷ cs) (new, d) = elim (Bool-cases (same_id y.id c.id)) [
  | inl e ↦
      subst (λ t. IsDistinctById (if t then c ∷ cs else y ∷ replaced c cs)) (sym e)
        (sym (has_id-same y.id c.id cs e) ∙ new, d)
  | inr e ↦
      subst (λ t. IsDistinctById (if t then c ∷ cs else y ∷ replaced c cs)) (sym e)
        (has_id-replaced y.id c cs ∙ new, replaced-IsDistinctById c cs d)
]
