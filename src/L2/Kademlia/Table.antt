-- ===== src/L2/Kademlia/Table.antt =====
-- What Update of src/pkg/l2/dht_kademlia.go keeps in a routing table.
use ipvn.Base.{
  ℕ, suc, ◌≤◌, ◌<◌, ◌≡◌, refl, sym, ◌∙◌, subst, true, false, List, [], ◌∷◌, ◌++◌, ltb, length,
  length-append, All, All-append, arith, Bool-cases, inl, inr, ltb→lt, ltb→le,
}
use ipvn.L2.Kademlia.{
  NodeId, Contact, has_id, without_id, replaced, without_oldest, queue_replacement, update_bucket,
  k_bucket_size, replacement_cache_size,
}
use ipvn.L2.Kademlia.Buckets.{
  IsDistinctById, BelongsTo, IsPair, append-IsDistinctById, without_id-IsDistinctById,
  without_id-gone, length-without_id, without_id-All, has_id-moved, length-replaced, replaced-All,
  replaced-IsDistinctById,
}

map-All :
    (P Q : Contact → Type 0)
    → ((c : Contact) → P c → Q c)
    → (cs : List Contact) → All P cs
    → All Q cs
map-All P Q f [] a = tt
map-All P Q f (c ∷ cs) (here, rest) = (f c here, map-All P Q f cs rest)

without_oldest-All :
    (P : Contact → Type 0) (cs : List Contact) → All P cs → All P (without_oldest cs)
without_oldest-All P [] a = tt
without_oldest-All P (c ∷ cs) a = a.1

without_oldest-IsDistinctById :
    (cs : List Contact) → IsDistinctById cs → IsDistinctById (without_oldest cs)
without_oldest-IsDistinctById [] d = tt
without_oldest-IsDistinctById (c ∷ cs) d = d.1

has_id-without_oldest :
    (x : NodeId) (cs : List Contact) → has_id x cs ≡ false → has_id x (without_oldest cs) ≡ false
has_id-without_oldest x [] h = refl
has_id-without_oldest x (c ∷ cs) h = ground arith

length-without_oldest :
    (cs : List Contact)
    → length cs ≤ replacement_cache_size
    → suc (length (without_oldest cs)) ≤ replacement_cache_size
length-without_oldest [] h = ground arith
length-without_oldest (c ∷ cs) h = ground arith

module _ (self_id : NodeId) (i : ℕ) (c : Contact) (own : BelongsTo self_id i c) where
  move-IsPair :
      (bucket rep : List Contact)
      → has_id c.id bucket ≡ true
      → IsPair self_id i bucket rep
      → IsPair self_id i (without_id c.id bucket ++ (c ∷ [])) rep
  move-IsPair bucket rep h p = record {
    fits = omega (
      arith,
      length-append (without_id c.id bucket) (c ∷ []),
      length-without_id c.id bucket h,
      p.fits,
    );
    distinct =
        append-IsDistinctById c (without_id c.id bucket) (without_id-gone c.id bucket p.distinct)
          (without_id-IsDistinctById c.id bucket p.distinct);
    belong =
        All-append (BelongsTo self_id i) (without_id c.id bucket) (c ∷ [])
          (without_id-All (BelongsTo self_id i) c.id bucket p.belong) (own, tt);
    rep_fits = p.rep_fits;
    rep_distinct = p.rep_distinct;
    rep_belong = p.rep_belong;
    apart =
        map-All (λ x. has_id x.id bucket ≡ false)
          (λ x. has_id x.id (without_id c.id bucket ++ (c ∷ [])) ≡ false)
          (λ x e. has_id-moved x.id c bucket h ∙ e) rep p.apart;
    queued = λ e. p.queued (
        omega (
          arith,
          e,
          length-append (without_id c.id bucket) (c ∷ []),
          length-without_id c.id bucket h,
        ));
  }

  join-IsPair :
      (bucket rep : List Contact)
      → has_id c.id bucket ≡ false
      → length bucket < k_bucket_size
      → IsPair self_id i bucket rep
      → IsPair self_id i (bucket ++ (c ∷ [])) rep
  join-IsPair bucket rep h room p = record {
    fits = omega (arith, length-append bucket (c ∷ []));
    distinct = append-IsDistinctById c bucket h p.distinct;
    belong = All-append (BelongsTo self_id i) bucket (c ∷ []) p.belong (own, tt);
    rep_fits = p.rep_fits;
    rep_distinct = p.rep_distinct;
    rep_belong = p.rep_belong;
    apart =
        subst (λ r. All (λ x. has_id x.id (bucket ++ (c ∷ [])) ≡ false) r) (sym (p.queued room)) tt;
    queued = λ e. p.queued room;
  }

  -- A cache that holds other contacts of the same kind.
  requeue-IsPair :
      (bucket rep next : List Contact)
      → k_bucket_size ≤ length bucket
      → length next ≤ replacement_cache_size
      → IsDistinctById next
      → All (BelongsTo self_id i) next
      → All (λ x. has_id x.id bucket ≡ false) next
      → IsPair self_id i bucket rep
      → IsPair self_id i bucket next
  requeue-IsPair bucket rep next full short d b a p = record {
    fits = p.fits;
    distinct = p.distinct;
    belong = p.belong;
    rep_fits = short;
    rep_distinct = d;
    rep_belong = b;
    apart = a;
    queued = λ e. absurd (omega (arith, e, full));
  }

  queue-IsPair :
      (bucket rep : List Contact)
      → has_id c.id bucket ≡ false
      → k_bucket_size ≤ length bucket
      → IsPair self_id i bucket rep
      → IsPair self_id i bucket (queue_replacement c rep)
  unfolding queue_replacement
  queue-IsPair bucket rep h full p = elim (Bool-cases (has_id c.id rep)) [
    | inl e ↦ rw e (
        requeue-IsPair bucket rep (replaced c rep) full
          (omega (arith, length-replaced c rep, p.rep_fits))
          (replaced-IsDistinctById c rep p.rep_distinct)
          (replaced-All (BelongsTo self_id i) c rep own p.rep_belong)
          (replaced-All (λ x. has_id x.id bucket ≡ false) c rep h p.apart) p)
    | inr e ↦ elim (Bool-cases (ltb (length rep) replacement_cache_size)) [
      | inl r ↦
          rw (e, r)
            (requeue-IsPair bucket rep (rep ++ (c ∷ [])) full
              (omega
                (arith, length-append rep (c ∷ []), ltb→lt (length rep) replacement_cache_size r))
              (append-IsDistinctById c rep e p.rep_distinct)
              (All-append (BelongsTo self_id i) rep (c ∷ []) p.rep_belong (own, tt))
              (All-append (λ x. has_id x.id bucket ≡ false) rep (c ∷ []) p.apart (h, tt)) p)
      | inr r ↦
          rw (e, r)
            (requeue-IsPair bucket rep (without_oldest rep ++ (c ∷ [])) full
              (omega (
                arith,
                length-append (without_oldest rep) (c ∷ []),
                length-without_oldest rep p.rep_fits,
              ))
              (append-IsDistinctById c (without_oldest rep) (has_id-without_oldest c.id rep e)
                (without_oldest-IsDistinctById rep p.rep_distinct))
              (All-append (BelongsTo self_id i) (without_oldest rep) (c ∷ [])
                (without_oldest-All (BelongsTo self_id i) rep p.rep_belong) (own, tt))
              (All-append (λ x. has_id x.id bucket ≡ false) (without_oldest rep) (c ∷ [])
                (without_oldest-All (λ x. has_id x.id bucket ≡ false) rep p.apart) (h, tt))
              p)
    ]
  ]

  pub update_bucket-IsPair :
      (bucket rep : List Contact)
      → IsPair self_id i bucket rep
      → IsPair self_id i (update_bucket c bucket rep).0 (update_bucket c bucket rep).1
  unfolding update_bucket
  update_bucket-IsPair bucket rep p = elim (Bool-cases (has_id c.id bucket)) [
    | inl e ↦ rw e (move-IsPair bucket rep e p)
    | inr e ↦ elim (Bool-cases (ltb (length bucket) k_bucket_size)) [
      | inl r ↦ rw (e, r) (join-IsPair bucket rep e (ltb→lt (length bucket) k_bucket_size r) p)
      | inr r ↦ rw (e, r) (queue-IsPair bucket rep e (ltb→le (length bucket) k_bucket_size r) p)
    ]
  ]
