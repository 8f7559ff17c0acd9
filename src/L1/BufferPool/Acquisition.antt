-- ===== src/L1/BufferPool/Acquisition.antt =====
-- What Acquire of src/pkg/l1/buffer_pool.go hands out.
use ipvn.Base.{
  ℕ, ◌≤◌, ◌≡◌, ◌≢◌, refl, sym, ap, ◌∙◌, subst, List, [], ◌∷◌, ◌++◌, some, leb, length, get_or, set,
  arith, Bool-cases, Option-cases, inl, inr, All-map, All-both, get_or-set_self, get_or-set_ne,
  length-append, get_or_beyond, leb→lt,
}
use native.Mathlib.Decide.{ℕ_discrete}
use ipvn.L1.BufferPool.{
  PoolType, small, standard, jumbo, oversized, PacketBuffer, BufferPool, no_buffer, buffer, free,
  with_free, counted_new, size_of, level, pick, handed_out, made, acquire,
}
use ipvn.L1.BufferPool.Ownership.{IsFree, IsOwned, with_free-keeps, pick-All, pick-IsNodup}
use ipvn.L1.BufferPool.Writes.{
  IsFree-set, get_or-append, get_or-last, IsFree-append, same-free, ListsOver,
}

-- What Acquire hands out: a buffer that nobody held, with one holder and room enough; no other
-- buffer has changed, and the pool is in order.
pub record IsHandedOut (bp : BufferPool) (min_size : ℕ) (result : BufferPool × ℕ) : Type 0 where
  pub unheld_before : (buffer bp result.1).ref_count ≡ 0
  pub one_holder : (buffer result.0 result.1).ref_count ≡ 1
  pub used : (buffer result.0 result.1).used ≡ min_size
  pub room : min_size ≤ (buffer result.0 result.1).capacity
  pub others : (j : ℕ) → j ≢ result.1 → buffer result.0 j ≡ buffer bp j
  pub in_order : IsOwned result.0

level_room :
    (min_size capacity : ℕ) (t : PoolType)
    → level min_size ≡ t
    → size_of t capacity ≡ capacity
    → t ≢ oversized
    → min_size ≤ capacity
unfolding level
level_room min_size capacity small l e big = ground arith
level_room min_size capacity standard l e big = ground arith
level_room min_size capacity jumbo l e big = ground arith
level_room min_size capacity oversized l e big = absurd (big refl)

made_room : (min_size : ℕ) (t : PoolType) → level min_size ≡ t → min_size ≤ size_of t min_size
unfolding level
made_room min_size small l = ground arith
made_room min_size standard l = ground arith
made_room min_size jumbo l = ground arith
made_room min_size oversized l = omega arith

made_store :
    (bp : BufferPool) (t : PoolType) (store : List PacketBuffer) (s : PoolType)
    → free (record (counted_new bp t) { store = store }) s ≡ free bp s
made_store bp small store small = refl
made_store bp small store standard = refl
made_store bp small store jumbo = refl
made_store bp small store oversized = refl
made_store bp standard store small = refl
made_store bp standard store standard = refl
made_store bp standard store jumbo = refl
made_store bp standard store oversized = refl
made_store bp jumbo store small = refl
made_store bp jumbo store standard = refl
made_store bp jumbo store jumbo = refl
made_store bp jumbo store oversized = refl
made_store bp oversized store small = refl
made_store bp oversized store standard = refl
made_store bp oversized store jumbo = refl
made_store bp oversized store oversized = refl

size_of_idem : (t : PoolType) (n : ℕ) → size_of t (size_of t n) ≡ size_of t n
size_of_idem small n = refl
size_of_idem standard n = refl
size_of_idem jumbo n = refl
size_of_idem oversized n = refl

module _ (bp : BufferPool) (ok : IsOwned bp) (min_size : ℕ) (t : PoolType)
    (l : level min_size ≡ t) where
  abbrev fresh : PacketBuffer
  fresh = record { capacity = size_of t min_size; used = min_size; ref_count = 1; pool_type = t }

  fresh-others :
      (j : ℕ) → j ≢ length bp.store → get_or (bp.store ++ (fresh ∷ [])) j no_buffer ≡ buffer bp j
  fresh-others j ne = elim (Bool-cases (leb (length bp.store) j)) [
    | inl e ↦
        get_or_beyond (bp.store ++ (fresh ∷ [])) j no_buffer
          (ground (arith, length-append bp.store (fresh ∷ []), e))
        ∙ sym (get_or_beyond bp.store j no_buffer (ground (arith, e)))
    | inr e ↦ get_or-append bp.store fresh j (leb→lt (length bp.store) j e)
  ]

  fresh-sized :
      (j : ℕ)
      → size_of
          (get_or (bp.store ++ (fresh ∷ [])) j no_buffer).pool_type
          (get_or (bp.store ++ (fresh ∷ [])) j no_buffer).capacity
        ≡ (get_or (bp.store ++ (fresh ∷ [])) j no_buffer).capacity
  fresh-sized j = elim (ℕ_discrete j (length bp.store)) [
    | yes e ↦ rw (get_or-last bp.store fresh j e) (size_of_idem t min_size)
    | no e ↦ rw (fresh-others j e) (ok.sized j)
  ]

  made-IsHandedOut : IsHandedOut bp min_size (made bp t min_size)
  made-IsHandedOut =
      let here = get_or-last bp.store fresh (length bp.store) refl in
      record {
        unheld_before =
            ap (λ x. x.ref_count)
              (get_or_beyond bp.store (length bp.store) no_buffer (omega arith));
        one_holder = ap (λ x. x.ref_count) here;
        used = ap (λ x. x.used) here;
        room = subst (λ c. min_size ≤ c) (sym (ap (λ x. x.capacity) here)) (made_room min_size t l);
        others = fresh-others;
        in_order = record {
          unheld = λ s.
              subst (ListsOver (bp.store ++ (fresh ∷ [])) s)
                (sym (made_store bp t (bp.store ++ (fresh ∷ [])) s))
                (
                  All-map (IsFree bp.store s) (IsFree (bp.store ++ (fresh ∷ [])) s)
                      (IsFree-append bp.store fresh s) (free bp s) (ok.unheld s).0,
                  (ok.unheld s).1,
                );
          sized = fresh-sized;
        };
      }

handed_store :
    (bp : BufferPool) (t : PoolType) (rest : List ℕ) (id min_size : ℕ)
    → (handed_out (with_free bp t rest) id min_size).store
      ≡ set bp.store id (record (buffer bp id) { used = min_size; ref_count = 1 })
handed_store bp small rest id min_size = refl
handed_store bp standard rest id min_size = refl
handed_store bp jumbo rest id min_size = refl
handed_store bp oversized rest id min_size = refl

module _ (bp : BufferPool) (ok : IsOwned bp) (min_size : ℕ) (t : PoolType) (l : level min_size ≡ t)
    (choice id : ℕ) (rest : List ℕ) (p : pick (free bp t) choice ≡ some (id, rest)) where
  abbrev taken : PacketBuffer
  taken = record (buffer bp id) { used = min_size; ref_count = 1 }

  abbrev store_after : List PacketBuffer
  store_after = set bp.store id taken

  id-IsFree : IsFree bp.store t id
  id-IsFree = (pick-All (IsFree bp.store t) (free bp t) choice id rest p (ok.unheld t).0).0

  taken-unheld : (s : PoolType) → ListsOver store_after s (free (with_free bp t rest) s)
  taken-unheld s =
      let (here, left) =
        pick-All (IsFree bp.store t) (free bp t) choice id rest p (ok.unheld t).0 in
      let (apart, nodup) = pick-IsNodup (free bp t) choice id rest p (ok.unheld t).1 in
      with_free-keeps (ListsOver store_after) bp t rest
        (λ big. (
          All-map (λ j. IsFree bp.store t j × (id ≢ j)) (IsFree store_after t)
              (λ j f. IsFree-set bp.store id j taken t f.1 f.0) rest
              (All-both (IsFree bp.store t) (λ j. id ≢ j) rest left apart),
          nodup,
        ))
        (λ s' other. (
          All-map (IsFree bp.store s') (IsFree store_after s')
              (λ j f.
                IsFree-set bp.store id j taken s'
                  (λ e.
                    other (sym f.1.1 ∙ (ap (λ i. (buffer bp i).pool_type) (sym e) ∙ id-IsFree.1.1)))
                  f)
              (free bp s') (ok.unheld s').0,
          (ok.unheld s').1,
        ))
        (tt, tt) s

  not_oversized : (u : PoolType) → pick (free bp u) choice ≡ some (id, rest) → u ≢ oversized
  not_oversized small q e = absurd (ground arith)
  not_oversized standard q e = absurd (ground arith)
  not_oversized jumbo q e = absurd (ground arith)
  not_oversized oversized q e = absurd (ground arith)

  taken-sized :
      (j : ℕ)
      → size_of (get_or store_after j no_buffer).pool_type (get_or store_after j no_buffer).capacity
        ≡ (get_or store_after j no_buffer).capacity
  taken-sized j = elim (ℕ_discrete id j) [
    | yes e ↦
        let here : get_or store_after j no_buffer ≡ taken =
          ap (λ i. get_or store_after i no_buffer) (sym e)
          ∙ get_or-set_self bp.store id taken no_buffer id-IsFree.0 in
        rw here (ok.sized id)
    | no e ↦ rw (get_or-set_ne bp.store id j taken no_buffer e) (ok.sized j)
  ]

  taken-IsHandedOut : IsHandedOut bp min_size (handed_out (with_free bp t rest) id min_size, id)
  taken-IsHandedOut =
      let next = handed_out (with_free bp t rest) id min_size in
      let store : next.store ≡ store_after = handed_store bp t rest id min_size in
      let here : buffer next id ≡ taken =
        ap (λ st. get_or st id no_buffer) store
        ∙ get_or-set_self bp.store id taken no_buffer id-IsFree.0 in
      let sized_here : size_of t (buffer bp id).capacity ≡ (buffer bp id).capacity =
        ap (λ u. size_of u (buffer bp id).capacity) (sym id-IsFree.1.1) ∙ ok.sized id in
      record {
        unheld_before = id-IsFree.1.0;
        one_holder = ap (λ x. x.ref_count) here;
        used = ap (λ x. x.used) here;
        room =
            subst (λ c. min_size ≤ c) (sym (ap (λ x. x.capacity) here))
              (level_room min_size (buffer bp id).capacity t l sized_here (not_oversized t p));
        others = λ j ne.
            ap (λ st. get_or st j no_buffer) store
            ∙ get_or-set_ne bp.store id j taken no_buffer (λ e. ne (sym e));
        in_order = record {
          unheld = λ s. same-free (ListsOver next.store s) (with_free bp t rest) next.store s (
              subst (λ st. ListsOver st s (free (with_free bp t rest) s)) (sym store)
                (taken-unheld s));
          sized =
              subst
                (λ st.
                  (j : ℕ)
                  → size_of (get_or st j no_buffer).pool_type (get_or st j no_buffer).capacity
                    ≡ (get_or st j no_buffer).capacity)
                (sym store) taken-sized;
        };
      }

module _ (bp : BufferPool) (ok : IsOwned bp) (min_size choice : ℕ) where
  pub acquire-IsHandedOut : IsHandedOut bp min_size (acquire bp min_size choice)
  unfolding acquire
  acquire-IsHandedOut =
      let t = level min_size in
      elim (Option-cases (pick (free bp t) choice)) [
        | inl e ↦ rw (acquire, e) (made-IsHandedOut bp ok min_size t refl)
        | inr ((id, rest), e) ↦
            rw (acquire, e) (taken-IsHandedOut bp ok min_size t refl choice id rest e)
      ]
