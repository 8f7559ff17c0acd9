-- ===== src/L1/BufferPool/Writes.antt =====
-- Writes to the buffers of src/pkg/l1/buffer_pool.go that somebody holds.
use ipvn.Base.{
  ℕ, zero, suc, ◌+◌, ◌%◌, ◌^◌, ◌≤◌, ◌<◌, ◌≡◌, ◌≢◌, refl, ap, ◌∙◌, subst, List, [], ◌∷◌, ◌++◌, leb,
  length, get_or, set, arith, Bool-cases, inl, inr, All, All-map, get_or-set_self, get_or-set_ne,
  length-set, length-append, get_or_beyond, leb→lt,
}
use native.Mathlib.Decide.{ℕ_discrete}
use ipvn.L1.BufferPool.{
  PoolType, small, standard, jumbo, oversized, PacketBuffer, BufferPool, no_buffer, buffer, free,
  with_free, size_of, retain,
}
use ipvn.L1.BufferPool.Ownership.{IsNodup, IsFree, IsOwned, with_free-keeps}

pub IsFree-set :
    (store : List PacketBuffer) (id j : ℕ) (b : PacketBuffer) (t : PoolType)
    → id ≢ j
    → IsFree store t j
    → IsFree (set store id b) t j
IsFree-set store id j b t ne (low, (zero_refs, typed)) = (
  omega (arith, length-set store id b, low),
  (
    ap (λ x. x.ref_count) (get_or-set_ne store id j b no_buffer ne) ∙ zero_refs,
    ap (λ x. x.pool_type) (get_or-set_ne store id j b no_buffer ne) ∙ typed,
  ),
)

pub get_or-append :
    (store : List PacketBuffer) (b : PacketBuffer) (j : ℕ)
    → j < length store
    → get_or (store ++ (b ∷ [])) j no_buffer ≡ get_or store j no_buffer
get_or-append [] b j h = absurd (omega arith)
get_or-append (x ∷ store) b zero h = refl
get_or-append (x ∷ store) b (suc j) h = get_or-append store b j (omega arith)

pub get_or-last :
    (store : List PacketBuffer) (b : PacketBuffer) (j : ℕ)
    → j ≡ length store
    → get_or (store ++ (b ∷ [])) j no_buffer ≡ b
get_or-last [] b zero h = refl
get_or-last [] b (suc j) h = absurd (omega arith)
get_or-last (x ∷ store) b zero h = absurd (omega arith)
get_or-last (x ∷ store) b (suc j) h = get_or-last store b j (omega arith)

pub IsFree-append :
    (store : List PacketBuffer) (b : PacketBuffer) (t : PoolType) (j : ℕ)
    → IsFree store t j
    → IsFree (store ++ (b ∷ [])) t j
IsFree-append store b t j (low, (zero_refs, typed)) = (
  omega (arith, length-append store (b ∷ []), low),
  (
    ap (λ x. x.ref_count) (get_or-append store b j low) ∙ zero_refs,
    ap (λ x. x.pool_type) (get_or-append store b j low) ∙ typed,
  ),
)

-- A write to a buffer that is held.
module _ (bp : BufferPool) (ok : IsOwned bp) (id : ℕ) (held : 1 ≤ (buffer bp id).ref_count) where
  pub held_bound : id < length bp.store
  held_bound = elim (Bool-cases (leb (length bp.store) id)) [
    | inl e ↦
        let none_there =
          ap (λ x. x.ref_count) (get_or_beyond bp.store id no_buffer (ground arith)) in
        absurd (omega (arith, none_there, held))
    | inr e ↦ leb→lt (length bp.store) id e
  ]

  pub held-apart : (t : PoolType) (j : ℕ) → IsFree bp.store t j → id ≢ j
  held-apart t j (low, (zero_refs, typed)) e =
      let none_held : (buffer bp id).ref_count ≡ 0 =
        ap (λ x. (buffer bp x).ref_count) e ∙ zero_refs in
      absurd (omega (arith, none_held, held))

  -- The lists after a write that they do not see.
  pub write-unheld :
      (b : PacketBuffer) (t : PoolType)
      → All (IsFree (set bp.store id b) t) (free bp t) × IsNodup (free bp t)
  write-unheld b t = (
    All-map (IsFree bp.store t) (IsFree (set bp.store id b) t)
        (λ j f. IsFree-set bp.store id j b t (held-apart t j f) f) (free bp t) (ok.unheld t).0,
    (ok.unheld t).1,
  )

  pub write-sized :
      (b : PacketBuffer)
      → b.capacity ≡ (buffer bp id).capacity
      → b.pool_type ≡ (buffer bp id).pool_type
      → (j : ℕ)
      → size_of
          (get_or (set bp.store id b) j no_buffer).pool_type
          (get_or (set bp.store id b) j no_buffer).capacity
        ≡ (get_or (set bp.store id b) j no_buffer).capacity
  write-sized b same_capacity same_type j = elim (ℕ_discrete id j) [
    | yes e ↦
        let here = get_or-set_self bp.store id b no_buffer held_bound in
        subst
          (λ i.
            size_of (get_or (set bp.store id b) i no_buffer).pool_type
              (get_or (set bp.store id b) i no_buffer).capacity
            ≡ (get_or (set bp.store id b) i no_buffer).capacity)
          e (rw (here, same_capacity, same_type) (ok.sized id))
    | no e ↦ let there = get_or-set_ne bp.store id j b no_buffer e in rw there (ok.sized j)
  ]

pub same-free :
    (Q : List ℕ → Type 0) (bp : BufferPool) (store : List PacketBuffer) (t : PoolType)
    → Q (free bp t)
    → Q (free (record bp { store = store }) t)
same-free Q bp store small q = q
same-free Q bp store standard q = q
same-free Q bp store jumbo q = q
same-free Q bp store oversized q = q

pub with_free_store :
    (bp : BufferPool) (t : PoolType) (ids : List ℕ) → (with_free bp t ids).store ≡ bp.store
with_free_store bp small ids = refl
with_free_store bp standard ids = refl
with_free_store bp jumbo ids = refl
with_free_store bp oversized ids = refl

-- A holder that takes one more reference leaves the pool in order.
pub retain-IsOwned :
    (bp : BufferPool) (id : ℕ) → IsOwned bp → 1 ≤ (buffer bp id).ref_count → IsOwned (retain bp id)
unfolding retain
retain-IsOwned bp id ok held =
    let b : PacketBuffer = record (buffer bp id) {
      ref_count = ((buffer bp id).ref_count + 1) % 2 ^ 32;
    } in
    record {
      unheld = λ t.
          same-free (λ ids. All (IsFree (set bp.store id b) t) ids × IsNodup ids) bp
            (set bp.store id b) t (write-unheld bp ok id held b t);
      sized = write-sized bp ok id held b refl refl;
    }

-- The lists of a pool, over another store.
abbrev pub ListsOver : List PacketBuffer → PoolType → List ℕ → Type 0
ListsOver store t ids = All (IsFree store t) ids × IsNodup ids

module _ (bp : BufferPool) (ok : IsOwned bp) (id : ℕ) (held : 1 ≤ (buffer bp id).ref_count) where
  -- The buffer goes back to its level.
  pub put-unheld :
      (b : PacketBuffer)
      → b.ref_count ≡ 0
      → (t : PoolType) → b.pool_type ≡ t
      → (s : PoolType) → ListsOver (set bp.store id b) s (free (with_free bp t (id ∷ free bp t)) s)
  put-unheld b none_left t typed s =
      let here = get_or-set_self bp.store id b no_buffer (held_bound bp ok id held) in
      with_free-keeps (ListsOver (set bp.store id b)) bp t (id ∷ free bp t)
        (λ big. (
          (
            (
              omega (arith, length-set bp.store id b, held_bound bp ok id held),
              (ap (λ x. x.ref_count) here ∙ none_left, ap (λ x. x.pool_type) here ∙ typed),
            ),
            (write-unheld bp ok id held b t).0,
          ),
          (
            All-map (IsFree bp.store t) (λ j. id ≢ j) (held-apart bp ok id held t) (free bp t)
                (ok.unheld t).0,
            (ok.unheld t).1,
          ),
        ))
        (λ s' other. write-unheld bp ok id held b s') (tt, tt) s
