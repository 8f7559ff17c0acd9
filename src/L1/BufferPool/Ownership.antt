-- ===== src/L1/BufferPool/Ownership.antt =====
-- Who holds the buffers of src/pkg/l1/buffer_pool.go.
use ipvn.Base.{
  ℕ, zero, suc, ◌<◌, ◌≡◌, ◌≢◌, sym, subst, List, [], ◌∷◌, some, length, get_or, arith, Option-cases,
  inl, inr, All,
}
use ipvn.L1.BufferPool.{
  PoolType, small, standard, jumbo, oversized, PacketBuffer, BufferPool, no_buffer, buffer, free,
  with_free, size_of, pick,
}

-- No number stands twice.
abbrev pub IsNodup : List ℕ → Type 0
IsNodup [] = Unit
IsNodup (id ∷ ids) = All (λ j. id ≢ j) ids × IsNodup ids

-- A buffer of the level that nobody holds.
abbrev pub IsFree : List PacketBuffer → PoolType → ℕ → Type 0
IsFree store t id =
    (id < length store)
    × (((get_or store id no_buffer).ref_count ≡ 0) × ((get_or store id no_buffer).pool_type ≡ t))

-- The buffers put back are free, each once, and every buffer has the size of its level.
pub record IsOwned (bp : BufferPool) : Type 0 where
  pub unheld : (t : PoolType) → All (IsFree bp.store t) (free bp t) × IsNodup (free bp t)
  pub sized :
      (id : ℕ) → size_of (buffer bp id).pool_type (buffer bp id).capacity ≡ (buffer bp id).capacity

pub with_free-keeps :
    (Q : PoolType → List ℕ → Type 0) (bp : BufferPool) (t : PoolType) (ids : List ℕ)
    → (t ≢ oversized → Q t ids)
    → ((s : PoolType) → (s ≢ t) → Q s (free bp s))
    → Q oversized []
    → (s : PoolType) → Q s (free (with_free bp t ids) s)
with_free-keeps Q bp small ids q h o small = q (λ e. absurd (ground arith))
with_free-keeps Q bp small ids q h o standard = h standard (λ e. absurd (ground arith))
with_free-keeps Q bp small ids q h o jumbo = h jumbo (λ e. absurd (ground arith))
with_free-keeps Q bp small ids q h o oversized = o
with_free-keeps Q bp standard ids q h o small = h small (λ e. absurd (ground arith))
with_free-keeps Q bp standard ids q h o standard = q (λ e. absurd (ground arith))
with_free-keeps Q bp standard ids q h o jumbo = h jumbo (λ e. absurd (ground arith))
with_free-keeps Q bp standard ids q h o oversized = o
with_free-keeps Q bp jumbo ids q h o small = h small (λ e. absurd (ground arith))
with_free-keeps Q bp jumbo ids q h o standard = h standard (λ e. absurd (ground arith))
with_free-keeps Q bp jumbo ids q h o jumbo = q (λ e. absurd (ground arith))
with_free-keeps Q bp jumbo ids q h o oversized = o
with_free-keeps Q bp oversized ids q h o small = h small (λ e. absurd (ground arith))
with_free-keeps Q bp oversized ids q h o standard = h standard (λ e. absurd (ground arith))
with_free-keeps Q bp oversized ids q h o jumbo = h jumbo (λ e. absurd (ground arith))
with_free-keeps Q bp oversized ids q h o oversized = o

pub pick-All :
    (P : ℕ → Type 0) (ids : List ℕ) (n id : ℕ) (rest : List ℕ)
    → pick ids n ≡ some (id, rest)
    → All P ids
    → (P id) × All P rest
pick-All P [] n id rest e a = absurd (ground arith)
pick-All P (x ∷ ids) zero id rest e (here, later) =
    let same : (x, ids) ≡ (id, rest) = ground arith in
    subst (λ (r : ℕ × List ℕ). P r.0 × All P r.1) same (here, later)
pick-All P (x ∷ ids) (suc n) id rest e (here, later) = elim (Option-cases (pick ids n)) [
  | inl p ↦ absurd (ground arith)
  | inr ((found, others), p) ↦
      let (one, two) = pick-All P ids n found others p later in
      let same : (found, x ∷ others) ≡ (id, rest) = ground arith in
      subst (λ (r : ℕ × List ℕ). P r.0 × All P r.1) same (one, (here, two))
]

pub pick-IsNodup :
    (ids : List ℕ) (n id : ℕ) (rest : List ℕ)
    → pick ids n ≡ some (id, rest)
    → IsNodup ids
    → All (λ j. id ≢ j) rest × IsNodup rest
pick-IsNodup [] n id rest e d = absurd (ground arith)
pick-IsNodup (x ∷ ids) zero id rest e d =
    let same : (x, ids) ≡ (id, rest) = ground arith in
    subst (λ (r : ℕ × List ℕ). All (λ j. r.0 ≢ j) r.1 × IsNodup r.1) same d
pick-IsNodup (x ∷ ids) (suc n) id rest e (new, d) = elim (Option-cases (pick ids n)) [
  | inl p ↦ absurd (ground arith)
  | inr ((found, others), p) ↦
      let (apart, rest_ok) = pick-IsNodup ids n found others p d in
      let (other, new') = pick-All (λ j. x ≢ j) ids n found others p new in
      let same : (found, x ∷ others) ≡ (id, rest) = ground arith in
      subst (λ (r : ℕ × List ℕ). All (λ j. r.0 ≢ j) r.1 × IsNodup r.1) same
        (((λ q. other (sym q)), apart), (new', rest_ok))
]
