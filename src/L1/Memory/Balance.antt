-- ===== src/L1/Memory/Balance.antt =====
-- The books of the arbiter of src/pkg/l1/memory_arbiter.go.
use ipvn.Base.{ℕ, ◌+◌, ◌^◌, ◌≤◌, ◌<◌, ◌≡◌, List, [], ◌∷◌, arith, All}
use ipvn.L1.Memory.{
  BudgetClass, replay, ClassQuota, Arbiter, new_arbiter, reserve, release, Request, reserves,
  releases, serve,
}

abbrev pub Within : ClassQuota → Type 0
Within q = q.allocated ≤ q.limit_bytes

-- The total is the sum over the classes, and no limit is passed.
pub record IsBalanced (a : Arbiter) : Type 0 where
  pub total_sum :
      a.total_alloc
      ≡ a.replay_quota.allocated + a.qos_quota.allocated + a.trust_quota.allocated
        + a.bindings_quota.allocated + a.other_quota.allocated
  pub limits_fit :
      a.replay_quota.limit_bytes + a.qos_quota.limit_bytes + a.trust_quota.limit_bytes
        + a.bindings_quota.limit_bytes + a.other_quota.limit_bytes
      ≤ a.total_limit
  pub total_word : a.total_limit < 2 ^ 64
  pub replay_within : Within a.replay_quota
  pub qos_within : Within a.qos_quota
  pub trust_within : Within a.trust_quota
  pub bindings_within : Within a.bindings_quota
  pub other_within : Within a.other_quota

-- The five shares of one total, uint64(float64(total) * p), do not pass it. Rounding to 53 bits
-- breaks this for some totals above 2^53, so it is asked of one total and not of all.
abbrev pub Partitions : (ℕ → ℕ → ℕ) → ℕ → Type 0
Partitions share total =
    share 20 total + share 30 total + share 20 total + share 20 total + share 10 total ≤ total

pub new_arbiter-IsBalanced :
    (share : ℕ → ℕ → ℕ) (asked : ℕ)
    → Partitions share (new_arbiter share asked).total_limit
    → asked < 2 ^ 64
    → IsBalanced (new_arbiter share asked)
unfolding new_arbiter
new_arbiter-IsBalanced share asked p h = ground (arith, p)

pub reserve-IsBalanced :
    (a : Arbiter) (class : BudgetClass) (bytes : ℕ)
    → bytes < 2 ^ 64
    → IsBalanced a
    → IsBalanced (reserve a class bytes).0
unfolding reserve
reserve-IsBalanced a replay bytes h v = ground arith
reserve-IsBalanced a class bytes h v = ground arith

pub release-IsBalanced :
    (a : Arbiter) (class : BudgetClass) (bytes : ℕ)
    → IsBalanced a
    → IsBalanced (release a class bytes)
unfolding release
release-IsBalanced a replay bytes v = ground arith
release-IsBalanced a class bytes v = ground arith

-- The number of bytes of a request is a uint64.
abbrev pub IsRequest : Request → Type 0
IsRequest (reserves class bytes) = bytes < 2 ^ 64
IsRequest (releases class bytes) = bytes < 2 ^ 64

serve-keeps :
    (a : Arbiter) (rs : List Request) → All IsRequest rs → IsBalanced a → IsBalanced (serve a rs)
unfolding serve
serve-keeps a [] h v = v
serve-keeps a (reserves class bytes ∷ rs) h v =
    serve-keeps (reserve a class bytes).0 rs h.1 (reserve-IsBalanced a class bytes h.0 v)
serve-keeps a (releases class bytes ∷ rs) h v =
    serve-keeps (release a class bytes) rs h.1 (release-IsBalanced a class bytes v)

-- After any reservations and releases of uint64 amounts from a new arbiter the shares of whose own
-- total do not pass that total: the total allocated is the sum over the five classes, each class
-- is within its limit, and the limits together within the total.
pub serve-IsBalanced :
    (share : ℕ → ℕ → ℕ) (asked : ℕ) (rs : List Request)
    → Partitions share (new_arbiter share asked).total_limit
    → asked < 2 ^ 64
    → All IsRequest rs
    → IsBalanced (serve (new_arbiter share asked) rs)
serve-IsBalanced share asked rs p h k =
    serve-keeps (new_arbiter share asked) rs k (new_arbiter-IsBalanced share asked p h)
