-- ===== src/L1/Memory/Grants.antt =====
-- When a reservation is granted, and what a release gives back.
use ipvn.Base.{ℕ, ◌+◌, ◌^◌, ◌≤◌, ◌<◌, ◌≡◌, ◌↔◌, true, false, arith}
use ipvn.Base.Words.{u64}
use ipvn.L1.Memory.{BudgetClass, replay, Arbiter, quota, reserve, release}
use ipvn.L1.Memory.Balance.{IsBalanced}

-- Where no sum leaves uint64: a reservation is granted exactly if it fits the class and the total.
-- A grant adds the bytes to both; a refusal leaves both alone and is counted.
pub reserve_grants :
    (a : Arbiter) (class : BudgetClass) (bytes : ℕ)
    → (quota class a).allocated + bytes < 2 ^ 64
    → a.total_alloc + bytes < 2 ^ 64
    → (((reserve a class bytes).1 ≡ true) ↔ (
        ((quota class a).allocated + bytes ≤ (quota class a).limit_bytes)
        × (a.total_alloc + bytes ≤ a.total_limit)))
      × ((reserve a class bytes).1 ≡ true
          → ((quota class (reserve a class bytes).0).allocated ≡ (quota class a).allocated + bytes)
            × ((reserve a class bytes).0.total_alloc ≡ a.total_alloc + bytes))
      × ((reserve a class bytes).1 ≡ false
          → ((quota class (reserve a class bytes).0).allocated ≡ (quota class a).allocated)
            × ((reserve a class bytes).0.total_alloc ≡ a.total_alloc)
            × ((reserve a class bytes).0.rejections ≡ u64 (a.rejections + 1)))
unfolding reserve
reserve_grants a replay bytes h k =
    ((λ e. ground arith, λ e. ground arith), λ e. ground arith, λ e. ground arith)
reserve_grants a class bytes h k =
    ((λ e. ground arith, λ e. ground arith), λ e. ground arith, λ e. ground arith)

-- Where the sums stay in uint64, releasing what was just granted gives the arbiter back as it was,
-- all classes and counters included.
pub release-reserve :
    (a : Arbiter) (class : BudgetClass) (bytes : ℕ)
    → (quota class a).allocated + bytes < 2 ^ 64
    → a.total_alloc + bytes < 2 ^ 64
    → (reserve a class bytes).1 ≡ true
    → release (reserve a class bytes).0 class bytes ≡ a
unfolding reserve release
release-reserve a replay bytes h k g = ground arith
release-reserve a class bytes h k g = ground arith

-- In a balanced arbiter a request so large that its sum with the class's bytes leaves uint64 is
-- granted, and lowers what the class is charged.
pub reserve_wraps :
    (a : Arbiter) (class : BudgetClass) (bytes : ℕ)
    → IsBalanced a
    → bytes < 2 ^ 64
    → 2 ^ 64 ≤ (quota class a).allocated + bytes
    → ((reserve a class bytes).1 ≡ true)
      × ((quota class (reserve a class bytes).0).allocated < (quota class a).allocated)
unfolding reserve
reserve_wraps a replay bytes v h k = ground arith
reserve_wraps a class bytes v h k = ground arith
