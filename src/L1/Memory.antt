-- ===== src/L1/Memory.antt =====
-- GlobalMemoryArbiter of src/pkg/l1/memory_arbiter.go: quotas of memory for classes of use. The
-- locks make each call one step. The map of quotas has five keys from the start and no other.
pub mod Balance
pub mod Grants
mod Tests
use ipvn.Base.{ℕ, ◌+◌, ◌-◌, String, Bool, true, false, ltb, ◌==◌, if◌then◌else◌, List, [], ◌∷◌}
use ipvn.Base.Words.{u64}

-- BudgetClass is a string type: any other text may be asked for.
pub data BudgetClass : Type 0 where
  replay qos trust bindings other : BudgetClass
  unknown : String → BudgetClass

pub record ClassQuota : Type 0 where
  pub limit_bytes : ℕ
  pub allocated : ℕ
  pub dropped_count : ℕ

pub record Arbiter : Type 0 where
  pub total_limit : ℕ
  pub total_alloc : ℕ
  pub rejections : ℕ
  pub replay_quota : ClassQuota
  pub qos_quota : ClassQuota
  pub trust_quota : ClassQuota
  pub bindings_quota : ClassQuota
  pub other_quota : ClassQuota

abbrev pub default_total_memory_limit : ℕ
default_total_memory_limit = 67108864

abbrev empty_quota : ℕ → ClassQuota
empty_quota limit = record { limit_bytes = limit; allocated = 0; dropped_count = 0 }

-- `share p n` stands for uint64(float64(n) * p / 100).
unfoldable pub new_arbiter : (ℕ → ℕ → ℕ) → ℕ → Arbiter
new_arbiter share asked =
    let total = if asked == 0 then default_total_memory_limit else asked in
    record {
      total_limit = total;
      total_alloc = 0;
      rejections = 0;
      replay_quota = empty_quota (share 20 total);
      qos_quota = empty_quota (share 30 total);
      trust_quota = empty_quota (share 20 total);
      bindings_quota = empty_quota (share 20 total);
      other_quota = empty_quota (share 10 total);
    }

-- The quota that a class is charged to: an unknown class uses `other`.
abbrev pub quota : BudgetClass → Arbiter → ClassQuota
quota replay a = a.replay_quota
quota qos a = a.qos_quota
quota trust a = a.trust_quota
quota bindings a = a.bindings_quota
quota other a = a.other_quota
quota (unknown s) a = a.other_quota

abbrev pub set_quota : BudgetClass → ClassQuota → Arbiter → Arbiter
set_quota replay q a = record a { replay_quota = q }
set_quota qos q a = record a { qos_quota = q }
set_quota trust q a = record a { trust_quota = q }
set_quota bindings q a = record a { bindings_quota = q }
set_quota other q a = record a { other_quota = q }
set_quota (unknown s) q a = record a { other_quota = q }

unfoldable pub reject : BudgetClass → Arbiter → Arbiter
reject class a =
    let q = quota class a in
    set_quota class (record q { dropped_count = u64 (q.dropped_count + 1) })
      (record a { rejections = u64 (a.rejections + 1) })

-- The sums are those of uint64, in the tests too.
unfoldable pub reserve : Arbiter → BudgetClass → ℕ → Arbiter × Bool
unfolding reject
reserve a class bytes =
    let q = quota class a in
    if ltb q.limit_bytes (u64 (q.allocated + bytes))
    then (reject class a, false)
    else (if ltb a.total_limit (u64 (a.total_alloc + bytes)) then (reject class a, false) else (
      set_quota class (record q { allocated = u64 (q.allocated + bytes) })
          (record a { total_alloc = u64 (a.total_alloc + bytes) }),
      true,
    ))

unfoldable pub release : Arbiter → BudgetClass → ℕ → Arbiter
release a class bytes =
    let q = quota class a in
    let freed = if ltb q.allocated bytes then q.allocated else bytes in
    set_quota class (record q { allocated = q.allocated - freed })
      (record a { total_alloc = if ltb a.total_alloc freed then 0 else a.total_alloc - freed })

pub data Request : Type 0 where
  reserves releases : BudgetClass → ℕ → Request

unfoldable pub serve : Arbiter → List Request → Arbiter
unfolding reserve release
serve a [] = a
serve a (reserves class bytes ∷ rest) = serve (reserve a class bytes).0 rest
serve a (releases class bytes ∷ rest) = serve (release a class bytes) rest
