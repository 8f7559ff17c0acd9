-- ===== src/L1/BufferPool.antt =====
-- BufferPool of src/pkg/l1/buffer_pool.go over an explicit store of buffers: a buffer is its number in
-- the store. sync.Pool may hand out any buffer that was put back, or make a new one; which it does
-- is an argument. Each atomic operation is one step.
pub mod Ownership
pub mod Writes
pub mod Acquisition
pub mod Exclusive
mod Tests
use ipvn.Base.{
  ℕ, zero, suc, ◌+◌, ◌-◌, ◌%◌, ◌^◌, Bool, true, false, List, [], ◌∷◌, ◌++◌, Option, none, some, leb,
  ltb, ◌==◌, if◌then◌else◌, length, get_or, set,
}

abbrev pub pool_small_size : ℕ
pool_small_size = 64

abbrev pub pool_standard_size : ℕ
pool_standard_size = 1500

abbrev pub pool_jumbo_size : ℕ
pool_jumbo_size = 65536

-- The levels, and -1 for a buffer of its own size.
pub data PoolType : Type 0 where
  small : PoolType
  standard : PoolType
  jumbo : PoolType
  oversized : PoolType

-- The counter is an int32, kept as a word.
pub record PacketBuffer : Type 0 where
  pub capacity : ℕ
  pub used : ℕ
  pub ref_count : ℕ
  pub pool_type : PoolType

pub record BufferPool : Type 0 where
  pub store : List PacketBuffer
  pub small_pool : List ℕ
  pub standard_pool : List ℕ
  pub jumbo_pool : List ℕ
  pub allocations_small : ℕ
  pub allocations_standard : ℕ
  pub allocations_jumbo : ℕ
  pub recycled_count : ℕ

unfoldable pub new_buffer_pool : BufferPool
new_buffer_pool = record {
  store = [];
  small_pool = [];
  standard_pool = [];
  jumbo_pool = [];
  allocations_small = 0;
  allocations_standard = 0;
  allocations_jumbo = 0;
  recycled_count = 0;
}

abbrev pub no_buffer : PacketBuffer
no_buffer = record { capacity = 0; used = 0; ref_count = 0; pool_type = oversized }

abbrev pub buffer : BufferPool → ℕ → PacketBuffer
buffer bp id = get_or bp.store id no_buffer

abbrev pub free : BufferPool → PoolType → List ℕ
free bp small = bp.small_pool
free bp standard = bp.standard_pool
free bp jumbo = bp.jumbo_pool
free bp oversized = []

abbrev pub with_free : BufferPool → PoolType → List ℕ → BufferPool
with_free bp small ids = record bp { small_pool = ids }
with_free bp standard ids = record bp { standard_pool = ids }
with_free bp jumbo ids = record bp { jumbo_pool = ids }
with_free bp oversized ids = bp

abbrev pub counted_new : BufferPool → PoolType → BufferPool
counted_new bp small = record bp { allocations_small = (bp.allocations_small + 1) % 2 ^ 64 }
counted_new bp standard = record bp {
  allocations_standard = (bp.allocations_standard + 1) % 2 ^ 64;
}
counted_new bp jumbo = record bp { allocations_jumbo = (bp.allocations_jumbo + 1) % 2 ^ 64 }
counted_new bp oversized = bp

abbrev pub size_of : PoolType → ℕ → ℕ
size_of small min_size = pool_small_size
size_of standard min_size = pool_standard_size
size_of jumbo min_size = pool_jumbo_size
size_of oversized min_size = min_size

unfoldable pub level : ℕ → PoolType
level min_size =
    if leb min_size pool_small_size
    then small
    else (if leb min_size pool_standard_size
        then standard
        else (if leb min_size pool_jumbo_size then jumbo else oversized))

-- The entry at a position, and the list without it.
abbrev pub pick : List ℕ → ℕ → Option (ℕ × List ℕ)
pick [] n = none
pick (id ∷ ids) zero = some (id, ids)
pick (id ∷ ids) (suc n) = elim (pick ids n) as (λ x. Option (ℕ × List ℕ)) [
  | none ↦ none
  | some (found, rest) ↦ some (found, id ∷ rest)
]

-- `buf.length = minSize` and a counter of one.
abbrev pub handed_out : BufferPool → ℕ → ℕ → BufferPool
handed_out bp id min_size = record bp {
  store = set bp.store id (record (buffer bp id) { used = min_size; ref_count = 1 });
}

-- A buffer that New makes, at the end of the store.
abbrev pub made : BufferPool → PoolType → ℕ → BufferPool × ℕ
made bp t min_size =
    let fresh : PacketBuffer = record {
      capacity = size_of t min_size;
      used = min_size;
      ref_count = 1;
      pool_type = t;
    } in
    (record (counted_new bp t) { store = bp.store ++ (fresh ∷ []) }, length bp.store)

-- The choice of sync.Pool: a position among the buffers put back; beyond them it makes a new one.
unfoldable pub acquire : BufferPool → ℕ → ℕ → BufferPool × ℕ
acquire bp min_size choice =
    let t = level min_size in
    elim (pick (free bp t) choice) [
      | none ↦ made bp t min_size
      | some (id, rest) ↦ (handed_out (with_free bp t rest) id min_size, id)
    ]

unfoldable pub retain : BufferPool → ℕ → BufferPool
retain bp id = record bp {
  store =
      set bp.store id
        (record (buffer bp id) { ref_count = ((buffer bp id).ref_count + 1) % 2 ^ 32 });
}

unfoldable pub recycle : BufferPool → ℕ → BufferPool
recycle bp id =
    let b = buffer bp id in
    let put = with_free bp b.pool_type (id ∷ free bp b.pool_type) in
    record put {
      store = set bp.store id (record b { used = 0 });
      recycled_count = (bp.recycled_count + 1) % 2 ^ 64;
    }

unfoldable pub release : BufferPool → ℕ → BufferPool
release bp id =
    let left = ((buffer bp id).ref_count + (2 ^ 32 - 1)) % 2 ^ 32 in
    let lowered = record bp {
      store = set bp.store id (record (buffer bp id) { ref_count = left });
    } in
    if left == 0 then recycle lowered id else lowered

unfoldable pub set_len : BufferPool → ℕ → ℕ → BufferPool
set_len bp id n = record bp {
  store = set bp.store id (record (buffer bp id) {
    used = if ltb (buffer bp id).capacity n then (buffer bp id).capacity else n;
  });
}
