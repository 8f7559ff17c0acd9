-- ===== src/L1/BufferPool/Exclusive.antt =====
-- Acquire, Retain and Release of src/pkg/l1/buffer_pool.go among holders that keep to their buffers.
use ipvn.Base.{
  ℕ, zero, suc, ◌+◌, ◌-◌, ◌%◌, ◌^◌, ◌≤◌, ◌≡◌, refl, sym, ap, ◌∙◌, subst, false, List, [], ◌∷◌, ◌==◌,
  if◌then◌else◌, get_or, set, arith, All, get_or-set_self,
}
use native.Mathlib.Decide.{ℕ_discrete}
use ipvn.L1.BufferPool.{
  PoolType, small, standard, jumbo, oversized, PacketBuffer, BufferPool, new_buffer_pool, no_buffer,
  buffer, free, with_free, size_of, acquire, retain, recycle, release,
}
use ipvn.L1.BufferPool.Ownership.{IsNodup, IsFree, IsOwned}
use ipvn.L1.BufferPool.Writes.{
  same-free, ListsOver, held_bound, write-unheld, write-sized, put-unheld, retain-IsOwned,
}
use ipvn.L1.BufferPool.Acquisition.{IsHandedOut, acquire-IsHandedOut}

set-set : (xs : List PacketBuffer) (i : ℕ) (a b : PacketBuffer) → set (set xs i a) i b ≡ set xs i b
set-set [] i a b = refl
set-set (x ∷ xs) zero a b = refl
set-set (x ∷ xs) (suc i) a b = ap (λ r. x ∷ r) (set-set xs i a b)

-- The lists of a pool whose buffer went back, over the store before.
back-free :
    (bp : BufferPool) (store store' : List PacketBuffer) (n id : ℕ) (t s : PoolType)
    → free
        (record (with_free
          (record bp { store = store })
          t
          (id ∷ free (record bp { store = store }) t)) { store = store'; recycled_count = n })
        s
      ≡ free (with_free bp t (id ∷ free bp t)) s
back-free bp store store' n id small small = refl
back-free bp store store' n id small standard = refl
back-free bp store store' n id small jumbo = refl
back-free bp store store' n id small oversized = refl
back-free bp store store' n id standard small = refl
back-free bp store store' n id standard standard = refl
back-free bp store store' n id standard jumbo = refl
back-free bp store store' n id standard oversized = refl
back-free bp store store' n id jumbo small = refl
back-free bp store store' n id jumbo standard = refl
back-free bp store store' n id jumbo jumbo = refl
back-free bp store store' n id jumbo oversized = refl
back-free bp store store' n id oversized small = refl
back-free bp store store' n id oversized standard = refl
back-free bp store store' n id oversized jumbo = refl
back-free bp store store' n id oversized oversized = refl

module _ (bp : BufferPool) (id : ℕ) (ok : IsOwned bp) (held : 1 ≤ (buffer bp id).ref_count) where
  abbrev lowered_buffer : ℕ → PacketBuffer
  lowered_buffer left = record (buffer bp id) { ref_count = left }

  abbrev lowered : ℕ → BufferPool
  lowered left = record bp { store = set bp.store id (lowered_buffer left) }

  abbrev emptied : PacketBuffer
  emptied = record (buffer bp id) { ref_count = 0; used = 0 }

  recycled-store : (recycle (lowered 0) id).store ≡ set bp.store id emptied
  unfolding recycle
  recycled-store =
      let here =
        get_or-set_self bp.store id (lowered_buffer 0) no_buffer (held_bound bp ok id held) in
      ap (λ b. set (set bp.store id (lowered_buffer 0)) id (record b { used = 0 })) here
      ∙ set-set bp.store id (lowered_buffer 0) emptied

  recycled-free :
      (s : PoolType)
      → free (recycle (lowered 0) id) s
        ≡ free (with_free bp (buffer bp id).pool_type (id ∷ free bp (buffer bp id).pool_type)) s
  unfolding recycle
  recycled-free s =
      let here =
        get_or-set_self bp.store id (lowered_buffer 0) no_buffer (held_bound bp ok id held) in
      back-free bp (set bp.store id (lowered_buffer 0)) (recycle (lowered 0) id).store
        (recycle (lowered 0) id).recycled_count id (buffer (lowered 0) id).pool_type s
      ∙ ap (λ b. free (with_free bp b.pool_type (id ∷ free bp b.pool_type)) s) here

  recycled-IsOwned : IsOwned (recycle (lowered 0) id)
  recycled-IsOwned = record {
    unheld = λ s. subst (ListsOver (recycle (lowered 0) id).store s) (sym (recycled-free s)) (
        subst
          (λ st. ListsOver st s (
            free (with_free bp (buffer bp id).pool_type (id ∷ free bp (buffer bp id).pool_type)) s))
          (sym recycled-store)
          (put-unheld bp ok id held emptied refl (buffer bp id).pool_type refl s));
    sized =
        subst
          (λ st.
            (j : ℕ)
            → size_of (get_or st j no_buffer).pool_type (get_or st j no_buffer).capacity
              ≡ (get_or st j no_buffer).capacity)
          (sym recycled-store) (write-sized bp ok id held emptied refl refl);
  }

  lowered-IsOwned : (left : ℕ) → IsOwned (lowered left)
  lowered-IsOwned left = record {
    unheld = λ t.
        same-free (ListsOver (lowered left).store t) bp (lowered left).store t
          (write-unheld bp ok id held (lowered_buffer left) t);
    sized = write-sized bp ok id held (lowered_buffer left) refl refl;
  }

  settled-IsOwned :
      (left : ℕ) → IsOwned (if left == 0 then recycle (lowered left) id else lowered left)
  settled-IsOwned left = elim (ℕ_discrete left 0) [
    | yes e ↦
        subst (λ n. IsOwned (if n == 0 then recycle (lowered n) id else lowered n)) (sym e)
          recycled-IsOwned
    | no e ↦ let other : (left == 0) ≡ false = ground arith in rw other (lowered-IsOwned left)
  ]

  release-IsOwned : IsOwned (release bp id)
  unfolding release
  release-IsOwned = settled-IsOwned (((buffer bp id).ref_count + (2 ^ 32 - 1)) % 2 ^ 32)

pub data Use : Type 0 where
  take_buffer : ℕ → ℕ → Use
  hold : ℕ → Use
  give_back : ℕ → Use

unfoldable pub use_buffer : BufferPool → Use → BufferPool
use_buffer bp (take_buffer min_size choice) = (acquire bp min_size choice).0
use_buffer bp (hold id) = retain bp id
use_buffer bp (give_back id) = release bp id

unfoldable pub use_all : BufferPool → List Use → BufferPool
use_all bp [] = bp
use_all bp (u ∷ uses) = use_all (use_buffer bp u) uses

-- Retain and Release are called only on buffers that somebody holds.
abbrev pub IsFair : BufferPool → Use → Type 0
IsFair bp (take_buffer min_size choice) = Unit
IsFair bp (hold id) = 1 ≤ (buffer bp id).ref_count
IsFair bp (give_back id) = 1 ≤ (buffer bp id).ref_count

abbrev pub AreFair : BufferPool → List Use → Type 0
AreFair bp [] = Unit
AreFair bp (u ∷ uses) = IsFair bp u × AreFair (use_buffer bp u) uses

use_buffer-IsOwned :
    (bp : BufferPool) (u : Use) → IsFair bp u → IsOwned bp → IsOwned (use_buffer bp u)
unfolding use_buffer
use_buffer-IsOwned bp (take_buffer min_size choice) fair ok =
    (acquire-IsHandedOut bp ok min_size choice).in_order
use_buffer-IsOwned bp (hold id) fair ok = retain-IsOwned bp id ok fair
use_buffer-IsOwned bp (give_back id) fair ok = release-IsOwned bp id ok fair

use_all-IsOwned :
    (bp : BufferPool) (uses : List Use) → AreFair bp uses → IsOwned bp → IsOwned (use_all bp uses)
unfolding use_all
use_all-IsOwned bp [] fair ok = ok
use_all-IsOwned bp (u ∷ uses) (fair, later) ok =
    use_all-IsOwned (use_buffer bp u) uses later (use_buffer-IsOwned bp u fair ok)

new_buffer_pool-IsOwned : IsOwned new_buffer_pool
unfolding new_buffer_pool
new_buffer_pool-IsOwned = record { unheld = empty; sized = λ id. refl }
  where
    empty :
        (t : PoolType)
        → All (IsFree new_buffer_pool.store t) (free new_buffer_pool t)
          × IsNodup (free new_buffer_pool t)
    empty small = (tt, tt)
    empty standard = (tt, tt)
    empty jumbo = (tt, tt)
    empty oversized = (tt, tt)

-- After any calls of Acquire, Retain and Release in any order, of which Retain and Release are made
-- only on buffers that somebody holds, and whatever sync.Pool chooses: Acquire hands out a buffer
-- that nobody held, with one holder and at least the room that was asked for; it changes no other
-- buffer; and the pool stays in order, no buffer standing in it twice or while it is held.
pub acquire-use_all :
    (uses : List Use) (min_size choice : ℕ)
    → AreFair new_buffer_pool uses
    → IsHandedOut
        (use_all new_buffer_pool uses)
        min_size
        (acquire (use_all new_buffer_pool uses) min_size choice)
acquire-use_all uses min_size choice fair =
    acquire-IsHandedOut (use_all new_buffer_pool uses)
      (use_all-IsOwned new_buffer_pool uses fair new_buffer_pool-IsOwned) min_size choice
