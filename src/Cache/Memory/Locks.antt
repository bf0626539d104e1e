-- ===== src/Cache/Memory/Locks.antt =====
-- `MemoryCacheLock` of packages/cache/src/drivers/memory/memory_cache.ts. `block` polls
-- `acquire` and is not part of the model.
pub mod Systems
pub mod Standing
pub mod Exclusive
use strav_1_x.Common.{
  ℕ, suc, ◌<◌, ◌≤◌, String, Bool, true, false, ◌≡◌, ◌⊎◌, refl, Option, none, some, Result, ok,
  throws, arith, if◌then◌else◌, ◌==◌, inl, inr,
}
use strav_1_x.Common.Dict.{lookup}
use strav_1_x.Cache.Ttl.{CacheTtl, Fault}
use strav_1_x.Cache.Memory.{MemoryCache, LockRow, try_acquire_lock, release_lock, is_held}

pub record CacheLock : Type 0 where
  pub name : String
  pub ttl : CacheTtl
  pub owner : Option ℕ

module _ {V : Type 0} where
  abbrev pub acquired :
      CacheLock
      → Result Fault (Option ℕ) × MemoryCache V
      → Result Fault Bool × (CacheLock × MemoryCache V)
  acquired l (throws e, c) = (throws e, (l, c))
  acquired l (ok none, c) = (ok false, (l, c))
  acquired l (ok (some token), c) = (ok true, (record l { owner = some token }, c))

  unfoldable pub acquire :
      ℕ → CacheLock → MemoryCache V → Result Fault Bool × (CacheLock × MemoryCache V)
  acquire now l c = elim l.owner [
    | some token ↦ (ok false, (l, c))
    | none ↦ acquired l (try_acquire_lock now l.name l.ttl c)
  ]

  abbrev pub released : CacheLock → Bool × MemoryCache V → Bool × (CacheLock × MemoryCache V)
  released l (b, c) = (b, (record l { owner = none }, c))

  unfoldable pub release : CacheLock → MemoryCache V → Bool × (CacheLock × MemoryCache V)
  release l c = elim l.owner [
    | none ↦ (false, (l, c))
    | some token ↦ released l (release_lock l.name token c)
  ]
