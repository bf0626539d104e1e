-- ===== src/Cache/Memory/Locks/Systems.antt =====
-- Lock objects over one cache, `MemoryCacheLock` of packages/cache/src/drivers/memory/memory_cache.ts, in
-- the order of their calls. The clock does not run back.
use strav_1_x.Common.{
  ℕ, suc, ◌≤◌, Bool, true, false, not, ◌&&◌, ◌≡◌, ◌⊎◌, Option, none, some, Result, ok, arith,
  if◌then◌else◌, ◌==◌, inl, inr, Option-cases, Bool-cases,
}
use strav_1_x.Common.Dict
use strav_1_x.Common.Dict.{Dict, lookup, lookup-insert, lookup-erase}
use strav_1_x.Cache.Ttl.{Fault, ttl_to_expires_at}
use strav_1_x.Cache.Memory.{
  MemoryCache, LockRow, try_acquire_lock, release_lock, is_held, has_passed,
}
use strav_1_x.Cache.Memory.Locks.{CacheLock, acquire, release}

-- Lock objects, numbered, over one cache, and when the lock that each took last ends.
pub record System (V : Type 0) : Type 0 where
  pub clients : ℕ → CacheLock
  pub ends : ℕ → Option ℕ
  pub cache : MemoryCache V
  pub clock : ℕ

abbrev pub replace : {A : Type 0} → (ℕ → A) → ℕ → A → ℕ → A
replace f i l k = if k == i then l else f k

-- The end of the lock that was taken, if one was.
abbrev pub end_after : Result Fault Bool → Result Fault (Option ℕ) → Option ℕ → Option ℕ
end_after (ok true) (ok t) old = t
end_after _ _ old = old

-- A call of one lock object, or any change of the cache's entries and tags.
pub data Step {V : Type 0} (s : System V) : System V → Type 0 where
  acquires :
      (now i : ℕ)
      → s.clock ≤ now
      → Step s (record {
        clients = replace s.clients i (acquire now (s.clients i) s.cache).1.0;
        ends = replace s.ends i (
            end_after
              (acquire now (s.clients i) s.cache).0
              (ttl_to_expires_at (s.clients i).ttl now)
              (s.ends i));
        cache = (acquire now (s.clients i) s.cache).1.1;
        clock = now;
      })
  releases :
      (i : ℕ)
      → Step s (record s {
        clients = replace s.clients i (release (s.clients i) s.cache).1.0;
        cache = (release (s.clients i) s.cache).1.1;
      })
  others :
      (now : ℕ) (c : MemoryCache V)
      → s.clock ≤ now
      → c.locks ≡ s.cache.locks
      → c.tokens ≡ s.cache.tokens
      → Step s (record s { cache = c; clock = now })

pub data Reach {V : Type 0} (s : System V) : System V → Type 0 where
  here : Reach s s
  next : {t u : System V} → Reach s t → Step t u → Reach s u

abbrev pub owning : Option ℕ → Bool
owning none = false
owning (some token) = true

-- The lock object took its lock, did not release it, and the lock has not ended.
abbrev pub has_lock : {V : Type 0} → System V → ℕ → Bool
has_lock s i = owning (s.clients i).owner && not (has_passed s.clock (s.ends i))

module _ {V : Type 0} (now : ℕ) (l : CacheLock) (c : MemoryCache V) (old : Option ℕ) where
  abbrev pub after : CacheLock
  after = (acquire now l c).1.0

  abbrev pub later : MemoryCache V
  later = (acquire now l c).1.1

  abbrev pub end : Option ℕ
  end = end_after (acquire now l c).0 (ttl_to_expires_at l.ttl now) old

  -- Either nothing is taken, or the next token stands in a lock that nobody held.
  pub acquire-cases :
      (after.name ≡ l.name)
      × ((after.owner ≡ l.owner) × (later.locks ≡ c.locks) × (c.tokens ≤ later.tokens) × (end ≡ old)
          ⊎ (is_held now (lookup l.name c.locks) ≡ false)
            × (after.owner ≡ some c.tokens)
            × (later.tokens ≡ suc c.tokens)
            × (later.locks
                ≡ Dict.insert l.name (record { owner = c.tokens; expires_at = end }) c.locks))
  unfolding acquire try_acquire_lock
  acquire-cases = ground arith

  abbrev pub let_go : CacheLock
  let_go = (release l c).1.0

  abbrev pub freed : MemoryCache V
  freed = (release l c).1.1

  pub release-cases :
      (let_go.name ≡ l.name)
      × (freed.tokens ≡ c.tokens)
      × ((let_go.owner ≡ none) × (freed.locks ≡ c.locks)
          ⊎ (let_go.owner ≡ none)
            × (row : LockRow) × (lookup l.name c.locks ≡ some row)
            × (l.owner ≡ some row.owner)
            × (freed.locks ≡ Dict.erase l.name c.locks))
  unfolding release release_lock
  release-cases = elim (Option-cases l.owner) [
    | inl e ↦ ground (arith, e)
    | inr (token, e) ↦ elim (Option-cases (lookup l.name c.locks)) [
      | inl k ↦ ground (arith, e, k)
      | inr (row, k) ↦ elim (Bool-cases (row.owner == token)) [
        | inr q ↦ ground (arith, e, k, q)
        | inl q ↦ (
          ground (arith, e, k, q),
          ground (arith, e, k, q),
          inr (ground (arith, e, k, q), row, k, ground (arith, e, q), ground (arith, e, k, q)),
        )
      ]
    ]
  ]
