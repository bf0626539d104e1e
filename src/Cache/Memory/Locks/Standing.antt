-- ===== src/Cache/Memory/Locks/Standing.antt =====
-- About the locks that were taken from packages/cache/src/drivers/memory/memory_cache.ts: their tokens,
-- and the rows that stand for them.
use strav_1_x.Common.{
  ℕ, suc, ◌<◌, ◌≤◌, false, ◌≡◌, refl, Option, none, some, arith, ◌==◌, inl, inr, eq_iff, Bool-cases,
}
use strav_1_x.Common.Dict
use strav_1_x.Common.Dict.{Dict, lookup, lookup-insert, lookup-erase}
use strav_1_x.Cache.Memory.{LockRow, is_held, has_passed}
use strav_1_x.Cache.Memory.Locks.{CacheLock}
use strav_1_x.Cache.Memory.Locks.Systems.{replace}

-- The tokens of the lock objects were given out by the cache, each to one.
pub record IsFresh (clients : ℕ → CacheLock) (tokens : ℕ) : Type 0 where
  pub below : (i token : ℕ) → (clients i).owner ≡ some token → token < tokens
  pub distinct :
      (i j token : ℕ) → (clients i).owner ≡ some token → (clients j).owner ≡ some token → i ≡ j

module _ (f : ℕ → CacheLock) (n : ℕ) (fresh : IsFresh f n) (i : ℕ) (l : CacheLock) where
  pub same-IsFresh : (m : ℕ) → l.owner ≡ (f i).owner → n ≤ m → IsFresh (replace f i l) m
  same-IsFresh m e le = record {
    below = λ k token h. ground (arith, h, e, le, fresh.below k token, fresh.below i token);
    distinct = λ j k token p q. ground (
      arith,
      p,
      q,
      e,
      fresh.distinct j k token,
      fresh.distinct i k token,
      fresh.distinct j i token,
    );
  }

  pub none-IsFresh : l.owner ≡ none → IsFresh (replace f i l) n
  none-IsFresh e = record {
    below = λ k token h. ground (arith, h, e, fresh.below k token);
    distinct = λ j k token p q. ground (arith, p, q, e, fresh.distinct j k token);
  }

  pub next-IsFresh : l.owner ≡ some n → IsFresh (replace f i l) (suc n)
  next-IsFresh e = record {
    below = λ k token h. ground (arith, h, e, fresh.below k token);
    distinct = λ j k token p q.
        ground (arith, p, q, e, fresh.distinct j k token, fresh.below j token, fresh.below k token);
  }

pub passed-later :
    (t u : ℕ) (o : Option ℕ) → t ≤ u → has_passed u o ≡ false → has_passed t o ≡ false
passed-later t u none le h = refl
passed-later t u (some e) le h = ground (arith, le, h)

-- A lock that was taken and has not ended at a time stands among the cache's.
abbrev pub Stands : (ℕ → CacheLock) → (ℕ → Option ℕ) → Dict LockRow → ℕ → Type 0
Stands f ends locks t =
    (k token : ℕ)
    → (f k).owner ≡ some token
    → has_passed t (ends k) ≡ false
    → lookup (f k).name locks ≡ some (record { owner = token; expires_at = ends k })

module _ (f : ℕ → CacheLock) (ends : ℕ → Option ℕ) (locks : Dict LockRow) (t u i : ℕ) (le : t ≤ u)
    (l : CacheLock) (e : Option ℕ) (name : l.name ≡ (f i).name)
    (stands : Stands f ends locks t) where
  pub same-Stands :
      l.owner ≡ (f i).owner → e ≡ ends i → Stands (replace f i l) (replace ends i e) locks u
  same-Stands owner end k token = elim (Bool-cases (k == i)) [
    | inl q ↦ λ h p.
        let at =
          stands i token (ground (arith, h, q, owner))
            (passed-later t u (ends i) le (ground (arith, p, q, end))) in
        ground (arith, q, at, name, end)
    | inr q ↦ λ h p.
        let at =
          stands k token (ground (arith, h, q))
            (passed-later t u (ends k) le (ground (arith, p, q))) in
        ground (arith, q, at)
  ]

  pub taken-Stands :
      (n : ℕ)
      → is_held u (lookup (f i).name locks) ≡ false
      → l.owner ≡ some n
      → Stands
          (replace f i l)
          (replace ends i e)
          (Dict.insert (f i).name (record { owner = n; expires_at = e }) locks)
          u
  taken-Stands n free owner k token = elim (Bool-cases (k == i)) [
    | inl q ↦ λ h p. ground (
      arith,
      q,
      h,
      owner,
      name,
      eq_iff (f i).name (f i).name,
      lookup-insert (f i).name (f i).name (record { owner = n; expires_at = e }) locks,
    )
    | inr q ↦ λ h p.
        let p' : has_passed u (ends k) ≡ false = ground (arith, p, q) in
        let at = stands k token (ground (arith, h, q)) (passed-later t u (ends k) le p') in
        ground (
          arith,
          q,
          at,
          p',
          free,
          eq_iff (f i).name (f k).name,
          lookup-insert (f i).name (f k).name (record { owner = n; expires_at = e }) locks,
        )
  ]

module _ (f : ℕ → CacheLock) (ends : ℕ → Option ℕ) (locks : Dict LockRow) (t i : ℕ) (l : CacheLock)
    (owner : l.owner ≡ none) (stands : Stands f ends locks t) where
  pub none-Stands : Stands (replace f i l) ends locks t
  none-Stands k token h p = ground (arith, h, p, owner, stands k token)

  pub erased-Stands :
      (n : ℕ) (row : LockRow)
      → IsFresh f n
      → lookup (f i).name locks ≡ some row
      → (f i).owner ≡ some row.owner
      → Stands (replace f i l) ends (Dict.erase (f i).name locks) t
  erased-Stands n row fresh at mine k token = elim (Bool-cases (k == i)) [
    | inl q ↦ λ h p. absurd (ground (arith, h, q, owner))
    | inr q ↦ λ h p.
        let there = stands k token (ground (arith, h, q)) p in
        ground (
          arith,
          q,
          h,
          there,
          at,
          mine,
          fresh.distinct k i token,
          eq_iff (f i).name (f k).name,
          lookup-erase (f i).name (f k).name locks,
        )
  ]
