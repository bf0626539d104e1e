-- ===== src/Cache/Memory/Locks/Exclusive.antt =====
-- About the holders of `MemoryCacheLock` of packages/cache/src/drivers/memory/memory_cache.ts.
use strav_1_x.Common.{ℕ, true, ◌≡◌, none, arith, inl, inr, Option-cases}
use strav_1_x.Cache.Memory.Locks.Systems.{
  System, Step, Reach, here, next, acquires, releases, others, has_lock, end, acquire-cases,
  release-cases,
}
use strav_1_x.Cache.Memory.Locks.Standing.{
  IsFresh, same-IsFresh, none-IsFresh, next-IsFresh, Stands, same-Stands, taken-Stands, none-Stands,
  erased-Stands, passed-later,
}

-- A lock that was taken and has not ended stands in the cache.
record IsStanding {V : Type 0} (s : System V) : Type 0 where
  fresh : IsFresh s.clients s.cache.tokens
  stands : Stands s.clients s.ends s.cache.locks s.clock

module _ {V : Type 0} where
  Step-IsStanding : {s t : System V} → Step s t → IsStanding s → IsStanding t
  Step-IsStanding {s} (acquires now i le) inv =
      let (name, cases) = acquire-cases now (s.clients i) s.cache (s.ends i) in
      elim cases [
        | inl (owner, locks, tokens, end) ↦ record {
          fresh = same-IsFresh s.clients s.cache.tokens inv.fresh i _ _ owner tokens;
          stands = rw locks (
              same-Stands s.clients s.ends s.cache.locks s.clock now i le _ _ name inv.stands owner
                end);
        }
        | inr (free, owner, tokens, locks) ↦ record {
          fresh = rw tokens (next-IsFresh s.clients s.cache.tokens inv.fresh i _ owner);
          stands = rw locks (
              taken-Stands s.clients s.ends s.cache.locks s.clock now i le _ _ name inv.stands
                s.cache.tokens free owner);
        }
      ]
  Step-IsStanding {s} (releases i) inv =
      let (name, tokens, cases) = release-cases s.clock (s.clients i) s.cache (s.ends i) in
      elim cases [
        | inl (owner, locks) ↦ record {
          fresh = rw tokens (none-IsFresh s.clients s.cache.tokens inv.fresh i _ owner);
          stands =
              rw locks (none-Stands s.clients s.ends s.cache.locks s.clock i _ owner inv.stands);
        }
        | inr (owner, row, at, mine, locks) ↦ record {
          fresh = rw tokens (none-IsFresh s.clients s.cache.tokens inv.fresh i _ owner);
          stands = rw locks (
              erased-Stands s.clients s.ends s.cache.locks s.clock i _ owner inv.stands
                s.cache.tokens row inv.fresh at mine);
        }
      ]
  Step-IsStanding {s} (others now c le locks tokens) inv = record {
    fresh = rw tokens inv.fresh;
    stands =
        λ k token h p. rw locks (inv.stands k token h (passed-later s.clock now (s.ends k) le p));
  }

  Reach-IsStanding : {s t : System V} → Reach s t → IsStanding s → IsStanding t
  Reach-IsStanding here inv = inv
  Reach-IsStanding (next r step) inv = Step-IsStanding step (Reach-IsStanding r inv)

  -- From lock objects that hold nothing, however they acquire and release as the time goes on: two of
  -- the same name that took their lock, have not released it, and whose locks have not ended, are the
  -- same one.
  pub Reach-exclusive :
      {s t : System V} (i j : ℕ)
      → ((k : ℕ) → (s.clients k).owner ≡ none)
      → Reach s t
      → (t.clients i).name ≡ (t.clients j).name
      → has_lock t i ≡ true
      → has_lock t j ≡ true
      → i ≡ j
  Reach-exclusive {s} {t} i j free r same hi hj =
      let inv : IsStanding t = Reach-IsStanding r (record {
        fresh = record {
          below = λ k token h. absurd cc (h, free k);
          distinct = λ j k token p q. absurd cc (p, free j);
        };
        stands = λ k token h p. absurd cc (h, free k);
      }) in
      elim (Option-cases (t.clients i).owner) [
        | inl e ↦ absurd (ground (arith, hi, e))
        | inr (a, e) ↦ elim (Option-cases (t.clients j).owner) [
          | inl e' ↦ absurd (ground (arith, hj, e'))
          | inr (b, e') ↦
              let x = inv.stands i a e (ground (arith, hi, e)) in
              let y = inv.stands j b e' (ground (arith, hj, e')) in
              inv.fresh.distinct i j a e (ground (arith, e', x, y, same))
        ]
      ]
