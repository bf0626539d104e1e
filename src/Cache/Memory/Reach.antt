-- ===== src/Cache/Memory/Reach.antt =====
-- The caches that the operations of the memory driver lead to.
use strav_1_x.Common.{
  ℕ, String, ◌≡◌, refl, Option, List, [], ◌∷◌, Result, ok, throws, arith, if◌then◌else◌, any,
  includes,
}
use strav_1_x.Common.Dict
use strav_1_x.Common.Dict.{Dict, lookup}
use strav_1_x.Cache.Ttl.{CacheTtl, Fault, ttl_to_expires_at}
use strav_1_x.Cache.Memory.{
  MemoryCache, Numbers, evict, get, has, put, add, forget, flush, put_with_tags, drop_keys,
  flush_tags, tag_after, store, adjust, try_acquire_lock, release_lock,
}
use strav_1_x.Cache.Memory.Links.{
  IsLinked, keys_of, remove_key_from_all_tags-IsLinked, set_key_tags-IsLinked,
}
use strav_1_x.Cache.Memory.Entries.{put-IsLinked, get-flush_tags}

abbrev pub empty_cache : {V : Type 0} → MemoryCache V
empty_cache = record { entries = []; key_tags = []; tag_keys = []; locks = []; tokens = 0 }

-- One call of the driver.
pub data Step {V N : Type 0} (num : Numbers V N) (c : MemoryCache V) : MemoryCache V → Type 0 where
  gets : (now : ℕ) (key : String) (fallback : Option V) → Step num c (get now key fallback c).1
  asks : (now : ℕ) (key : String) → Step num c (has now key c).1
  puts : (now : ℕ) (key : String) (v : V) (ttl : CacheTtl) → Step num c (put now key v ttl c).1
  adds : (now : ℕ) (key : String) (v : V) (ttl : CacheTtl) → Step num c (add now key v ttl c).1
  tags_it :
      (now : ℕ) (key : String) (v : V) (ttl : CacheTtl) (tags : List String)
      → Step num c (put_with_tags now key v ttl tags c).1
  forgets : (key : String) → Step num c (forget key c).1
  flushes : Step num c (flush c)
  flushes_tags : (tags : List String) → Step num c (flush_tags tags c).1
  adjusts : (now : ℕ) (key : String) (delta : N) → Step num c (adjust num now key delta c).1
  acquires :
      (now : ℕ) (name : String) (ttl : CacheTtl) → Step num c (try_acquire_lock now name ttl c).1
  releases : (name : String) (owner : ℕ) → Step num c (release_lock name owner c).1

pub data Reach {V N : Type 0} (num : Numbers V N) : MemoryCache V → Type 0 where
  here : Reach num empty_cache
  next : {c d : MemoryCache V} → Reach num c → Step num c d → Reach num d

module _ {V : Type 0} where
  drop_keys-IsLinked :
      (ks : List String) (c : MemoryCache V) → IsLinked c → IsLinked (drop_keys ks c)
  unfolding drop_keys
  drop_keys-IsLinked [] c linked = linked
  drop_keys-IsLinked (k ∷ ks) c linked =
      drop_keys-IsLinked ks (evict k c)
        (remove_key_from_all_tags-IsLinked k (record c { entries = Dict.erase k c.entries }) linked)

  tag_after-IsLinked :
      (key : String) (v : V) (tags : List String) (c : MemoryCache V)
      → IsLinked c
      → (o : Result Fault (Option ℕ)) → IsLinked (tag_after key tags (store key v o c)).1
  tag_after-IsLinked key v tags c h (ok t) =
      set_key_tags-IsLinked key
        (record c { entries = Dict.insert key (record { value = v; expires_at = t }) c.entries }) h
        tags
  tag_after-IsLinked key v tags c h (throws e) = h

  Step-IsLinked :
      {N : Type 0} (num : Numbers V N) {c d : MemoryCache V}
      → Step num c d
      → IsLinked c
      → IsLinked d
  unfolding get has add put_with_tags forget flush flush_tags adjust try_acquire_lock release_lock
      lookup
  Step-IsLinked num {c} (gets now key fallback) h = λ j t. ground (
    arith,
    h j t,
    remove_key_from_all_tags-IsLinked key (record c { entries = Dict.erase key c.entries }) h j t,
  )
  Step-IsLinked num {c} (asks now key) h = λ j t. ground (
    arith,
    h j t,
    remove_key_from_all_tags-IsLinked key (record c { entries = Dict.erase key c.entries }) h j t,
  )
  Step-IsLinked num {c} (puts now key v ttl) h = put-IsLinked now key v ttl c h
  Step-IsLinked num {c} (adds now key v ttl) h = λ j t. ground (arith, h j t)
  Step-IsLinked num {c} (tags_it now key v ttl tags) h =
      tag_after-IsLinked key v tags c h (ttl_to_expires_at ttl now)
  Step-IsLinked num {c} (forgets key) h = λ j t. remove_key_from_all_tags-IsLinked key c h j t
  Step-IsLinked num {c} flushes h = λ j t. refl
  Step-IsLinked num {c} (flushes_tags tags) h = drop_keys-IsLinked _ c h
  Step-IsLinked num {c} (adjusts now key delta) h = λ j t. ground (arith, h j t)
  Step-IsLinked num {c} (acquires now name ttl) h = λ j t. ground (arith, h j t)
  Step-IsLinked num {c} (releases name owner) h = λ j t. ground (arith, h j t)

  pub Reach-IsLinked :
      {N : Type 0} (num : Numbers V N) {c : MemoryCache V} → Reach num c → IsLinked c
  unfolding lookup
  Reach-IsLinked num here = λ j t. refl
  Reach-IsLinked num (next r step) = Step-IsLinked num step (Reach-IsLinked num r)

  -- In every cache that the driver's calls lead to: after a flush of tags, a key that has one of them
  -- answers the fallback, and a key that has none answers as before.
  pub Reach-flush_tags :
      {N : Type 0} (num : Numbers V N) {c : MemoryCache V} (later : ℕ) (key : String)
      (fallback : Option V) (tags : List String)
      → Reach num c
      → (get later key fallback (flush_tags tags c).1).0 ≡ (
          if any (λ tag. includes tag (keys_of key c.key_tags)) tags
          then fallback
          else (get later key fallback c).0)
  Reach-flush_tags num later key fallback tags r =
      get-flush_tags later key fallback tags _ (Reach-IsLinked num r)
