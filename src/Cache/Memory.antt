-- ===== src/Cache/Memory.antt =====
-- `MemoryCache` of packages/cache/src/drivers/memory/memory_cache.ts. The clock is read once for each
-- call and passed in; a set of texts is the list of its elements in the order of their insertion; the
-- tokens of `ulid` are numbers, counted by the cache. A value is a number or another value.
pub mod Locks
pub mod Entries
pub mod Links
pub mod Reach
use strav_1_x.Common.{
  ℕ, suc, ◌+◌, String, Bool, true, false, not, ◌&&◌, Option, none, some, List, [], ◌∷◌, ◌++◌,
  Result, ok, throws, str_eq, leb, ltb, ◌==◌, if◌then◌else◌, length, includes,
}
use strav_1_x.Common.Dict
use strav_1_x.Common.Dict.{Dict, lookup}
use strav_1_x.Cache.Ttl.{CacheTtl, Fault, ttl_to_expires_at}

-- `expires_at` in milliseconds; none is for ever.
pub record CacheEntry (V : Type 0) : Type 0 where
  pub value : V
  pub expires_at : Option ℕ

pub record LockRow : Type 0 where
  pub owner : ℕ
  pub expires_at : Option ℕ

pub record MemoryCache (V : Type 0) : Type 0 where
  pub entries : Dict (CacheEntry V)
  pub key_tags : Dict (List String)
  pub tag_keys : Dict (List String)
  pub locks : Dict LockRow
  pub tokens : ℕ

-- `new Set(xs)` and `set.add(x)`; `set.delete(x)`
abbrev pub add_to : String → List String → List String
add_to x xs = if includes x xs then xs else xs ++ x ∷ []

unfoldable pub set_of_onto : List String → List String → List String
set_of_onto seen [] = seen
set_of_onto seen (x ∷ xs) = set_of_onto (add_to x seen) xs

abbrev pub set_of : List String → List String
set_of xs = set_of_onto [] xs

unfoldable pub remove_from : String → List String → List String
remove_from x [] = []
remove_from x (y ∷ ys) = let rest = remove_from x ys in if str_eq y x then rest else y ∷ rest

-- An expiry that is not in the future; `Infinity` and null never are.
abbrev pub has_passed : ℕ → Option ℕ → Bool
has_passed now none = false
has_passed now (some t) = leb t now

abbrev pub keys_or_none : Option (List String) → List String
keys_or_none none = []
keys_or_none (some ks) = ks

-- A bucket that becomes empty is dropped.
abbrev pub put_bucket : String → List String → Dict (List String) → Dict (List String)
put_bucket tag [] index = Dict.erase tag index
put_bucket tag (k ∷ ks) index = Dict.insert tag (k ∷ ks) index

abbrev pub unlink_one :
    String → Option (List String) → String → Dict (List String) → Dict (List String)
unlink_one key none tag index = index
unlink_one key (some ks) tag index = put_bucket tag (remove_from key ks) index

-- The loop of `removeKeyFromAllTags` over the key's tags.
unfoldable pub unlink : String → List String → Dict (List String) → Dict (List String)
unlink key [] index = index
unlink key (tag ∷ tags) index = unlink key tags (unlink_one key (lookup tag index) tag index)

-- The loop of `setKeyTags` over the key's tags.
unfoldable pub link : String → List String → Dict (List String) → Dict (List String)
link key [] index = index
link key (tag ∷ tags) index =
    link key tags (Dict.insert tag (add_to key (keys_or_none (lookup tag index))) index)

-- The keys of the tags, each once.
unfoldable pub keys_of_tags : List String → List String → Dict (List String) → List String
keys_of_tags seen [] index = seen
keys_of_tags seen (tag ∷ tags) index =
    keys_of_tags (set_of_onto seen (keys_or_none (lookup tag index))) tags index

-- Numbers as values: `to_number` is `Number(…)`.
pub record Numbers (V N : Type 0) : Type 0 where
  pub to_number : V → N
  pub from_number : N → V
  pub plus : N → N → N
  pub negate : N → N

abbrev pub is_held : ℕ → Option LockRow → Bool
is_held now none = false
is_held now (some row) = not (has_passed now row.expires_at)

module _ {V : Type 0} where
  unfoldable pub remove_key_from_all_tags : String → MemoryCache V → MemoryCache V
  remove_key_from_all_tags key c = elim (lookup key c.key_tags) [
    | none ↦ c
    | some tags ↦ record c {
      key_tags = Dict.erase key c.key_tags;
      tag_keys = unlink key tags c.tag_keys;
    }
  ]

  unfoldable pub set_key_tags : String → List String → MemoryCache V → MemoryCache V
  set_key_tags key tags c =
      let c' = remove_key_from_all_tags key c in
      record c' {
        key_tags = Dict.insert key (set_of tags) c'.key_tags;
        tag_keys = link key (set_of tags) c'.tag_keys;
      }

  -- `delete` of an entry that expired, with its tags.
  abbrev pub evict : String → MemoryCache V → MemoryCache V
  evict key c = remove_key_from_all_tags key (record c { entries = Dict.erase key c.entries })

  unfoldable pub get : ℕ → String → Option V → MemoryCache V → Option V × MemoryCache V
  get now key fallback c = elim (lookup key c.entries) [
    | none ↦ (fallback, c)
    | some entry ↦
        if has_passed now entry.expires_at then (fallback, evict key c) else (some entry.value, c)
  ]

  unfoldable pub has : ℕ → String → MemoryCache V → Bool × MemoryCache V
  has now key c = elim (lookup key c.entries) [
    | none ↦ (false, c)
    | some entry ↦ if has_passed now entry.expires_at then (false, evict key c) else (true, c)
  ]

  abbrev pub store :
      String → V → Result Fault (Option ℕ) → MemoryCache V → Result Fault (Unit {0}) × MemoryCache V
  store key value (throws e) c = (throws e, c)
  store key value (ok t) c = (
    ok tt,
    record c { entries = Dict.insert key (record { value = value; expires_at = t }) c.entries },
  )

  unfoldable pub put :
      ℕ → String → V → CacheTtl → MemoryCache V → Result Fault (Unit {0}) × MemoryCache V
  put now key value ttl c = store key value (ttl_to_expires_at ttl now) c

  abbrev pub is_there : Option (CacheEntry V) → Bool
  is_there none = false
  is_there (some entry) = true

  unfoldable pub forget : String → MemoryCache V → Bool × MemoryCache V
  forget key c =
      let c' = remove_key_from_all_tags key c in
      (is_there (lookup key c'.entries), record c' { entries = Dict.erase key c'.entries })

  -- The locks stay.
  unfoldable pub flush : MemoryCache V → MemoryCache V
  flush c = record c { entries = []; key_tags = []; tag_keys = [] }

  -- An entry that has not expired.
  abbrev pub is_live : ℕ → Option (CacheEntry V) → Bool
  is_live now none = false
  is_live now (some entry) = not (has_passed now entry.expires_at)

  abbrev pub stored : Result Fault (Unit {0}) × MemoryCache V → Result Fault Bool × MemoryCache V
  stored (ok u, c) = (ok true, c)
  stored (throws e, c) = (throws e, c)

  unfoldable pub add : ℕ → String → V → CacheTtl → MemoryCache V → Result Fault Bool × MemoryCache V
  add now key value ttl c =
      if is_live now (lookup key c.entries)
      then (ok false, c)
      else stored (store key value (ttl_to_expires_at ttl now) c)

  abbrev pub tag_after :
      String
      → List String
      → Result Fault (Unit {0}) × MemoryCache V
      → Result Fault (Unit {0}) × MemoryCache V
  tag_after key tags (ok u, c) = (ok u, set_key_tags key tags c)
  tag_after key tags (throws e, c) = (throws e, c)

  unfoldable pub put_with_tags :
      ℕ
      → String
      → V
      → CacheTtl
      → List String
      → MemoryCache V
      → Result Fault (Unit {0}) × MemoryCache V
  put_with_tags now key value ttl tags c =
      tag_after key tags (store key value (ttl_to_expires_at ttl now) c)

  unfoldable pub drop_keys : List String → MemoryCache V → MemoryCache V
  drop_keys [] c = c
  drop_keys (k ∷ ks) c = drop_keys ks (evict k c)

  unfoldable pub flush_tags : List String → MemoryCache V → ℕ × MemoryCache V
  flush_tags tags c = let keys = keys_of_tags [] tags c.tag_keys in (length keys, drop_keys keys c)

  -- The entry that holds a number for ever.
  abbrev pub start_count :
      {N : Type 0} → Numbers V N → String → N → MemoryCache V → N × MemoryCache V
  start_count num key delta c = (
    delta,
    record c {
      entries =
          Dict.insert key (record { value = num.from_number delta; expires_at = none }) c.entries;
    },
  )

  abbrev pub count_on :
      {N : Type 0} → Numbers V N → String → N → CacheEntry V → MemoryCache V → N × MemoryCache V
  count_on num key delta entry c =
      let next = num.plus (num.to_number entry.value) delta in
      (
        next,
        record c {
          entries = Dict.insert key (record entry { value = num.from_number next }) c.entries;
        },
      )

  unfoldable pub adjust :
      {N : Type 0} → Numbers V N → ℕ → String → N → MemoryCache V → N × MemoryCache V
  adjust num now key delta c = elim (lookup key c.entries) [
    | none ↦ start_count num key delta c
    | some entry ↦
        if has_passed now entry.expires_at
        then start_count num key delta c
        else count_on num key delta entry c
  ]

  abbrev pub increment :
      {N : Type 0} → Numbers V N → ℕ → String → N → MemoryCache V → N × MemoryCache V
  increment num now key by c = adjust num now key by c

  abbrev pub decrement :
      {N : Type 0} → Numbers V N → ℕ → String → N → MemoryCache V → N × MemoryCache V
  decrement num now key by c = adjust num now key (num.negate by) c

  abbrev pub take_lock :
      String → Result Fault (Option ℕ) → MemoryCache V → Result Fault (Option ℕ) × MemoryCache V
  take_lock name (throws e) c = (throws e, record c { tokens = suc c.tokens })
  take_lock name (ok t) c = (
    ok (some c.tokens),
    record c {
      locks = Dict.insert name (record { owner = c.tokens; expires_at = t }) c.locks;
      tokens = suc c.tokens;
    },
  )

  -- A lock that is held and has not expired refuses; a token is spent only when the lock is taken.
  unfoldable pub try_acquire_lock :
      ℕ → String → CacheTtl → MemoryCache V → Result Fault (Option ℕ) × MemoryCache V
  try_acquire_lock now name ttl c =
      if is_held now (lookup name c.locks)
      then (ok none, c)
      else take_lock name (ttl_to_expires_at ttl now) c

  unfoldable pub release_lock : String → ℕ → MemoryCache V → Bool × MemoryCache V
  release_lock name owner c = elim (lookup name c.locks) [
    | none ↦ (false, c)
    | some row ↦
        if row.owner == owner
        then (true, record c { locks = Dict.erase name c.locks })
        else (false, c)
  ]
