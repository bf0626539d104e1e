-- ===== src/Cache/Memory/Entries.antt =====
-- About the entries of `MemoryCache`: what `get`, `has` and `add` answer after other calls.
use strav_1_x.Common.{
  ℕ, String, Bool, true, false, not, ◌||◌, ◌≡◌, refl, Option, none, some, List, [], ◌∷◌, ok, str_eq,
  eq_iff, if◌then◌else◌, includes, arith, any,
}
use strav_1_x.Common.Dict
use strav_1_x.Common.Dict.{Dict, lookup, lookup-insert, lookup-erase}
use strav_1_x.Cache.Ttl.{CacheTtl, ttl_to_expires_at}
use strav_1_x.Cache.Memory.{
  MemoryCache, CacheEntry, has_passed, evict, get, has, put, add, keys_of_tags, drop_keys,
  flush_tags, set_of_onto, remove_key_from_all_tags,
}
use strav_1_x.Cache.Memory.Links.{IsLinked, keys_of, includes-set_of_onto}

abbrev is_none : {V : Type 0} → Option V → Bool
is_none none = true
is_none (some v) = false

includes-keys_of_tags :
    (j : String) (seen tags : List String) (index : Dict (List String))
    → includes j (keys_of_tags seen tags index)
      ≡ includes j seen || any (λ tag. includes j (keys_of tag index)) tags
unfolding keys_of_tags
includes-keys_of_tags j seen [] index = ground arith
includes-keys_of_tags j seen (tag ∷ tags) index = ground (
  arith,
  includes-keys_of_tags j (set_of_onto seen (keys_of tag index)) tags index,
  includes-set_of_onto j seen (keys_of tag index),
)

module _ {V : Type 0} where
  remove-entries :
      (key : String) (c : MemoryCache V) → (remove_key_from_all_tags key c).entries ≡ c.entries
  unfolding remove_key_from_all_tags
  remove-entries key c = ground arith

  -- What a `get` that comes later answers, of an entry.
  abbrev pub answer : ℕ → Option V → Option (CacheEntry V) → Option V
  answer now fallback none = fallback
  answer now fallback (some entry) =
      if has_passed now entry.expires_at then fallback else some entry.value

  get-answer :
      (now : ℕ) (key : String) (fallback : Option V) (c : MemoryCache V)
      → (get now key fallback c).0 ≡ answer now fallback (lookup key c.entries)
  unfolding get
  get-answer now key fallback c = ground arith

  -- `has` answers whether `get` finds a value, and changes the cache as `get` does.
  pub has-get :
      (now : ℕ) (key : String) (c : MemoryCache V)
      → ((has now key c).0 ≡ not (is_none (get now key none c).0))
        × ((has now key c).1 ≡ (get now key none c).1)
  unfolding has get
  has-get now key c = (ground arith, ground arith)

  -- A value that was put is got until its expiry, then the fallback is; every other key answers as
  -- before.
  pub get-put :
      (now later : ℕ) (key other : String) (value : V) (fallback : Option V) (ttl : CacheTtl)
      (expiry : Option ℕ) (c : MemoryCache V)
      → ttl_to_expires_at ttl now ≡ ok expiry
      → (get later other fallback (put now key value ttl c).1).0 ≡ (
          if str_eq key other
          then if has_passed later expiry then fallback else some value
          else (get later other fallback c).0)
  unfolding get put
  get-put now later key other value fallback ttl expiry c valid = ground (
    arith,
    valid,
    eq_iff key other,
    lookup-insert key other (record { value = value; expires_at = expiry }) c.entries,
  )

  -- `add` answers true where `has` answers false, and then puts; otherwise it changes nothing.
  add-has :
      (now : ℕ) (key : String) (value : V) (ttl : CacheTtl) (expiry : Option ℕ) (c : MemoryCache V)
      → ttl_to_expires_at ttl now ≡ ok expiry
      → add now key value ttl c
        ≡ (if (has now key c).0 then (ok false, c) else (ok true, (put now key value ttl c).1))
  unfolding add has put
  add-has now key value ttl expiry c valid = ground (arith, valid)

  put-key_tags :
      (now : ℕ) (key : String) (value : V) (ttl : CacheTtl) (c : MemoryCache V)
      → (put now key value ttl c).1.key_tags ≡ c.key_tags
  unfolding put
  put-key_tags now key value ttl c = ground arith

  pub put-IsLinked :
      (now : ℕ) (key : String) (value : V) (ttl : CacheTtl) (c : MemoryCache V)
      → IsLinked c
      → IsLinked (put now key value ttl c).1
  unfolding put
  put-IsLinked now key value ttl c linked j t = ground (arith, linked j t)

  lookup-drop_keys :
      (ks : List String) (j : String) (c : MemoryCache V)
      → lookup j (drop_keys ks c).entries ≡ (if includes j ks then none else lookup j c.entries)
  unfolding drop_keys
  lookup-drop_keys [] j c = refl
  lookup-drop_keys (k ∷ ks) j c = ground (
    arith,
    lookup-drop_keys ks j (evict k c),
    remove-entries k (record c { entries = Dict.erase k c.entries }),
    lookup-erase k j c.entries,
    eq_iff k j,
  )

  any-linked :
      (c : MemoryCache V) (j : String) (tags : List String)
      → IsLinked c
      → any (λ tag. includes j (keys_of tag c.tag_keys)) tags
        ≡ any (λ tag. includes tag (keys_of j c.key_tags)) tags
  any-linked c j [] linked = refl
  any-linked c j (tag ∷ tags) linked = ground (arith, linked j tag, any-linked c j tags linked)

  -- After a flush of tags a key answers the fallback if one of its tags is among them, and as before
  -- if none is.
  pub get-flush_tags :
      (later : ℕ) (key : String) (fallback : Option V) (tags : List String) (c : MemoryCache V)
      → IsLinked c
      → (get later key fallback (flush_tags tags c).1).0 ≡ (
          if any (λ tag. includes tag (keys_of key c.key_tags)) tags
          then fallback
          else (get later key fallback c).0)
  unfolding flush_tags
  get-flush_tags later key fallback tags c linked =
      let ks = keys_of_tags [] tags c.tag_keys in
      ground (
        arith,
        get-answer later key fallback (drop_keys ks c),
        get-answer later key fallback c,
        lookup-drop_keys ks key c,
        includes-keys_of_tags key [] tags c.tag_keys,
        any-linked c key tags linked,
      )

  -- A plain `put` keeps the tags that the key had: a flush of one of them drops the new value.
  pub put-flush_tags :
      (now later : ℕ) (key : String) (value : V) (fallback : Option V) (ttl : CacheTtl)
      (tags : List String) (c : MemoryCache V)
      → IsLinked c
      → any (λ tag. includes tag (keys_of key c.key_tags)) tags ≡ true
      → (get later key fallback (flush_tags tags (put now key value ttl c).1).1).0 ≡ fallback
  put-flush_tags now later key value fallback ttl tags c linked tagged = ground (
    arith,
    tagged,
    put-key_tags now key value ttl c,
    get-flush_tags later key fallback tags (put now key value ttl c).1
        (put-IsLinked now key value ttl c linked),
  )
