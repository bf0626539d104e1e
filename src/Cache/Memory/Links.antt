-- ===== src/Cache/Memory/Links.antt =====
-- About the two maps of `MemoryCache` between keys and tags.
use strav_1_x.Common.{
  String, not, ◌&&◌, ◌||◌, ◌≡◌, refl, List, [], ◌∷◌, str_eq, eq_iff, if◌then◌else◌, includes,
  includes-append, arith, Option-cases, inl, inr,
}
use strav_1_x.Common.Dict
use strav_1_x.Common.Dict.{Dict, lookup, lookup-insert, lookup-erase}
use strav_1_x.Cache.Memory.{
  MemoryCache, add_to, set_of_onto, set_of, remove_from, keys_or_none, put_bucket, unlink_one,
  unlink, link, remove_key_from_all_tags, set_key_tags,
}

includes-add_to :
    (x y : String) (xs : List String) → includes x (add_to y xs) ≡ str_eq y x || includes x xs
includes-add_to x y xs = ground (arith, eq_iff y x, includes-append x xs (y ∷ []))

pub includes-set_of_onto :
    (x : String) (seen xs : List String)
    → includes x (set_of_onto seen xs) ≡ includes x seen || includes x xs
unfolding set_of_onto
includes-set_of_onto x seen [] = ground arith
includes-set_of_onto x seen (y ∷ xs) =
    ground (arith, includes-set_of_onto x (add_to y seen) xs, includes-add_to x y seen)

includes-remove_from :
    (x y : String) (xs : List String)
    → includes x (remove_from y xs) ≡ includes x xs && not (str_eq y x)
unfolding remove_from
includes-remove_from x y [] = refl
includes-remove_from x y (z ∷ xs) =
    ground (arith, eq_iff y x, eq_iff z x, eq_iff z y, includes-remove_from x y xs)

-- The keys of a tag.
abbrev pub keys_of : String → Dict (List String) → List String
keys_of tag index = keys_or_none (lookup tag index)

keys_of-put_bucket :
    (t tag : String) (ks : List String) (index : Dict (List String))
    → keys_of t (put_bucket tag ks index) ≡ (if str_eq tag t then ks else keys_of t index)
keys_of-put_bucket t tag [] index = ground (arith, lookup-erase tag t index)
keys_of-put_bucket t tag (k ∷ ks) index = ground (arith, lookup-insert tag t (k ∷ ks) index)

includes-unlink_one :
    (j t key tag : String) (index : Dict (List String))
    → includes j (keys_of t (unlink_one key (lookup tag index) tag index))
      ≡ includes j (keys_of t index) && not (str_eq key j && str_eq tag t)
includes-unlink_one j t key tag index = elim (Option-cases (lookup tag index)) [
  | inl e ↦ ground (arith, e, eq_iff tag t)
  | inr (ks, e) ↦ ground (
    arith,
    e,
    eq_iff tag t,
    keys_of-put_bucket t tag (remove_from key ks) index,
    includes-remove_from j key ks,
  )
]

includes-unlink :
    (j t key : String) (tags : List String) (index : Dict (List String))
    → includes j (keys_of t (unlink key tags index))
      ≡ includes j (keys_of t index) && not (str_eq key j && includes t tags)
unfolding unlink
includes-unlink j t key [] index = ground arith
includes-unlink j t key (tag ∷ tags) index = ground (
  arith,
  includes-unlink j t key tags (unlink_one key (lookup tag index) tag index),
  includes-unlink_one j t key tag index,
)

includes-link :
    (j t key : String) (tags : List String) (index : Dict (List String))
    → includes j (keys_of t (link key tags index))
      ≡ includes j (keys_of t index) || (str_eq key j && includes t tags)
unfolding link
includes-link j t key [] index = ground arith
includes-link j t key (tag ∷ tags) index = ground (
  arith,
  includes-link j t key tags (Dict.insert tag (add_to key (keys_of tag index)) index),
  lookup-insert tag t (add_to key (keys_of tag index)) index,
  includes-add_to j key (keys_of tag index),
  eq_iff tag t,
)

-- A key is among a tag's keys if and only if the tag is among the key's tags.
abbrev pub IsLinked : {V : Type 0} → MemoryCache V → Type 0
IsLinked c =
    (key tag : String)
    → includes key (keys_of tag c.tag_keys) ≡ includes tag (keys_of key c.key_tags)

module _ {V : Type 0} (key : String) (c : MemoryCache V) (linked : IsLinked c) where
  pub remove_key_from_all_tags-IsLinked : IsLinked (remove_key_from_all_tags key c)
  unfolding remove_key_from_all_tags
  remove_key_from_all_tags-IsLinked j t = elim (Option-cases (lookup key c.key_tags)) [
    | inl e ↦ ground (arith, e, linked j t)
    | inr (tags, e) ↦ ground (
      arith,
      e,
      linked j t,
      includes-unlink j t key tags c.tag_keys,
      lookup-erase key j c.key_tags,
      eq_iff key j,
    )
  ]

  -- No tag is left on the key, and the other keys keep theirs.
  pub remove_key_from_all_tags-keys_of :
      (j : String)
      → keys_of j (remove_key_from_all_tags key c).key_tags
        ≡ (if str_eq key j then [] else keys_of j c.key_tags)
  unfolding remove_key_from_all_tags
  remove_key_from_all_tags-keys_of j = ground (arith, lookup-erase key j c.key_tags, eq_iff key j)

  pub set_key_tags-IsLinked : (tags : List String) → IsLinked (set_key_tags key tags c)
  unfolding set_key_tags
  set_key_tags-IsLinked tags j t = ground (
    arith,
    remove_key_from_all_tags-IsLinked j t,
    remove_key_from_all_tags-keys_of j,
    includes-link j t key (set_of tags) (remove_key_from_all_tags key c).tag_keys,
    lookup-insert key j (set_of tags) (remove_key_from_all_tags key c).key_tags,
    eq_iff key j,
  )
