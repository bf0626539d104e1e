-- ===== src/Cache/Tests.antt =====
-- The cache at small inputs.
use strav_1_x.Common.{arith, ℕ, ◌+◌, ◌≡◌, refl, none, some, [], ◌∷◌, ok, throws}
use strav_1_x.Common.Dict
use strav_1_x.Common.Dict.{Dict, lookup}
use strav_1_x.Common.Numerals.{read_digits, digits_from}
use strav_1_x.Cache.Ttl.{
  CacheTtl, forever, number, floor, text, parse_ttl, match_ttl, read_number, skip_spaces,
  read_suffix, ttl_parse_error, code_points,
}
use strav_1_x.Cache.Ttl.Numbers.{parse_ttl-digits}
use strav_1_x.Cache.Memory.{
  MemoryCache, Numbers, get, has, put, add, flush_tags, put_with_tags, set_key_tags,
  remove_key_from_all_tags, link, unlink, keys_of_tags, drop_keys, set_of_onto, remove_from,
  try_acquire_lock, release_lock,
}
use strav_1_x.Cache.Memory.Entries.{get-put, put-flush_tags}
use strav_1_x.Cache.Memory.Reach.{
  empty_cache, Reach-flush_tags, Reach-IsLinked, here, next, tags_it,
}
use strav_1_x.Cache.Memory.Locks.{CacheLock, acquire, release}
use strav_1_x.Cache.Memory.Locks.Systems
use strav_1_x.Cache.Memory.Locks.Systems.{System, acquires}
use strav_1_x.Cache.Memory.Locks.Exclusive.{Reach-exclusive}

opened : Unit {0}
unfolding parse_ttl match_ttl read_number read_digits skip_spaces read_suffix code_points
    digits_from get has put add flush_tags put_with_tags set_key_tags remove_key_from_all_tags link
    unlink keys_of_tags drop_keys set_of_onto remove_from try_acquire_lock release_lock acquire
    release lookup Dict.insert Dict.erase
opened = tt

ten_minutes : parse_ttl (text (code_points " 10 M ")) ≡ ok (some 600)
unfolding opened
ten_minutes = refl

five_min : parse_ttl (text (code_points "5min")) ≡ throws ttl_parse_error
unfolding opened
five_min = refl

parse_ttl-digits_example : parse_ttl (text (b'1' ∷ b'0' ∷ b'H' ∷ [])) ≡ ok (some 36000)
unfolding opened
parse_ttl-digits_example = parse_ttl-digits 10 b'H' 3600 refl

abbrev counting : Numbers ℕ ℕ
counting = record { to_number = λ n. n; from_number = λ n. n; plus = λ a b. a + b; negate = λ n. n }

abbrev one_second : CacheTtl
one_second = number (floor 1)

abbrev no_entries : MemoryCache ℕ
no_entries = empty_cache

abbrev priced : MemoryCache ℕ
priced = (put_with_tags 0 "price" 5 forever ("shop" ∷ []) no_entries).1

get-put_example : (get 999 "a" none (put 0 "a" 7 one_second priced).1).0 ≡ some 7
unfolding opened
get-put_example = get-put 0 999 "a" "a" 7 none one_second (some 1000) priced refl

Reach-flush_tags_example : (get 1 "price" none (flush_tags ("shop" ∷ []) priced).1).0 ≡ none
unfolding opened
Reach-flush_tags_example =
    Reach-flush_tags counting 1 "price" none ("shop" ∷ [])
      (next here (tags_it 0 "price" 5 forever ("shop" ∷ [])))

put-flush_tags_example :
    (get 1 "price" none (flush_tags ("shop" ∷ []) (put 0 "price" 6 forever priced).1).1).0 ≡ none
unfolding opened
put-flush_tags_example =
    put-flush_tags 0 1 "price" 6 none forever ("shop" ∷ []) priced
      (Reach-IsLinked counting (next here (tags_it 0 "price" 5 forever ("shop" ∷ [])))) refl

abbrev free_lock : CacheLock
free_lock = record { name = "job"; ttl = one_second; owner = none }

abbrev two_locks : System ℕ
two_locks = record { clients = λ k. free_lock; ends = λ k. none; cache = no_entries; clock = 0 }

abbrev taken : MemoryCache ℕ
taken = (acquire 0 free_lock no_entries).1.1

Reach-exclusive_example : ◌≡◌ {A = ℕ} 1 1
unfolding opened
Reach-exclusive_example =
    Reach-exclusive {s = two_locks} 1 1 (λ k. refl)
      (Systems.next (Systems.next (Systems.here) (acquires 0 1 (omega arith)))
        (acquires 999 2 (omega arith)))
      refl refl refl
