-- ===== src/Storage/Paths/Tests.antt =====
-- Paths and prefixes at small inputs.
use strav_1_x.Common.{String, List, ◌≡◌, refl, ok, throws}
use strav_1_x.Http.Paths.{split}
use strav_1_x.Storage.Paths.{
  trim, normalize_path, normalize_prefix, has_parent, slash_prefix, has_empty_segment,
}
use strav_1_x.Storage.Paths.Inside.{reached, below, normalize_path-inside}

opened : Unit {0}
unfolding split trim normalize_path normalize_prefix
opened = tt

trimmed : normalize_path " a/b.txt\t" ≡ ok "a/b.txt"
unfolding opened
trimmed = refl

parent : normalize_path "a/../b" ≡ throws (has_parent "a/../b")
unfolding opened
parent = refl

trailing : normalize_path "a/" ≡ throws (has_empty_segment "a/")
unfolding opened
trailing = refl

reports : normalize_prefix "reports/2026/" ≡ ok "reports/2026/"
unfolding opened
reports = refl

bare : normalize_prefix "/" ≡ throws slash_prefix
unfolding opened
bare = refl

-- A folder's name that ends in a space is a path's, and no prefix's.
spaced_path : normalize_path "a /x" ≡ ok "a /x"
unfolding opened
spaced_path = refl

spaced_prefix : normalize_prefix "a /" ≡ ok "a/"
unfolding opened
spaced_prefix = refl

normalize_path-inside_example :
    (normalize_path "a/b.txt" ≡ ok "a/b.txt")
    × ((place : List String) → reached place "a/b.txt" ≡ below place (split "a/b.txt"))
unfolding opened
normalize_path-inside_example = normalize_path-inside " a/b.txt " "a/b.txt" refl
