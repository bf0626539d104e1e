-- ===== src/Http/Paths.antt =====
-- The texts of packages/http/src/router: paths cut at their slashes, and the segments of a pattern.
use Prim.Native.Char.{code}
use strav_1_x.Common.{
  ℕ, ◌-◌, String, Bool, true, false, ◌&&◌, List, [], ◌∷◌, ◌++◌, leb, ◌==◌, if◌then◌else◌, ◌+++◌,
  map, join,
}

abbrev pub is_empty : String → Bool
is_empty String.[] = true
is_empty (String.◌∷◌ c s) = false

-- `s.startsWith(c)`, for one character.
abbrev pub starts_with : ℕ → String → Bool
starts_with x String.[] = false
starts_with x (String.◌∷◌ c s) = code c == x

-- `s.slice(1)`
abbrev pub rest_of : String → String
rest_of String.[] = ""
rest_of (String.◌∷◌ c s) = s

-- `s.endsWith(c)`
abbrev pub ends_with : ℕ → String → Bool
ends_with x String.[] = false
ends_with x (String.◌∷◌ c s) = if is_empty s then code c == x else ends_with x s

-- `s.slice(0, -1)`
abbrev pub front_of : String → String
front_of String.[] = ""
front_of (String.◌∷◌ c s) = let rest = front_of s in if is_empty s then "" else String.◌∷◌ c rest

-- `replace(/^\/+/, '')`
abbrev pub trim_start : String → String
trim_start String.[] = ""
trim_start (String.◌∷◌ c s) =
    let rest = trim_start s in if code c == b'/' then rest else String.◌∷◌ c s

-- `replace(/\/+$/, '')`
abbrev pub trim_end : String → String
trim_end String.[] = ""
trim_end (String.◌∷◌ c s) =
    let rest = trim_end s in if is_empty rest && code c == b'/' then "" else String.◌∷◌ c rest

abbrev onto_first : String → List String → List String
onto_first s [] = s ∷ []
onto_first s (x ∷ xs) = (s +++ x) ∷ xs

-- `split('/')`
unfoldable pub split : String → List String
split String.[] = "" ∷ []
split (String.◌∷◌ c s) =
    let rest = split s in
    if code c == b'/' then "" ∷ rest else onto_first (String.◌∷◌ c String.[]) rest

unfoldable pub split_path : String → List String
split_path path =
    let trimmed = trim_end (trim_start path) in if is_empty trimmed then [] else split trimmed

pub data Segment : Type 0 where
  literal param wildcard : String → Segment

abbrev pub read_segment : String → Segment
read_segment seg =
    if starts_with b'*' seg
    then wildcard (rest_of seg)
    else if starts_with b':' seg
    then param (rest_of seg)
    else literal seg

abbrev pub is_optional : String → Bool
is_optional seg = starts_with b':' seg && ends_with b'?' seg

-- The loop of `expandOptionalParams`.
abbrev pub expand : List String → List (List String) → List (List String)
expand [] patterns = patterns
expand (seg ∷ segs) patterns = expand segs (
    if is_optional seg
    then map (λ p. p ++ front_of seg ∷ []) patterns ++ patterns
    else map (λ p. p ++ seg ∷ []) patterns)

unfoldable pub expand_optional_params : String → List String
expand_optional_params pattern =
    map (λ segs. "/" +++ join "/" segs) (expand (split_path pattern) ([] ∷ []))

-- An ASCII letter in upper case.
abbrev upper : ℕ → ℕ
upper c = if leb 97 c && leb c 122 then c - 32 else c

-- `method.toUpperCase() === name`
abbrev pub is_method : String → String → Bool
is_method String.[] String.[] = true
is_method (String.◌∷◌ c s) (String.◌∷◌ d t) = (upper (code c) == code d) && is_method s t
is_method _ _ = false
