-- ===== src/Storage/Paths.antt =====
-- `normalizePath` and `normalizePrefix` of packages/storage/src/path.ts. A text is its code points.
pub mod Inside
pub mod Tests
use Prim.Native.Char.{code}
use strav_1_x.Common.{
  ℕ, String, Bool, true, false, ◌&&◌, ◌||◌, Option, none, some, List, [], ◌∷◌, leb, ltb, ◌==◌,
  Result, ok, throws, if◌then◌else◌, ◌+++◌, str_eq,
}
use strav_1_x.Http.Paths.{is_empty, starts_with, ends_with, front_of, split}

pub data PathFault : Type 0 where
  empty_path slash_prefix : PathFault
  has_backslash is_absolute has_control has_empty_segment has_parent has_dot : String → PathFault

-- The white space and the line ends that `trim` takes off.
abbrev pub is_space : ℕ → Bool
is_space c =
    (leb 9 c && leb c 13)
    || (c == 32)
    || (c == 160)
    || (c == 5760)
    || (leb 8192 c && leb c 8202)
    || (c == 8232)
    || (c == 8233)
    || (c == 8239)
    || (c == 8287)
    || (c == 12288)
    || (c == 65279)

abbrev pub trim_left : String → String
trim_left String.[] = ""
trim_left (String.◌∷◌ c s) =
    let rest = trim_left s in if is_space (code c) then rest else String.◌∷◌ c s

abbrev pub trim_right : String → String
trim_right String.[] = ""
trim_right (String.◌∷◌ c s) =
    let rest = trim_right s in if is_empty rest && is_space (code c) then "" else String.◌∷◌ c rest

unfoldable pub trim : String → String
trim s = trim_right (trim_left s)

abbrev pub has_char : (ℕ → Bool) → String → Bool
has_char p String.[] = false
has_char p (String.◌∷◌ c s) = p (code c) || has_char p s

-- `CONTROL_CHAR`
abbrev pub is_control : ℕ → Bool
is_control c = ltb c 32 || (c == 127)

-- The loop over the segments: the first fault.
abbrev pub segments_fault : String → List String → Option PathFault
segments_fault path [] = none
segments_fault path (seg ∷ segs) =
    let later = segments_fault path segs in
    if is_empty seg
    then some (has_empty_segment path)
    else if str_eq seg ".."
    then some (has_parent path)
    else if str_eq seg "."
    then some (has_dot path)
    else later

abbrev pub checked : String → Option PathFault → Result PathFault String
checked path none = ok path
checked path (some e) = throws e

abbrev pub check_path : String → Result PathFault String
check_path path =
    if is_empty path
    then throws empty_path
    else if has_char (λ c. c == b'\\') path
    then throws (has_backslash path)
    else if starts_with b'/' path
    then throws (is_absolute path)
    else if has_char is_control path
    then throws (has_control path)
    else checked path (segments_fault path (split path))

unfoldable pub normalize_path : String → Result PathFault String
normalize_path input = check_path (trim input)

abbrev slash_after : Result PathFault String → Result PathFault String
slash_after (throws e) = throws e
slash_after (ok path) = ok (path +++ "/")

abbrev prefix_of : String → Result PathFault String
prefix_of trimmed =
    if is_empty trimmed
    then ok ""
    else if ends_with b'/' trimmed
    then if is_empty (front_of trimmed)
      then throws slash_prefix
      else slash_after (normalize_path (front_of trimmed))
    else normalize_path trimmed

unfoldable pub normalize_prefix : String → Result PathFault String
normalize_prefix input = prefix_of (trim input)
