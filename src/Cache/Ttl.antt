-- ===== src/Cache/Ttl.antt =====
-- packages/cache/src/ttl.ts: lifetimes in seconds, from numbers and texts. A text is read as the list
-- of its code points; of the white space that `\s` names, the ASCII part.
pub mod Numbers
use Prim.Native.Char.{code}
use Prim.Native.String
use strav_1_x.Common.Numerals.{is_digit, read_digits}
use strav_1_x.Common.{
  ℕ, ◌+◌, ◌-◌, ◌*◌, String, Bool, true, false, ◌&&◌, ◌||◌, Option, none, some, List, [], ◌∷◌,
  Result, ok, throws, leb, ◌==◌, if◌then◌else◌,
}

-- A finite number that is not negative is given by its floor.
pub data JsNumber : Type 0 where
  floor : ℕ → JsNumber
  negative not_finite : JsNumber

-- `forever` is null and undefined.
pub data CacheTtl : Type 0 where
  forever : CacheTtl
  number : JsNumber → CacheTtl
  text : List ℕ → CacheTtl

-- The code points of a text.
unfoldable pub code_points : String → List ℕ
code_points String.[] = []
code_points (String.◌∷◌ c s) = code c ∷ code_points s

abbrev pub is_space : ℕ → Bool
is_space c = c == 32 || (leb 9 c && leb c 13)

-- `\s*`
unfoldable pub skip_spaces : List ℕ → List ℕ
skip_spaces [] = []
skip_spaces (c ∷ cs) = let rest = skip_spaces cs in if is_space c then rest else c ∷ cs

-- `\d+`
unfoldable pub read_number : List ℕ → Option (ℕ × List ℕ)
read_number [] = none
read_number (c ∷ cs) = if is_digit c then some (read_digits 0 (c ∷ cs)) else none

abbrev pub to_lower : ℕ → ℕ
to_lower c = if leb b'A' c && leb c b'Z' then c + 32 else c

-- `SUFFIX_SECONDS`
abbrev pub suffix_seconds : ℕ → Option ℕ
suffix_seconds c =
    if c == b's'
    then some 1
    else if c == b'm'
    then some 60
    else if c == b'h'
    then some (60 * 60)
    else if c == b'd'
    then some (60 * 60 * 24)
    else none

-- `([smhd]?)`, whatever the case: the seconds of the suffix, 1 without one.
unfoldable pub read_suffix : List ℕ → ℕ × List ℕ
read_suffix [] = (1, [])
read_suffix (c ∷ cs) = elim (suffix_seconds (to_lower c)) [ none ↦ (1, c ∷ cs) | some k ↦ (k, cs) ]

abbrev pub at_end : ℕ → List ℕ → Option ℕ
at_end n [] = some n
at_end n (c ∷ cs) = none

abbrev after_number : Option (ℕ × List ℕ) → Option ℕ
after_number none = none
after_number (some (n, cs)) =
    let (k, rest) = read_suffix (skip_spaces cs) in at_end (n * k) (skip_spaces rest)

-- A match of `TTL_PATTERN`, in seconds.
unfoldable pub match_ttl : List ℕ → Option ℕ
match_ttl cs = after_number (read_number (skip_spaces cs))

-- The texts of a `CacheTtlParseError` are left out.
pub data Fault : Type 0 where
  ttl_parse_error : Fault

unfoldable pub parse_ttl : CacheTtl → Result Fault (Option ℕ)
parse_ttl forever = ok none
parse_ttl (number (floor n)) = ok (some n)
parse_ttl (number _) = throws ttl_parse_error
parse_ttl (text cs) = elim (match_ttl cs) [ none ↦ throws ttl_parse_error | some n ↦ ok (some n) ]

abbrev pub from_now : ℕ → Result Fault (Option ℕ) → Result Fault (Option ℕ)
from_now now (ok none) = ok none
from_now now (ok (some seconds)) = ok (some (now + seconds * 1000))
from_now now (throws e) = throws e

-- `ttlToExpiresAt`, in milliseconds.
abbrev pub ttl_to_expires_at : CacheTtl → ℕ → Result Fault (Option ℕ)
ttl_to_expires_at ttl now = from_now now (parse_ttl ttl)
