-- ===== src/Cache/Ttl/Numbers.antt =====
-- About `parseTtl` of packages/cache/src/ttl.ts, on a decimal with a suffix.
use strav_1_x.Common.Numerals.{
  is_digit, read_digits, digits, digits_from, IsStop, read_stop, read_digits-digits,
}
use strav_1_x.Common.{
  ℕ, zero, suc, ◌+◌, ◌*◌, ◌/◌, ◌%◌, ◌<◌, ◌≡◌, Bool, true, false, some, List, [], ◌∷◌, ◌++◌, ok,
  arith, ltb, append_assoc, ◌&&◌, not, Bool-cases, inl, inr, ap, ◌∙◌,
}
use strav_1_x.Cache.Ttl.{
  text, is_space, skip_spaces, read_number, suffix_seconds, after_number, read_suffix, match_ttl,
  parse_ttl, to_lower,
}

-- A list that a digit begins, which is no space.
abbrev pub begins_number : List ℕ → Bool
begins_number [] = false
begins_number (c ∷ cs) = is_digit c && not (is_space c)

digits_from-begins :
    (fuel n : ℕ) (cs : List ℕ) → n < fuel → begins_number (digits_from fuel n ++ cs) ≡ true
unfolding digits_from
digits_from-begins zero n cs h = absurd (omega arith)
digits_from-begins (suc fuel) n cs h = elim (Bool-cases (ltb n 10)) [
  | inl small ↦ rw small (ground (arith, small))
  | inr big ↦
      rw (big, append_assoc (digits_from fuel (n / 10)) ((b'0' + n % 10) ∷ []) cs)
        (digits_from-begins fuel (n / 10) ((b'0' + n % 10) ∷ cs) (ground (arith, big, h)))
]

read_number-begins :
    (xs : List ℕ) → begins_number xs ≡ true → read_number (skip_spaces xs) ≡ some (read_digits 0 xs)
unfolding read_number skip_spaces
read_number-begins [] h = absurd cc
read_number-begins (c ∷ cs) h = ground (arith, h)

pub read_number-digits :
    (n : ℕ) (cs : List ℕ) → IsStop cs → read_number (skip_spaces (digits n ++ cs)) ≡ some (n, cs)
read_number-digits n cs stop =
    read_number-begins (digits n ++ cs) (digits_from-begins (suc n) n cs (omega arith))
    ∙ ap some (read_digits-digits (suc n) n cs (omega arith) ∙ read_stop n cs stop)

stops : (c k : ℕ) → suffix_seconds (to_lower c) ≡ some k → is_digit c ≡ false
stops c k h = ground (arith, h)

solid : (c k : ℕ) → suffix_seconds (to_lower c) ≡ some k → is_space c ≡ false
solid c k h = ground (arith, h)

after_number-suffix :
    (n c k : ℕ)
    → suffix_seconds (to_lower c) ≡ some k
    → after_number (some (n, c ∷ [])) ≡ some (n * k)
unfolding read_suffix skip_spaces
after_number-suffix n c k h = ground (arith, solid c k h, h)

match_ttl-digits :
    (n c k : ℕ)
    → suffix_seconds (to_lower c) ≡ some k
    → match_ttl (digits n ++ c ∷ []) ≡ some (n * k)
unfolding match_ttl
match_ttl-digits n c k h =
    ap after_number (read_number-digits n (c ∷ []) (stops c k h)) ∙ after_number-suffix n c k h

-- A number of one of the four suffixes, in either case, means that many times its seconds.
pub parse_ttl-digits :
    (n c k : ℕ)
    → suffix_seconds (to_lower c) ≡ some k
    → parse_ttl (text (digits n ++ c ∷ [])) ≡ ok (some (n * k))
unfolding parse_ttl
parse_ttl-digits n c k h = ground (arith, match_ttl-digits n c k h)
