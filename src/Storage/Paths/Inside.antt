-- ===== src/Storage/Paths/Inside.antt =====
-- About `normalizePath` of packages/storage/src/path.ts: where a path leads.
use strav_1_x.Common.{
  String, Bool, false, ◌&&◌, ◌||◌, ◌≡◌, refl, sym, ap, ◌∙◌, Option, none, some, List, [], ◌∷◌, ok,
  if◌then◌else◌, str_eq, arith, Bool-cases, Option-cases, inl, inr, ok-injective,
}
use Prim.Native.Char.{code}
use strav_1_x.Http.Paths.{is_empty, starts_with, split}
use strav_1_x.Storage.Paths.{
  PathFault, is_space, trim_left, trim_right, trim, segments_fault, check_path, checked,
  normalize_path,
}

-- A folder is the names on the way to it, the last one first.
abbrev entered : List String → String → List String
entered place seg =
    if is_empty seg || str_eq seg "."
    then place
    else if str_eq seg ".."
    then (elim place [ [] ↦ [] | p ∷ ps ↦ ps ])
    else seg ∷ place

abbrev followed : List String → List String → List String
followed place [] = place
followed place (seg ∷ segs) = followed (entered place seg) segs

-- Where a path leads from a folder, as a file system has it.
abbrev pub reached : List String → String → List String
reached place path = followed (if starts_with b'/' path then [] else place) (split path)

abbrev pub below : List String → List String → List String
below place [] = place
below place (seg ∷ segs) = below (seg ∷ place) segs

followed-below :
    (path : String) (segs place : List String)
    → segments_fault path segs ≡ none
    → followed place segs ≡ below place segs
followed-below path [] place h = refl
followed-below path (seg ∷ segs) place h = ground (arith, h, followed-below path segs (seg ∷ place))

abbrev starts_blank : String → Bool
starts_blank String.[] = false
starts_blank (String.◌∷◌ c s) = is_space (code c)

starts_blank-trim_left : (s : String) → starts_blank (trim_left s) ≡ false
starts_blank-trim_left String.[] = refl
starts_blank-trim_left (String.◌∷◌ c s) = elim (Bool-cases (is_space (code c))) [
  | inl e ↦ rw e (starts_blank-trim_left s)
  | inr e ↦ rw e e
]

starts_blank-trim_right :
    (s : String) → starts_blank s ≡ false → starts_blank (trim_right s) ≡ false
starts_blank-trim_right String.[] h = refl
starts_blank-trim_right (String.◌∷◌ c s) h = elim (Bool-cases (is_empty (trim_right s))) [
  | inl e ↦ rw (e, h) h
  | inr e ↦ rw e h
]

trim_left-kept : (s : String) → starts_blank s ≡ false → trim_left s ≡ s
trim_left-kept String.[] h = refl
trim_left-kept (String.◌∷◌ c s) h = rw h refl

trim_right-trim_right : (s : String) → trim_right (trim_right s) ≡ trim_right s
trim_right-trim_right String.[] = refl
trim_right-trim_right (String.◌∷◌ c s) =
    elim (Bool-cases (is_empty (trim_right s) && is_space (code c))) [
      | inl e ↦ rw e refl
      | inr e ↦ rw (e, trim_right-trim_right s, e) refl
    ]

trim-trim : (s : String) → trim (trim s) ≡ trim s
unfolding trim
trim-trim s =
    ap trim_right (
      trim_left-kept (trim_right (trim_left s))
        (starts_blank-trim_right (trim_left s) (starts_blank-trim_left s)))
    ∙ trim_right-trim_right (trim_left s)

checked-ok :
    (path p : String) (o : Option PathFault) → checked path o ≡ ok p → (path ≡ p) × (o ≡ none)
checked-ok path p none h = (ok-injective path p h, refl)
checked-ok path p (some e) h = absurd cc

check_path-ok :
    (path p : String)
    → check_path path ≡ ok p
    → (path ≡ p) × (starts_with b'/' path ≡ false) × (segments_fault path (split path) ≡ none)
check_path-ok path p h = elim (Option-cases (segments_fault path (split path))) [
  | inl k ↦ (ok-injective {E = PathFault} path p (ground (arith, h, k)), ground (arith, h), k)
  | inr (e, k) ↦ absurd (ground (arith, h, k))
]

-- A path that is accepted is accepted again as it is, and leads from every folder to a place below it:
-- down its segments, one after the other, and never up.
pub normalize_path-inside :
    (input path : String)
    → normalize_path input ≡ ok path
    → (normalize_path path ≡ ok path)
      × ((place : List String) → reached place path ≡ below place (split path))
unfolding normalize_path
normalize_path-inside input path h =
    let (e, a, f) = check_path-ok (trim input) path h in
    (
      ap check_path (ap trim (sym e) ∙ trim-trim input) ∙ h,
      λ place. rw (sym e, a) (followed-below (trim input) (split (trim input)) place f),
    )
