-- ===== src/Text.antt =====
-- The methods of Python's `str` that the program calls, over the native texts. A separator that
-- is one character is given by its code point.
pub mod Laws
pub mod Order
use Prim.Native.Char.{Char, code}
use Prim.Native.String.{[], ◌∷◌, count}
use mathlib.Core.Option
use fastgeoapi.Base.{
  ℕ, zero, suc, ◌+◌, ◌-◌, String, ◌<>◌, Bool, true, false, ◌&&◌, ◌||◌, Option, none, some, List,
  ◌==◌, leb, nat_eq, if◌then◌else◌,
}

-- s.startswith(prefix)
unfoldable pub starts_with : String → String → Bool
starts_with s [] = true
starts_with [] (p ∷ ps) = false
starts_with (c ∷ s) (p ∷ ps) = nat_eq (code c) (code p) && starts_with s ps

-- s.endswith(suffix)
unfoldable pub ends_with : String → String → Bool
ends_with [] suffix = suffix == ""
ends_with (c ∷ s) suffix = (c ∷ s) == suffix || ends_with s suffix

-- The part before the first separator and the part after it; `none` without a separator.
unfoldable pub split_once : ℕ → String → Option (String × String)
split_once sep [] = none
split_once sep (c ∷ s) =
    let rest = Option.map (λ (before, after). (c ∷ before, after)) (split_once sep s) in
    if nat_eq (code c) sep then some ("", s) else rest

extend_head : Char → List String → List String
extend_head c List.[] = List.◌∷◌ (c ∷ []) List.[]
extend_head c (List.◌∷◌ w ws) = List.◌∷◌ (c ∷ w) ws

-- s.split(sep)
unfoldable pub split : ℕ → String → List String
unfolding extend_head
split sep [] = List.◌∷◌ "" List.[]
split sep (c ∷ s) =
    let parts = split sep s in
    if nat_eq (code c) sep then List.◌∷◌ "" parts else extend_head c parts

-- s.lstrip(c), s.rstrip(c) and s.strip(c) at one character
unfoldable pub lstrip : ℕ → String → String
lstrip k [] = []
lstrip k (c ∷ s) = let rest = lstrip k s in if nat_eq (code c) k then rest else c ∷ s

unfoldable pub rstrip : ℕ → String → String
rstrip k [] = []
rstrip k (c ∷ s) = let rest = rstrip k s in if nat_eq (code c) k && rest == "" then "" else c ∷ rest

unfoldable pub strip : ℕ → String → String
unfolding lstrip rstrip
strip k s = rstrip k (lstrip k s)

-- One pass from the left; `skip` counts the characters of a match that are still to be dropped.
unfoldable pub replace_from : String → String → ℕ → String → String
replace_from old new skip [] = []
replace_from old new (suc skip) (c ∷ s) = replace_from old new skip s
replace_from old new zero (c ∷ s) = elim (starts_with (c ∷ s) old) [
  | true ↦ new <> replace_from old new (count old - 1) s
  | false ↦ c ∷ replace_from old new zero s
]

interleave : String → String → String
interleave new [] = new
interleave new (c ∷ s) = new <> (c ∷ interleave new s)

-- s.replace(old, new): an empty `old` is found before each character and at the end
unfoldable pub replace : String → String → String → String
unfolding replace_from starts_with interleave
replace [] new s = interleave new s
replace (o ∷ os) new s = replace_from (o ∷ os) new 0 s

-- The code point of a character of s.lower(), for the ASCII letters; others stay as they are.
unfoldable pub lower_code : ℕ → ℕ
lower_code c = if leb b'A' c && leb c b'Z' then c + 32 else c

-- s.lower().startswith(prefix), for a prefix of ASCII characters other than `k`
unfoldable pub lower_starts_with : String → String → Bool
unfolding lower_code
lower_starts_with s [] = true
lower_starts_with [] (p ∷ ps) = false
lower_starts_with (c ∷ s) (p ∷ ps) = nat_eq (lower_code (code c)) (code p) && lower_starts_with s ps

-- s.lower() == t, for such a text t
unfoldable pub lower_equals : String → String → Bool
unfolding lower_code
lower_equals [] [] = true
lower_equals [] (d ∷ t) = false
lower_equals (c ∷ s) [] = false
lower_equals (c ∷ s) (d ∷ t) = nat_eq (lower_code (code c)) (code d) && lower_equals s t

between : ℕ → ℕ → ℕ → Bool
between lo hi c = leb lo c && leb c hi

-- The characters that s.strip() removes.
unfoldable pub is_space : ℕ → Bool
unfolding between
is_space c =
    between 9 13 c
    || between 28 32 c
    || nat_eq c 0x85
    || nat_eq c 0xa0
    || nat_eq c 0x1680
    || between 0x2000 0x200a c
    || between 0x2028 0x2029 c
    || nat_eq c 0x202f
    || nat_eq c 0x205f
    || nat_eq c 0x3000

lstrip_space : String → String
lstrip_space [] = []
lstrip_space (c ∷ s) = let rest = lstrip_space s in if is_space (code c) then rest else c ∷ s

rstrip_space : String → String
rstrip_space [] = []
rstrip_space (c ∷ s) =
    let rest = rstrip_space s in if is_space (code c) && rest == "" then "" else c ∷ rest

-- s.strip()
unfoldable pub strip_space : String → String
unfolding lstrip_space rstrip_space is_space
strip_space s = rstrip_space (lstrip_space s)

-- The text without its first n characters.
unfoldable pub drop_chars : ℕ → String → String
drop_chars zero s = s
drop_chars (suc n) [] = []
drop_chars (suc n) (c ∷ s) = drop_chars n s

-- s.partition(separator) where the separator is found: the parts around its first place
unfoldable pub partition : String → String → Option (String × String)
unfolding starts_with drop_chars
partition separator [] = none
partition separator (c ∷ s) =
    let later = Option.map (λ (before, after). (c ∷ before, after)) (partition separator s) in
    if starts_with (c ∷ s) separator then some ("", drop_chars (count separator) (c ∷ s)) else later
