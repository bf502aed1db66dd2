-- ===== src/Resolver/Fragments.antt =====
-- Fragments as paths of keys.
use Prim.Native.Char.{Char, code}
use Prim.Native.String.{[], ◌∷◌}
use text.Mathlib.TextLemmas.{cons≢nil, tail-eq_of_cons-eq}
use fastgeoapi.Base.{
  String, ◌≡◌, ◌≢◌, refl, ap, true, false, List, Result, ok, arith, inl, inr, eq_iff, Bool-cases,
  All, ◌==◌,
}
use mathlib.Core.Path.{fun_ext}
use fastgeoapi.Base.Errors.{◌>>=◌}
use fastgeoapi.Json.{Value}
use fastgeoapi.Text.{split, lstrip, rstrip, strip}
use fastgeoapi.Resolver.Refs.{get_item, follow, navigate_to_fragment}

-- The text without a slash.
abbrev pub NoSlash : String → Type 0
NoSlash [] = Unit
NoSlash (c ∷ s) = (code c ≢ b'/') × NoSlash s

-- A key that a fragment can name.
abbrev pub IsPart : String → Type 0
IsPart part = (part ≢ "") × NoSlash part

unfoldable pub push : String → String → String
push [] rest = rest
push (c ∷ s) rest = c ∷ push s rest

-- `/` before each key
unfoldable pub pointer : List String → String
unfolding push
pointer List.[] = ""
pointer (List.◌∷◌ part parts) = "/" ∷ push part (pointer parts)

-- One key after the other.
unfoldable pub look_up : List String → Value → Result Value
look_up List.[] v = ok v
look_up (List.◌∷◌ part parts) v = get_item part v >>= look_up parts

not_nil : (c : Char) (s : String) → ((c ∷ s) == "") ≡ false
not_nil c s = elim (Bool-cases ((c ∷ s) == "")) [
  | inl same ↦ absurd (cons≢nil ((eq_iff (c ∷ s) "").0 same))
  | inr differ ↦ differ
]

rstrip-push :
    (part rest : String)
    → NoSlash part
    → rstrip b'/' rest ≡ rest
    → rstrip b'/' (push part rest) ≡ push part rest
unfolding rstrip push
rstrip-push [] rest h e = e
rstrip-push (c ∷ s) rest (p, h) e = ground (arith, rstrip-push s rest h e)

push-ne-nil : (part rest : String) → part ≢ "" → (push part rest == "") ≡ false
unfolding push
push-ne-nil [] rest h = absurd (h refl)
push-ne-nil (c ∷ s) rest h = not_nil c (push s rest)

rstrip-pointer :
    (parts : List String) → All IsPart parts → rstrip b'/' (pointer parts) ≡ pointer parts
unfolding rstrip pointer
rstrip-pointer List.[] h = refl
rstrip-pointer (List.◌∷◌ part parts) ((nonempty, clean), h) =
    rw (rstrip-push part (pointer parts) clean (rstrip-pointer parts h))
      (rw (push-ne-nil part (pointer parts) nonempty))

split-push :
    (part rest : String)
    → NoSlash part
    → split b'/' (push part ("/" ∷ rest)) ≡ List.◌∷◌ part (split b'/' rest)
unfolding split push
split-push [] rest h = refl
split-push (c ∷ s) rest (p, h) = ground (arith, split-push s rest h)

split_last : (part : String) → NoSlash part → split b'/' (push part "") ≡ List.◌∷◌ part List.[]
unfolding split push
split_last [] h = refl
split_last (c ∷ s) (p, h) = ground (arith, split_last s h)

-- A pointer without its first slash splits into its keys.
split-pointer :
    (part : String) (parts : List String)
    → NoSlash part
    → All IsPart parts
    → split b'/' (push part (pointer parts)) ≡ List.◌∷◌ part parts
unfolding pointer
split-pointer part List.[] h hs = split_last part h
split-pointer part (List.◌∷◌ next parts) h ((nonempty, clean), hs) =
    rw (split-push part (push next (pointer parts)) h)
      (ap (λ (ps : List String). List.◌∷◌ part ps) (split-pointer next parts clean hs))

lstrip-push :
    (part rest : String) → IsPart part → lstrip b'/' ("/" ∷ push part rest) ≡ push part rest
unfolding lstrip push
lstrip-push [] rest (nonempty, h) = absurd (nonempty refl)
lstrip-push (c ∷ s) rest (nonempty, (p, h)) = ground arith

follow-look_up :
    (parts : List String) (v : Value) → All IsPart parts → follow parts v ≡ look_up parts v
unfolding follow look_up
follow-look_up List.[] v h = refl
follow-look_up (List.◌∷◌ part parts) v ((nonempty, clean), h) = elim (Bool-cases (part == "")) [
  | inl same ↦ absurd (nonempty ((eq_iff part "").0 same))
  | inr differ ↦
      rw differ (ap (λ g. get_item part v >>= g) (fun_ext (λ w. follow-look_up parts w h)))
]

not_slash : (part rest : String) → part ≢ "" → (("/" ∷ push part rest) == "/") ≡ false
not_slash part rest h = elim (Bool-cases (("/" ∷ push part rest) == "/")) [
  | inl same ↦
      let empty : push part rest ≡ "" =
        tail-eq_of_cons-eq ((eq_iff ("/" ∷ push part rest) "/").0 same) in
      let known : (push part rest == "") ≡ true = (eq_iff (push part rest) "").1 empty in
      let other = push-ne-nil part rest h in cc
  | inr differ ↦ differ
]

-- The fragment that names a path of keys, each not empty and free of slashes, leads to what the
-- keys lead to one after the other, or to the error of the first that is missing or stands at
-- something other than a dict. The keys are taken as they are written: the escapes `~0` and `~1` of
-- a JSON pointer are not decoded, and a part that stands at a list raises a TypeError also where it
-- is a number.
pub navigate_to_fragment-pointer :
    (doc : Value) (parts : List String)
    → All IsPart parts
    → navigate_to_fragment doc (pointer parts) ≡ look_up parts doc
unfolding navigate_to_fragment pointer strip look_up
navigate_to_fragment-pointer doc List.[] h = refl
navigate_to_fragment-pointer doc (List.◌∷◌ part parts) (p, h) =
    rw
      (
        not_nil "/" (push part (pointer parts)),
        not_slash part (pointer parts) p.0,
        lstrip-push part (pointer parts) p,
        rstrip-push part (pointer parts) p.1 (rstrip-pointer parts h),
        split-pointer part parts p.1 h,
      )
      (follow-look_up (List.◌∷◌ part parts) doc (p, h))
