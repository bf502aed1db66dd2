-- ===== src/Mcp/Audience/Collapse.antt =====
-- The audience that the token endpoint expects is the one that the metadata advertises.
use Prim.Native.Char.{code}
use Prim.Native.String.{[], ◌∷◌}
use text.Mathlib.TextLemmas.{nil-append, cons-append}
use fastgeoapi.Base.{String, ◌<>◌, ◌≡◌, ◌≢◌, refl, some, arith, ◌⊎◌}
use fastgeoapi.Text.{starts_with, partition, replace, replace_from}
use fastgeoapi.Mcp.Audience.{patched_endpoint, Authenticator, patch_audience}

-- A text without colon.
abbrev pub NoColon : String → Type 0
NoColon [] = Unit
NoColon (c ∷ s) = (code c ≢ b':') × NoColon s

-- A text in which no slash is followed by a slash or stands at the end.
abbrev pub NoDouble : String → Type 0
NoDouble [] = Unit
NoDouble (c ∷ []) = code c ≢ b'/'
NoDouble (c ∷ d ∷ s) = (((code c ≢ b'/') ⊎ (code d ≢ b'/')) × NoDouble (d ∷ s))

-- The one pass of `replace` takes a text without doubled slashes as it is, up to the doubled slash
-- that follows it.
replace_from-NoDouble :
    (s : String) → NoDouble s → replace_from "//" "/" 0 (s <> "//token") ≡ s <> "/token"
unfolding replace_from starts_with
replace_from-NoDouble [] h = refl
replace_from-NoDouble (c ∷ []) h = simp (cons-append, nil-append) (ground arith)
replace_from-NoDouble (c ∷ d ∷ s) (p, h) =
    let ih : replace_from "//" "/" 0 (d ∷ (s <> "//token")) ≡ d ∷ (s <> "/token") =
      simp cons-append at (replace_from-NoDouble (d ∷ s) h) in
    simp cons-append (ground (arith, ih))

partition-NoColon :
    (scheme rest : String)
    → NoColon scheme
    → partition "://" (scheme <> ("://" <> rest)) ≡ some (scheme, rest)
unfolding partition
partition-NoColon [] rest h = rw (nil-append, cons-append, cons-append, cons-append, nil-append)
partition-NoColon (c ∷ s) rest (p, h) =
    simp cons-append (ground (arith, partition-NoColon s rest h))

-- Where the base URL is `scheme://rest/`, the scheme has no colon and the rest has no doubled slash
-- and ends in none, the endpoint that fastmcp builds from it, with `//token` at its end, becomes
-- `scheme://rest/token`, the advertised one.
pub patched_endpoint-base_url :
    (scheme rest : String)
    → NoColon scheme
    → NoDouble rest
    → patched_endpoint (scheme <> ("://" <> (rest <> "//token")))
      ≡ scheme <> ("://" <> (rest <> "/token"))
unfolding patched_endpoint replace
patched_endpoint-base_url scheme rest h k =
    rw (partition-NoColon scheme (rest <> "//token") h, replace_from-NoDouble rest k)

-- Patching the class again changes nothing, so the endpoint is collapsed once.
pub patch_audience_idempotent :
    (cls : Authenticator) → patch_audience (patch_audience cls) ≡ patch_audience cls
unfolding patch_audience
patch_audience_idempotent cls = ground arith
