-- ===== src/Resolver/Refs.antt =====
-- One `$ref` of app/utils/openapi_resolver.py: its URL, its document and its fragment.
use Prim.Native.Char.{code}
use Prim.Native.String.{[], ◌∷◌}
use fastgeoapi.Base.{
  ℕ, String, Bool, true, false, ◌&&◌, ◌||◌, Option, none, some, List, Result, ok, err, key_error,
  type_error, value_error, ◌==◌, leb, nat_eq, if◌then◌else◌,
}
use fastgeoapi.Base.Errors.{◌>>=◌}
use fastgeoapi.Base.Exec
use fastgeoapi.Json
use fastgeoapi.Json.{Value, obj, end}
use fastgeoapi.Text.{split_once, split, strip}
use fastgeoapi.Resolver.Env.{Env, Resolver}
use fastgeoapi.Resolver.Cache.{get_document}

found_or : Option Value → Result Value
found_or none = err key_error
found_or (some v) = ok v

-- result[part], with the text `part`
unfoldable pub get_item : String → Value → Result Value
unfolding found_or
get_item part (obj fs) = found_or (Json.get part fs)
get_item part _ = err type_error

-- The loop over the parts; an empty part is skipped.
unfoldable pub follow : List String → Value → Result Value
unfolding get_item
follow List.[] result = ok result
follow (List.◌∷◌ part parts) result =
    if part == "" then follow parts result else (get_item part result >>= follow parts)

unfoldable pub navigate_to_fragment : Value → String → Result Value
unfolding follow
navigate_to_fragment doc fragment =
    if fragment == "" || fragment == "/"
    then ok doc
    else follow (split b'/' (strip b'/' fragment)) doc

is_alpha : ℕ → Bool
is_alpha c = leb b'a' c && leb c b'z' || leb b'A' c && leb c b'Z'

is_scheme_char : ℕ → Bool
unfolding is_alpha
is_scheme_char c =
    is_alpha c || leb b'0' c && leb c b'9' || nat_eq c b'+' || nat_eq c b'-' || nat_eq c b'.'

all_scheme_chars : String → Bool
unfolding is_scheme_char
all_scheme_chars [] = true
all_scheme_chars (c ∷ s) = is_scheme_char (code c) && all_scheme_chars s

is_scheme : String → Bool
unfolding is_alpha all_scheme_chars
is_scheme [] = false
is_scheme (c ∷ s) = is_alpha (code c) && all_scheme_chars s

before_colon : Option (String × String) → Bool
unfolding is_scheme
before_colon none = false
before_colon (some (prefix, rest)) = is_scheme prefix

-- Whether urllib.parse.urlparse(ref).scheme is not empty. Control characters and spaces, which
-- urlparse removes first, are taken to be absent.
unfoldable pub has_scheme : String → Bool
unfolding before_colon split_once
has_scheme ref = before_colon (split_once b':' ref)

-- `base_url or ""`
unfoldable pub url_or_empty : Option String → String
url_or_empty none = ""
url_or_empty (some url) = url

-- the part before the first `#` and the part after it
unfoldable pub split_ref : String → String × String
split_ref ref = elim (split_once b'#' ref) [ none ↦ (ref, "") | some parts ↦ parts ]

module _ (env : Env) where
  unfoldable pub resolve_relative_url : String → Option String → Result String
  unfolding url_or_empty has_scheme
  resolve_relative_url ref base_url =
      if has_scheme ref
      then ok ref
      else if url_or_empty base_url == ""
      then err value_error
      else env.urljoin (url_or_empty base_url) ref

  -- The URL of the document that a reference names; the empty text is no document.
  unfoldable pub absolute_url : String → Option String → Result String
  unfolding resolve_relative_url url_or_empty
  absolute_url url_part base_url =
      if url_part == "" then ok (url_or_empty base_url) else resolve_relative_url url_part base_url

  unfoldable pub document_at : String → Option String → ℕ → Resolver Value
  document_at url disk_cache_dir cache_ttl_seconds =
      if url == ""
      then Exec.pure (obj end)
      else get_document env url disk_cache_dir cache_ttl_seconds

  unfoldable pub resolve_ref :
      String → Option String → Option String → ℕ → Resolver (Value × String)
  unfolding split_ref absolute_url document_at navigate_to_fragment
  resolve_ref ref base_url disk_cache_dir cache_ttl_seconds =
      let (url_part, fragment) = split_ref ref in
      Exec.◌>>=◌ (Exec.lift (absolute_url url_part base_url)) λ url.
        Exec.◌>>=◌ (document_at url disk_cache_dir cache_ttl_seconds) λ doc.
          Exec.◌>>=◌ (Exec.lift (navigate_to_fragment doc fragment))
            λ result. Exec.pure (result, url)
