-- ===== src/Resolver/Tests.antt =====
-- Runs of the resolver on small documents, and its theorems at concrete inputs.
use fastgeoapi.Base.{
  ℕ, ◌≤◌, String, ◌<>◌, ◌≡◌, ◌≢◌, ◌↔◌, refl, false, Option, none, some, List, [], ◌∷◌, All, Result,
  ok, err, arith, request_error, decode_error, ltb, ◌==◌, eq_iff, if◌then◌else◌,
}
use fastgeoapi.Base.Dict
use fastgeoapi.Base.Exec.{◌>>=◌, ◌>>◌}
use fastgeoapi.Json
use fastgeoapi.Text.{starts_with, ends_with, split, strip}
use fastgeoapi.Json.{
  Value, null, bool, num, str, arr, obj, Items, nil, cons, Fields, end, field, depth,
}
use fastgeoapi.Resolver.Env.{Env, ResolverState, written, read_clock}
use fastgeoapi.Resolver.Cache.{
  cache_entry, present, read_from_cache, write_to_cache, get_document, download,
}
use fastgeoapi.Resolver.Refs.{navigate_to_fragment}
use fastgeoapi.Resolver.Objects.{resolve_object, resolve_external_refs, dict_kind, regular}
use fastgeoapi.Resolver.Counting.{count_external_refs, has_external_refs}
use fastgeoapi.Resolver.Spec.{target, expand, Expands}
use fastgeoapi.Resolver.Termination.{resolve_external_refs_iff}
use fastgeoapi.Resolver.Transparent.{resolve_external_refs_uncached}
use fastgeoapi.Resolver.Resolved.{is_resolved}
use fastgeoapi.Resolver.Shape.{IsFilled, resolve_external_refs-IsFilled}
use fastgeoapi.Resolver.Cycles.{Leads, by_ref, by_entry, resolve_external_refs_cycle}
use fastgeoapi.Resolver.Fetching.{AllDistinct}
use fastgeoapi.Resolver.Requests.{resolve_external_refs_fetch_once}
use fastgeoapi.Resolver.DiskCache.{HasText, read_from_cache-write_to_cache}
use fastgeoapi.Resolver.Fragments.{IsPart, pointer, look_up, navigate_to_fragment-pointer}

abbrev one : String → Value → Value
one k v = obj (field k v end)

abbrev ref : String → Value
ref url = one "$ref" (str url)

-- Three documents of one host: `a.yaml` refers to `b.json`, and `node.yaml` to itself.
abbrev http_get : String → Result String
http_get url =
    if url == "http://h/a.yaml"
    then ok "A"
    else if url == "http://h/b.json"
    then ok "B"
    else if url == "http://h/node.yaml"
    then ok "N"
    else err request_error

abbrev yaml_safe_load : String → Result Value
yaml_safe_load text =
    if text == "A"
    then ok (one "Link" (ref "b.json#/Item"))
    else if text == "N"
    then ok (one "child" (ref "node.yaml"))
    else err decode_error

abbrev json_loads : String → Result Value
json_loads text =
    if text == "B"
    then ok (one "Item" (num 7))
    else if text == "entry"
    then ok (cache_entry 0 "u" (num 1))
    else err decode_error

abbrev host : Env
host = record {
  http_get = http_get;
  yaml_safe_load = yaml_safe_load;
  json_loads = json_loads;
  json_dump = λ v. ("entry", ok tt);
  urljoin = λ base r. ok ("http://h/" <> r);
  url_digest = λ url. url;
  time = λ n. n;
  mkdir = λ dir. ok tt;
  write_outcome = λ path. written;
}

abbrev empty : ResolverState
empty = record { memory = []; disk = []; readings = 0; fetched = [] }

abbrev spec : Value
spec = obj (field "x" (ref "http://h/a.yaml#/Link") (field "y" (ref "http://h/a.yaml") end))

abbrev resolved : Value
resolved = obj (field "x" (num 7) (field "y" (one "Link" (num 7)) end))

-- what the runs below unfold
abbrev runs : Unit {0}
unfolding resolve_external_refs resolve_object expand target download navigate_to_fragment
    count_external_refs has_external_refs get_document ends_with split strip ◌>>=◌ ◌>>◌ Dict.get
    Dict.put Json.get read_clock depth is_resolved read_from_cache write_to_cache present look_up
    pointer
runs = tt

run_uncached : (resolve_external_refs host none 60 9 spec empty).0 ≡ ok resolved
unfolding runs
run_uncached = refl

-- The two references to `a.yaml` fetch it once, and a disk cache does not change the result.
run_cached :
    (resolve_external_refs host (some "/c") 60 9 spec empty).1.fetched
    ≡ "http://h/b.json" ∷ "http://h/a.yaml" ∷ []
unfolding runs
run_cached = refl

resolve_external_refs_iff_example :
    ((enough : ℕ) × ((frames : ℕ) (s : ResolverState)
        → enough ≤ frames
        → (resolve_external_refs host none 60 frames spec s).0 ≡ ok resolved))
    ↔ Expands host none spec resolved
resolve_external_refs_iff_example = resolve_external_refs_iff host 60 spec resolved

resolve_external_refs_uncached_example :
    (resolve_external_refs host none 60 9 spec empty).0 ≡ expand host 9 none spec
resolve_external_refs_uncached_example = resolve_external_refs_uncached host 60 9 spec empty

abbrev local_only : Value
local_only = one "paths" (arr (cons (ref "#/components/x") (cons (num 3) nil)))

no_refs : has_external_refs local_only ≡ false
unfolding runs
no_refs = refl

shallow : depth local_only ≤ 9
unfolding depth
shallow = omega arith

abbrev with_sibling : Fields
with_sibling = field "$ref" (str "http://h/a.yaml") (field "description" (str "a link") end)

sibling_run :
    (resolve_external_refs host none 60 9 (obj with_sibling) empty).0 ≡ ok (obj with_sibling)
unfolding runs
sibling_run = refl

sibling_facts :
    (Json.get "$ref" with_sibling ≡ some (str "http://h/a.yaml"))
    × (starts_with "http://h/a.yaml" "#" ≡ false)
    × (dict_kind with_sibling ≡ regular)
unfolding runs starts_with
sibling_facts = (refl, refl, refl)

-- The tree of `node.yaml`, which contains itself.
data Tree : Option String → Value → Type 0 where
  top : Tree none (ref "http://h/node.yaml")
  node : Tree (some "http://h/node.yaml") (one "child" (ref "node.yaml"))
  child : Tree (some "http://h/node.yaml") (ref "node.yaml")

Tree-onwards :
    (base_url : Option String) (v : Value)
    → Tree base_url v
    → (base_url' : Option String) × (v' : Value) × Leads host base_url v base_url' v'
      × Tree base_url' v'
unfolding runs
Tree-onwards base_url v top = (_, _, by_ref _ _ _ _ refl refl, node)
Tree-onwards base_url v node = (_, _, by_entry _ "child" _ refl refl, child)
Tree-onwards base_url v child = (_, _, by_ref _ _ _ _ refl refl, node)

resolve_external_refs_cycle_example :
    (resolve_external_refs host none 60 1000 (ref "http://h/node.yaml") empty).0 ≢ ok null
resolve_external_refs_cycle_example =
    resolve_external_refs_cycle host Tree 60 1000 (ref "http://h/node.yaml") null empty
      (record { onwards = Tree-onwards }) top

resolve_external_refs_fetch_once_example :
    AllDistinct (resolve_external_refs host (some "/c") 60 9 spec empty).1.fetched
resolve_external_refs_fetch_once_example =
    resolve_external_refs_fetch_once host (some "/c") 60 9 spec empty refl

entry_text : HasText host (cache_entry 0 "u" (num 1))
entry_text = record { content = "entry"; dumped = refl; loaded = refl }

read_from_cache-write_to_cache_example :
    (read_from_cache host "u" "/c" 60 (write_to_cache host "u" (num 1) "/c" empty).1).0
    ≡ ok (if ltb 60 1 then none else present (some (num 1)))
read_from_cache-write_to_cache_example =
    read_from_cache-write_to_cache host "u" (num 1) "/c" 60 empty refl refl entry_text

abbrev keys : List String
keys = "components" ∷ "schemas" ∷ []

keys_are_parts : All IsPart keys
keys_are_parts = (
  (λ e. ground (arith, eq_iff "components" ""), omega arith),
  ((λ e. ground (arith, eq_iff "schemas" ""), omega arith), tt),
)

navigate_to_fragment-pointer_example :
    navigate_to_fragment (one "components" (one "schemas" (num 5))) (pointer keys)
    ≡ look_up keys (one "components" (one "schemas" (num 5)))
navigate_to_fragment-pointer_example =
    navigate_to_fragment-pointer (one "components" (one "schemas" (num 5))) keys keys_are_parts

resolve_external_refs-IsFilled_example : IsFilled spec resolved
resolve_external_refs-IsFilled_example =
    resolve_external_refs-IsFilled host none 60 9 spec resolved empty run_uncached
