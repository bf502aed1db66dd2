-- ===== src/Resolver/Unchanged.antt =====
-- Specifications that the resolver leaves as they are, and references that it leaves in place.
use fastgeoapi.Base.{
  ℕ, zero, suc, ◌≤◌, String, ◌≡◌, true, false, Option, none, some, [], ok, arith, >>=-eq-ok,
}
use fastgeoapi.Json
use fastgeoapi.Json.{Value, null, str, obj, Fields, end, field, depth}
use fastgeoapi.Text.{starts_with}
use fastgeoapi.Resolver.Env.{Env, ResolverState}
use fastgeoapi.Resolver.Objects.{regular, is_external, dict_kind, resolve_external_refs}
use fastgeoapi.Resolver.Counting.{has_external_entry, has_external_refs}
use fastgeoapi.Resolver.Spec.{expand_fields, expand, expand-regular}
use fastgeoapi.Resolver.Expansion.{expand_fields-get}
use fastgeoapi.Resolver.Transparent.{resolve_external_refs_uncached}
use fastgeoapi.Resolver.Resolved.{has_external_refs-is_resolved, resolve_object-resolved}

-- A specification without external references is returned as it is, whatever the caches and the
-- network hold, if the recursion limit covers its depth; nothing is fetched, read or written, and
-- only the memory of an earlier run is dropped.
pub resolve_external_refs_unchanged :
    (env : Env) (dir : Option String) (ttl frames : ℕ) (spec : Value) (s : ResolverState)
    → has_external_refs spec ≡ false
    → depth spec ≤ frames
    → resolve_external_refs env dir ttl frames spec s ≡ (ok spec, record s { memory = [] })
unfolding resolve_external_refs
resolve_external_refs_unchanged env dir ttl frames spec s h le =
    resolve_object-resolved env dir ttl frames none spec _ (has_external_refs-is_resolved spec h) le

str_stays :
    (env : Env) (frames : ℕ) (base_url : Option String) (ref : String) (w : Value)
    → expand env frames base_url (str ref) ≡ ok w
    → w ≡ str ref
unfolding expand
str_stays env zero base_url ref w h = cc
str_stays env (suc n) base_url ref w h = cc

siblings-has_external_refs :
    (env : Env) (frames : ℕ) (base_url : Option String) (fs : Fields) (ref : String) (w : Value)
    → Json.get "$ref" fs ≡ some (str ref)
    → starts_with ref "#" ≡ false
    → dict_kind fs ≡ regular
    → expand env frames base_url (obj fs) ≡ ok w
    → has_external_refs w ≡ true
unfolding has_external_refs has_external_entry is_external expand
siblings-has_external_refs env zero base_url fs ref w e x kind h = cc
siblings-has_external_refs env (suc n) base_url fs ref w e x kind h =
    let (gs, inner, same) =
      >>=-eq-ok (expand_fields (expand env n base_url) fs) _
        (rw (expand-regular env n base_url fs kind) at h) in
    let it : obj gs ≡ w = cc in
    let (v', stays, found) = expand_fields-get (expand env n base_url) "$ref" fs gs inner e in
    rw (← it) (rw (found, str_stays env n base_url ref v' stays) (ground arith))

-- An external `$ref` that has another key beside it is left in place: where the run without a cache
-- directory succeeds on such a dict, `has_external_refs` still finds a reference in the result.
pub resolve_external_refs_siblings :
    (env : Env) (ttl frames : ℕ) (fs : Fields) (ref : String) (w : Value) (s : ResolverState)
    → Json.get "$ref" fs ≡ some (str ref)
    → starts_with ref "#" ≡ false
    → dict_kind fs ≡ regular
    → (resolve_external_refs env none ttl frames (obj fs) s).0 ≡ ok w
    → has_external_refs w ≡ true
resolve_external_refs_siblings env ttl frames fs ref w s e x kind h =
    siblings-has_external_refs env frames none fs ref w e x kind
      (rw (resolve_external_refs_uncached env ttl frames (obj fs) s) at h)
