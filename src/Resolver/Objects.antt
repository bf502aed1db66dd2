-- ===== src/Resolver/Objects.antt =====
-- The recursion of app/utils/openapi_resolver.py over a specification. Its first argument is the
-- number of frames that Python's recursion limit leaves; where it is used up, RecursionError.
use fastgeoapi.Base.{
  ℕ, zero, suc, String, ◌≡◌, refl, ◌⊎◌, inl, inr, Bool, false, not, Option, none, some, [],
  recursion_error, ◌==◌, if◌then◌else◌,
}
use fastgeoapi.Base.Exec.{pure, raise, ◌>>=◌}
use fastgeoapi.Json.{Value, str, arr, obj, Items, nil, cons, Fields, end, field}
use fastgeoapi.Text.{starts_with}
use fastgeoapi.Resolver.Env.{Env, Resolver}
use fastgeoapi.Resolver.Refs.{resolve_ref}

-- isinstance(ref, str) and not ref.startswith("#")
unfoldable pub is_external : Value → Bool
unfolding starts_with
is_external (str ref) = not (starts_with ref "#")
is_external _ = false

-- What the tests of `_resolve_object` make of a dict.
pub data DictKind : Type 0 where
  external_ref : (ref : String) → DictKind
  local_ref regular : DictKind

unfoldable pub ref_kind : Value → DictKind
unfolding starts_with
ref_kind (str ref) = if starts_with ref "#" then local_ref else external_ref ref
ref_kind _ = local_ref

-- `"$ref" in obj and len(obj) == 1`
unfoldable pub dict_kind : Fields → DictKind
unfolding ref_kind
dict_kind (field k v end) = if k == "$ref" then ref_kind v else regular
dict_kind _ = regular

pub DictKind-cases :
    (k : DictKind) → ((ref : String) × (k ≡ external_ref ref)) ⊎ (k ≡ local_ref) ⊎ (k ≡ regular)
DictKind-cases (external_ref ref) = inl (ref, refl)
DictKind-cases local_ref = inr (inl refl)
DictKind-cases regular = inr (inr refl)

-- the comprehensions over a list and over a dict
module _ (resolve : Value → Resolver Value) where
  unfoldable pub resolve_items : Items → Resolver Items
  resolve_items nil = pure nil
  resolve_items (cons item items) = do
    item' ← resolve item
    items' ← resolve_items items
    pure (cons item' items')

  unfoldable pub resolve_fields : Fields → Resolver Fields
  resolve_fields end = pure end
  resolve_fields (field k v fs) = do v' ← resolve v; fs' ← resolve_fields fs; pure (field k v' fs')

module _ (env : Env) (disk_cache_dir : Option String) (cache_ttl_seconds : ℕ) where
  unfoldable pub resolve_object : ℕ → Option String → Value → Resolver Value
  unfolding dict_kind resolve_items resolve_fields resolve_ref
  resolve_object zero base_url v = raise recursion_error
  resolve_object (suc frames) base_url (obj fs) = elim (dict_kind fs) [
    | external_ref ref ↦ do
      (resolved, new_base_url) ← resolve_ref env ref base_url disk_cache_dir cache_ttl_seconds
      resolve_object frames (some new_base_url) resolved
    | local_ref ↦ pure (obj fs)
    | regular ↦ do fs' ← resolve_fields (resolve_object frames base_url) fs; pure (obj fs')
  ]
  resolve_object (suc frames) base_url (arr vs) = do
    vs' ← resolve_items (resolve_object frames base_url) vs
    pure (arr vs')
  resolve_object (suc frames) base_url v = pure v

  -- `document_cache` starts empty.
  unfoldable pub resolve_external_refs : ℕ → Value → Resolver Value
  resolve_external_refs frames spec s = resolve_object frames none spec (record s { memory = [] })

-- One step of `resolve_object` at a dict, by its kind.
module _ (env : Env) (dir : Option String) (ttl frames : ℕ) (base_url : Option String)
    (fs : Fields) where
  pub resolve_object-external :
      {ref : String}
      → dict_kind fs ≡ external_ref ref
      → resolve_object env dir ttl (suc frames) base_url (obj fs) ≡ (
          resolve_ref env ref base_url dir ttl >>= λ (v, url).
          resolve_object env dir ttl frames (some url) v)
  unfolding resolve_object
  resolve_object-external kind = rw (kind, resolve_object)

  pub resolve_object-local :
      dict_kind fs ≡ local_ref
      → resolve_object env dir ttl (suc frames) base_url (obj fs) ≡ pure (obj fs)
  unfolding resolve_object
  resolve_object-local kind = rw (kind, resolve_object)

  pub resolve_object-regular :
      dict_kind fs ≡ regular
      → resolve_object env dir ttl (suc frames) base_url (obj fs)
        ≡ (resolve_fields (resolve_object env dir ttl frames base_url) fs >>= λ fs'. pure (obj fs'))
  unfolding resolve_object
  resolve_object-regular kind = rw (kind, resolve_object)
