-- ===== src/Resolver/Resolved.antt =====
-- What is left after resolving: no dict that is nothing but an external reference. On such values
-- the resolver does nothing.
use fastgeoapi.Base.{
  ℕ, zero, suc, ◌≤◌, String, ◌≡◌, ◌≢◌, refl, Bool, true, false, ◌&&◌, Option, ok, arith, inl, inr,
}
use fastgeoapi.Base.Exec.{pure, ◌>>=◌}
use fastgeoapi.Json
use fastgeoapi.Json.{
  Value, null, bool, num, str, arr, obj, Items, nil, cons, Fields, end, field, depth, depth_items,
  depth_fields,
}
use fastgeoapi.Resolver.Env.{Env, ResolverState, Resolver}
use fastgeoapi.Resolver.Objects.{
  DictKind, DictKind-cases, external_ref, local_ref, regular, is_external, ref_kind, dict_kind,
  resolve_items, resolve_fields, resolve_object, resolve_object-local, resolve_object-regular,
}
use fastgeoapi.Resolver.Counting.{
  has_external_entry, has_external_refs, has_in_items, has_in_fields,
}
use fastgeoapi.Resolver.Spec.{
  IsScalar, Expands, scalar, kept, replaced, in_dict, in_list, ExpandsItems, no_items, next_item,
  ExpandsFields, no_fields, next_field,
}

abbrev resolved_dict : DictKind → Bool → Bool
resolved_dict (external_ref ref) inner = false
resolved_dict local_ref inner = true
resolved_dict regular inner = inner

-- No dict in the value has an external `$ref` as its only entry. What stands below a lone `$ref`
-- that is no text is not looked at, since the resolver does not enter it.
unfoldable mutual
  pub is_resolved : Value → Bool
  is_resolved (arr vs) = are_resolved vs
  is_resolved (obj fs) = resolved_dict (dict_kind fs) (are_resolved_in fs)
  is_resolved null = true
  is_resolved (bool b) = true
  is_resolved (num n) = true
  is_resolved (str s) = true

  pub are_resolved : Items → Bool
  are_resolved nil = true
  are_resolved (cons v vs) = is_resolved v && are_resolved vs

  pub are_resolved_in : Fields → Bool
  are_resolved_in end = true
  are_resolved_in (field k v fs) = is_resolved v && are_resolved_in fs

ref_kind-ne-regular : (v : Value) → ref_kind v ≢ regular
unfolding ref_kind
ref_kind-ne-regular (str ref) = ground arith
ref_kind-ne-regular v = cc

dict_kind_one :
    (k : String) (v w : Value)
    → dict_kind (field k v end) ≡ regular
    → dict_kind (field k w end) ≡ regular
unfolding dict_kind
dict_kind_one k v w h = ground (arith, ref_kind-ne-regular v)

-- A dict that is entered keeps its kind when its entries are resolved.
dict_kind_kept :
    {env : Env} {base_url : Option String} {fs gs : Fields}
    → ExpandsFields env base_url fs gs
    → dict_kind fs ≡ regular
    → dict_kind gs ≡ regular
unfolding dict_kind
dict_kind_kept no_fields h = refl
dict_kind_kept (next_field k {v} {v'} d no_fields) h = dict_kind_one k v v' h
dict_kind_kept (next_field k d (next_field j e ds)) h = refl

scalar-is_resolved : (v : Value) → IsScalar v → is_resolved v ≡ true
unfolding is_resolved
scalar-is_resolved (arr vs) s = elim s [ ]
scalar-is_resolved (obj fs) s = elim s [ ]
scalar-is_resolved v s = refl

mutual
  unfolding is_resolved

  Expands-is_resolved :
      {env : Env} {base_url : Option String} {v w : Value}
      → Expands env base_url v w
      → is_resolved w ≡ true
  Expands-is_resolved (scalar v s) = scalar-is_resolved v s
  Expands-is_resolved (kept fs kind) = rw kind
  Expands-is_resolved (replaced fs ref url v kind found d) = Expands-is_resolved d
  Expands-is_resolved (in_dict fs kind d) =
      rw (dict_kind_kept d kind) (ExpandsFields-are_resolved d)
  Expands-is_resolved (in_list d) = ExpandsItems-are_resolved d

  ExpandsItems-are_resolved :
      {env : Env} {base_url : Option String} {vs ws : Items}
      → ExpandsItems env base_url vs ws
      → are_resolved ws ≡ true
  ExpandsItems-are_resolved no_items = refl
  ExpandsItems-are_resolved (next_item d ds) =
      rw (Expands-is_resolved d) (ExpandsItems-are_resolved ds)

  ExpandsFields-are_resolved :
      {env : Env} {base_url : Option String} {fs gs : Fields}
      → ExpandsFields env base_url fs gs
      → are_resolved_in gs ≡ true
  ExpandsFields-are_resolved no_fields = refl
  ExpandsFields-are_resolved (next_field k d ds) =
      rw (Expands-is_resolved d) (ExpandsFields-are_resolved ds)

module _ (resolve : Value → Resolver Value) (n : ℕ) where
  module _
      (each : (v : Value) (s : ResolverState)
        → is_resolved v ≡ true
        → depth v ≤ n
        → resolve v s ≡ (ok v, s)) where
    resolve_items-resolved :
        (vs : Items) (s : ResolverState)
        → are_resolved vs ≡ true
        → depth_items vs ≤ n
        → resolve_items resolve vs s ≡ (ok vs, s)
    unfolding resolve_items is_resolved depth ◌>>=◌
    resolve_items-resolved nil s h le = refl
    resolve_items-resolved (cons v vs) s h le =
        rw (each v s (ground arith) (omega arith), ◌>>=◌)
          (rw (resolve_items-resolved vs s (ground arith) (omega arith), ◌>>=◌))

    resolve_fields-resolved :
        (fs : Fields) (s : ResolverState)
        → are_resolved_in fs ≡ true
        → depth_fields fs ≤ n
        → resolve_fields resolve fs s ≡ (ok fs, s)
    unfolding resolve_fields is_resolved depth ◌>>=◌
    resolve_fields-resolved end s h le = refl
    resolve_fields-resolved (field k v fs) s h le =
        rw (each v s (ground arith) (omega arith), ◌>>=◌)
          (rw (resolve_fields-resolved fs s (ground arith) (omega arith), ◌>>=◌))

module _ (env : Env) (dir : Option String) (ttl : ℕ) where
  -- On a resolved value the resolver returns it, and neither reads nor writes anything.
  pub resolve_object-resolved :
      (frames : ℕ) (base_url : Option String) (v : Value) (s : ResolverState)
      → is_resolved v ≡ true
      → depth v ≤ frames
      → resolve_object env dir ttl frames base_url v s ≡ (ok v, s)
  unfolding resolve_object is_resolved depth ◌>>=◌ pure
  resolve_object-resolved zero base_url null s h le = absurd (omega arith)
  resolve_object-resolved zero base_url v s h le = absurd (omega arith)
  resolve_object-resolved (suc n) base_url (obj fs) s h le = elim (DictKind-cases (dict_kind fs)) [
    | inl (ref, kind) ↦ let impossible : false ≡ true = rw kind at h in cc
    | inr (inl kind) ↦ rw (resolve_object-local env dir ttl n base_url fs kind)
    | inr (inr kind) ↦ rw (resolve_object-regular env dir ttl n base_url fs kind) (
        rw (
          resolve_fields-resolved _ n (resolve_object-resolved n base_url) fs s (rw kind at h)
              (omega arith),
          ◌>>=◌,
        ))
  ]
  resolve_object-resolved (suc n) base_url (arr vs) s h le =
      rw (
        resolve_items-resolved _ n (resolve_object-resolved n base_url) vs s h (omega arith),
        ◌>>=◌,
      )
  resolve_object-resolved (suc n) base_url v s h le = refl

-- A value in which `has_external_refs` finds nothing is resolved.
mutual
  unfolding is_resolved has_external_refs has_external_entry Json.get dict_kind is_external ref_kind

  no_refs-is_resolved : (v : Value) → has_external_refs v ≡ false → is_resolved v ≡ true
  no_refs-is_resolved null h = refl
  no_refs-is_resolved (bool b) h = refl
  no_refs-is_resolved (num n) h = refl
  no_refs-is_resolved (str s) h = refl
  no_refs-is_resolved (arr vs) h = no_refs-are_resolved vs h
  no_refs-is_resolved (obj end) h = refl
  no_refs-is_resolved (obj (field k (str ref) end)) h = ground arith
  no_refs-is_resolved (obj (field k v end)) h = ground (arith, no_refs-is_resolved v)
  no_refs-is_resolved (obj (field k v (field j w fs))) h =
      no_refs-are_resolved_in (field k v (field j w fs)) (ground arith)

  no_refs-are_resolved : (vs : Items) → has_in_items vs ≡ false → are_resolved vs ≡ true
  no_refs-are_resolved nil h = refl
  no_refs-are_resolved (cons v vs) h =
      ground (arith, no_refs-is_resolved v, no_refs-are_resolved vs)

  no_refs-are_resolved_in : (fs : Fields) → has_in_fields fs ≡ false → are_resolved_in fs ≡ true
  no_refs-are_resolved_in end h = refl
  no_refs-are_resolved_in (field k v fs) h =
      ground (arith, no_refs-is_resolved v, no_refs-are_resolved_in fs)

pub has_external_refs-is_resolved : (v : Value) → has_external_refs v ≡ false → is_resolved v ≡ true
has_external_refs-is_resolved v h = no_refs-is_resolved v h

pub expanded-is_resolved :
    {env : Env} {base_url : Option String} {v w : Value}
    → Expands env base_url v w
    → is_resolved w ≡ true
expanded-is_resolved d = Expands-is_resolved d
