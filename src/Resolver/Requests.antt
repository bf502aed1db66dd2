-- ===== src/Resolver/Requests.antt =====
-- The recursion asks the network for each document at most once.
use fastgeoapi.Base.{
  ℕ, zero, suc, String, ◌≡◌, Option, none, some, [], Result, ok, err, inl, inr, recursion_error,
  Bool-cases, ◌==◌,
}
use fastgeoapi.Base.Exec.Rules.{
  Ensures, Holds, Ensures-pure, Ensures-raise, Ensures-lift, Ensures-bind,
}
use fastgeoapi.Json.{Value, null, arr, obj, Items, nil, cons, Fields, end, field}
use fastgeoapi.Resolver.Env.{Env, ResolverState, Resolver}
use fastgeoapi.Resolver.Refs.{
  split_ref, absolute_url, navigate_to_fragment, document_at, resolve_ref,
}
use fastgeoapi.Resolver.Objects.{
  DictKind-cases, dict_kind, resolve_items, resolve_fields, resolve_object, resolve_object-external,
  resolve_object-local, resolve_object-regular, resolve_external_refs,
}
use fastgeoapi.Resolver.Fetching.{AllDistinct, IsOnce, WasOnce, get_document-IsOnce}

module _ (resolve : Value → Resolver Value)
    (each : (v : Value) → Ensures IsOnce WasOnce (resolve v)) where
  resolve_items-IsOnce : (vs : Items) → Ensures IsOnce WasOnce (resolve_items resolve vs)
  unfolding resolve_items
  resolve_items-IsOnce nil = Ensures-pure nil
  resolve_items-IsOnce (cons v vs) =
      Ensures-bind _ _ (each v)
        λ v'. Ensures-bind _ _ (resolve_items-IsOnce vs) λ vs'. Ensures-pure (cons v' vs')

  resolve_fields-IsOnce : (fs : Fields) → Ensures IsOnce WasOnce (resolve_fields resolve fs)
  unfolding resolve_fields
  resolve_fields-IsOnce end = Ensures-pure end
  resolve_fields-IsOnce (field k v fs) =
      Ensures-bind _ _ (each v)
        λ v'. Ensures-bind _ _ (resolve_fields-IsOnce fs) λ fs'. Ensures-pure (field k v' fs')

module _ (env : Env) (dir : Option String) (ttl : ℕ) where
  document_at-IsOnce : (url : String) → Ensures IsOnce WasOnce (document_at env url dir ttl)
  unfolding document_at
  document_at-IsOnce url = elim (Bool-cases (url == "")) [
    | inl nowhere ↦ rw nowhere (Ensures-pure (obj end))
    | inr somewhere ↦ rw somewhere (get_document-IsOnce env url dir ttl)
  ]

  resolve_ref-IsOnce :
      (ref : String) (base_url : Option String)
      → Ensures IsOnce WasOnce (resolve_ref env ref base_url dir ttl)
  unfolding resolve_ref
  resolve_ref-IsOnce ref base_url =
      Ensures-bind _ _
        (Ensures-lift (absolute_url env (split_ref ref).0 base_url) (λ s h. h.distinct))
        λ url. Ensures-bind _ _ (document_at-IsOnce url) λ doc.
          Ensures-bind _ _
            (Ensures-lift (navigate_to_fragment doc (split_ref ref).1) (λ s h. h.distinct))
            λ result. Ensures-pure (result, url)

  resolve_object-IsOnce :
      (frames : ℕ) (base_url : Option String) (v : Value)
      → Ensures IsOnce WasOnce (resolve_object env dir ttl frames base_url v)
  unfolding resolve_object
  resolve_object-IsOnce zero base_url v = Ensures-raise recursion_error (λ s h. h.distinct)
  resolve_object-IsOnce (suc n) base_url (obj fs) = elim (DictKind-cases (dict_kind fs)) [
    | inl (ref, kind) ↦ rw (resolve_object-external env dir ttl n base_url fs kind) (
        Ensures-bind _ _ (resolve_ref-IsOnce ref base_url)
          (λ (v, url). resolve_object-IsOnce n (some url) v))
    | inr (inl kind) ↦
        rw (resolve_object-local env dir ttl n base_url fs kind) (Ensures-pure (obj fs))
    | inr (inr kind) ↦ rw (resolve_object-regular env dir ttl n base_url fs kind) (
        Ensures-bind _ _ (resolve_fields-IsOnce _ (resolve_object-IsOnce n base_url) fs)
          (λ fs'. Ensures-pure (obj fs')))
  ]
  resolve_object-IsOnce (suc n) base_url (arr vs) =
      Ensures-bind _ _ (resolve_items-IsOnce _ (resolve_object-IsOnce n base_url) vs)
        λ vs'. Ensures-pure (arr vs')
  resolve_object-IsOnce (suc n) base_url null = Ensures-pure null
  resolve_object-IsOnce (suc n) base_url v = Ensures-pure v

Holds-AllDistinct :
    (r : Result Value) (s : ResolverState) → Holds IsOnce WasOnce r s → AllDistinct s.fetched
Holds-AllDistinct (ok v) s h = h.distinct
Holds-AllDistinct (err e) s h = h

-- In one run, whatever it returns or raises and whatever the disk cache holds, no URL is requested
-- twice.
pub resolve_external_refs_fetch_once :
    (env : Env) (dir : Option String) (ttl frames : ℕ) (spec : Value) (s : ResolverState)
    → s.fetched ≡ []
    → AllDistinct (resolve_external_refs env dir ttl frames spec s).1.fetched
unfolding resolve_external_refs
resolve_external_refs_fetch_once env dir ttl frames spec s none_yet =
    Holds-AllDistinct _ (resolve_object env dir ttl frames none spec (record s { memory = [] })).1 (
      (resolve_object-IsOnce env dir ttl frames none spec).ends (record s { memory = [] })
        (record { distinct = rw none_yet tt; remembered = rw none_yet tt }))
