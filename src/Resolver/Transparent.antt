-- ===== src/Resolver/Transparent.antt =====
-- The resolver without a cache directory implements its specification: the memory of the run
-- changes nothing, and the result is the one that the network alone determines.
use fastgeoapi.Base.{
  ℕ, zero, suc, String, ◌≡◌, refl, Option, none, some, [], Result, ok, arith, inl, inr,
  recursion_error, eq_iff, Bool-cases, >>=-ok, ◌==◌,
}
use fastgeoapi.Base.Dict
use fastgeoapi.Base.Exec.{Exec, lift, ◌>>◌}
use fastgeoapi.Base.Exec.Rules.{
  Implements, Implements-pure, Implements-raise, Implements-lift, Implements-bind,
}
use fastgeoapi.Json.{Value, null, arr, obj, Items, nil, cons, Fields, end, field}
use fastgeoapi.Resolver.Env.{Env, ResolverState}
use fastgeoapi.Resolver.Cache.{
  download, fetch_remote_document, remember, fetch_and_cache, after_memory, get_document,
}
use fastgeoapi.Resolver.Refs.{
  split_ref, absolute_url, navigate_to_fragment, document_at, resolve_ref,
}
use fastgeoapi.Resolver.Objects.{
  DictKind-cases, dict_kind, resolve_items, resolve_fields, resolve_object, resolve_object-external,
  resolve_object-local, resolve_object-regular, resolve_external_refs,
}
use fastgeoapi.Resolver.Spec.{
  target_document, target, expand_items, expand_fields, expand, expand-external, expand-local,
  expand-regular,
}

-- A sequence of resolved values implements the sequence of their expansions.
module _ (P : ResolverState → Type 0) where
  module _ (resolve : Value → Exec ResolverState Value) (expanded : Value → Result Value) where
    module _ (each : (v : Value) → Implements P (resolve v) (expanded v)) where
      resolve_items-Implements :
          (vs : Items) → Implements P (resolve_items resolve vs) (expand_items expanded vs)
      unfolding resolve_items expand_items
      resolve_items-Implements nil = Implements-pure nil
      resolve_items-Implements (cons v vs) =
          Implements-bind (resolve v) (expanded v) _ _ (each v) λ v' _.
            Implements-bind (resolve_items resolve vs) (expand_items expanded vs) _ _
              (resolve_items-Implements vs) λ vs' _. Implements-pure (cons v' vs')

      resolve_fields-Implements :
          (fs : Fields) → Implements P (resolve_fields resolve fs) (expand_fields expanded fs)
      unfolding resolve_fields expand_fields
      resolve_fields-Implements end = Implements-pure end
      resolve_fields-Implements (field k v fs) =
          Implements-bind (resolve v) (expanded v) _ _ (each v) λ v' _.
            Implements-bind (resolve_fields resolve fs) (expand_fields expanded fs) _ _
              (resolve_fields-Implements fs) λ fs' _. Implements-pure (field k v' fs')

module _ (env : Env) (P : ResolverState → Type 0) (dir : Option String) (ttl : ℕ)
    (documents : (url : String)
      → Implements P (get_document env url dir ttl) (download env url)) where
  document_at-Implements :
      (url : String) → Implements P (document_at env url dir ttl) (target_document env url)
  unfolding document_at target_document
  document_at-Implements url = elim (Bool-cases (url == "")) [
    | inl nowhere ↦ rw nowhere (Implements-pure (obj end))
    | inr somewhere ↦ rw somewhere (documents url)
  ]

  resolve_ref-Implements :
      (ref : String) (base_url : Option String)
      → Implements P (resolve_ref env ref base_url dir ttl) (target env ref base_url)
  unfolding resolve_ref target
  resolve_ref-Implements ref base_url =
      Implements-bind (lift (absolute_url env (split_ref ref).0 base_url)) _ _ _ (Implements-lift _)
        λ url _.
          Implements-bind (document_at env url dir ttl) (target_document env url) _ _
            (document_at-Implements url)
            λ doc _.
              Implements-bind (lift (navigate_to_fragment doc (split_ref ref).1)) _ _ _
                (Implements-lift _) λ result _. Implements-pure (result, url)

  pub resolve_object-Implements :
      (frames : ℕ) (base_url : Option String) (v : Value)
      → Implements P (resolve_object env dir ttl frames base_url v) (expand env frames base_url v)
  unfolding resolve_object expand
  resolve_object-Implements zero base_url v = Implements-raise recursion_error
  resolve_object-Implements (suc n) base_url (obj fs) = elim (DictKind-cases (dict_kind fs)) [
    | inl (ref, kind) ↦
        rw
          (
            resolve_object-external env dir ttl n base_url fs kind,
            expand-external env n base_url fs kind,
          )
          (Implements-bind (resolve_ref env ref base_url dir ttl) (target env ref base_url) _ _
            (resolve_ref-Implements ref base_url)
            (λ (v, url) _. resolve_object-Implements n (some url) v))
    | inr (inl kind) ↦
        rw
          (resolve_object-local env dir ttl n base_url fs kind, expand-local env n base_url fs kind)
          (Implements-pure (obj fs))
    | inr (inr kind) ↦
        rw
          (
            resolve_object-regular env dir ttl n base_url fs kind,
            expand-regular env n base_url fs kind,
          )
          (Implements-bind _ _ _ _
            (resolve_fields-Implements P _ _ (resolve_object-Implements n base_url) fs)
            (λ fs' _. Implements-pure (obj fs')))
  ]
  resolve_object-Implements (suc n) base_url (arr vs) =
      Implements-bind _ _ _ _
        (resolve_items-Implements P _ _ (resolve_object-Implements n base_url) vs)
        λ vs' _. Implements-pure (arr vs')
  resolve_object-Implements (suc n) base_url null = Implements-pure null
  resolve_object-Implements (suc n) base_url v = Implements-pure v

-- Without a cache directory there is only the memory.
record IsRemembered (env : Env) (s : ResolverState) : Type 0 where
  in_memory :
      (url : String) (doc : Value) → Dict.get url s.memory ≡ some doc → download env url ≡ ok doc

module _ (env : Env) where
  remember_uncached :
      (url : String) (doc : Value)
      → download env url ≡ ok doc
      → Implements (IsRemembered env) (remember url doc) (ok tt)
  unfolding remember
  remember_uncached url doc h = record {
    returns = λ s c. refl;
    keeps = λ s c. record {
      in_memory =
          λ u d e. ground (arith, Dict.get-put url u doc s.memory, eq_iff url u, c.in_memory u d);
    };
  }

  fetch_uncached :
      (url : String)
      → Implements (IsRemembered env) (fetch_and_cache env url none) (download env url)
  unfolding fetch_and_cache ◌>>◌ fetch_remote_document
  fetch_uncached url = rw (>>=-ok (download env url)) at (
      Implements-bind {P = IsRemembered env} (fetch_remote_document env url) (download env url) _ ok
        (record { returns = λ s c. refl; keeps = λ s c. record { in_memory = c.in_memory } })
        (λ doc found.
          Implements-bind (remember url doc) (ok tt) _ (λ _. ok doc)
            (remember_uncached url doc found) (λ _ _. Implements-pure doc)))

  after_memory_uncached :
      (url : String) (ttl : ℕ) (found : Option Value)
      → ((doc : Value) → found ≡ some doc → download env url ≡ ok doc)
      → Implements (IsRemembered env) (after_memory env url none ttl found) (download env url)
  unfolding after_memory
  after_memory_uncached url ttl none h = fetch_uncached url
  after_memory_uncached url ttl (some doc) h = rw (h doc refl) (Implements-pure doc)

  get_document_uncached :
      (url : String) (ttl : ℕ)
      → Implements (IsRemembered env) (get_document env url none ttl) (download env url)
  unfolding get_document
  get_document_uncached url ttl = record {
    returns = λ s c. (after_memory_uncached url ttl _ (c.in_memory url)).returns s c;
    keeps = λ s c. (after_memory_uncached url ttl _ (c.in_memory url)).keeps s c;
  }

-- The run without a cache directory, from any state and with any recursion limit, returns the value
-- or raises the exception of `expand`, which downloads each referenced document anew and keeps
-- nothing between two references: remembering the documents changes no result and no exception.
pub resolve_external_refs_uncached :
    (env : Env) (ttl frames : ℕ) (spec : Value) (s : ResolverState)
    → (resolve_external_refs env none ttl frames spec s).0 ≡ expand env frames none spec
unfolding resolve_external_refs Dict.get
resolve_external_refs_uncached env ttl frames spec s =
    (resolve_object-Implements env (IsRemembered env) none ttl
        (λ url. get_document_uncached env url ttl) frames none spec).returns
      (record s { memory = [] }) (record { in_memory = λ url doc e. cc })
