-- ===== src/Resolver/Shape.antt =====
-- The annotation of `resolve_external_refs`, a dict to a dict, and what it keeps of the document.
use fastgeoapi.Base.{
  ℕ, zero, suc, String, ◌≡◌, refl, ap, inl, inr, Bool, true, false, Option, none, [], Result, ok,
  ◌≢◌, Exception, recursion_error, arith,
}
use fastgeoapi.Base.Exec.{pure, raise, ◌>>=◌}
use fastgeoapi.Base.Exec.Rules.{bind-ok}
use fastgeoapi.Json.{Value, null, bool, num, str, arr, obj, Items, nil, cons, Fields, end, field}
use fastgeoapi.Resolver.Env.{Env, Resolver, ResolverState}
use fastgeoapi.Resolver.Objects.{
  external_ref, local_ref, regular, DictKind-cases, dict_kind, resolve_items, resolve_fields,
  resolve_object, resolve_external_refs, resolve_object-local, resolve_object-regular,
}

abbrev is_scalar : Value → Bool
is_scalar (obj fs) = false
is_scalar (arr vs) = false
is_scalar _ = true

-- The second document is the first one with something in place of each dict that is only an external
-- reference: every other dict has the same keys in the same order, every list has the same length, and
-- the scalars and the local references are the same.
mutual
  pub data IsFilled : Value → Value → Type 0 where
    replaced :
        {fs : Fields} {ref : String} {w : Value}
        → dict_kind fs ≡ external_ref ref
        → IsFilled (obj fs) w
    same_local : {fs : Fields} → dict_kind fs ≡ local_ref → IsFilled (obj fs) (obj fs)
    same_scalar : {v : Value} → is_scalar v ≡ true → IsFilled v v
    filled_dict :
        {fs gs : Fields}
        → dict_kind fs ≡ regular
        → AreFilledFields fs gs
        → IsFilled (obj fs) (obj gs)
    filled_list : {vs ws : Items} → AreFilledItems vs ws → IsFilled (arr vs) (arr ws)

  pub data AreFilledFields : Fields → Fields → Type 0 where
    no_fields : AreFilledFields end end
    filled_field :
        {k : String} {v w : Value} {fs gs : Fields}
        → IsFilled v w
        → AreFilledFields fs gs
        → AreFilledFields (field k v fs) (field k w gs)

  pub data AreFilledItems : Items → Items → Type 0 where
    no_items : AreFilledItems nil nil
    filled_item :
        {v w : Value} {vs ws : Items}
        → IsFilled v w
        → AreFilledItems vs ws
        → AreFilledItems (cons v vs) (cons w ws)

bind_returned {ℓ} :
    {A B : Type ℓ} {S : Type ℓ} (m : S → Result A × S) (f : A → S → Result B × S) (s : S) (b : B)
    → ((m >>= f) s).0 ≡ ok b
    → (a : A) × (t : S) × ((m s).0 ≡ ok a) × ((f a t).0 ≡ ok b)
bind_returned m f s b h =
    let (a, returned, rest) = bind-ok m f s ((m >>= f) s).1 b (ap (λ r. (r, ((m >>= f) s).1)) h) in
    (a, (m s).1, returned, ap (λ r. r.0) rest)

pure_returned {ℓ} : {A S : Type ℓ} (a b : A) (s : S) → (pure a s).0 ≡ ok b → a ≡ b
unfolding pure
pure_returned a b s h = ground arith

raise_returned {ℓ} : {A S : Type ℓ} (e : Exception) (a : A) (s : S) → (raise e s).0 ≢ ok a
unfolding raise
raise_returned e a s h = ground (arith, h)

module _ (resolve : Value → Resolver Value)
    (fills : (v w : Value) (s : ResolverState) → (resolve v s).0 ≡ ok w → IsFilled v w) where
  resolve_fields-AreFilledFields :
      (fs gs : Fields) (s : ResolverState)
      → (resolve_fields resolve fs s).0 ≡ ok gs
      → AreFilledFields fs gs
  unfolding resolve_fields
  resolve_fields-AreFilledFields end gs s h = rw (← pure_returned end gs s h) no_fields
  resolve_fields-AreFilledFields (field k v fs) gs s h =
      let (w, t, one, rest) = bind_returned (resolve v) _ s gs h in
      let (hs, u, others, done) = bind_returned (resolve_fields resolve fs) _ t gs rest in
      rw (← pure_returned (field k w hs) gs u done)
        (filled_field (fills v w s one) (resolve_fields-AreFilledFields fs hs t others))

  resolve_items-AreFilledItems :
      (vs ws : Items) (s : ResolverState)
      → (resolve_items resolve vs s).0 ≡ ok ws
      → AreFilledItems vs ws
  unfolding resolve_items
  resolve_items-AreFilledItems nil ws s h = rw (← pure_returned nil ws s h) no_items
  resolve_items-AreFilledItems (cons v vs) ws s h =
      let (w, t, one, rest) = bind_returned (resolve v) _ s ws h in
      let (xs, u, others, done) = bind_returned (resolve_items resolve vs) _ t ws rest in
      rw (← pure_returned (cons w xs) ws u done)
        (filled_item (fills v w s one) (resolve_items-AreFilledItems vs xs t others))

module _ (env : Env) (dir : Option String) (ttl : ℕ) where
  resolve_object_dict :
      (frames : ℕ) (base_url : Option String)
      → ((v w : Value) (s : ResolverState)
          → (resolve_object env dir ttl frames base_url v s).0 ≡ ok w
          → IsFilled v w)
      → (fs : Fields) (w : Value) (s : ResolverState)
      → (resolve_object env dir ttl (suc frames) base_url (obj fs) s).0 ≡ ok w
      → IsFilled (obj fs) w
  resolve_object_dict frames base_url fills fs w s h = elim (DictKind-cases (dict_kind fs)) [
    | inl (ref, external) ↦ replaced external
    | inr (inl local) ↦
        rw
          (← pure_returned (obj fs) w s
            (rw (resolve_object-local env dir ttl frames base_url fs local) at h))
          (same_local local)
    | inr (inr other) ↦
        let h' = rw (resolve_object-regular env dir ttl frames base_url fs other) at h in
        let (gs, t, fields, done) =
          bind_returned (resolve_fields (resolve_object env dir ttl frames base_url) fs) _ s w h' in
        rw (← pure_returned (obj gs) w t done) (
          filled_dict other (
            resolve_fields-AreFilledFields (resolve_object env dir ttl frames base_url) fills fs gs
              s fields))
  ]

  resolve_object-IsFilled :
      (frames : ℕ) (base_url : Option String) (v w : Value) (s : ResolverState)
      → (resolve_object env dir ttl frames base_url v s).0 ≡ ok w
      → IsFilled v w
  unfolding resolve_object
  resolve_object-IsFilled zero base_url v w s h = absurd (raise_returned recursion_error w s h)
  resolve_object-IsFilled (suc n) base_url (obj fs) w s h =
      resolve_object_dict n base_url (resolve_object-IsFilled n base_url) fs w s h
  resolve_object-IsFilled (suc n) base_url (arr vs) w s h =
      let (ws, t, items, done) =
        bind_returned (resolve_items (resolve_object env dir ttl n base_url) vs) _ s w h in
      rw (← pure_returned (arr ws) w t done) (
        filled_list (
          resolve_items-AreFilledItems (resolve_object env dir ttl n base_url)
            (resolve_object-IsFilled n base_url) vs ws s items))
  resolve_object-IsFilled (suc n) base_url null w s h =
      rw (← pure_returned null w s h) (same_scalar refl)
  resolve_object-IsFilled (suc n) base_url (bool b) w s h =
      rw (← pure_returned (bool b) w s h) (same_scalar refl)
  resolve_object-IsFilled (suc n) base_url (num m) w s h =
      rw (← pure_returned (num m) w s h) (same_scalar refl)
  resolve_object-IsFilled (suc n) base_url (str t) w s h =
      rw (← pure_returned (str t) w s h) (same_scalar refl)

  -- Where `resolve_external_refs` returns, with any caches, network and recursion limit, the result is the
  -- specification with something in place of each dict that is only an external reference: all other
  -- dicts keep their keys and the order of these, the lists their lengths, and scalars and local
  -- references stay as they are. So a dict comes back as a dict unless it is itself such a reference.
  pub resolve_external_refs-IsFilled :
      (frames : ℕ) (spec w : Value) (s : ResolverState)
      → (resolve_external_refs env dir ttl frames spec s).0 ≡ ok w
      → IsFilled spec w
  unfolding resolve_external_refs
  resolve_external_refs-IsFilled frames spec w s h =
      resolve_object-IsFilled frames none spec w (record s { memory = [] }) h
