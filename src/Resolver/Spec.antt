-- ===== src/Resolver/Spec.antt =====
-- What resolving promises, without caches and state: every external reference is replaced by what
-- the network holds there, resolved in turn. `Expands` says it with no recursion limit.
use fastgeoapi.Base.{
  ℕ, zero, suc, String, ◌≡◌, Option, some, Result, ok, err, recursion_error, ◌==◌, if◌then◌else◌,
}
use fastgeoapi.Base.Errors.{◌>>=◌}
use fastgeoapi.Json.{Value, arr, obj, Items, nil, cons, Fields, end, field}
use fastgeoapi.Resolver.Env.{Env}
use fastgeoapi.Resolver.Cache.{download}
use fastgeoapi.Resolver.Refs.{navigate_to_fragment, split_ref, absolute_url}
use fastgeoapi.Resolver.Objects.{external_ref, local_ref, regular, dict_kind}

module _ (env : Env) where
  unfoldable pub target_document : String → Result Value
  target_document url = if url == "" then ok (obj end) else download env url

  -- What a reference stands for on the network, and the URL that its own references are relative to.
  unfoldable pub target : String → Option String → Result (Value × String)
  unfolding target_document split_ref absolute_url navigate_to_fragment download
  target ref base_url =
      let (url_part, fragment) = split_ref ref in
      absolute_url env url_part base_url >>= λ url. target_document url >>= λ doc.
      navigate_to_fragment doc fragment >>= λ result. ok (result, url)

module _ (expand : Value → Result Value) where
  unfoldable pub expand_items : Items → Result Items
  expand_items nil = ok nil
  expand_items (cons v vs) = do v' ← expand v; vs' ← expand_items vs; ok (cons v' vs')

  unfoldable pub expand_fields : Fields → Result Fields
  expand_fields end = ok end
  expand_fields (field k v fs) = do v' ← expand v; fs' ← expand_fields fs; ok (field k v' fs')

module _ (env : Env) where
  unfoldable pub expand : ℕ → Option String → Value → Result Value
  unfolding dict_kind expand_items expand_fields
  expand zero base_url v = err recursion_error
  expand (suc frames) base_url (obj fs) = elim (dict_kind fs) [
    | external_ref ref ↦ do (v, url) ← target env ref base_url; expand frames (some url) v
    | local_ref ↦ ok (obj fs)
    | regular ↦ do fs' ← expand_fields (expand frames base_url) fs; ok (obj fs')
  ]
  expand (suc frames) base_url (arr vs) = do
    vs' ← expand_items (expand frames base_url) vs
    ok (arr vs')
  expand (suc frames) base_url v = ok v

-- One step of `expand` at a dict, by its kind.
module _ (env : Env) (frames : ℕ) (base_url : Option String) (fs : Fields) where
  pub expand-external :
      {ref : String}
      → dict_kind fs ≡ external_ref ref
      → expand env (suc frames) base_url (obj fs)
        ≡ (target env ref base_url >>= λ (v, url). expand env frames (some url) v)
  unfolding expand
  expand-external kind = rw (kind, expand)

  pub expand-local :
      dict_kind fs ≡ local_ref → expand env (suc frames) base_url (obj fs) ≡ ok (obj fs)
  unfolding expand
  expand-local kind = rw (kind, expand)

  pub expand-regular :
      dict_kind fs ≡ regular
      → expand env (suc frames) base_url (obj fs)
        ≡ (expand_fields (expand env frames base_url) fs >>= λ fs'. ok (obj fs'))
  unfolding expand
  expand-regular kind = rw (kind, expand)

abbrev pub IsScalar : Value → Type 0
IsScalar (arr vs) = ⊥
IsScalar (obj fs) = ⊥
IsScalar _ = Unit

mutual
  -- `Expands env base_url v w`: in a document at `base_url`, the value `v` stands for `w`.
  pub data Expands (env : Env) : Option String → Value → Value → Type 0 where
    scalar : {base_url : Option String} (v : Value) → IsScalar v → Expands env base_url v v
    kept :
        {base_url : Option String} (fs : Fields)
        → dict_kind fs ≡ local_ref
        → Expands env base_url (obj fs) (obj fs)
    replaced :
        {base_url : Option String} (fs : Fields) (ref url : String) (v : Value) {w : Value}
        → dict_kind fs ≡ external_ref ref
        → target env ref base_url ≡ ok (v, url)
        → Expands env (some url) v w
        → Expands env base_url (obj fs) w
    in_dict :
        {base_url : Option String} (fs : Fields) {fs' : Fields}
        → dict_kind fs ≡ regular
        → ExpandsFields env base_url fs fs'
        → Expands env base_url (obj fs) (obj fs')
    in_list :
        {base_url : Option String} {vs vs' : Items}
        → ExpandsItems env base_url vs vs'
        → Expands env base_url (arr vs) (arr vs')

  pub data ExpandsItems (env : Env) : Option String → Items → Items → Type 0 where
    no_items : {base_url : Option String} → ExpandsItems env base_url nil nil
    next_item :
        {base_url : Option String} {v v' : Value} {vs vs' : Items}
        → Expands env base_url v v'
        → ExpandsItems env base_url vs vs'
        → ExpandsItems env base_url (cons v vs) (cons v' vs')

  pub data ExpandsFields (env : Env) : Option String → Fields → Fields → Type 0 where
    no_fields : {base_url : Option String} → ExpandsFields env base_url end end
    next_field :
        {base_url : Option String} (k : String) {v v' : Value} {fs fs' : Fields}
        → Expands env base_url v v'
        → ExpandsFields env base_url fs fs'
        → ExpandsFields env base_url (field k v fs) (field k v' fs')
