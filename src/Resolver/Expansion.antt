-- ===== src/Resolver/Expansion.antt =====
-- The specification of resolving, by recursion and as a relation: they agree, and more frames than
-- needed change nothing.
use fastgeoapi.Base.{
  ℕ, zero, suc, ◌+◌, ◌≤◌, String, ◌≡◌, refl, inl, inr, Option, some, Result, ok, arith, Bool-cases,
  ◌==◌, >>=-eq-ok, ◌↔◌,
}
use fastgeoapi.Json
use fastgeoapi.Json.{Value, null, bool, num, str, arr, obj, Items, nil, cons, Fields, end, field}
use fastgeoapi.Resolver.Env.{Env}
use fastgeoapi.Resolver.Objects.{DictKind-cases, dict_kind}
use fastgeoapi.Resolver.Spec.{
  IsScalar, target, expand_items, expand_fields, expand, expand-external, expand-local,
  expand-regular, Expands, scalar, kept, replaced, in_dict, in_list, ExpandsItems, no_items,
  next_item, ExpandsFields, no_fields, next_field,
}

abbrev Extends : (f g : Value → Result Value) → Type 0
Extends f g = (v w : Value) → f v ≡ ok w → g v ≡ ok w

module _ (f g : Value → Result Value) (extends : Extends f g) where
  expand_items_mono : (vs ws : Items) → expand_items f vs ≡ ok ws → expand_items g vs ≡ ok ws
  unfolding expand_items
  expand_items_mono nil ws h = h
  expand_items_mono (cons v vs) ws h =
      let (v', first, h') = >>=-eq-ok (f v) _ h in
      let (vs', rest, same) = >>=-eq-ok (expand_items f vs) _ h' in
      rw (extends v v' first, expand_items_mono vs vs' rest) same

  expand_fields_mono : (fs gs : Fields) → expand_fields f fs ≡ ok gs → expand_fields g fs ≡ ok gs
  unfolding expand_fields
  expand_fields_mono end gs h = h
  expand_fields_mono (field k v fs) gs h =
      let (v', first, h') = >>=-eq-ok (f v) _ h in
      let (fs', rest, same) = >>=-eq-ok (expand_fields f fs) _ h' in
      rw (extends v v' first, expand_fields_mono fs fs' rest) same

module _ (env : Env) where
  -- With more frames the result is the same.
  pub expand_mono :
      (n m : ℕ)
      → n ≤ m
      → (base_url : Option String) (v w : Value) → expand env n base_url v ≡ ok w
      → expand env m base_url v ≡ ok w
  unfolding expand
  expand_mono zero m le base_url v w h = cc
  expand_mono (suc n) zero le base_url v w h = absurd (omega arith)
  expand_mono (suc n) (suc m) le base_url (obj fs) w h = elim (DictKind-cases (dict_kind fs)) [
    | inl (ref, kind) ↦
        let ((v, url), found, h') =
          >>=-eq-ok (target env ref base_url) _
            (rw (expand-external env n base_url fs kind) at h) in
        rw (expand-external env m base_url fs kind, found)
          (expand_mono n m (omega arith) (some url) v w h')
    | inr (inl kind) ↦
        rw (expand-local env m base_url fs kind) (rw (expand-local env n base_url fs kind) at h)
    | inr (inr kind) ↦
        let (fs', inner, same) =
          >>=-eq-ok (expand_fields (expand env n base_url) fs) _
            (rw (expand-regular env n base_url fs kind) at h) in
        rw
          (
            expand-regular env m base_url fs kind,
            expand_fields_mono _ _ (expand_mono n m (omega arith) base_url) fs fs' inner,
          )
          same
  ]
  expand_mono (suc n) (suc m) le base_url (arr vs) w h =
      let (vs', inner, same) = >>=-eq-ok (expand_items (expand env n base_url) vs) _ h in
      rw (expand_items_mono _ _ (expand_mono n m (omega arith) base_url) vs vs' inner) same
  expand_mono (suc n) (suc m) le base_url v w h = h

module _ (env : Env) (base_url : Option String) (f : Value → Result Value) where
  module _ (sound : (v w : Value) → f v ≡ ok w → Expands env base_url v w) where
    expand_items_sound :
        (vs ws : Items) → expand_items f vs ≡ ok ws → ExpandsItems env base_url vs ws
    unfolding expand_items
    expand_items_sound nil ws h = let e : nil ≡ ws = cc in rw (← e) no_items
    expand_items_sound (cons v vs) ws h =
        let (v', first, h') = >>=-eq-ok (f v) _ h in
        let (vs', rest, same) = >>=-eq-ok (expand_items f vs) _ h' in
        let e : cons v' vs' ≡ ws = cc in
        rw (← e) (next_item (sound v v' first) (expand_items_sound vs vs' rest))

    expand_fields_sound :
        (fs gs : Fields) → expand_fields f fs ≡ ok gs → ExpandsFields env base_url fs gs
    unfolding expand_fields
    expand_fields_sound end gs h = let e : end ≡ gs = cc in rw (← e) no_fields
    expand_fields_sound (field k v fs) gs h =
        let (v', first, h') = >>=-eq-ok (f v) _ h in
        let (fs', rest, same) = >>=-eq-ok (expand_fields f fs) _ h' in
        let e : field k v' fs' ≡ gs = cc in
        rw (← e) (next_field k (sound v v' first) (expand_fields_sound fs fs' rest))

module _ (env : Env) where
  scalar_result :
      (frames : ℕ) (base_url : Option String) (v w : Value)
      → IsScalar v
      → expand env (suc frames) base_url v ≡ ok w
      → Expands env base_url v w
  unfolding expand
  scalar_result frames base_url (arr vs) w s h = elim s [ ]
  scalar_result frames base_url (obj fs) w s h = elim s [ ]
  scalar_result frames base_url v w s h = let e : v ≡ w = cc in rw (← e) (scalar v s)

  expand_sound :
      (frames : ℕ) (base_url : Option String) (v w : Value)
      → expand env frames base_url v ≡ ok w
      → Expands env base_url v w
  unfolding expand
  expand_sound zero base_url v w h = cc
  expand_sound (suc n) base_url (obj fs) w h = elim (DictKind-cases (dict_kind fs)) [
    | inl (ref, kind) ↦
        let ((v, url), found, h') =
          >>=-eq-ok (target env ref base_url) _
            (rw (expand-external env n base_url fs kind) at h) in
        replaced fs ref url v kind found (expand_sound n (some url) v w h')
    | inr (inl kind) ↦
        let h' : ok (obj fs) ≡ ok w = rw (expand-local env n base_url fs kind) at h in
        let e : obj fs ≡ w = cc in rw (← e) (kept fs kind)
    | inr (inr kind) ↦
        let (fs', inner, same) =
          >>=-eq-ok (expand_fields (expand env n base_url) fs) _
            (rw (expand-regular env n base_url fs kind) at h) in
        let e : obj fs' ≡ w = cc in
        rw (← e) (
          in_dict fs kind
            (expand_fields_sound env base_url _ (expand_sound n base_url) fs fs' inner))
  ]
  expand_sound (suc n) base_url (arr vs) w h =
      let (vs', inner, same) = >>=-eq-ok (expand_items (expand env n base_url) vs) _ h in
      let e : arr vs' ≡ w = cc in
      rw (← e) (in_list (expand_items_sound env base_url _ (expand_sound n base_url) vs vs' inner))
  expand_sound (suc n) base_url null w h = scalar_result n base_url null w tt h
  expand_sound (suc n) base_url (bool b) w h = scalar_result n base_url (bool b) w tt h
  expand_sound (suc n) base_url (num k) w h = scalar_result n base_url (num k) w tt h
  expand_sound (suc n) base_url (str s) w h = scalar_result n base_url (str s) w tt h

  expand_scalar :
      (base_url : Option String) (v : Value) → IsScalar v → expand env 1 base_url v ≡ ok v
  unfolding expand
  expand_scalar base_url (arr vs) s = elim s [ ]
  expand_scalar base_url (obj fs) s = elim s [ ]
  expand_scalar base_url v s = refl

mutual
  unfolding expand expand_items expand_fields

  expand_complete :
      {env : Env} {base_url : Option String} {v w : Value}
      → Expands env base_url v w
      → (frames : ℕ) × (expand env frames base_url v ≡ ok w)
  expand_complete {env} {base_url} (scalar v s) = (1, expand_scalar env base_url v s)
  expand_complete {env} {base_url} (kept fs kind) = (1, expand-local env 0 base_url fs kind)
  expand_complete {env} {base_url} (replaced fs ref url v kind found d) =
      let (n, h) = expand_complete d in
      (suc n, rw (expand-external env n base_url fs kind, found) h)
  expand_complete {env} {base_url} (in_dict fs kind d) =
      let (n, h) = expand_fields_complete d in
      (suc n, rw (expand-regular env n base_url fs kind, h))
  expand_complete {env} {base_url} (in_list d) =
      let (n, h) = expand_items_complete d in (suc n, rw h)

  expand_items_complete :
      {env : Env} {base_url : Option String} {vs ws : Items}
      → ExpandsItems env base_url vs ws
      → (frames : ℕ) × (expand_items (expand env frames base_url) vs ≡ ok ws)
  expand_items_complete no_items = (0, refl)
  expand_items_complete {env} {base_url} (next_item {v} {v'} {vs} {vs'} d ds) =
      let (n, h) = expand_complete d in
      let (m, k) = expand_items_complete ds in
      (
        n + m,
        rw (
          expand_mono env n (n + m) (omega arith) base_url v v' h,
          expand_items_mono _ _ (expand_mono env m (n + m) (omega arith) base_url) vs vs' k,
        ),
      )

  expand_fields_complete :
      {env : Env} {base_url : Option String} {fs gs : Fields}
      → ExpandsFields env base_url fs gs
      → (frames : ℕ) × (expand_fields (expand env frames base_url) fs ≡ ok gs)
  expand_fields_complete no_fields = (0, refl)
  expand_fields_complete {env} {base_url} (next_field key {v} {v'} {fs} {fs'} d ds) =
      let (n, h) = expand_complete d in
      let (m, k) = expand_fields_complete ds in
      (
        n + m,
        rw (
          expand_mono env n (n + m) (omega arith) base_url v v' h,
          expand_fields_mono _ _ (expand_mono env m (n + m) (omega arith) base_url) fs fs' k,
        ),
      )

-- Some recursion limit yields `w` exactly when `v` stands for `w`.
pub expand_iff :
    (env : Env) (base_url : Option String) (v w : Value)
    → ((frames : ℕ) × (expand env frames base_url v ≡ ok w)) ↔ Expands env base_url v w
expand_iff env base_url v w = (λ (n, h). expand_sound env n base_url v w h, expand_complete)

-- Each entry of a dict that is entered succeeds, and keeps its key.
pub expand_fields-get :
    (f : Value → Result Value) (k : String) {v : Value} (fs gs : Fields)
    → expand_fields f fs ≡ ok gs
    → Json.get k fs ≡ some v
    → (w : Value) × (f v ≡ ok w) × (Json.get k gs ≡ some w)
unfolding expand_fields Json.get
expand_fields-get f k end gs h e = cc
expand_fields-get f k {v} (field j u fs) gs h e =
    let (u', first, h') = >>=-eq-ok (f u) _ h in
    let (fs', rest, done) = >>=-eq-ok (expand_fields f fs) _ h' in
    let it : field j u' fs' ≡ gs = cc in
    elim (Bool-cases (j == k)) [
      | inl here ↦
          let same : u ≡ v = ground arith in (u', (rw (← same) first), rw (← it) (ground arith))
      | inr later ↦
          let e' : Json.get k fs ≡ some v = ground arith in
          let (w, fits, found) = expand_fields-get f k fs fs' rest e' in
          (w, fits, rw (← it) (ground arith))
    ]
