-- ===== src/Pygeoapi/Patches.antt =====
-- The patches hold in every module, once for all, and the responses keep the headers of the call.
use fastgeoapi.Base.{
  All, ◌⊎◌, ℕ, String, ◌≡◌, ◌≢◌, ◌↔◌, refl, sym, ap, ◌∙◌, true, Option, none, some, List, [], ◌∷◌,
  Result, ok, err, Exception, overflow_error, value_error, arith, Bool-cases, inl, inr, eq_iff,
  ◌==◌,
}
use fastgeoapi.Base.Dict
use fastgeoapi.Base.Dict.{Dict, get-put, put-get, put_all-get, is_listed}
use fastgeoapi.Json.{Value}
use fastgeoapi.Pygeoapi.{
  Binding, upstream, wrapper, foreign, in_range, overflow_safe, validate_datetime, rebind,
  rebind_all, patch_validate_datetime_overflow, patched_modules, ResponseClass, ApiResponse,
  class_of, content_type, update, get_response,
}

-- The modules that pygeoapi calls `validate_datetime` from, and the one that defines it.
abbrev pub IsConsumer : String → Type 0
IsConsumer name =
    (name ≡ "pygeoapi.api")
    ⊎ (name ≡ "pygeoapi.api.itemtypes")
    ⊎ (name ≡ "pygeoapi.api.maps")
    ⊎ (name ≡ "pygeoapi.api.environmental_data_retrieval")

is_listed-IsConsumer : (name : String) → (is_listed name patched_modules ≡ true) ↔ IsConsumer name
is_listed-IsConsumer name =
    let api = eq_iff "pygeoapi.api" name in
    let itemtypes = eq_iff "pygeoapi.api.itemtypes" name in
    let maps = eq_iff "pygeoapi.api.maps" name in
    let edr = eq_iff "pygeoapi.api.environmental_data_retrieval" name in ground arith

-- A module that has the wrapper is left alone, which setting it again would do too.
rebind-put :
    (name : String) (bindings : Dict Binding) (bound : Binding)
    → Dict.get name bindings ≡ some bound
    → rebind name bindings (Dict.get name bindings) ≡ ok (Dict.put name wrapper bindings)
unfolding rebind
rebind-put name bindings upstream there = ap (rebind name bindings) there
rebind-put name bindings wrapper there =
    ap (rebind name bindings) there ∙ ap ok (sym (put-get name wrapper bindings there))
rebind-put name bindings (foreign other) there = ap (rebind name bindings) there

bound_after :
    (name other : String) (bindings : Dict Binding) (bound : Binding)
    → Dict.get other bindings ≡ some bound
    → (later : Binding) × (Dict.get other (Dict.put name wrapper bindings) ≡ some later)
bound_after name other bindings bound there = elim (Bool-cases (name == other)) [
  | inl same ↦ (wrapper, rw (get-put name other wrapper bindings, same) refl)
  | inr differs ↦ (bound, rw (get-put name other wrapper bindings, differs) there)
]

-- Each of the modules has the name.
abbrev pub AreBound : List String → Dict Binding → Type 0
AreBound modules bindings =
    All (λ name. (bound : Binding) × (Dict.get name bindings ≡ some bound)) modules

still_bound :
    (name : String) (modules : List String) (bindings : Dict Binding)
    → AreBound modules bindings
    → AreBound modules (Dict.put name wrapper bindings)
still_bound name [] bindings h = tt
still_bound name (other ∷ modules) bindings ((bound, there), h) =
    (bound_after name other bindings bound there, still_bound name modules bindings h)

rebind_all-put_all :
    (modules : List String) (bindings : Dict Binding)
    → AreBound modules bindings
    → rebind_all modules bindings ≡ ok (Dict.put_all modules wrapper bindings)
unfolding rebind_all Dict.put_all
rebind_all-put_all [] bindings h = refl
rebind_all-put_all (name ∷ modules) bindings ((bound, there), h) =
    rw (rebind-put name bindings bound there) (
      rebind_all-put_all modules (Dict.put name wrapper bindings)
        (still_bound name modules bindings h))

consumers_bound :
    (bindings : Dict Binding)
    → ((name : String)
        → IsConsumer name
        → (bound : Binding) × (Dict.get name bindings ≡ some bound))
    → AreBound patched_modules bindings
consumers_bound bindings h = (
  h "pygeoapi.api" (inl refl),
  (
    h "pygeoapi.api.itemtypes" (inr (inl refl)),
    (
      h "pygeoapi.api.maps" (inr (inr (inl refl))),
      (h "pygeoapi.api.environmental_data_retrieval" (inr (inr (inr refl))), tt),
    ),
  ),
)

-- What the patch leaves under a name.
abbrev pub IsPatched : Dict Binding → Dict Binding → String → Type 0
IsPatched bindings after name =
    (IsConsumer name × (Dict.get name after ≡ some wrapper))
    ⊎ (¬ IsConsumer name × (Dict.get name after ≡ Dict.get name bindings))

put_all-IsPatched :
    (bindings : Dict Binding) (name : String)
    → IsPatched bindings (Dict.put_all patched_modules wrapper bindings) name
put_all-IsPatched bindings name =
    let found = put_all-get patched_modules name wrapper bindings in
    elim (Bool-cases (is_listed name patched_modules)) [
      | inl listed ↦ inl ((is_listed-IsConsumer name).0 listed, found ∙ rw listed refl)
      | inr other ↦ inr (
        λ consumer. ground (arith, other, (is_listed-IsConsumer name).1 consumer),
        found ∙ rw other refl,
      )
    ]

put_all_bound :
    (bindings : Dict Binding)
    → ((name : String)
        → IsConsumer name
        → (bound : Binding) × (Dict.get name bindings ≡ some bound))
    → (name : String) → IsConsumer name
    → (bound : Binding) × (Dict.get name (Dict.put_all patched_modules wrapper bindings)
        ≡ some bound)
put_all_bound bindings h name consumer = elim (put_all-IsPatched bindings name) [
  | inl (_, there) ↦ (wrapper, there)
  | inr (other, _) ↦ absurd (other consumer)
]

-- Where the four modules that use `validate_datetime` have the name, whatever it is bound to, the patch
-- succeeds: the wrapper is bound in each of the four and every other module is as it was; and applying
-- the patch again changes nothing.
pub patch_validate_datetime_overflow-IsPatched :
    (bindings : Dict Binding)
    → ((name : String)
        → IsConsumer name
        → (bound : Binding) × (Dict.get name bindings ≡ some bound))
    → (after : Dict Binding) × (patch_validate_datetime_overflow bindings ≡ ok after)
      × ((name : String) → IsPatched bindings after name)
      × (patch_validate_datetime_overflow after ≡ ok after)
unfolding patch_validate_datetime_overflow
patch_validate_datetime_overflow-IsPatched bindings h =
    let after = Dict.put_all patched_modules wrapper bindings in
    (
      after,
      rebind_all-put_all patched_modules bindings (consumers_bound bindings h),
      put_all-IsPatched bindings,
      rebind_all-put_all patched_modules after (consumers_bound after (put_all_bound bindings h))
          ∙ ap ok (
              Dict.put_all_twice patched_modules wrapper bindings
                (refl, (refl, (refl, (refl, tt))))),
    )

in_range_lem :
    (e : Exception)
    → (in_range e ≢ overflow_error)
      × (e ≡ overflow_error → in_range e ≡ value_error)
      × (e ≢ overflow_error → in_range e ≡ e)
unfolding in_range
in_range_lem e = ground arith

overflow_safe_lem {ℓ} :
    {A : Type ℓ} (r : Result A)
    → ((a : A) → (overflow_safe r ≡ ok a) ↔ (r ≡ ok a))
      × (overflow_safe r ≢ err overflow_error)
      × (r ≡ err overflow_error → overflow_safe r ≡ err value_error)
      × ((e : Exception) → e ≢ overflow_error → r ≡ err e → overflow_safe r ≡ err e)
unfolding overflow_safe
overflow_safe_lem (ok v) = (λ a. (λ h. h, λ h. h), λ h. cc, λ h. cc, λ e other h. h)
overflow_safe_lem (err e) =
    let (never, caught, kept) = in_range_lem e in
    (
      λ a. (λ h. cc, λ h. cc),
      λ h. never (ground arith),
      λ h. rw (caught (ground arith)) refl,
      λ e' other h.
          let same : e ≡ e' = ground arith in rw (kept (λ over. other (sym same ∙ over))) h,
    )

-- The wrapper returns what pygeoapi's function returns, and raises what it raises, but for
-- OverflowError, in whose place it raises ValueError.
pub validate_datetime-overflow {ℓ} :
    {A : Type ℓ} (upstream_validate : Value → Option String → Result A) (resource_def : Value)
    (datetime_ : Option String)
    → let before = upstream_validate resource_def datetime_ in
      let after = validate_datetime upstream_validate resource_def datetime_ in
      ((a : A) → (after ≡ ok a) ↔ (before ≡ ok a))
      × (after ≢ err overflow_error)
      × (before ≡ err overflow_error → after ≡ err value_error)
      × ((e : Exception) → e ≢ overflow_error → before ≡ err e → after ≡ err e)
unfolding validate_datetime
validate_datetime-overflow upstream_validate resource_def datetime_ =
    overflow_safe_lem (upstream_validate resource_def datetime_)

-- No key of the dict is there twice.
abbrev pub IsDistinct {ℓ} : {V : Type ℓ} → Dict V → Type ℓ
IsDistinct [] = Unit
IsDistinct ((k, v) ∷ d) = (Dict.get k d ≡ none) × IsDistinct d

update-get-none :
    (k : String) (new headers : Dict String)
    → Dict.get k new ≡ none
    → Dict.get k (update new headers) ≡ Dict.get k headers
unfolding update Dict.get
update-get-none k [] headers h = refl
update-get-none k ((j, w) ∷ new) headers h =
    ground (arith, eq_iff j k, get-put j k w headers, update-get-none k new (Dict.put j w headers))

update-get :
    (k v : String) (new headers : Dict String)
    → IsDistinct new
    → Dict.get k new ≡ some v
    → Dict.get k (update new headers) ≡ some v
unfolding update Dict.get
update-get k v [] headers d h = cc
update-get k v ((j, w) ∷ new) headers (fresh, d) h = elim (Bool-cases (j == k)) [
  | inl same ↦
      let e = (eq_iff j k).0 same in
      let value : w ≡ v = ground (arith, same) in
      rw (update-get-none k new (Dict.put j w headers) (rw e at fresh), get-put j k w headers, same)
        (ap some value)
  | inr other ↦ update-get k v new (Dict.put j w headers) d (rw other at h)
]

-- What a call returns becomes a response of its status and content whose class is chosen by its
-- Content-Type, and each header of the call stands in it, also where Starlette sets one of that
-- name. The headers hold no key twice, as the keys of a dict do not.
pub get_response-headers :
    (own_headers : ResponseClass → Value → Dict String) (headers : Dict String) (status : ℕ)
    (content : Value) (type : String)
    → IsDistinct headers
    → Dict.get "Content-Type" headers ≡ some type
    → (response : ApiResponse) × (get_response own_headers (ok (some headers, status, content))
        ≡ ok response)
      × (response.response_class ≡ class_of type content)
      × (response.status ≡ status)
      × (response.content ≡ content)
      × ((k v : String) → Dict.get k headers ≡ some v → Dict.get k response.headers ≡ some v)
unfolding get_response content_type
get_response-headers own_headers headers status content type distinct typed =
    let chosen = class_of type content in
    (
      record {
        response_class = chosen;
        status = status;
        content = content;
        headers = update headers (own_headers chosen content);
      },
      rw typed refl,
      refl,
      refl,
      refl,
      λ k v there. update-get k v headers (own_headers chosen content) distinct there,
    )
