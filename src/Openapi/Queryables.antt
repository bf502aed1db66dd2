-- ===== src/Openapi/Queryables.antt =====
-- The correction of the schema `queryables`.
use fastgeoapi.Base.{
  String, ◌≡◌, refl, Option, none, some, ok, arith, Option-cases, Bool-cases, inl, inr, eq_iff,
  eq_refl, >>=-eq-ok, ap, ◌==◌, if◌then◌else◌,
}
use fastgeoapi.Json
use fastgeoapi.Json.{Value, null, bool, num, str, arr, obj, Fields, field, end}
use fastgeoapi.Auth.Jwks.{any_equals}
use fastgeoapi.Openapi.{
  contains, real_schema, replace_queryables, fix_schemas, fix_components,
  fix_queryables_response_schema,
}

get-put :
    (k j : String) (v : Value) (fs : Fields)
    → Json.get j (Json.put k v fs) ≡ (if k == j then some v else Json.get j fs)
unfolding Json.get Json.put
get-put k j v end = refl
get-put k j v (field i w fs) = ground (arith, eq_iff k j, eq_iff i k, eq_iff i j, get-put k j v fs)

get-put_self : (k : String) (v : Value) (fs : Fields) → Json.get k (Json.put k v fs) ≡ some v
get-put_self k v fs = simp (get-put, eq_refl)

-- A key that has the value already is set to it without effect.
put-get : (k : String) (v : Value) (fs : Fields) → Json.get k fs ≡ some v → Json.put k v fs ≡ fs
unfolding Json.get Json.put
put-get k v end h = absurd (ground arith)
put-get k v (field j w fs) h = elim (Bool-cases (j == k)) [
  | inl same ↦ ground arith
  | inr other ↦ ground (arith, put-get k v fs)
]

replace_queryables_again :
    (schemas : Fields) (old : Option Value)
    → Json.get "queryables" schemas ≡ old
    → replace_queryables
        (replace_queryables schemas old)
        (Json.get "queryables" (replace_queryables schemas old))
      ≡ replace_queryables schemas old
unfolding replace_queryables
replace_queryables_again schemas none h = rw (h) refl
replace_queryables_again schemas (some v) h =
    let there = get-put_self "queryables" real_schema schemas in
    rw (there, put-get "queryables" real_schema (Json.put "queryables" real_schema schemas) there)

fix_schemas_again : (v w : Value) → fix_schemas v ≡ ok w → fix_schemas w ≡ ok w
unfolding fix_schemas
fix_schemas_again (obj schemas) w h =
    let e : obj (replace_queryables schemas (Json.get "queryables" schemas)) ≡ w = ground arith in
    rw (← e)
      (ap (λ f. ok (obj f)) (replace_queryables_again schemas (Json.get "queryables" schemas) refl))
fix_schemas_again (str s) w h = elim (Bool-cases (contains "queryables" s)) [
  | inl found ↦ absurd (ground arith)
  | inr missing ↦ let e : str s ≡ w = ground arith in rw (← e) (ground arith)
]
fix_schemas_again (arr vs) w h = elim (Bool-cases (any_equals "queryables" vs)) [
  | inl found ↦ absurd (ground arith)
  | inr missing ↦ let e : arr vs ≡ w = ground arith in rw (← e) (ground arith)
]
fix_schemas_again null w h = absurd (ground arith)
fix_schemas_again (bool b) w h = absurd (ground arith)
fix_schemas_again (num n) w h = absurd (ground arith)

fix_components_again :
    (before after : Fields) → fix_components before ≡ ok after → fix_components after ≡ ok after
unfolding fix_components
fix_components_again before after h = elim (Option-cases (Json.get "schemas" before)) [
  | inl missing ↦ let e : before ≡ after = ground arith in rw (← e, missing)
  | inr (schemas, there) ↦
      let (fixed, done, last) =
        >>=-eq-ok (fix_schemas schemas) (λ w. ok (Json.put "schemas" w before)) (rw there at h) in
      let e : Json.put "schemas" fixed before ≡ after = ground arith in
      let now = get-put_self "schemas" fixed before in
      rw (
        ← e,
        now,
        fix_schemas_again schemas fixed done,
        put-get "schemas" fixed (Json.put "schemas" fixed before) now,
      )
]

fix_document_again :
    (doc components fixed : Fields)
    → Json.get "components" doc ≡ some (obj components)
    → fix_queryables_response_schema doc ≡ ok fixed
    → fix_queryables_response_schema fixed ≡ ok fixed
unfolding fix_queryables_response_schema
fix_document_again doc components fixed there h =
    let (after, done, last) =
      >>=-eq-ok (fix_components components) (λ w. ok (Json.put "components" (obj w) doc))
        (rw there at h) in
    let e : Json.put "components" (obj after) doc ≡ fixed = ground arith in
    let now = get-put_self "components" (obj after) doc in
    rw (
      ← e,
      now,
      fix_components_again components after done,
      put-get "components" (obj after) (Json.put "components" (obj after) doc) now,
    )

-- A document that `fix_queryables_response_schema` returned is returned as it is when it is
-- corrected again.
pub fix_queryables_response_schema_idempotent :
    (doc fixed : Fields)
    → fix_queryables_response_schema doc ≡ ok fixed
    → fix_queryables_response_schema fixed ≡ ok fixed
unfolding fix_queryables_response_schema
fix_queryables_response_schema_idempotent doc fixed h =
    elim (Option-cases (Json.get "components" doc)) [
      | inl missing ↦ let e : doc ≡ fixed = ground arith in rw (← e, missing)
      | inr (obj components, there) ↦ fix_document_again doc components fixed there h
      | inr (null, there) ↦ absurd (ground arith)
      | inr (bool b, there) ↦ absurd (ground arith)
      | inr (num n, there) ↦ absurd (ground arith)
      | inr (str s, there) ↦ absurd (ground arith)
      | inr (arr vs, there) ↦ absurd (ground arith)
    ]
