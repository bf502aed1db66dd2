-- ===== src/Resolver/Counting.antt =====
-- The two inspections of app/utils/openapi_resolver.py. They look at every dict with a `$ref`
-- key, whatever else the dict holds.
use fastgeoapi.Base.{ℕ, ◌+◌, ◌<◌, ◌≡◌, ◌↔◌, Bool, true, false, ◌||◌, Option, none, some, arith}
use fastgeoapi.Json
use fastgeoapi.Json.{Value, null, bool, num, str, arr, obj, Items, nil, cons, Fields, end, field}
use fastgeoapi.Resolver.Objects.{is_external}

is_external_entry : Option Value → Bool
is_external_entry none = false
is_external_entry (some ref) = is_external ref

-- The test of a dict: `"$ref" in obj`, and its value is an external reference.
unfoldable pub has_external_entry : Fields → Bool
unfolding is_external_entry is_external Json.get
has_external_entry fs = is_external_entry (Json.get "$ref" fs)

-- `count += 1` behind the test
unfoldable pub one_if : Bool → ℕ
one_if true = 1
one_if false = 0

unfoldable mutual
  unfolding has_external_entry one_if

  pub count_external_refs : Value → ℕ
  count_external_refs null = 0
  count_external_refs (bool b) = 0
  count_external_refs (num n) = 0
  count_external_refs (str s) = 0
  count_external_refs (arr vs) = count_in_items vs
  count_external_refs (obj fs) = one_if (has_external_entry fs) + count_in_fields fs

  pub count_in_items : Items → ℕ
  count_in_items nil = 0
  count_in_items (cons v vs) = count_external_refs v + count_in_items vs

  pub count_in_fields : Fields → ℕ
  count_in_fields end = 0
  count_in_fields (field k v fs) = count_external_refs v + count_in_fields fs

unfoldable mutual
  unfolding has_external_entry

  pub has_external_refs : Value → Bool
  has_external_refs null = false
  has_external_refs (bool b) = false
  has_external_refs (num n) = false
  has_external_refs (str s) = false
  has_external_refs (arr vs) = has_in_items vs
  has_external_refs (obj fs) = has_external_entry fs || has_in_fields fs

  pub has_in_items : Items → Bool
  has_in_items nil = false
  has_in_items (cons v vs) = has_external_refs v || has_in_items vs

  pub has_in_fields : Fields → Bool
  has_in_fields end = false
  has_in_fields (field k v fs) = has_external_refs v || has_in_fields fs

mutual
  unfolding count_external_refs has_external_refs one_if

  agree : (v : Value) → (has_external_refs v ≡ true) ↔ (0 < count_external_refs v)
  agree null = ground arith
  agree (bool b) = ground arith
  agree (num n) = ground arith
  agree (str s) = ground arith
  agree (arr vs) = agree_items vs
  agree (obj fs) = ground (arith, agree_fields fs)

  agree_items : (vs : Items) → (has_in_items vs ≡ true) ↔ (0 < count_in_items vs)
  agree_items nil = ground arith
  agree_items (cons v vs) = ground (arith, agree v, agree_items vs)

  agree_fields : (fs : Fields) → (has_in_fields fs ≡ true) ↔ (0 < count_in_fields fs)
  agree_fields end = ground arith
  agree_fields (field k v fs) = ground (arith, agree v, agree_fields fs)

-- `has_external_refs` says True exactly when `count_external_refs` counts at least one.
pub has_external_refs-iff-count :
    (v : Value) → (has_external_refs v ≡ true) ↔ (0 < count_external_refs v)
has_external_refs-iff-count v = agree v
