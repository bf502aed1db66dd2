-- ===== src/Json.antt =====
-- Values that json.loads and yaml.safe_load return. A number is only copied or tested for zero by
-- the program, so the natural numbers stand for all of them. Keys of a dict are texts.
use fastgeoapi.Base.{
  ℕ, suc, max, String, Bool, true, false, not, Option, none, some, ◌==◌, nat_eq, if◌then◌else◌,
}

mutual
  pub data Value : Type 0 where
    null : Value
    bool : Bool → Value
    num : ℕ → Value
    str : String → Value
    obj : Fields → Value
    arr : Items → Value

  -- a dict in insertion order
  pub data Fields : Type 0 where
    field : (key : String) → Value → Fields → Fields
    end : Fields

  pub data Items : Type 0 where
    cons : Value → Items → Items
    nil : Items

-- d.get(k); also `k in d` and d[k]
unfoldable pub get : String → Fields → Option Value
get k end = none
get k (field j v fs) = if j == k then some v else get k fs

-- d[k] = v
unfoldable pub put : String → Value → Fields → Fields
put k v end = field k v end
put k v (field j w fs) = if j == k then field j v fs else field j w (put k v fs)

-- Whether `if v:` takes the branch.
unfoldable pub is_truthy : Value → Bool
is_truthy null = false
is_truthy (bool b) = b
is_truthy (num n) = not (nat_eq n 0)
is_truthy (str s) = not (s == "")
is_truthy (arr nil) = false
is_truthy (arr (cons v vs)) = true
is_truthy (obj end) = false
is_truthy (obj (field k v fs)) = true

-- How deep a value is nested: the frames that a recursion over it takes.
unfoldable mutual
  pub depth : Value → ℕ
  depth (arr vs) = suc (depth_items vs)
  depth null = 1
  depth (str s) = 1
  depth (num n) = 1
  depth (bool b) = 1
  depth (obj fs) = suc (depth_fields fs)

  pub depth_items : Items → ℕ
  depth_items (cons item items) = max (depth item) (depth_items items)
  depth_items nil = 0

  pub depth_fields : Fields → ℕ
  depth_fields (field key item fs) = max (depth item) (depth_fields fs)
  depth_fields end = 0
