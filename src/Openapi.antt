-- ===== src/Openapi.antt =====
-- `augment_security` and `fix_queryables_response_schema` of app/pygeoapi/openapi.py. The OpenAPI
-- models of openapi_pydantic are records of what the code reads and sets of them, with the rest as
-- one value; reading and building them, and dumping a scheme, are parameters.
pub mod Lookups
pub mod Generation
pub mod Queryables
mod Tests
use fastgeoapi.Base.{
  ℕ, String, ◌<>◌, Bool, true, false, Option, none, some, List, [], ◌∷◌, Result, ok, err,
  attribute_error, type_error, if◌then◌else◌,
}
use fastgeoapi.Base.Dict
use fastgeoapi.Base.Dict.{Dict}
use fastgeoapi.Base.Errors.{◌>>=◌}
use fastgeoapi.Json
use fastgeoapi.Json.{Value, str, bool, arr, obj, Fields, field, end}
use fastgeoapi.Text.{partition}
use fastgeoapi.Auth.Jwks.{any_equals}
use fastgeoapi.App.Modes.{SecurityScheme}

-- `security` is a list of requirements, each by the name of its scheme.
pub record Operation : Type 0 where
  pub security : Option (List String)
  pub responses : Option (Dict Value)
  pub rest : Value

pub record PathItem : Type 0 where
  pub get_operation : Option Operation
  pub post_operation : Option Operation
  pub options_operation : Option Operation
  pub delete_operation : Option Operation
  -- put, patch, head and trace
  pub other_operations : Dict Operation
  pub rest : Value

pub record OpenApi : Type 0 where
  pub components : Option Fields
  pub paths : Option (Dict PathItem)
  pub rest : Value

-- f"pygeoapi {cfg.PYGEOAPI_SECURITY_SCHEME}"
unfoldable pub scheme_key : Option String → String
scheme_key none = "pygeoapi None"
scheme_key (some security_scheme) = "pygeoapi " <> security_scheme

is_found : Option (String × String) → Bool
is_found none = false
is_found (some parts) = true

-- sub in text
unfoldable pub contains : String → String → Bool
unfolding is_found partition
contains sub text = is_found (partition sub text)

-- The schema that takes the place of the wrapper.
abbrev pub real_schema : Value
real_schema =
    let typed : String → Value = λ name. obj (field "type" (str name) end) in
    obj (
      field "type" (str "object") (
        field "description"
          (str
            "A JSON Schema document describing the queryable/returnable properties of the collection (OGC API - Features Part 3 / Part 5).")
          (field "properties"
            (obj (
              field "$schema" (typed "string") (
                field "$id" (typed "string") (
                  field "type" (typed "string")
                    (field "title" (typed "string") (field "properties" (typed "object") end))))))
            (field "additionalProperties" (bool true) end))))

unfoldable pub replace_queryables : Fields → Option Value → Fields
replace_queryables schemas none = schemas
replace_queryables schemas (some old) = Json.put "queryables" real_schema schemas

-- `"queryables" in schemas`, and the assignment. Where the schemas are no dict, the assignment or
-- the test raises TypeError.
unfoldable pub fix_schemas : Value → Result Value
unfolding replace_queryables contains any_equals
fix_schemas (obj schemas) = ok (obj (replace_queryables schemas (Json.get "queryables" schemas)))
fix_schemas (str s) = if contains "queryables" s then err type_error else ok (str s)
fix_schemas (arr vs) = if any_equals "queryables" vs then err type_error else ok (arr vs)
fix_schemas v = err type_error

in_components : Fields → Option Value → Result Fields
unfolding fix_schemas
in_components components none = ok components
in_components components (some schemas) = do
  fixed ← fix_schemas schemas
  ok (Json.put "schemas" fixed components)

-- What `fix_queryables_response_schema` does to the components.
unfoldable pub fix_components : Fields → Result Fields
unfolding in_components
fix_components components = in_components components (Json.get "schemas" components)

in_document : Fields → Option Value → Result Fields
unfolding fix_components
in_document doc none = ok doc
in_document doc (some (obj components)) = do
  fixed ← fix_components components
  ok (Json.put "components" (obj fixed) doc)
in_document doc (some v) = err attribute_error

unfoldable pub fix_queryables_response_schema : Fields → Result Fields
unfolding in_document
fix_queryables_response_schema doc = in_document doc (Json.get "components" doc)

-- responses.update(…), which an absent or empty dict of responses skips
add_response : String → Value → Option (Dict Value) → Option (Dict Value)
add_response status response none = none
add_response status response (some []) = some []
add_response status response (some (r ∷ responses)) =
    some (Dict.put status response (r ∷ responses))

abbrev pub unauthorized : Value
unauthorized = obj (field "description" (str "Unauthenticated") end)

abbrev pub not_found : Value
not_found = obj (
    field "$ref"
      (str
        "https://schemas.opengis.net/ogcapi/features/part1/1.0/openapi/ogcapi-features-1.yaml#/components/responses/NotFound")
      end)

unfoldable pub secure : String → Operation → Operation
unfolding add_response
secure key operation = record operation {
  security = some (key ∷ []);
  responses = add_response "401" unauthorized operation.responses;
}

-- The operation of OPTIONS gets a response for a missing resource too.
unfoldable pub secure_options : String → Operation → Operation
unfolding secure add_response
secure_options key operation =
    let secured = secure key operation in
    record secured { responses = add_response "404" not_found secured.responses }

unfoldable pub on_some : (Operation → Operation) → Option Operation → Option Operation
on_some f none = none
on_some f (some operation) = some (f operation)

unfoldable pub secure_item : String → PathItem → PathItem
unfolding on_some secure secure_options
secure_item key item = record item {
  get_operation = on_some (secure key) item.get_operation;
  post_operation = on_some (secure key) item.post_operation;
  options_operation = on_some (secure_options key) item.options_operation;
  delete_operation = on_some (secure key) item.delete_operation;
}

-- The loop over the paths: `secured_paths` has those whose key does not contain "openapi".
unfoldable pub secured_paths : String → Dict PathItem → Dict PathItem
unfolding secure_item contains
secured_paths key [] = []
secured_paths key ((path, item) ∷ paths) =
    let rest = secured_paths key paths in
    if contains "openapi" path then rest else (path, secure_item key item) ∷ rest

-- `if secured_paths: content["paths"] = secured_paths`
unfoldable pub or_paths : Option (Dict PathItem) → Dict PathItem → Option (Dict PathItem)
or_paths paths [] = paths
or_paths paths (p ∷ secured) = some (p ∷ secured)

unfoldable pub augment_paths : String → Option (Dict PathItem) → Option (Dict PathItem)
unfolding or_paths secured_paths
augment_paths key none = none
augment_paths key (some paths) = or_paths (some paths) (secured_paths key paths)

module _ (model_dump : SecurityScheme → Value) (key : String) where
  -- The loop over the schemes, which all go under one key.
  unfoldable pub dumped_schemes : List SecurityScheme → Fields → Fields
  dumped_schemes [] dumped = dumped
  dumped_schemes (scheme ∷ schemes) dumped =
      dumped_schemes schemes (Json.put key (model_dump scheme) dumped)

  -- An empty dict of components is left as it is, and no components end in AttributeError.
  unfoldable pub augment_components : List SecurityScheme → Option Fields → Result Fields
  unfolding dumped_schemes fix_components
  augment_components schemes none = err attribute_error
  augment_components schemes (some end) = ok end
  augment_components schemes (some (field k v components)) =
      fix_components
        (Json.put "securitySchemes" (obj (dumped_schemes schemes end)) (field k v components))

  -- The document that `content` holds in the end.
  unfoldable pub augment_content : List SecurityScheme → OpenApi → Result OpenApi
  unfolding augment_components augment_paths
  augment_content schemes openapi = do
    fixed ← augment_components schemes openapi.components
    ok (record openapi { components = some fixed; paths = augment_paths key openapi.paths })

  -- `OpenAPI.model_validate_json` and `OpenAPI(**content)`
  module _ (validate_json : String → Result OpenApi) (construct : OpenApi → Result OpenApi) where
    unfoldable pub augment_security : String → List SecurityScheme → Result OpenApi
    unfolding augment_content
    augment_security doc schemes = do
      openapi ← validate_json doc
      content ← augment_content schemes openapi
      construct content
