-- ===== src/Openapi/Tests.antt =====
-- A small document, and the theorems on it.
use fastgeoapi.Base.{◌≡◌, refl, true, false, none, some, List, [], ◌∷◌, ok}
use fastgeoapi.Base.Dict
use fastgeoapi.Base.Dict.{Dict}
use fastgeoapi.Json
use fastgeoapi.Json.{Value, null, str, obj, Fields, field, end}
use fastgeoapi.App.Modes.{SecurityScheme, oauth2, http_bearer, scheme_type}
use fastgeoapi.Openapi.{
  Operation, PathItem, OpenApi, contains, real_schema, secure_item, augment_content, fix_schemas,
  fix_queryables_response_schema,
}
use fastgeoapi.Openapi.Lookups.{IsSecured, augment_content-IsSecured}

abbrev operation : Operation
operation = record { security = none; responses = some (("200", null) ∷ []); rest = null }

abbrev item : PathItem
item = record {
  get_operation = some operation;
  post_operation = none;
  options_operation = some operation;
  delete_operation = none;
  other_operations = ("put", operation) ∷ [];
  rest = null;
}

abbrev paths : Dict PathItem
paths = ("/openapi", item) ∷ ("/collections", item) ∷ []

abbrev components : Fields
components = field "schemas" (obj (field "queryables" null end)) end

abbrev openapi : OpenApi
openapi = record { components = some components; paths = some paths; rest = null }

abbrev model_dump : SecurityScheme → Value
model_dump scheme = obj (field "type" (str (scheme_type scheme)) end)

abbrev schemes : List SecurityScheme
schemes = oauth2 none ∷ http_bearer ∷ []

abbrev content : OpenApi
content = record {
  components = some (
      field "schemas" (obj (field "queryables" real_schema end))
        (field "securitySchemes" (obj (field "pygeoapi key" (model_dump http_bearer) end)) end));
  paths = some (("/collections", secure_item "pygeoapi key" item) ∷ []);
  rest = null;
}

augmented : augment_content model_dump "pygeoapi key" schemes openapi ≡ ok content
unfolding augment_content Json.get Json.put Dict.put contains
augmented = refl

found : Dict.get "/collections" paths ≡ some item
unfolding Dict.get
found = refl

plain : contains "openapi" "/collections" ≡ false
unfolding contains
plain = refl

hidden : contains "openapi" "/openapi" ≡ true
unfolding contains
hidden = refl

augment_content-IsSecured_example :
    (secured : Dict PathItem) × (after : PathItem) × (content.paths ≡ some secured)
    × (Dict.get "/collections" secured ≡ some after)
    × IsSecured "pygeoapi key" item after
augment_content-IsSecured_example =
    augment_content-IsSecured model_dump "pygeoapi key" schemes openapi content paths "/collections"
      item augmented refl found plain

abbrev document : Fields
document = field "components" (obj components) end

abbrev corrected : Fields
corrected =
    field "components" (obj (field "schemas" (obj (field "queryables" real_schema end)) end)) end

correction : fix_queryables_response_schema document ≡ ok corrected
unfolding fix_queryables_response_schema fix_schemas Json.get Json.put
correction = refl
