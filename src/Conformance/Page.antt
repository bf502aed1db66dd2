-- ===== src/Conformance/Page.antt =====
-- The page of the conformance classes: `conformance` in app/pygeoapi/api/conformance.py and the
-- handler `patched_conformance` in app/pygeoapi/starlette_app.py.
use fastgeoapi.Base.{
  ℕ, String, Bool, false, Option, none, some, List, [], ◌∷◌, Result, ok, err, key_error, ◌==◌,
  if◌then◌else◌,
}
use fastgeoapi.Base.Dict.{Dict}
use fastgeoapi.Base.Errors.{◌>>=◌}
use fastgeoapi.Json.{Value, str, obj, arr, Fields, field, end, Items, cons, nil}
use fastgeoapi.Pygeoapi.{ResponseClass, ApiResponse, get_response}
use fastgeoapi.Conformance.{Pygeoapi, build_conformance_list}

-- What the code uses of pygeoapi for a page: the name of the HTML format, the rendering of the
-- template for a document and a locale, and the writer of JSON.
pub record PageTools : Type 0 where
  pub f_html : String
  pub render_j2_template : Value → String → Result String
  pub to_json : Value → String

-- What it reads of the API: `config["resources"]`, and whether there is a client for PubSub.
pub record Api : Type 0 where
  pub resources : Option Fields
  pub has_pubsub : Bool

-- What it reads of a request: the headers of the response to it, its format and its locale.
pub record ApiRequest : Type 0 where
  pub response_headers : Dict String
  pub format : Option String
  pub locale : String

items_of : List String → Items
items_of [] = nil
items_of (c ∷ cs) = cons (str c) (items_of cs)

-- ConformanceResponse.to_dict
unfoldable pub to_dict : List String → Value
unfolding items_of
to_dict conforms_to = obj (field "conformsTo" (arr (items_of conforms_to)) end)

configured_resources : Option Fields → Result Fields
configured_resources none = err key_error
configured_resources (some resources) = ok resources

is_format : Option String → String → Bool
is_format none name = false
is_format (some format) name = format == name

unfoldable pub page_content : PageTools → ApiRequest → Value → Result String
unfolding is_format
page_content tools request page =
    if is_format request.format tools.f_html
    then tools.render_j2_template page request.locale
    else ok (tools.to_json page)

module _ (pygeoapi : Pygeoapi) (tools : PageTools) where
  -- The headers, the status and the content.
  unfoldable pub conformance : Api → ApiRequest → Result (Option (Dict String) × ℕ × Value)
  unfolding configured_resources page_content
  conformance api request = do
    resources ← configured_resources api.resources
    response ← build_conformance_list pygeoapi resources api.has_pubsub
    content ← page_content tools request (to_dict response)
    ok (some request.response_headers, 200, str content)

  -- `api_request` is what APIRequest.from_starlette comes to.
  unfoldable pub patched_conformance :
      (ResponseClass → Value → Dict String) → Api → Result ApiRequest → Result ApiResponse
  unfolding conformance
  patched_conformance own_headers api api_request = do
    request ← api_request
    get_response own_headers (conformance api request)
