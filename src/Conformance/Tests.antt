-- ===== src/Conformance/Tests.antt =====
-- A small set of modules and two resources.
use fastgeoapi.Base.{String, ◌≡◌, ◌↔◌, inl, inr, refl, false, none, some, List, [], ◌∷◌, ok}
use fastgeoapi.Base.Dict
use fastgeoapi.Base.Dict.{Dict}
use fastgeoapi.Json
use fastgeoapi.Json.{Value, str, obj, arr, Fields, field, end, cons, nil}
use fastgeoapi.Text.Order.{less}
use fastgeoapi.Conformance.{ApiModule, Pygeoapi, build_conformance_list}
use fastgeoapi.Pygeoapi.{ResponseClass}
use fastgeoapi.Conformance.Page.{PageTools, Api, ApiRequest}
use fastgeoapi.Conformance.Resources.{IsResource}
use fastgeoapi.Conformance.Classes.{build_conformance_list-same}

abbrev itemtypes : ApiModule
itemtypes = record {
  conformance_classes = none;
  conformance_classes_features = some ("features/core" ∷ "common/core" ∷ []);
  conformance_classes_records = some ("records/core" ∷ []);
}

abbrev process : ApiModule
process = record {
  conformance_classes = some ("processes/core" ∷ []);
  conformance_classes_features = none;
  conformance_classes_records = none;
}

abbrev pygeoapi : Pygeoapi
pygeoapi = record {
  conformance_classes = "common/core" ∷ [];
  all_apis = ("itemtypes", itemtypes) ∷ ("process", process) ∷ [];
}

abbrev typed : String → Value
typed type = obj (field "type" (str type) end)

abbrev lakes : Value
lakes =
    obj (field "type" (str "collection") (field "providers" (arr (cons (typed "feature") nil)) end))

abbrev resources : Fields
resources = field "lakes" lakes (field "hello" (typed "process") end)

abbrev swapped : Fields
swapped = field "hello" (typed "process") (field "lakes" lakes end)

abbrev advertised : List String
advertised = "common/core" ∷ "features/core" ∷ "processes/core" ∷ []

built : build_conformance_list pygeoapi resources false ≡ ok advertised
unfolding build_conformance_list Dict.get Json.get less
built = refl

built_swapped : build_conformance_list pygeoapi swapped false ≡ ok advertised
unfolding build_conformance_list Dict.get Json.get less
built_swapped = refl

same_resources :
    (name : String) (config : Value)
    → IsResource name config resources ↔ IsResource name config swapped
same_resources name config = (
  λ h. elim h [
    | inl lake ↦ inr (inl lake)
    | inr rest ↦ elim rest [ inl hello ↦ inl hello | inr rest ↦ inr (inr rest) ]
  ],
  λ h. elim h [
    | inl hello ↦ inr (inl hello)
    | inr rest ↦ elim rest [ inl lake ↦ inl lake | inr rest ↦ inr (inr rest) ]
  ],
)

build_conformance_list-same_example : advertised ≡ advertised
build_conformance_list-same_example =
    build_conformance_list-same pygeoapi resources swapped false advertised advertised
      same_resources built built_swapped

abbrev headers : Dict String
headers = ("Content-Type", "text/html") ∷ ("Content-Language", "en") ∷ []

abbrev own_headers : ResponseClass → Value → Dict String
own_headers chosen content = ("Content-Language", "it") ∷ []

abbrev tools : PageTools
tools = record {
  f_html = "html";
  render_j2_template = λ page locale. ok "<html/>";
  to_json = λ page. "{}";
}

abbrev api : Api
api = record { resources = some resources; has_pubsub = false }

abbrev request : ApiRequest
request = record { response_headers = headers; format = some "html"; locale = "en" }
