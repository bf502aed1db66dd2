-- ===== src/Pygeoapi.antt =====
-- What app/pygeoapi patches and adapts: `validate_datetime` in app/pygeoapi/api/__init__.py, the
-- responses in app/pygeoapi/starlette_app.py, and app/pygeoapi/api/processes.py.
pub mod Patches
mod Tests
use fastgeoapi.Base.{
  ℕ, String, Bool, true, false, Option, none, some, List, [], ◌∷◌, Result, ok, err, attribute_error,
  Exception, overflow_error, value_error, key_error, type_error, ◌==◌, if◌then◌else◌,
}
use fastgeoapi.Base.Dict
use fastgeoapi.Base.Dict.{Dict}
use fastgeoapi.Base.Errors.{◌>>=◌}
use fastgeoapi.Json.{Value, str, obj}

-- What the name `validate_datetime` is bound to in a module: pygeoapi's function, the wrapper, or
-- another one.
pub data Binding : Type 0 where
  upstream wrapper : Binding
  foreign : String → Binding

-- except OverflowError
unfoldable pub in_range : Exception → Exception
in_range overflow_error = value_error
in_range e = e

unfoldable pub overflow_safe {ℓ} : {A : Type ℓ} → Result A → Result A
unfolding in_range
overflow_safe (ok a) = ok a
overflow_safe (err e) = err (in_range e)

-- The wrapper, of the function that was bound when it was made.
unfoldable pub validate_datetime {ℓ} :
    {A : Type ℓ} → (Value → Option String → Result A) → Value → Option String → Result A
unfolding overflow_safe
validate_datetime upstream_validate resource_def datetime_ =
    overflow_safe (upstream_validate resource_def datetime_)

-- The modules of pygeoapi that have the name.
abbrev pub patched_modules : List String
patched_modules =
    "pygeoapi.api" ∷ "pygeoapi.api.itemtypes" ∷ "pygeoapi.api.maps"
    ∷ "pygeoapi.api.environmental_data_retrieval" ∷ []

-- One turn of the loop, with what the module has for the name: the test reads it.
rebind : String → Dict Binding → Option Binding → Result (Dict Binding)
rebind module_name bindings none = err attribute_error
rebind module_name bindings (some wrapper) = ok bindings
rebind module_name bindings (some bound) = ok (Dict.put module_name wrapper bindings)

-- the loop over the modules
unfoldable pub rebind_all : List String → Dict Binding → Result (Dict Binding)
unfolding rebind
rebind_all [] bindings = ok bindings
rebind_all (module_name ∷ modules) bindings = do
  rebound ← rebind module_name bindings (Dict.get module_name bindings)
  rebind_all modules rebound

unfoldable pub patch_validate_datetime_overflow : Dict Binding → Result (Dict Binding)
unfolding rebind_all
patch_validate_datetime_overflow bindings = rebind_all patched_modules bindings

-- The classes of response that `get_response` chooses between.
pub data ResponseClass : Type 0 where
  html_response json_response plain_response : ResponseClass

pub record ApiResponse : Type 0 where
  pub response_class : ResponseClass
  pub status : ℕ
  pub content : Value
  pub headers : Dict String

-- response.headers.update(headers)
unfoldable pub update : Dict String → Dict String → Dict String
update [] headers = headers
update ((k, v) ∷ new) headers = update new (Dict.put k v headers)

unfoldable pub class_of : String → Value → ResponseClass
class_of content_type content =
    if content_type == "text/html"
    then html_response
    else elim content [ obj fs ↦ json_response | _ ↦ plain_response ]

content_type : Option String → Result String
content_type none = err key_error
content_type (some type) = ok type

-- The headers that Starlette gives a response by itself, by its class and its content.
module _ (own_headers : ResponseClass → Value → Dict String) where
  -- The result of the call is a triple of headers, status and content; without headers the first
  -- test raises TypeError, so that the later test for them is always passed.
  unfoldable pub to_response : Option (Dict String) × ℕ × Value → Result ApiResponse
  unfolding class_of content_type update
  to_response (none, status, content) = err type_error
  to_response (some headers, status, content) = do
    type ← content_type (Dict.get "Content-Type" headers)
    let chosen = class_of type content
    ok (record {
      response_class = chosen;
      status = status;
      content = content;
      headers = update headers (own_headers chosen content);
    })

  -- The call runs in another thread; what it raises is raised here.
  unfoldable pub get_response : Result (Option (Dict String) × ℕ × Value) → Result ApiResponse
  unfolding to_response
  get_response result = result >>= to_response

  -- app/pygeoapi/api/processes.py
  patch_response : ApiResponse → ApiResponse
  patch_response response = response

  -- the path parameter, where there is one
  job_of : Option String → Option String → Option String
  job_of none job_id = job_id
  job_of (some parameter) job_id = some parameter

  -- `api_request` is what APIRequest.from_starlette comes to, and `get_job_result` pygeoapi's.
  unfoldable pub patched_get_job_result :
      {Request : Type 0}
      → (Request → Option String → Result (Option (Dict String) × ℕ × Value))
      → Option String
      → Option String
      → Result Request
      → Result ApiResponse
  unfolding get_response patch_response job_of
  patched_get_job_result get_job_result parameter job_id api_request = do
    request ← api_request
    response ← get_response (get_job_result request (job_of parameter job_id))
    ok (patch_response response)
