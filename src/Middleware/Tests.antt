-- ===== src/Middleware/Tests.antt =====
-- Requests to the OAuth2 layer, and the theorems on it at concrete inputs.
use fastgeoapi.Base.{
  eq_iff, ◌==◌, All, ◌≢◌, arith, String, ◌<>◌, ◌≡◌, ◌↔◌, eq_refl, ◌⊎◌, refl, Bool, true, false,
  none, some, List, [], ◌∷◌, ok,
}
use fastgeoapi.Json.{Fields}
use fastgeoapi.Text.{starts_with}
use fastgeoapi.Auth.Jwks.Accepts.{Authenticates}
use fastgeoapi.Auth.Tests.{rsa}
use fastgeoapi.Middleware.Scope.{Scope, http, header}
use fastgeoapi.Middleware.Oauth2.{
  forwarded, unauthorized, skip_patterns, default_skip, should_skip_endpoint, oauth2_middleware,
}
use fastgeoapi.Middleware.Oauth2.Gate.{Passes, oauth2_middleware_iff}
use fastgeoapi.Middleware.Protected.{
  JwksSettings, jwks_config, jwks_authentication, jwks_api, jwks_api_guard, is_plain,
  openapi_prefix_skips,
}
use fastgeoapi.Openapi.{contains}
use fastgeoapi.Middleware.Proxy.{Response, Headers}
use fastgeoapi.Middleware.Responder.{Message, start, body, Rendering, Responder, fresh, respond_all}
use fastgeoapi.Middleware.Responder.Streams.{respond_all-length}

abbrev settings : JwksSettings
settings = record {
  oauth2_jwks_endpoint = "http://idp/jwks";
  oauth2_expected_audience = some "api";
  oauth2_expected_issuer = some "http://idp";
}

abbrev request : Scope
request = record {
  type = http;
  path = "/api/collections";
  method = "GET";
  headers = ("authorization", "Bearer good") ∷ [];
}

abbrev re_match : String → String → Bool
re_match pattern text = starts_with text pattern

abbrev skips : List String
skips = "/api/openapi" ∷ []

is_protected : should_skip_endpoint re_match "/api/collections" skips ≡ false
unfolding should_skip_endpoint starts_with
is_protected = refl

jwks_api_guard_example :
    ((claims : Fields) × Authenticates rsa
        (jwks_config settings)
        (header "authorization" request.headers)
        claims
      × (jwks_api rsa settings re_match skips request ≡ ok forwarded))
    ⊎ (((claims : Fields)
          → ¬ Authenticates rsa
              (jwks_config settings)
              (header "authorization" request.headers)
              claims)
        × (jwks_api rsa settings re_match skips request ≡ ok unauthorized))
jwks_api_guard_example = jwks_api_guard rsa settings re_match skips request refl refl is_protected

oauth2_middleware_iff_example :
    (oauth2_middleware re_match skips (jwks_authentication rsa settings ∷ []) request
      ≡ ok forwarded)
    ↔ Passes re_match skips (jwks_authentication rsa settings ∷ []) request
oauth2_middleware_iff_example =
    oauth2_middleware_iff re_match skips (jwks_authentication rsa settings ∷ []) request

plain : is_plain ("/api" <> "/openapi") ≡ true
unfolding is_plain
plain = refl

differs : (s t : String) → (s == t) ≡ false → s ≢ t
differs s t h e = ground (arith, h, (eq_iff s t).1 e)

mount_differs : All (λ skip. skip ≢ "/api") default_skip
mount_differs = (
  differs "/openapi" "/api" refl,
  (
    differs "/openapi.json" "/api" refl,
    (differs "/docs" "/api" refl, (differs "/redoc" "/api" refl, tt)),
  ),
)

openapi_prefix_skips_example :
    should_skip_endpoint re_match (("/api" <> "/openapi") <> "-private") (skip_patterns "/api" none)
    ≡ true
openapi_prefix_skips_example =
    openapi_prefix_skips re_match "/api" "-private" (λ pattern text h. refl) plain mount_differs

abbrev root_request : Scope
root_request = record {
  type = http;
  path = "/mcp";
  method = "POST";
  headers = ("x-forwarded-proto", "https") ∷ ("x-forwarded-host", "geo.example") ∷ [];
}

abbrev set_header : String → String → List (String × String) → List (String × String)
set_header name value headers = (name, value) ∷ headers

set_header_first :
    (name value : String) (headers : List (String × String))
    → header name (set_header name value headers) ≡ some value
unfolding header
set_header_first name value headers = rw (eq_refl name) refl

abbrev starlette : Headers
starlette = record {
  init_headers = λ text headers. headers;
  set_header = set_header;
  content_length = λ text. "length of " <> text;
}

abbrev page : Response
page = record {
  status_code = 200;
  headers = ("content-type", "text/html") ∷ [];
  body = "see http://localhost:5000/geoapi";
}

abbrev rendering : Rendering
rendering = record {
  set_header = set_header;
  content_length = λ text. "length of " <> text;
  augment_security = λ text. ok ("secured " <> text);
}

is_json : contains "<!-- HTML" "{}" ≡ false
unfolding contains
is_json = refl

respond_all-length_example :
    (after : Responder) × (sent_headers : List (String × String)) × (respond_all rendering
        (start 200 [] none ∷ body "{}" false ∷ [])
        fresh
      ≡ ok after)
    × (after.sent ≡ start 200 sent_headers (some "secured {}") ∷ body "secured {}" false ∷ [])
    × (header "content-length" sent_headers ≡ some (rendering.content_length "secured {}"))
respond_all-length_example =
    respond_all-length rendering 200 [] "{}" "secured {}" set_header_first is_json refl

abbrev chunked : List Message
chunked = body "<!-- HTML" true ∷ body "<!-- HTML" false ∷ []

abbrev page_start : Message
page_start = start 200 [] none

abbrev started_twice : Responder
started_twice = record {
  initial_message = page_start;
  sent = page_start ∷ body "<!-- HTML" true ∷ page_start ∷ body "<!-- HTML" false ∷ [];
}

two_bodies : respond_all rendering (page_start ∷ chunked) fresh ≡ ok started_twice
unfolding respond_all contains
two_bodies = refl
