-- ===== src/App/Stack/Tests.antt =====
-- Two requests to an application in the JWKS mode.
use fastgeoapi.Base.{
  ◌≡◌, refl, true, false, none, some, [], ◌∷◌, ok, err, decode_error, if◌then◌else◌,
}
use fastgeoapi.Json
use fastgeoapi.Json.{null, Fields}
use fastgeoapi.Text.{starts_with, replace}
use fastgeoapi.Auth.Jwks.{authenticate, distinct_algs}
use fastgeoapi.Auth.Jwks.Accepts.{Authenticates, authenticate_iff}
use fastgeoapi.Auth.Tests.{rsa, filled}
use fastgeoapi.Middleware.Scope.{Scope, http, header}
use fastgeoapi.Middleware.Oauth2.{skip_patterns, should_skip_endpoint}
use fastgeoapi.Middleware.Protected.{jwks_config}
use fastgeoapi.Middleware.Responder.{start, body, is_openapi_route}
use fastgeoapi.App.Config.{Config, is_set}
use fastgeoapi.Base.Errors.{◌>>=◌}
use fastgeoapi.App.Modes.{oauth2, http_bearer, create_app}
use fastgeoapi.App.Modes.Exclusive.{described}
use fastgeoapi.App.Stack.{Asgi, Packages, LayerSettings, secured, serve}
use fastgeoapi.App.Stack.Isolation.{IsAnonymous, IsGuarded, refusal, serve_isolated, serve_admitted}

abbrev cfg : Config
cfg = record {
  host = "localhost";
  port = "5000";
  app_uri = none;
  fastgeoapi_context = "/api";
  fastgeoapi_reverse_proxy = false;
  opa_enabled = false;
  jwks_enabled = true;
  api_key_enabled = false;
  pygeoapi_key_global = none;
  oidc_well_known_endpoint = none;
  oidc_client_id = "";
  oidc_client_secret = "";
  oauth2_token_endpoint = some "http://idp/token";
  mcp_allow_unauthenticated = false;
  mcp_consent_mode = none;
  mcp_access_token_expiry_seconds = none;
}

abbrev pub settings : LayerSettings
settings = record {
  fastgeoapi_context = "/api";
  pygeoapi_baseurl = "http://localhost:5000";
  scheme_key = "pygeoapi Authorization";
  jwks = record {
    oauth2_jwks_endpoint = "http://idp/jwks";
    oauth2_expected_audience = some "api";
    oauth2_expected_issuer = some "http://idp";
  };
}

abbrev pub packages : Packages
packages = record {
  jose = rsa;
  re_match = λ pattern text. starts_with text pattern;
  redirect_response = λ location. start 307 (("location", location) ∷ []) none ∷ body "" false ∷ [];
  json_response = λ status text. start status [] none ∷ body text false ∷ [];
  response_of = λ messages. err decode_error;
  messages_of = λ response. [];
  headers = record {
    init_headers = λ text headers. headers;
    set_header = λ name value headers. (name, value) ∷ headers;
    content_length = λ text. text;
  };
  model_dump = λ scheme. null;
  validate_json = λ text. err decode_error;
  construct = λ openapi. ok openapi;
  model_dump_json = λ openapi. "";
  opa = λ app. app;
  authorizer = λ public_path key_pattern app. app;
}

abbrev pub anonymous : Scope
anonymous = record { type = http; path = "/api/collections"; method = "GET"; headers = [] }

abbrev bearer : Scope
bearer = record anonymous { headers = ("authorization", "Bearer good") ∷ [] }

abbrev pub page : Asgi
page scope = ok (start 200 [] none ∷ body "collections" false ∷ [])

abbrev pub broken : Asgi
broken scope = err decode_error

built : create_app cfg ≡ ok (described cfg)
unfolding create_app is_set
built = refl

guarded : IsGuarded packages settings anonymous
unfolding should_skip_endpoint skip_patterns starts_with
guarded = record { alive = λ h. cc; method = refl; protected = refl }

refused : (claims : Fields) → authenticate rsa (jwks_config settings.jwks) none ≡ ok claims → ⊥
unfolding authenticate
refused claims h = cc

no_header : header "authorization" [] ≡ none
unfolding header
no_header = refl

no_token : IsAnonymous packages settings anonymous
no_token claims a = refused claims (
    rw no_header at
      ((authenticate_iff rsa (jwks_config settings.jwks) (header "authorization" []) claims).1 a))

not_openapi : is_openapi_route "/api" anonymous ≡ false
unfolding is_openapi_route
not_openapi = refl

serve_isolated_example :
    (serve packages settings (described cfg).layers page anonymous
      ≡ serve packages settings (described cfg).layers broken anonymous)
    × (is_openapi_route "/api" anonymous ≡ false
        → serve packages settings (described cfg).layers page anonymous
          ≡ refusal packages anonymous.type)
serve_isolated_example =
    serve_isolated packages settings cfg (described cfg) anonymous page broken built refl guarded
      no_token

accepted_header :
    authenticate rsa (jwks_config settings.jwks) (header "authorization" bearer.headers) ≡ ok filled
unfolding authenticate distinct_algs header Json.get Json.put Json.is_truthy replace jwks_config
accepted_header = refl

accepted :
    Authenticates rsa (jwks_config settings.jwks) (header "authorization" bearer.headers) filled
accepted =
    (authenticate_iff rsa (jwks_config settings.jwks) (header "authorization" bearer.headers)
        filled).0
      accepted_header

serve_admitted_example : serve packages settings (described cfg).layers page bearer ≡ (
    if is_openapi_route settings.fastgeoapi_context bearer
    then page bearer
      >>= secured packages settings (oauth2 cfg.oauth2_token_endpoint ∷ http_bearer ∷ [])
    else page bearer)
serve_admitted_example =
    serve_admitted packages settings cfg (described cfg) bearer page filled built refl refl accepted
