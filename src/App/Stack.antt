-- ===== src/App/Stack.antt =====
-- The layers that `create_app` of app/main.py puts around pygeoapi, at work: what a request that
-- reaches the sub-application is answered. An application is the function of a request to the
-- messages that it sends.
pub mod Isolation
pub mod Tests
use fastgeoapi.Base.{
  ℕ, String, ◌<>◌, Bool, true, false, Option, none, some, List, [], ◌∷◌, Result, ok, err,
  if◌then◌else◌,
}
use fastgeoapi.Base.Errors.{◌>>=◌}
use fastgeoapi.Json.{Value}
use fastgeoapi.Auth.Jwks.{Jose}
use fastgeoapi.Middleware.Scope.{Scope, is_http}
use fastgeoapi.Middleware.Oauth2.{Outcome, forwarded, redirected, unauthorized, skip_patterns}
use fastgeoapi.Middleware.Protected.{JwksSettings, jwks_api}
use fastgeoapi.Middleware.Responder.{
  Message, Rendering, Responder, is_openapi_route, respond_all, fresh,
}
use fastgeoapi.Middleware.Proxy.{Response, Headers, dispatch}
use fastgeoapi.Openapi.{OpenApi, augment_security}
use fastgeoapi.App.Modes.{
  SecurityScheme, Layer, forwarded_links_middleware, opa_middleware, oauth2_middleware,
  authorizer_middleware, openapi_security_middleware,
}

abbrev pub Asgi : Type 0
Asgi = Scope → Result (List Message)

-- What the layers use of other packages: Starlette's responses and headers, the regular expressions,
-- the key server, the models of openapi_pydantic, and the two layers of other packages.
pub record Packages : Type 1 where
  pub jose : Jose
  pub re_match : String → String → Bool
  pub redirect_response : String → List Message
  pub json_response : ℕ → String → List Message
  pub response_of : List Message → Result Response
  pub messages_of : Response → List Message
  pub headers : Headers
  pub model_dump : SecurityScheme → Value
  pub validate_json : String → Result OpenApi
  pub construct : OpenApi → Result OpenApi
  pub model_dump_json : OpenApi → String
  pub opa : Asgi → Asgi
  pub authorizer : String → String → Asgi → Asgi

-- The settings that the layers read: the mount point, the base URL of pygeoapi, the name of the
-- security scheme, as a key, and those of the JWKS mode.
pub record LayerSettings : Type 0 where
  pub fastgeoapi_context : String
  pub pygeoapi_baseurl : String
  pub scheme_key : String
  pub jwks : JwksSettings

module _ (packages : Packages) (cfg : LayerSettings) where
  answer : Asgi → Scope → Outcome → Result (List Message)
  answer app scope forwarded = app scope
  answer app scope (redirected location) = ok (packages.redirect_response location)
  answer app scope unauthorized =
      ok (packages.json_response 401 "{\"message\":\"Unauthenticated\"}")

  unfoldable pub oauth2_layer : Asgi → Asgi
  unfolding answer
  oauth2_layer app scope = do
    outcome ←
        jwks_api packages.jose cfg.jwks packages.re_match
          (skip_patterns cfg.fastgeoapi_context none) scope
    answer app scope outcome

  unfoldable pub rendering : List SecurityScheme → Rendering
  rendering schemes = record {
    set_header = packages.headers.set_header;
    content_length = packages.headers.content_length;
    augment_security = λ doc.
        augment_security packages.model_dump cfg.scheme_key packages.validate_json
          packages.construct doc schemes
        >>= λ openapi. ok (packages.model_dump_json openapi);
  }

  unfoldable pub secured : List SecurityScheme → List Message → Result (List Message)
  unfolding rendering
  secured schemes messages = do
    responder ← respond_all (rendering schemes) messages fresh
    ok responder.sent

  unfoldable pub openapi_layer : List SecurityScheme → Asgi → Asgi
  unfolding secured
  openapi_layer schemes app scope =
      if is_openapi_route cfg.fastgeoapi_context scope
      then app scope >>= secured schemes
      else app scope

  proxied_messages : Scope → List Message → Result (List Message)
  proxied_messages scope messages = do
    response_ ← packages.response_of messages
    response ← dispatch packages.headers cfg.pygeoapi_baseurl scope response_
    ok (packages.messages_of response)

  -- Starlette's BaseHTTPMiddleware lets other scopes pass.
  unfoldable pub forwarded_links_layer : Asgi → Asgi
  unfolding proxied_messages
  forwarded_links_layer app scope =
      if is_http scope then app scope >>= proxied_messages scope else app scope

  unfoldable pub layer : Layer → Asgi → Asgi
  unfolding oauth2_layer openapi_layer forwarded_links_layer
  layer forwarded_links_middleware app = forwarded_links_layer app
  layer opa_middleware app = packages.opa app
  layer oauth2_middleware app = oauth2_layer app
  layer (authorizer_middleware public_path key_pattern) app =
      packages.authorizer public_path key_pattern app
  layer (openapi_security_middleware schemes) app = openapi_layer schemes app

  -- The layers around the application, the outermost first.
  unfoldable pub serve : List Layer → Asgi → Asgi
  unfolding layer
  serve [] app = app
  serve (l ∷ ls) app = layer l (serve ls app)
