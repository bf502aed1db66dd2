-- ===== src/Mcp/Tests.antt =====
-- Requests to the bearer layer and settings of the provider: the theorems at concrete inputs.
use fastgeoapi.Base.{◌≡◌, ◌≢◌, ◌↔◌, refl, true, false, none, some, [], ◌∷◌, All}
use fastgeoapi.Text.{lower_starts_with}
use fastgeoapi.Middleware.Scope.{http, websocket}
use fastgeoapi.Mcp.Bearer.{McpScope, served, has_bearer, lacks, bearer_middleware}
use fastgeoapi.Mcp.Bearer.Replies.{bearer_middleware_iff}
use fastgeoapi.Mcp.Audience.{Authenticator}

abbrev with_token : McpScope
with_token = record {
  type = http;
  headers = ("authorization", "BEARER t") ∷ [];
  is_authenticated = false;
  auth_scopes = none;
}

abbrev without_token : McpScope
without_token = record { type = http; headers = []; is_authenticated = false; auth_scopes = none }

abbrev socket : McpScope
socket = record { type = websocket; headers = []; is_authenticated = false; auth_scopes = none }

abbrev logged_in : McpScope
logged_in = record {
  type = http;
  headers = ("authorization", "Bearer t") ∷ [];
  is_authenticated = true;
  auth_scopes = some ("openid" ∷ []);
}

bearer_middleware_iff_example :
    ((bearer_middleware ("openid" ∷ []) none true logged_in).1 ≡ served) ↔ (
      (logged_in.is_authenticated ≡ true)
      × All (λ r. lacks logged_in.auth_scopes r ≡ false) ("openid" ∷ []))
bearer_middleware_iff_example = bearer_middleware_iff ("openid" ∷ []) none true logged_in

bears : has_bearer with_token ≡ true
unfolding has_bearer lower_starts_with
bears = refl

no_http : websocket ≢ http
no_http h = cc

abbrev fresh : Authenticator
fresh = record { patched = false; init = λ url. url }
