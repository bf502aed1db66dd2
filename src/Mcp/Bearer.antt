-- ===== src/Mcp/Bearer.antt =====
-- RFC6750CompliantAuthMiddleware of app/auth/mcp_auth_provider.py. The instance is shared by all
-- requests, so its field `_token_was_provided` is a state that is handed on from call to call.
pub mod Replies
use fastgeoapi.Base.{
  ℕ, String, ◌<>◌, ◌≡◌, ◌↔◌, refl, Bool, true, false, not, ◌&&◌, ◌||◌, Option, none, some, List, [],
  ◌∷◌, arith, inl, inr, eq_iff, All, Bool-cases, ◌==◌, if◌then◌else◌,
}
use fastgeoapi.Text.{lower_starts_with}
use fastgeoapi.Middleware.Scope.{ScopeType, http, websocket, lifespan}

-- What the layer reads of a scope: `user` is an AuthenticatedUser or not, and `auth` has scopes.
pub record McpScope : Type 0 where
  pub type : ScopeType
  pub headers : List (String × String)
  pub is_authenticated : Bool
  pub auth_scopes : Option (List String)

-- The SDK's error response, the answer to a missing token, or the inner application.
pub data McpReply : Type 0 where
  auth_error : (status : ℕ) (error description : String) → McpReply
  missing_token : (status : ℕ) (www_authenticate error : String) → McpReply
  served : McpReply

-- dict(scope["headers"]).get(name, default): the last header of that name
unfoldable pub last_header : String → String → List (String × String) → String
last_header name default [] = default
last_header name default ((k, v) ∷ headers) =
    last_header name (if k == name then v else default) headers

unfoldable pub has_bearer : McpScope → Bool
unfolding last_header lower_starts_with
has_bearer scope = lower_starts_with (last_header "authorization" "" scope.headers) "bearer "

is_member : String → List String → Bool
is_member x [] = false
is_member x (y ∷ ys) = y == x || is_member x ys

-- auth_credentials is None or required_scope not in auth_credentials.scopes
unfoldable pub lacks : Option (List String) → String → Bool
unfolding is_member
lacks none required_scope = true
lacks (some scopes) required_scope = not (is_member required_scope scopes)

-- The loop over the required scopes.
unfoldable pub check_scopes : List String → Option (List String) → McpReply
unfolding lacks
check_scopes [] auth = served
check_scopes (required_scope ∷ more) auth =
    if lacks auth required_scope
    then auth_error 403 "insufficient_scope" ("Required scope: " <> required_scope)
    else check_scopes more auth

-- The header of the answer to a missing token, which names no error.
unfoldable pub www_authenticate : Option String → String
www_authenticate none = "Bearer realm=\"mcp\""
www_authenticate (some url) = "Bearer realm=\"mcp\", resource_metadata=\"" <> (url <> "\"")

unfoldable pub send_missing_token_error : Option String → McpReply
unfolding www_authenticate
send_missing_token_error resource_metadata_url =
    missing_token 401 (www_authenticate resource_metadata_url) "unauthorized"

abbrev pub invalid_token_description : String
invalid_token_description = "The provided bearer token is invalid, expired, or revoked."

abbrev is_http : ScopeType → Bool
is_http http = true
is_http _ = false

module _ (required_scopes : List String) (resource_metadata_url : Option String) where
  -- the answer, once it is known whether a token was provided
  unfoldable pub respond : Bool → McpScope → McpReply
  unfolding check_scopes send_missing_token_error
  respond token_was_provided scope =
      if scope.is_authenticated
      then check_scopes required_scopes scope.auth_scopes
      else if token_was_provided
      then auth_error 401 "invalid_token" invalid_token_description
      else send_missing_token_error resource_metadata_url

  -- __call__: the new value of `_token_was_provided`, and the reply
  unfoldable pub bearer_middleware : Bool → McpScope → Bool × McpReply
  unfolding respond has_bearer
  bearer_middleware token_was_provided scope =
      let provided = if is_http scope.type then has_bearer scope else token_was_provided in
      (provided, respond provided scope)
