-- ===== src/Mcp/Bearer/Replies.antt =====
-- What the bearer layer replies, and what it depends on.
use fastgeoapi.Base.{
  String, ◌≡◌, ◌≢◌, ◌↔◌, refl, ap₂, Bool, true, false, Option, List, [], ◌∷◌, map, arith, inl, inr,
  All, Bool-cases,
}
use fastgeoapi.Middleware.Scope.{http}
use fastgeoapi.Mcp.Bearer.{
  McpScope, McpReply, auth_error, missing_token, served, has_bearer, lacks, check_scopes,
  www_authenticate, invalid_token_description, bearer_middleware,
}

check_scopes_iff :
    (required : List String) (auth : Option (List String))
    → (check_scopes required auth ≡ served) ↔ All (λ scope. lacks auth scope ≡ false) required
unfolding check_scopes
check_scopes_iff [] auth = (λ h. tt, λ h. refl)
check_scopes_iff (r ∷ required) auth = elim (Bool-cases (lacks auth r)) [
  | inl missing ↦ ground arith
  | inr held ↦ ground (arith, check_scopes_iff required auth)
]

-- The MCP application is called exactly for requests whose user is authenticated and holds each
-- required scope, whatever the layer remembers.
pub bearer_middleware_iff :
    (required : List String) (url : Option String) (provided : Bool) (scope : McpScope)
    → ((bearer_middleware required url provided scope).1 ≡ served)
      ↔ ((scope.is_authenticated ≡ true) × All (λ r. lacks scope.auth_scopes r ≡ false) required)
unfolding bearer_middleware
bearer_middleware_iff required url provided scope = elim (Bool-cases scope.is_authenticated) [
  | inl known ↦ ground (arith, check_scopes_iff required scope.auth_scopes)
  | inr unknown ↦ ground arith
]

-- The replies to a sequence of requests on one instance, which starts with `provided`.
unfoldable pub replies : List String → Option String → Bool → List McpScope → List McpReply
replies required url provided [] = []
replies required url provided (scope ∷ scopes) =
    let (provided', reply) = bearer_middleware required url provided scope in
    reply ∷ replies required url provided' scopes

-- Among HTTP requests no reply depends on an earlier request: each is what a fresh instance replies.
pub replies_stateless :
    (required : List String) (url : Option String) (provided : Bool) (scopes : List McpScope)
    → All (λ scope. scope.type ≡ http) scopes
    → replies required url provided scopes
      ≡ map (λ scope. (bearer_middleware required url false scope).1) scopes
unfolding replies bearer_middleware
replies_stateless required url provided [] h = refl
replies_stateless required url provided (scope ∷ scopes) (p, h) =
    ap₂ (λ (x : McpReply) (xs : List McpReply). x ∷ xs) (rw p)
      (replies_stateless required url (bearer_middleware required url provided scope).0 scopes h)

-- An HTTP request without an authenticated user is answered by status 401: with the error
-- `invalid_token` if it has a bearer token, and otherwise by the challenge that names no error.
pub bearer_middleware_unauthenticated :
    (required : List String) (url : Option String) (provided : Bool) (scope : McpScope)
    → scope.type ≡ http
    → scope.is_authenticated ≡ false
    → ((has_bearer scope ≡ true) ↔ (
        (bearer_middleware required url provided scope).1
        ≡ auth_error 401 "invalid_token" invalid_token_description))
      × ((has_bearer scope ≡ false) ↔ (
          (bearer_middleware required url provided scope).1
          ≡ missing_token 401 (www_authenticate url) "unauthorized"))
unfolding bearer_middleware
bearer_middleware_unauthenticated required url provided scope p u =
    elim (Bool-cases (has_bearer scope)) [
      | inl given ↦ (
        (λ h. rw (p, u, given), λ e. given),
        (λ h. absurd (ground arith), λ e. absurd (ground arith)),
      )
      | inr missing ↦ (
        (λ h. absurd (ground arith), λ e. absurd (ground arith)),
        (λ h. rw (p, u, missing), λ e. missing),
      )
    ]

-- After an HTTP request with a bearer token, a scope of another type without an authenticated user
-- is answered by `invalid_token`, whether or not it has a token of its own.
pub replies_stale :
    (required : List String) (url : Option String) (provided : Bool) (first second : McpScope)
    → first.type ≡ http
    → has_bearer first ≡ true
    → second.type ≢ http
    → second.is_authenticated ≡ false
    → (bearer_middleware required url (bearer_middleware required url provided first).0 second).1
      ≡ auth_error 401 "invalid_token" invalid_token_description
unfolding bearer_middleware
replies_stale required url provided first second p given other u = ground arith
