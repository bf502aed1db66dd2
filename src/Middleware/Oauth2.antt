-- ===== src/Middleware/Oauth2.antt =====
-- app/middleware/oauth2.py and app/auth/oauth2.py. Regular expressions are a parameter, the
-- function of a pattern and a path that `re.compile(pattern).match(path)` is.
pub mod Gate
use fastgeoapi.Base.{
  String, ◌<>◌, Bool, true, false, ◌||◌, Option, none, some, List, [], ◌∷◌, map, Result, ok, err,
  Exception, unbound_local_error, assertion_error, oauth2_error, ◌==◌, if◌then◌else◌,
}
use fastgeoapi.Base.Errors
use fastgeoapi.Json.{Fields}
use fastgeoapi.Middleware.Scope.{ScopeType, Scope, http, websocket, lifespan}

-- What an authentication may return: a dict, a RedirectResponse, or something else.
pub data UserInfo : Type 0 where
  user_info : Fields → UserInfo
  redirect : (location : String) → UserInfo
  other : UserInfo

-- An AuthInterface: whether `authenticate` is a coroutine, and what it comes to for a request.
pub record Authentication : Type 0 where
  pub is_coroutine : Bool
  pub authenticate : Scope → Result UserInfo

-- What the variable `user_info_or_auth_redirect` holds.
pub data Variable : Type 0 where
  unbound coroutine : Variable
  holds : UserInfo → Variable

-- What becomes of a request: the inner application runs, or a response is sent in its place.
pub data Outcome : Type 0 where
  forwarded : Outcome
  redirected : (location : String) → Outcome
  unauthorized : Outcome

-- `successful` and the variable when the loop has ended
pub record Login : Type 0 where
  pub successful : Bool
  pub variable : Variable

-- What the variable holds while the result is awaited.
abbrev pending : Authentication → Variable → Variable
pending auth variable = if auth.is_coroutine then coroutine else variable

module _ (request : Scope) where
  -- The loop over the authentications. `step` has the result of the first one.
  module _ (again : Variable → Result Login) where
    step : Variable → Result UserInfo → Result Login
    step before (ok (user_info claims)) =
        ok (record { successful = true; variable = holds (user_info claims) })
    step before (ok info) = again (holds info)
    step before (err (oauth2_error message)) = again before
    step before (err e) = err e

  unfoldable pub login : List Authentication → Variable → Result Login
  unfolding step
  login [] variable = ok (record { successful = false; variable = variable })
  login (auth ∷ auths) variable =
      step (login auths) (pending auth variable) (auth.authenticate request)

-- After the loop: the redirect, the refusal or the application.
unfoldable pub conclude : Login → Result Outcome
conclude l = elim l.variable [
  | unbound ↦ err unbound_local_error
  | coroutine ↦ ok (if l.successful then forwarded else unauthorized)
  | holds info ↦ elim info [
    | redirect location ↦ ok (redirected location)
    | _ ↦ ok (if l.successful then forwarded else unauthorized)
  ]
]

unfoldable pub is_member : String → List String → Bool
is_member x [] = false
is_member x (y ∷ ys) = y == x || is_member x ys

abbrev pub default_skip : List String
default_skip = "/openapi" ∷ "/openapi.json" ∷ "/docs" ∷ "/redoc" ∷ []

-- `skip_endpoints or default_skip`
endpoints_or_default : Option (List String) → List String
endpoints_or_default none = default_skip
endpoints_or_default (some []) = default_skip
endpoints_or_default (some (e ∷ es)) = e ∷ es

-- The patterns that the constructor compiles.
unfoldable pub skip_patterns : String → Option (List String) → List String
unfolding is_member endpoints_or_default
skip_patterns context skip_endpoints =
    let endpoints = endpoints_or_default skip_endpoints in
    if is_member context endpoints then endpoints else map (λ skip. context <> skip) endpoints

module _ (re_match : String → String → Bool) where
  unfoldable pub should_skip_endpoint : String → List String → Bool
  should_skip_endpoint endpoint [] = false
  should_skip_endpoint endpoint (skip ∷ skips) =
      if re_match skip endpoint then true else should_skip_endpoint endpoint skips

  module _ (skip_endpoints : List String) (authentication : List Authentication) where
    authenticated : Scope → Result Outcome
    unfolding conclude login
    authenticated scope = Errors.◌>>=◌ (login scope authentication unbound) conclude

    -- What follows once there is a request.
    unfoldable pub for_request : Scope → Result Outcome
    unfolding authenticated should_skip_endpoint
    for_request scope =
        if scope.method == "OPTIONS"
        then ok forwarded
        else if should_skip_endpoint scope.path skip_endpoints
        then ok forwarded
        else authenticated scope

    unfoldable pub at_type : ScopeType → Result Outcome → Result Outcome
    at_type lifespan answer = ok forwarded
    at_type websocket answer = err assertion_error
    at_type http answer = answer

    -- Oauth2Middleware.__call__. Starlette's Request asserts that its scope is one of HTTP.
    unfoldable pub oauth2_middleware : Scope → Result Outcome
    unfolding at_type for_request
    oauth2_middleware scope = at_type scope.type (for_request scope)
