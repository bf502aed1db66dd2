-- ===== src/Middleware/Protected.antt =====
-- The API in JWKS mode: app/config/auth.py puts one JWKSAuthentication behind Oauth2Middleware.
use Prim.Native.Char.{code}
use Prim.Native.String as NativeString
use fastgeoapi.Base.{
  ◌≢◌, All, Bool-cases, eq_iff, ℕ, map, String, ◌<>◌, ◌≡◌, ◌∙◌, refl, Bool, true, false, ◌&&◌, ◌||◌,
  Option, none, List, [], ◌∷◌, ◌⊎◌, inl, inr, Result, ok, err, oauth2_error, Result-cases, leb,
  nat_eq, ◌==◌,
}
use fastgeoapi.Base.Errors
use fastgeoapi.Json.{Fields}
use fastgeoapi.Text.{starts_with}
use fastgeoapi.Text.Laws.{starts_with-append}
use fastgeoapi.Auth.Jwks.{JwksConfig, Jose, authenticate}
use fastgeoapi.Auth.Jwks.Accepts.{Authenticates, authenticate_iff, authenticate_error}
use fastgeoapi.Middleware.Scope.{Scope, http, header}
use fastgeoapi.Middleware.Oauth2.{
  user_info, Authentication, Outcome, forwarded, unauthorized, is_member, skip_patterns,
  default_skip, should_skip_endpoint, for_request, oauth2_middleware, login, conclude,
}
use fastgeoapi.Middleware.Oauth2.Gate.{
  LogsIn, now, oauth2_middleware-request, oauth2_middleware_iff,
}

-- The settings of app/config/app.py that the JWKS branch of app/config/auth.py reads.
pub record JwksSettings : Type 0 where
  pub oauth2_jwks_endpoint : String
  pub oauth2_expected_audience : Option String
  pub oauth2_expected_issuer : Option String

unfoldable pub jwks_config : JwksSettings → JwksConfig
jwks_config cfg = record {
  jwks_uri = cfg.oauth2_jwks_endpoint;
  expected_audience = cfg.oauth2_expected_audience;
  expected_issuer = cfg.oauth2_expected_issuer;
}

module _ (jose : Jose) (cfg : JwksSettings) where
  unfoldable pub jwks_authentication : Authentication
  unfolding jwks_config
  jwks_authentication = record {
    is_coroutine = true;
    authenticate = λ request.
        Errors.◌>>=◌ (authenticate jose (jwks_config cfg) (header "authorization" request.headers))
          (λ claims. ok (user_info claims));
  }

  -- Oauth2Middleware(app, config=Oauth2Provider(authentication=jwks_auth))
  unfoldable pub jwks_api : (String → String → Bool) → List String → Scope → Result Outcome
  unfolding oauth2_middleware jwks_authentication
  jwks_api re_match skips = oauth2_middleware re_match skips (jwks_authentication ∷ [])

  jwks_login :
      (scope : Scope) (claims : Fields)
      → authenticate jose (jwks_config cfg) (header "authorization" scope.headers) ≡ ok claims
      → LogsIn scope (jwks_authentication ∷ [])
  unfolding jwks_authentication
  jwks_login scope claims h = now claims (rw h)

  module _ (re_match : String → String → Bool) (skips : List String) (scope : Scope) where
    refused :
        (message : String)
        → scope.type ≡ http
        → (scope.method == "OPTIONS") ≡ false
        → should_skip_endpoint re_match scope.path skips ≡ false
        → authenticate jose (jwks_config cfg) (header "authorization" scope.headers)
          ≡ err (oauth2_error message)
        → jwks_api re_match skips scope ≡ ok unauthorized
    unfolding jwks_api for_request login conclude
    refused message request method skip h =
        oauth2_middleware-request re_match skips (jwks_authentication ∷ []) scope request
        ∙ rw (method, skip, h) refl

    pub admitted :
        (claims : Fields)
        → scope.type ≡ http
        → authenticate jose (jwks_config cfg) (header "authorization" scope.headers) ≡ ok claims
        → jwks_api re_match skips scope ≡ ok forwarded
    unfolding jwks_api
    admitted claims request h =
        (oauth2_middleware_iff re_match skips (jwks_authentication ∷ []) scope).1
          (inr (request, inr (inr (jwks_login scope claims h))))

-- In JWKS mode an HTTP request that is no OPTIONS request and whose path no skip pattern matches either
-- carries a token that is accepted, and then the API is called, or it carries none, and then 401 is
-- sent; no exception leaves the layer.
pub jwks_api_guard :
    (jose : Jose) (cfg : JwksSettings) (re_match : String → String → Bool) (skips : List String)
    (scope : Scope)
    → scope.type ≡ http
    → (scope.method == "OPTIONS") ≡ false
    → should_skip_endpoint re_match scope.path skips ≡ false
    → ((claims : Fields) × Authenticates jose
          (jwks_config cfg)
          (header "authorization" scope.headers)
          claims
        × (jwks_api jose cfg re_match skips scope ≡ ok forwarded))
      ⊎ (((claims : Fields)
            → ¬ Authenticates jose (jwks_config cfg) (header "authorization" scope.headers) claims)
          × (jwks_api jose cfg re_match skips scope ≡ ok unauthorized))
jwks_api_guard jose cfg re_match skips scope request method skip =
    let bearer = header "authorization" scope.headers in
    elim (Result-cases (authenticate jose (jwks_config cfg) bearer)) [
      | inl (claims, e) ↦ inl (
        claims,
        (authenticate_iff jose (jwks_config cfg) bearer claims).0 e,
        admitted jose cfg re_match skips scope claims request e,
      )
      | inr (x, e) ↦
          let (message, same) = authenticate_error jose (jwks_config cfg) bearer x e in
          inr (
            λ claims a. cc ((authenticate_iff jose (jwks_config cfg) bearer claims).1 a),
            refused jose cfg re_match skips scope message request method skip (rw same at e),
          )
    ]

-- A character that stands for itself in a regular expression.
is_plain_char : ℕ → Bool
is_plain_char c =
    leb b'a' c && leb c b'z'
    || leb b'A' c && leb c b'Z'
    || leb b'0' c && leb c b'9'
    || nat_eq c b'/'

-- A text of letters, digits and slashes: as a pattern it matches just the texts that begin with it.
unfoldable pub is_plain : String → Bool
unfolding is_plain_char
is_plain NativeString.[] = true
is_plain (NativeString.◌∷◌ c s) = is_plain_char (code c) && is_plain s

differs_false : (s t : String) → s ≢ t → (s == t) ≡ false
differs_false s t h = elim (Bool-cases (s == t)) [
  | inl same ↦ absurd (h ((eq_iff s t).0 same))
  | inr other ↦ other
]

default_patterns :
    (context : String)
    → All (λ skip. skip ≢ context) default_skip
    → skip_patterns context none ≡ map (λ skip. context <> skip) default_skip
unfolding skip_patterns is_member
default_patterns context (openapi, (json, (docs, (redoc, done)))) =
    rw
      (
        differs_false "/openapi" context openapi,
        differs_false "/openapi.json" context json,
        differs_false "/docs" context docs,
        differs_false "/redoc" context redoc,
      )
      refl

-- With the default patterns, where the mount point is plain and is not itself one of them, every
-- path that begins with the mount point and `/openapi` passes without authentication, whatever
-- follows: a pattern is matched at the beginning of the path only. The hypothesis on `re_match` is
-- what `re.match` does with a pattern of plain characters.
pub openapi_prefix_skips :
    (re_match : String → String → Bool) (context rest : String)
    → ((pattern text : String)
        → is_plain pattern ≡ true
        → re_match pattern text ≡ starts_with text pattern)
    → is_plain (context <> "/openapi") ≡ true
    → All (λ skip. skip ≢ context) default_skip
    → should_skip_endpoint re_match ((context <> "/openapi") <> rest) (skip_patterns context none)
      ≡ true
unfolding should_skip_endpoint
openapi_prefix_skips re_match context rest literal plain other = rw (
  default_patterns context other,
  literal (context <> "/openapi") ((context <> "/openapi") <> rest) plain,
  starts_with-append (context <> "/openapi") rest,
)
