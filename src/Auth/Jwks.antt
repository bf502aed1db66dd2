-- ===== src/Auth/Jwks.antt =====
-- app/auth/auth_jwks.py. The key server and authlib are a parameter; a chain of checks that may
-- raise is a chain of results, and the `except` clauses are `translate`.
pub mod Algs
pub mod Accepts
use fastgeoapi.Base.{
  ℕ, String, ◌<>◌, Bool, true, false, not, ◌||◌, Option, none, some, List, [], ◌∷◌, Result, ok, err,
  Exception, key_error, type_error, index_error, expired_token_error, jose_error, oauth2_error,
  ◌==◌, if◌then◌else◌,
}
use fastgeoapi.Base.Errors.{◌>>=◌}
use fastgeoapi.Json
use fastgeoapi.Json.{Value, str, arr, obj, Items, nil, cons, Fields, is_truthy}
use fastgeoapi.Text.{replace}

pub record JwksConfig : Type 0 where
  pub jwks_uri : String
  pub expected_audience : Option String
  pub expected_issuer : Option String

-- The options of authlib's claim validation: an essential `aud` among one value, an essential `iss`.
pub record ClaimOptions : Type 0 where
  pub aud : Option String
  pub iss : Option String

-- The key server and authlib. A key set is seen through the `alg` of its keys, if they have one.
pub record Jose : Type 1 where
  pub KeySet : Type 0
  -- httpx.get(url), response.json() and JsonWebKey.import_key_set
  pub import_key_set : String → Result KeySet
  -- key.get("alg") for the keys of jwks.as_dict()["keys"]
  pub algs_of : KeySet → List (Option String)
  -- JsonWebToken([alg]).decode(s=token, key=jwks, claims_options=…)
  pub decode : String → String → KeySet → ClaimOptions → Result Fields
  -- claims.validate()
  pub validate : ClaimOptions → Fields → Result (Unit {0})

unfoldable pub is_listed : String → List String → Bool
is_listed x [] = false
is_listed x (y ∷ ys) = y == x || is_listed x ys

-- The elements of the set `{key.get("alg") for key in keys}` that are not None. Python's order of a
-- set does not show, since a set with two of them is refused.
unfoldable pub distinct_algs : List (Option String) → List String
unfolding is_listed
distinct_algs [] = []
distinct_algs (none ∷ algs) = distinct_algs algs
distinct_algs (some alg ∷ algs) =
    let rest = distinct_algs algs in if is_listed alg rest then rest else alg ∷ rest

-- `algs[0]`, after the test for more than one, and the test for an empty name
unfoldable pub only_alg : List String → Result String
only_alg [] = err index_error
only_alg (alg ∷ []) =
    if alg == ""
    then err (oauth2_error "Unable to decode the token with a missing algorithm")
    else ok alg
only_alg (alg ∷ other ∷ more) =
    err (oauth2_error "Unable to decode the token with multiple algorithms")

-- The text behind `if self.config.expected_audience:`, which the empty text does not pass.
unfoldable pub configured : Option String → Option String
configured none = none
configured (some text) = if text == "" then none else some text

unfoldable pub claim_options : JwksConfig → ClaimOptions
unfolding configured
claim_options config = record {
  aud = configured config.expected_audience;
  iss = configured config.expected_issuer;
}

unfoldable pub set_default : String → Value → Fields → Option Value → Fields
set_default k v claims none = Json.put k v claims
set_default k v claims (some old) = claims

unfoldable pub from_client_id : Fields → Option Value → Fields
unfolding set_default
from_client_id claims none = claims
from_client_id claims (some client_id) = set_default "aud" client_id claims (Json.get "aud" claims)

-- claims.setdefault("aud", claims["client_id"]), if there is a `client_id`
unfoldable pub with_audience : Fields → Fields
unfolding from_client_id
with_audience claims = from_client_id claims (Json.get "client_id" claims)

unfoldable pub any_equals : String → Items → Bool
any_equals x nil = false
any_equals x (cons (str s) vs) = s == x || any_equals x vs
any_equals x (cons v vs) = any_equals x vs

unfoldable pub is_some : Option Value → Bool
is_some none = false
is_some (some v) = true

-- expected in ([aud] if isinstance(aud, str) else aud)
unfoldable pub is_in : String → Value → Result Bool
unfolding any_equals is_some
is_in x (str s) = ok (s == x)
is_in x (arr vs) = ok (any_equals x vs)
is_in x (obj fs) = ok (is_some (Json.get x fs))
is_in x v = err type_error

truthy_claim : Option Value → Option Value
truthy_claim none = none
truthy_claim (some v) = if is_truthy v then some v else none

-- claims.get(k), where a false value counts as a missing one
unfoldable pub claim : String → Fields → Option Value
unfolding truthy_claim
claim k claims = truthy_claim (Json.get k claims)

audience_in : String → Option Value → Result (Unit {0})
unfolding is_in
audience_in expected none = err (oauth2_error "Invalid audience: missing aud claim")
audience_in expected (some aud) = do
  found ← is_in expected aud
  if found then ok tt else err (oauth2_error ("Invalid audience: expected " <> expected))

unfoldable pub check_audience : Option String → Fields → Result (Unit {0})
unfolding audience_in claim
check_audience none claims = ok tt
check_audience (some expected) claims = audience_in expected (claim "aud" claims)

wrong_issuer : String → Result (Unit {0})
wrong_issuer expected = err (oauth2_error ("Invalid issuer: expected " <> expected))

issuer_is : String → Option Value → Result (Unit {0})
unfolding wrong_issuer
issuer_is expected none = err (oauth2_error "Invalid issuer: missing iss claim")
issuer_is expected (some (str iss)) = if iss == expected then ok tt else wrong_issuer expected
issuer_is expected (some v) = wrong_issuer expected

unfoldable pub check_issuer : Option String → Fields → Result (Unit {0})
unfolding issuer_is claim
check_issuer none claims = ok tt
check_issuer (some expected) claims = issuer_is expected (claim "iss" claims)

-- the `except` clauses of `decode_token`
unfoldable pub translate {ℓ} : {A : Type ℓ} → Result A → Result A
translate (ok a) = ok a
translate (err key_error) = err (oauth2_error "Unable to decode the token with a missing algorithm")
translate (err expired_token_error) = err (oauth2_error "Unable to validate an expired token")
translate (err jose_error) = err (oauth2_error "Unable to decode token")
translate (err e) = err e

-- `except Exception: raise Oauth2Error(…)`
unfoldable pub mask {ℓ} : {A : Type ℓ} → Result A → Result A
mask (ok a) = ok a
mask (err e) = err (oauth2_error "Authentication error")

module _ (jose : Jose) (config : JwksConfig) where
  -- the body of the `try` of `decode_token`
  unfoldable pub decode_and_check : String → Result Fields
  unfolding only_alg claim_options with_audience check_audience check_issuer
  decode_and_check token = do
    jwks ← jose.import_key_set config.jwks_uri
    alg ← only_alg (distinct_algs (jose.algs_of jwks))
    let options = claim_options config
    decoded ← jose.decode alg token jwks options
    let claims = with_audience decoded
    _ ← check_audience options.aud claims
    _ ← check_issuer options.iss claims
    _ ← jose.validate options claims
    ok claims

  unfoldable pub decode_token : String → Result Fields
  unfolding translate decode_and_check
  decode_token token = translate (decode_and_check token)

  unfoldable pub authenticate : Option String → Result Fields
  unfolding mask decode_token
  authenticate none = err (oauth2_error "Auth token not found in the incoming request")
  authenticate (some bearer) =
      if bearer == ""
      then err (oauth2_error "Auth token not found in the incoming request")
      else mask (decode_token (replace "Bearer " "" bearer))
