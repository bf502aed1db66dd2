-- ===== src/Auth/Tests.antt =====
-- Tokens at a small key server, and the theorems on them at concrete inputs.
use fastgeoapi.Base.{
  String, ◌≡◌, ◌↔◌, refl, Option, none, some, List, [], ◌∷◌, ok, err, All, oauth2_error, jose_error,
  ◌==◌, if◌then◌else◌,
}
use fastgeoapi.Json
use fastgeoapi.Json.{str, arr, cons, nil, Fields, field, end}
use fastgeoapi.Text.{replace}
use fastgeoapi.Auth.Jwks.{JwksConfig, Jose, distinct_algs, decode_token, authenticate}
use fastgeoapi.Auth.Jwks.Accepts.{Accepts, decode_token_iff}

abbrev pub claims : Fields
claims = field "client_id" (str "api") (field "iss" (str "http://idp") end)

abbrev pub filled : Fields
filled =
    field "client_id" (str "api") (field "iss" (str "http://idp") (field "aud" (str "api") end))

-- A key server with two RSA keys, whose tokens are one good text and bad ones.
abbrev pub server : List (Option String) → Jose
server algs = record {
  KeySet = List (Option String);
  import_key_set = λ url. ok algs;
  algs_of = λ keys. keys;
  decode = λ alg token keys options. if token == "good" then ok claims else err jose_error;
  validate = λ options decoded. ok tt;
}

abbrev pub rsa : Jose
rsa = server (some "RS256" ∷ none ∷ some "RS256" ∷ [])

abbrev pub config : JwksConfig
config = record {
  jwks_uri = "http://idp/jwks";
  expected_audience = some "api";
  expected_issuer = some "http://idp";
}

good_token : decode_token rsa config "good" ≡ ok filled
unfolding decode_token distinct_algs Json.get Json.put Json.is_truthy
good_token = refl

bad_token : authenticate rsa config (some "Bearer bad") ≡ err (oauth2_error "Authentication error")
unfolding authenticate distinct_algs Json.get Json.put Json.is_truthy replace
bad_token = refl

good_header : authenticate rsa config (some "Bearer good") ≡ ok filled
unfolding authenticate distinct_algs Json.get Json.put Json.is_truthy replace
good_header = refl

decode_token_iff_example :
    (decode_token rsa config "good" ≡ ok filled) ↔ Accepts rsa config "good" filled
decode_token_iff_example = decode_token_iff rsa config "good" filled

abbrev no_algs : List (Option String)
no_algs = none ∷ none ∷ []

no_alg : All (λ alg. alg ≡ none) no_algs
no_alg = (refl, (refl, tt))
