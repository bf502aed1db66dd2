-- ===== src/Auth/Jwks/Accepts.antt =====
-- When a token is accepted.
use fastgeoapi.Base.{
  String, ◌≡◌, ◌↔◌, inl, inr, refl, true, false, Option, none, some, List, [], ◌∷◌, Result, ok, err,
  Exception, index_error, oauth2_error, arith, Option-cases, eq_iff, eq_refl, >>=-eq-ok, All,
  Bool-cases, ◌==◌,
}
use fastgeoapi.Json
use fastgeoapi.Json.{Value, null, bool, num, str, arr, obj, Fields, is_truthy}
use fastgeoapi.Text.{replace}
use fastgeoapi.Auth.Jwks.Algs.{
  IsOnlyAlg, only_alg-IsOnlyAlg, IsFilled, with_audience-IsFilled, IsAudience, is_in-IsAudience,
}
use fastgeoapi.Auth.Jwks.{
  JwksConfig, Jose, distinct_algs, only_alg, configured, claim_options, with_audience,
  check_audience, check_issuer, translate, mask, decode_token, authenticate,
}

-- The audience claim is there, is no false value, and is or holds the expected text.
abbrev pub HasAudience : Option String → Fields → Type 0
HasAudience none claims = Unit
HasAudience (some expected) claims =
    (aud : Value) × (Json.get "aud" claims ≡ some aud)
    × (is_truthy aud ≡ true)
    × IsAudience expected aud

-- The issuer claim is the expected text, which is not empty.
abbrev pub HasIssuer : Option String → Fields → Type 0
HasIssuer none claims = Unit
HasIssuer (some expected) claims =
    (Json.get "iss" claims ≡ some (str expected)) × (is_truthy (str expected) ≡ true)

-- Why `decode_token` returns these claims.
pub record Accepts (jose : Jose) (config : JwksConfig) (token : String) (claims : Fields)
    : Type 0 where
  pub keys : jose.KeySet
  pub fetched : jose.import_key_set config.jwks_uri ≡ ok keys
  pub alg : String
  pub only : IsOnlyAlg alg (jose.algs_of keys)
  pub decoded : Fields
  pub signed : jose.decode alg token keys (claim_options config) ≡ ok decoded
  pub filled : IsFilled decoded claims
  pub audience : HasAudience (configured config.expected_audience) claims
  pub issuer : HasIssuer (configured config.expected_issuer) claims
  pub valid : jose.validate (claim_options config) claims ≡ ok tt

check_audience_sound :
    (expected : Option String) (claims : Fields)
    → check_audience expected claims ≡ ok tt
    → HasAudience expected claims
unfolding check_audience
check_audience_sound none claims h = tt
check_audience_sound (some expected) claims h = elim (Option-cases (Json.get "aud" claims)) [
  | inl missing ↦ absurd (ground arith)
  | inr (aud, found) ↦ (aud, found, ground arith, (is_in-IsAudience expected aud).0 (ground arith))
]

check_audience_complete :
    (expected : Option String) (claims : Fields)
    → HasAudience expected claims
    → check_audience expected claims ≡ ok tt
unfolding check_audience
check_audience_complete none claims h = refl
check_audience_complete (some expected) claims (aud, found, truthy, present) =
    let there = (is_in-IsAudience expected aud).1 present in ground arith

check_issuer_sound :
    (expected : Option String) (claims : Fields)
    → check_issuer expected claims ≡ ok tt
    → HasIssuer expected claims
unfolding check_issuer
check_issuer_sound none claims h = tt
check_issuer_sound (some expected) claims h = elim (Option-cases (Json.get "iss" claims)) [
  | inl missing ↦ absurd (ground arith)
  | inr (iss, found) ↦ issued iss found
]
  where
    issued : (iss : Value) → Json.get "iss" claims ≡ some iss → HasIssuer (some expected) claims
    issued (str iss) found = ground (arith, eq_iff iss expected)
    issued null found = ground arith
    issued (bool b) found = ground arith
    issued (num n) found = ground arith
    issued (arr vs) found = ground arith
    issued (obj fs) found = ground arith

check_issuer_complete :
    (expected : Option String) (claims : Fields)
    → HasIssuer expected claims
    → check_issuer expected claims ≡ ok tt
unfolding check_issuer
check_issuer_complete none claims h = refl
check_issuer_complete (some expected) claims (found, truthy) = ground (arith, eq_refl expected)

translate-eq-ok : (r : Result Fields) {a : Fields} → translate r ≡ ok a → r ≡ ok a
unfolding translate
translate-eq-ok (ok a) h = h
translate-eq-ok (err Exception.key_error) h = cc
translate-eq-ok (err Exception.expired_token_error) h = cc
translate-eq-ok (err Exception.jose_error) h = cc
translate-eq-ok (err e) h = cc

module _ (jose : Jose) (config : JwksConfig) where
  decode_token_sound :
      (token : String) (claims : Fields)
      → decode_token jose config token ≡ ok claims
      → Accepts jose config token claims
  unfolding decode_token
  decode_token_sound token claims h =
      let (keys, fetched, h₁) =
        >>=-eq-ok (jose.import_key_set config.jwks_uri) _ (translate-eq-ok _ h) in
      let (alg, only, h₂) = >>=-eq-ok (only_alg (distinct_algs (jose.algs_of keys))) _ h₁ in
      let (decoded, signed, h₃) =
        >>=-eq-ok (jose.decode alg token keys (claim_options config)) _ h₂ in
      let (u, audience, h₄) =
        >>=-eq-ok (check_audience (configured config.expected_audience) (with_audience decoded)) _
          h₃ in
      let (v, issuer, h₅) =
        >>=-eq-ok (check_issuer (configured config.expected_issuer) (with_audience decoded)) _ h₄ in
      let (w, valid, h₆) =
        >>=-eq-ok (jose.validate (claim_options config) (with_audience decoded)) _ h₅ in
      let same : claims ≡ with_audience decoded = cc in
      record {
        keys = keys;
        fetched = fetched;
        alg = alg;
        only = (only_alg-IsOnlyAlg alg (jose.algs_of keys)).0 only;
        decoded = decoded;
        signed = signed;
        filled = (with_audience-IsFilled decoded claims).0 same;
        audience = rw same (check_audience_sound _ _ audience);
        issuer = rw same (check_issuer_sound _ _ issuer);
        valid = rw same valid;
      }

  decode_token_complete :
      (token : String) (claims : Fields)
      → Accepts jose config token claims
      → decode_token jose config token ≡ ok claims
  unfolding decode_token
  decode_token_complete token claims a =
      let audience = check_audience_complete _ claims a.audience in
      let issuer = check_issuer_complete _ claims a.issuer in
      let only = (only_alg-IsOnlyAlg a.alg (jose.algs_of a.keys)).1 a.only in
      let filled = (with_audience-IsFilled a.decoded claims).1 a.filled in
      rw (a.fetched, only, a.signed, ← filled, audience, issuer, a.valid)

-- `decode_token` returns claims exactly when the key set was fetched, at least one of its keys names
-- an algorithm and all that do name the same one, which is not empty, the token decodes under it to
-- those claims but for the audience taken from `client_id`, a configured audience is or is among
-- theirs, a configured issuer is theirs, and authlib validates them.
pub decode_token_iff :
    (jose : Jose) (config : JwksConfig) (token : String) (claims : Fields)
    → (decode_token jose config token ≡ ok claims) ↔ Accepts jose config token claims
decode_token_iff jose config token claims =
    (decode_token_sound jose config token claims, decode_token_complete jose config token claims)

-- The header that `authenticate` accepts: not empty, and without each "Bearer " in it an accepted
-- token.
abbrev pub Authenticates : Jose → JwksConfig → Option String → Fields → Type 0
Authenticates jose config none claims = ⊥
Authenticates jose config (some bearer) claims =
    ((bearer == "") ≡ false) × Accepts jose config (replace "Bearer " "" bearer) claims

mask-eq-ok : (r : Result Fields) {a : Fields} → mask r ≡ ok a → r ≡ ok a
unfolding mask
mask-eq-ok (ok a) h = h
mask-eq-ok (err e) h = cc

authenticate_sound :
    (jose : Jose) (config : JwksConfig) (header : Option String) (claims : Fields)
    → authenticate jose config header ≡ ok claims
    → Authenticates jose config header claims
unfolding authenticate
authenticate_sound jose config none claims h = cc
authenticate_sound jose config (some bearer) claims h = elim (Bool-cases (bearer == "")) [
  | inl empty ↦ absurd (ground arith)
  | inr given ↦ (given, decode_token_sound jose config _ claims (mask-eq-ok _ (rw given at h)))
]

authenticate_complete :
    (jose : Jose) (config : JwksConfig) (header : Option String) (claims : Fields)
    → Authenticates jose config header claims
    → authenticate jose config header ≡ ok claims
unfolding authenticate
authenticate_complete jose config none claims h = elim h [ ]
authenticate_complete jose config (some bearer) claims (given, a) =
    rw given (unfold mask in rw (decode_token_complete jose config _ claims a))

-- `authenticate` returns claims exactly for a header that is there and not empty, and whose text
-- without each "Bearer " is a token that `decode_token` accepts with these claims.
pub authenticate_iff :
    (jose : Jose) (config : JwksConfig) (header : Option String) (claims : Fields)
    → (authenticate jose config header ≡ ok claims) ↔ Authenticates jose config header claims
authenticate_iff jose config header claims =
    (authenticate_sound jose config header claims, authenticate_complete jose config header claims)

mask_error :
    (r : Result Fields) {e : Exception}
    → mask r ≡ err e
    → (message : String) × (e ≡ oauth2_error message)
unfolding mask
mask_error (ok a) h = cc
mask_error (err x) h = ("Authentication error", cc)

-- Whatever goes wrong in the key server, in authlib or in the checks, `authenticate` raises
-- Oauth2Error and no other exception.
pub authenticate_error :
    (jose : Jose) (config : JwksConfig) (header : Option String) (e : Exception)
    → authenticate jose config header ≡ err e
    → (message : String) × (e ≡ oauth2_error message)
unfolding authenticate
authenticate_error jose config none e h = ("Auth token not found in the incoming request", cc)
authenticate_error jose config (some bearer) e h = elim (Bool-cases (bearer == "")) [
  | inl empty ↦ ("Auth token not found in the incoming request", ground arith)
  | inr given ↦ mask_error (decode_token jose config (replace "Bearer " "" bearer)) (ground arith)
]

no_algs : (algs : List (Option String)) → All (λ alg. alg ≡ none) algs → distinct_algs algs ≡ []
unfolding distinct_algs
no_algs [] h = refl
no_algs (none ∷ algs) (p, h) = no_algs algs h
no_algs (some alg ∷ algs) (p, h) = cc

-- A key set in which no key names an algorithm makes `decode_token` raise IndexError, which is not
-- the Oauth2Error that the code has for a missing algorithm.
pub decode_token_no_alg :
    (jose : Jose) (config : JwksConfig) (token : String) (keys : jose.KeySet)
    → jose.import_key_set config.jwks_uri ≡ ok keys
    → All (λ alg. alg ≡ none) (jose.algs_of keys)
    → decode_token jose config token ≡ err index_error
unfolding decode_token only_alg translate
decode_token_no_alg jose config token keys fetched missing =
    rw (fetched, no_algs (jose.algs_of keys) missing)
