-- ===== src/Mcp/Settings.antt =====
-- `_coerce_consent_mode`, `configure_mcp_auth` and the token verifier of
-- app/auth/mcp_auth_provider.py. The provider is the list of arguments that fastmcp's OIDCProxy is
-- built from; what fastmcp does with them is not modelled.
pub mod Consents
use fastgeoapi.Base.{
  ℕ, String, ◌<>◌, Bool, true, false, Option, none, some, List, [], ◌∷◌, ltb, if◌then◌else◌,
}
use fastgeoapi.Base.Int.{ℤ, pos, negsuc, is_positive}
use fastgeoapi.Text.{strip_space, lower_equals}

-- FastMCP's `require_authorization_consent`: True, "remember", "external" or False.
pub data Consent : Type 0 where
  always remember external never : Consent

-- mapping.get(text), with "remember" for an unknown text
lookup_mode : String → Consent
lookup_mode mode =
    if lower_equals mode "always"
    then always
    else if lower_equals mode "remember"
    then remember
    else if lower_equals mode "external"
    then external
    else if lower_equals mode "never"
    then never
    else remember

unfoldable pub coerce_consent_mode : Option String → Consent
unfolding lookup_mode
coerce_consent_mode none = remember
coerce_consent_mode (some consent_mode) = lookup_mode (strip_space consent_mode)

pub record AccessToken : Type 0 where
  pub token : String
  pub client_id : String
  pub scopes : List String
  pub expires_at : Option ℕ

-- TrustingUpstreamTokenVerifier
pub record TokenVerifier : Type 0 where
  pub client_id : String
  pub client_secret : String
  pub required_scopes : List String

unfoldable pub verify_token : TokenVerifier → String → AccessToken
verify_token verifier token = record {
  token = token;
  client_id = verifier.client_id;
  scopes = verifier.required_scopes;
  expires_at = none;
}

abbrev pub default_scopes : List String
default_scopes = "openid" ∷ "profile" ∷ "email" ∷ "offline_access" ∷ []

-- DEFAULT_MCP_ACCESS_TOKEN_EXPIRY_SECONDS
abbrev pub default_expiry : ℕ
default_expiry = 86400

-- " ".join(scopes)
unfoldable pub join_space : List String → String
join_space [] = ""
join_space (scope ∷ []) = scope
join_space (scope ∷ other ∷ scopes) = scope <> (" " <> join_space (other ∷ scopes))

scopes_or_default : Option (List String) → List String
scopes_or_default none = default_scopes
scopes_or_default (some scopes) = scopes

-- The lifetime of the client's token; `none` mirrors the lifetime of the upstream token.
unfoldable pub client_token_ttl : Option ℤ → Option ℕ
client_token_ttl none = some default_expiry
client_token_ttl (some (pos n)) = if ltb 0 n then some n else none
client_token_ttl (some (negsuc n)) = none

pub record OidcProxy : Type 0 where
  pub config_url : String
  pub client_id : String
  pub client_secret : String
  pub base_url : String
  pub authorize_scope : String
  pub token_verifier : TokenVerifier
  pub forward_resource : Bool
  pub require_authorization_consent : Consent
  pub fastmcp_access_token_expiry_seconds : Option ℕ

unfoldable pub configure_mcp_auth :
    (oidc_well_known_endpoint client_id client_secret mcp_base_url : String)
    → (scopes : Option (List String)) (consent_mode : Option String)
    → (access_token_expiry_seconds : Option ℤ) → OidcProxy
unfolding scopes_or_default coerce_consent_mode client_token_ttl
configure_mcp_auth endpoint client_id client_secret mcp_base_url scopes consent_mode expiry =
    let requested = scopes_or_default scopes in
    record {
      config_url = endpoint;
      client_id = client_id;
      client_secret = client_secret;
      base_url = mcp_base_url;
      authorize_scope = join_space requested;
      token_verifier = record {
        client_id = client_id;
        client_secret = client_secret;
        required_scopes = requested;
      };
      forward_resource = false;
      require_authorization_consent = coerce_consent_mode consent_mode;
      fastmcp_access_token_expiry_seconds = client_token_ttl expiry;
    }
