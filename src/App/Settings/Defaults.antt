-- ===== src/App/Settings/Defaults.antt =====
-- The settings where only the required variables are set.
use fastgeoapi.Base.{
  String, ◌≡◌, ◌≢◌, ◌↔◌, ◌⊎◌, inl, inr, refl, Bool, true, false, ◌||◌, Option, none, some, [],
  Result, ok, err, arith, Option-cases, Bool-cases, ◌==◌,
}
use fastgeoapi.App.Modes.{create_app}
use fastgeoapi.App.McpServer.{is_auth_configured}
use fastgeoapi.App.Settings.{
  Environment, Settings, log_format, required, settings, dev_config, prod_config, some_settings,
  get_config, env_state, configuration, config_of,
}

-- The names of the fields without a default, but for the aliases.
abbrev pub is_required : String → Bool
is_required name =
    name == "PYGEOAPI_BASEURL"
    || (name == "PYGEOAPI_CONFIG" || (name == "PYGEOAPI_OPENAPI" || name == "FASTGEOAPI_CONTEXT"))

-- Only the required variables are set.
pub record IsMinimal (environment : Environment) (env_prefix : String)
    (host port baseurl config openapi context : String) : Type 0 where
  pub host_set : environment.alias "HOST" ≡ some host
  pub port_set : environment.alias "PORT" ≡ some port
  pub baseurl_set : environment.field env_prefix "PYGEOAPI_BASEURL" ≡ some baseurl
  pub config_set : environment.field env_prefix "PYGEOAPI_CONFIG" ≡ some config
  pub openapi_set : environment.field env_prefix "PYGEOAPI_OPENAPI" ≡ some openapi
  pub context_set : environment.field env_prefix "FASTGEOAPI_CONTEXT" ≡ some context
  pub others_unset :
      (name : String) → is_required name ≡ false → environment.field env_prefix name ≡ none

abbrev pub minimal : (temp_dir host port baseurl config openapi context : String) → Settings
minimal temp_dir host port baseurl config openapi context = record {
  host = host;
  port = port;
  root_path = none;
  aws_lambda_deploy = none;
  log_path = temp_dir;
  log_filename = "fastgeoapi.log";
  log_level = "info";
  log_enqueue = true;
  log_rotation = "1 days";
  log_retention = "1 months";
  log_format = log_format;
  opa_enabled = none;
  opa_url = none;
  app_uri = none;
  oidc_well_known_endpoint = none;
  oidc_client_id = none;
  oidc_client_secret = none;
  api_key_enabled = none;
  jwks_enabled = none;
  oauth2_jwks_endpoint = none;
  oauth2_token_endpoint = none;
  oauth2_expected_audience = none;
  oauth2_expected_issuer = none;
  pygeoapi_key_global = none;
  pygeoapi_baseurl = baseurl;
  pygeoapi_config = config;
  pygeoapi_openapi = openapi;
  pygeoapi_security_scheme = none;
  fastgeoapi_context = context;
  fastgeoapi_reverse_proxy = none;
  fastgeoapi_with_mcp = false;
  fastgeoapi_mcp_consent_mode = none;
  fastgeoapi_mcp_allow_unauthenticated = false;
  fastgeoapi_cache_dir = none;
  fastgeoapi_mcp_access_token_expiry_seconds = none;
}

settings-minimal :
    (environment : Environment) (env_prefix host port baseurl config openapi context : String)
    → IsMinimal environment env_prefix host port baseurl config openapi context
    → settings environment env_prefix
      ≡ ok (minimal environment.temp_dir host port baseurl config openapi context)
unfolding settings
settings-minimal environment env_prefix host port baseurl config openapi context m =
    rw
      (
        m.host_set,
        m.port_set,
        m.baseurl_set,
        m.config_set,
        m.openapi_set,
        m.context_set,
        m.others_unset "ROOT_PATH" refl,
        m.others_unset "AWS_LAMBDA_DEPLOY" refl,
        m.others_unset "LOG_PATH" refl,
        m.others_unset "LOG_FILENAME" refl,
        m.others_unset "LOG_LEVEL" refl,
        m.others_unset "LOG_ENQUEUE" refl,
        m.others_unset "LOG_ROTATION" refl,
        m.others_unset "LOG_RETENTION" refl,
        m.others_unset "LOG_FORMAT" refl,
        m.others_unset "OPA_ENABLED" refl,
        m.others_unset "OPA_URL" refl,
        m.others_unset "APP_URI" refl,
        m.others_unset "OIDC_WELL_KNOWN_ENDPOINT" refl,
        m.others_unset "OIDC_CLIENT_ID" refl,
        m.others_unset "OIDC_CLIENT_SECRET" refl,
        m.others_unset "API_KEY_ENABLED" refl,
        m.others_unset "JWKS_ENABLED" refl,
        m.others_unset "OAUTH2_JWKS_ENDPOINT" refl,
        m.others_unset "OAUTH2_TOKEN_ENDPOINT" refl,
        m.others_unset "OAUTH2_EXPECTED_AUDIENCE" refl,
        m.others_unset "OAUTH2_EXPECTED_ISSUER" refl,
        m.others_unset "PYGEOAPI_KEY_GLOBAL" refl,
        m.others_unset "PYGEOAPI_SECURITY_SCHEME" refl,
        m.others_unset "FASTGEOAPI_REVERSE_PROXY" refl,
        m.others_unset "FASTGEOAPI_WITH_MCP" refl,
        m.others_unset "FASTGEOAPI_MCP_CONSENT_MODE" refl,
        m.others_unset "FASTGEOAPI_MCP_ALLOW_UNAUTHENTICATED" refl,
        m.others_unset "FASTGEOAPI_CACHE_DIR" refl,
        m.others_unset "FASTGEOAPI_MCP_ACCESS_TOKEN_EXPIRY_SECONDS" refl,
      )
      refl

get_config-minimal :
    (environment : Environment) (state env_prefix : String) (s : Settings)
    → ((state ≡ "dev") × (env_prefix ≡ "DEV_")) ⊎ ((state ≡ "prod") × (env_prefix ≡ "PROD_"))
    → settings environment env_prefix ≡ ok s
    → get_config environment (some state) ≡ ok (some s)
unfolding get_config some_settings dev_config prod_config
get_config-minimal environment state env_prefix s (inl (is_dev, dev_prefix)) h =
    rw (is_dev, rw dev_prefix at h) refl
get_config-minimal environment state env_prefix s (inr (is_prod, prod_prefix)) h =
    rw (is_prod, rw prod_prefix at h) refl

-- Where the environment names the state and sets the required variables under its prefix and nothing
-- else, the program has its configuration, with every default; the application is then built with no
-- layer around pygeoapi, and the MCP server has no authentication to be configured with.
pub configuration-minimal :
    (environment : Environment)
    (state env_prefix host port baseurl config openapi context client_id secret : String)
    → environment.field "" "HOST" ≡ some host
    → environment.field "" "PORT" ≡ some port
    → environment.field "" "ENV_STATE" ≡ some state
    → ((state ≡ "dev") × (env_prefix ≡ "DEV_")) ⊎ ((state ≡ "prod") × (env_prefix ≡ "PROD_"))
    → IsMinimal environment env_prefix host port baseurl config openapi context
    → let s = minimal environment.temp_dir host port baseurl config openapi context in
      (configuration environment ≡ ok (some s))
      × (create_app (config_of s client_id secret)
          ≡ ok (record { layers = []; security_schemes = [] }))
      × (is_auth_configured (config_of s client_id secret) ≡ false)
unfolding configuration env_state required create_app is_auth_configured config_of
configuration-minimal environment state env_prefix host port baseurl config openapi context
      client_id secret host_set port_set state_set known m =
    let loaded =
      settings-minimal environment env_prefix host port baseurl config openapi context m in
    (
      rw (host_set, port_set, state_set)
          (get_config-minimal environment state env_prefix
            (minimal environment.temp_dir host port baseurl config openapi context) known loaded),
      refl,
      refl,
    )

-- No state that is known.
abbrev pub IsUnknown : Option String → Type 0
IsUnknown none = Unit
IsUnknown (some state) = ((state == "dev") ≡ false) × ((state == "prod") ≡ false)

some_settings_some :
    (environment : Environment) (r : Result Settings) → some_settings environment r ≢ ok none
unfolding some_settings
some_settings_some environment (ok s) h = absurd (ground arith)
some_settings_some environment (err e) h = absurd (ground arith)

get_config-IsUnknown :
    (environment : Environment) (state : Option String)
    → (get_config environment state ≡ ok none) ↔ IsUnknown state
unfolding get_config
get_config-IsUnknown environment none = (λ h. tt, λ h. refl)
get_config-IsUnknown environment (some state) = elim (Bool-cases (state == "dev")) [
  | inl is_dev ↦ (
    λ h. absurd (some_settings_some environment (dev_config environment) (rw is_dev at h)),
    λ h. absurd (ground (arith, h.0)),
  )
  | inr other ↦ elim (Bool-cases (state == "prod")) [
    | inl is_prod ↦ (
      λ h.
          absurd
            (some_settings_some environment (prod_config environment) (rw (other, is_prod) at h)),
      λ h. absurd (ground (arith, h.1)),
    )
    | inr neither ↦ (λ h. (other, neither), λ h. rw (other, neither) refl)
  ]
]

-- The program has None for its configuration, and no error yet, exactly where HOST and PORT are set and
-- ENV_STATE is not, or names neither of the two states.
pub configuration-none_iff :
    (environment : Environment)
    → (configuration environment ≡ ok none) ↔ (
        (host port : String) × (environment.field "" "HOST" ≡ some host)
        × (environment.field "" "PORT" ≡ some port)
        × IsUnknown (environment.field "" "ENV_STATE"))
unfolding configuration env_state required
configuration-none_iff environment = elim (Option-cases (environment.field "" "HOST")) [
  | inl no_host ↦ (λ h. cc, λ (host, port, host_set, port_set, rest). cc)
  | inr (host, host_set) ↦ elim (Option-cases (environment.field "" "PORT")) [
    | inl no_port ↦ (λ h. absurd (ground arith), λ (host', port, host_set', port_set, rest). cc)
    | inr (port, port_set) ↦
        let state = get_config-IsUnknown environment (environment.field "" "ENV_STATE") in
        (
          λ h. (host, port, host_set, port_set, state.0 (rw (host_set, port_set) at h)),
          λ (host', port', host_set', port_set', unknown).
              rw (host_set, port_set) (state.1 unknown),
        )
  ]
]
