-- ===== src/App/Settings.antt =====
-- app/config/app.py: the settings, read from the environment. The reading itself is pydantic's and a
-- parameter; which names it is asked for, what is required and what stands in for a missing value are
-- those of the classes.
pub mod Defaults
pub mod Explicit
mod Tests
use fastgeoapi.Base.{
  String, Bool, true, false, Option, none, some, Result, ok, err, decode_error, ◌==◌, if◌then◌else◌,
}
use fastgeoapi.Base.Int.{ℤ}
use fastgeoapi.Base.Errors.{◌>>=◌}
use fastgeoapi.App.Config.{Config}

-- What pydantic finds for a field of a class with a prefix, and for an alias, which has no prefix;
-- what it takes for a truth value or a whole number; and the directory for temporary files.
pub record Environment : Type 0 where
  pub field : (env_prefix name : String) → Option String
  pub alias : String → Option String
  pub parse_bool : String → Option Bool
  pub parse_int : String → Option ℤ
  pub temp_dir : String

-- The fields that DevConfig and ProdConfig have alike.
pub record Settings : Type 0 where
  pub host : String
  pub port : String
  pub root_path : Option String
  pub aws_lambda_deploy : Option Bool
  pub log_path : String
  pub log_filename : String
  pub log_level : String
  pub log_enqueue : Bool
  pub log_rotation : String
  pub log_retention : String
  pub log_format : String
  pub opa_enabled : Option Bool
  pub opa_url : Option String
  pub app_uri : Option String
  pub oidc_well_known_endpoint : Option String
  pub oidc_client_id : Option String
  pub oidc_client_secret : Option String
  pub api_key_enabled : Option Bool
  pub jwks_enabled : Option Bool
  pub oauth2_jwks_endpoint : Option String
  pub oauth2_token_endpoint : Option String
  pub oauth2_expected_audience : Option String
  pub oauth2_expected_issuer : Option String
  pub pygeoapi_key_global : Option String
  pub pygeoapi_baseurl : String
  pub pygeoapi_config : String
  pub pygeoapi_openapi : String
  pub pygeoapi_security_scheme : Option String
  pub fastgeoapi_context : String
  pub fastgeoapi_reverse_proxy : Option Bool
  pub fastgeoapi_with_mcp : Bool
  pub fastgeoapi_mcp_consent_mode : Option String
  pub fastgeoapi_mcp_allow_unauthenticated : Bool
  pub fastgeoapi_cache_dir : Option String
  pub fastgeoapi_mcp_access_token_expiry_seconds : Option ℤ

abbrev pub log_format : String
log_format =
    "<green>{time:YYYY-MM-DD HH:mm:ss.SSS}</green> | <level>{level: <8}</level> | <cyan>{name}</cyan>:<cyan>{function}</cyan>:<cyan>{line}</cyan> [id:{extra[request_id]}] - <level>{message}</level>"

-- A field without a default: its absence is a ValidationError.
unfoldable pub required : Option String → Result String
required none = err decode_error
required (some text) = ok text

unfoldable pub with_default : String → Option String → String
with_default default none = default
with_default default (some text) = text

-- A text that cannot be read as a value of the type is a ValidationError too.
unfoldable pub parsed {ℓ} : {A : Type ℓ} → Option A → Result A
parsed none = err decode_error
parsed (some a) = ok a

unfoldable pub optional {ℓ} : {A : Type ℓ} → (String → Option A) → Option String → Result (Option A)
unfolding parsed
optional parse none = ok none
optional parse (some text) = do a ← parsed (parse text); ok (some a)

unfoldable pub flag : (String → Option Bool) → Bool → Option String → Result Bool
unfolding parsed
flag parse default none = ok default
flag parse default (some text) = parsed (parse text)

module _ (environment : Environment) where
  -- The class with a prefix.
  unfoldable pub settings : String → Result Settings
  unfolding required with_default optional flag
  settings env_prefix = do
    host ← required (environment.alias "HOST")
    port ← required (environment.alias "PORT")
    let read = λ (name : String). environment.field env_prefix name
    aws_lambda_deploy ← optional environment.parse_bool (read "AWS_LAMBDA_DEPLOY")
    log_enqueue ← flag environment.parse_bool true (read "LOG_ENQUEUE")
    opa_enabled ← optional environment.parse_bool (read "OPA_ENABLED")
    api_key_enabled ← optional environment.parse_bool (read "API_KEY_ENABLED")
    jwks_enabled ← optional environment.parse_bool (read "JWKS_ENABLED")
    pygeoapi_baseurl ← required (read "PYGEOAPI_BASEURL")
    pygeoapi_config ← required (read "PYGEOAPI_CONFIG")
    pygeoapi_openapi ← required (read "PYGEOAPI_OPENAPI")
    fastgeoapi_context ← required (read "FASTGEOAPI_CONTEXT")
    fastgeoapi_reverse_proxy ← optional environment.parse_bool (read "FASTGEOAPI_REVERSE_PROXY")
    fastgeoapi_with_mcp ← flag environment.parse_bool false (read "FASTGEOAPI_WITH_MCP")
    fastgeoapi_mcp_allow_unauthenticated ←
        flag environment.parse_bool false (read "FASTGEOAPI_MCP_ALLOW_UNAUTHENTICATED")
    fastgeoapi_mcp_access_token_expiry_seconds ←
        optional environment.parse_int (read "FASTGEOAPI_MCP_ACCESS_TOKEN_EXPIRY_SECONDS")
    ok (record {
      host = host;
      port = port;
      root_path = read "ROOT_PATH";
      aws_lambda_deploy = aws_lambda_deploy;
      log_path = with_default environment.temp_dir (read "LOG_PATH");
      log_filename = with_default "fastgeoapi.log" (read "LOG_FILENAME");
      log_level = with_default "info" (read "LOG_LEVEL");
      log_enqueue = log_enqueue;
      log_rotation = with_default "1 days" (read "LOG_ROTATION");
      log_retention = with_default "1 months" (read "LOG_RETENTION");
      log_format = with_default log_format (read "LOG_FORMAT");
      opa_enabled = opa_enabled;
      opa_url = read "OPA_URL";
      app_uri = read "APP_URI";
      oidc_well_known_endpoint = read "OIDC_WELL_KNOWN_ENDPOINT";
      oidc_client_id = read "OIDC_CLIENT_ID";
      oidc_client_secret = read "OIDC_CLIENT_SECRET";
      api_key_enabled = api_key_enabled;
      jwks_enabled = jwks_enabled;
      oauth2_jwks_endpoint = read "OAUTH2_JWKS_ENDPOINT";
      oauth2_token_endpoint = read "OAUTH2_TOKEN_ENDPOINT";
      oauth2_expected_audience = read "OAUTH2_EXPECTED_AUDIENCE";
      oauth2_expected_issuer = read "OAUTH2_EXPECTED_ISSUER";
      pygeoapi_key_global = read "PYGEOAPI_KEY_GLOBAL";
      pygeoapi_baseurl = pygeoapi_baseurl;
      pygeoapi_config = pygeoapi_config;
      pygeoapi_openapi = pygeoapi_openapi;
      pygeoapi_security_scheme = read "PYGEOAPI_SECURITY_SCHEME";
      fastgeoapi_context = fastgeoapi_context;
      fastgeoapi_reverse_proxy = fastgeoapi_reverse_proxy;
      fastgeoapi_with_mcp = fastgeoapi_with_mcp;
      fastgeoapi_mcp_consent_mode = read "FASTGEOAPI_MCP_CONSENT_MODE";
      fastgeoapi_mcp_allow_unauthenticated = fastgeoapi_mcp_allow_unauthenticated;
      fastgeoapi_cache_dir = read "FASTGEOAPI_CACHE_DIR";
      fastgeoapi_mcp_access_token_expiry_seconds = fastgeoapi_mcp_access_token_expiry_seconds;
    })

  dev_config : Result Settings
  unfolding settings
  dev_config = settings "DEV_"

  prod_config : Result Settings
  unfolding settings
  prod_config = settings "PROD_"

  some_settings : Result Settings → Result (Option Settings)
  some_settings loaded = do s ← loaded; ok (some s)

  -- FactoryConfig.get_config
  unfoldable pub get_config : Option String → Result (Option Settings)
  unfolding some_settings dev_config prod_config
  get_config none = ok none
  get_config (some env_state) =
      if env_state == "dev"
      then some_settings dev_config
      else if env_state == "prod"
      then some_settings prod_config
      else ok none

  -- GlobalConfig().ENV_STATE: the class requires HOST and PORT, and has no prefix.
  unfoldable pub env_state : Result (Option String)
  unfolding required
  env_state = do
    host ← required (environment.field "" "HOST")
    port ← required (environment.field "" "PORT")
    ok (environment.field "" "ENV_STATE")

  unfoldable pub configuration : Result (Option Settings)
  unfolding env_state get_config
  configuration = do state ← env_state; get_config state

is_true : Option Bool → Bool
is_true none = false
is_true (some b) = b

-- What the application reads of the settings. The id and the secret of the client, which only a
-- configured provider is given, stand beside them.
unfoldable pub config_of : Settings → (oidc_client_id oidc_client_secret : String) → Config
unfolding is_true
config_of s oidc_client_id oidc_client_secret = record {
  host = s.host;
  port = s.port;
  app_uri = s.app_uri;
  fastgeoapi_context = s.fastgeoapi_context;
  fastgeoapi_reverse_proxy = is_true s.fastgeoapi_reverse_proxy;
  opa_enabled = is_true s.opa_enabled;
  jwks_enabled = is_true s.jwks_enabled;
  api_key_enabled = is_true s.api_key_enabled;
  pygeoapi_key_global = s.pygeoapi_key_global;
  oidc_well_known_endpoint = s.oidc_well_known_endpoint;
  oidc_client_id = oidc_client_id;
  oidc_client_secret = oidc_client_secret;
  oauth2_token_endpoint = s.oauth2_token_endpoint;
  mcp_allow_unauthenticated = s.fastgeoapi_mcp_allow_unauthenticated;
  mcp_consent_mode = s.fastgeoapi_mcp_consent_mode;
  mcp_access_token_expiry_seconds = s.fastgeoapi_mcp_access_token_expiry_seconds;
}

-- `_openapi_cache_dir` of app/main.py: `join` is the division of paths, `cwd` the working directory.
unfoldable pub openapi_cache_dir : (String → String → String) → String → Option String → String
openapi_cache_dir join cwd none = join (join cwd ".cache") "openapi_refs"
openapi_cache_dir join cwd (some root) =
    join (if root == "" then join cwd ".cache" else root) "openapi_refs"
