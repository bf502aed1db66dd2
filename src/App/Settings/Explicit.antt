-- ===== src/App/Settings/Explicit.antt =====
-- From the environment to the MCP server: what has to be set for one without authentication.
use fastgeoapi.Base.{
  String, ◌≡◌, ◌≢◌, refl, ap, ◌∙◌, Bool, true, false, Option, none, some, Result, ok, err, arith,
  Option-cases, inl, inr, >>=-eq-ok,
}
use fastgeoapi.Base.Errors.{◌>>=◌}
use fastgeoapi.App.Config.{Config}
use fastgeoapi.App.McpServer.{McpServer, is_auth_configured, create_mcp_server}
use fastgeoapi.App.McpServer.FailClosed.{create_mcp_server_auth}
use fastgeoapi.App.Root.{RootApp, World, root_of, create_root, mount_mcp, with_server, start_app}
use fastgeoapi.App.Root.Routing.{create_root-eq}
use fastgeoapi.App.Settings.{
  Environment, Settings, required, optional, flag, parsed, settings, config_of,
}

-- The variable of that name is set to a text that pydantic reads as true.
abbrev pub IsSetTrue : Environment → String → String → Type 0
IsSetTrue environment env_prefix name =
    (text : String) × (environment.field env_prefix name ≡ some text)
    × (environment.parse_bool text ≡ some true)

flag-true :
    (environment : Environment) (found : Option String)
    → flag environment.parse_bool false found ≡ ok true
    → (text : String) × (found ≡ some text) × (environment.parse_bool text ≡ some true)
unfolding flag parsed
flag-true environment none h = absurd (ground (arith, h))
flag-true environment (some text) h = elim (Option-cases (environment.parse_bool text)) [
  | inl unread ↦ absurd (ground (arith, unread))
  | inr (b, found) ↦ (text, refl, ground (arith, found))
]

-- What a chain returns, if it returns, has `P`.
record Returns {ℓ} {A : Type ℓ} (P : A → Type ℓ) (r : Result A) : Type ℓ where
  has : (a : A) → r ≡ ok a → P a

Returns-ok {ℓ} : {A : Type ℓ} {P : A → Type ℓ} {a : A} → P a → Returns P (ok a)
Returns-ok {a = a} h = record { has = λ b e. let same : a ≡ b = ground (arith, e) in rw (← same) h }

Returns-bind {ℓ} :
    {A B : Type ℓ} {P : B → Type ℓ} (m : Result A) (f : A → Result B)
    → ((a : A) → m ≡ ok a → Returns P (f a))
    → Returns P (m >>= f)
Returns-bind (ok a) f h = h a refl
Returns-bind (err e) f h = record { has = λ b wrong. absurd (ground (arith, wrong)) }

-- The two settings of the MCP server are what their variables say.
abbrev HasFlags : Environment → String → Settings → Type 0
HasFlags environment env_prefix s =
    (flag environment.parse_bool false (environment.field env_prefix "FASTGEOAPI_WITH_MCP")
      ≡ ok s.fastgeoapi_with_mcp)
    × (flag environment.parse_bool false
          (environment.field env_prefix "FASTGEOAPI_MCP_ALLOW_UNAUTHENTICATED")
        ≡ ok s.fastgeoapi_mcp_allow_unauthenticated)

settings-HasFlags :
    (environment : Environment) (env_prefix : String)
    → Returns (HasFlags environment env_prefix) (settings environment env_prefix)
unfolding settings
settings-HasFlags environment env_prefix =
    let read = λ (name : String). environment.field env_prefix name in
    Returns-bind (required (environment.alias "HOST")) _ (λ host _.
      Returns-bind (required (environment.alias "PORT")) _ (λ port _.
        Returns-bind (optional environment.parse_bool (read "AWS_LAMBDA_DEPLOY")) _
          (λ aws_lambda_deploy _.
            Returns-bind (flag environment.parse_bool true (read "LOG_ENQUEUE")) _ (λ log_enqueue _.
              Returns-bind (optional environment.parse_bool (read "OPA_ENABLED")) _
                (λ opa_enabled _.
                  Returns-bind (optional environment.parse_bool (read "API_KEY_ENABLED")) _
                    (λ api_key_enabled _.
                      Returns-bind (optional environment.parse_bool (read "JWKS_ENABLED")) _
                        (λ jwks_enabled _.
                          Returns-bind (required (read "PYGEOAPI_BASEURL")) _ (λ baseurl _.
                            Returns-bind (required (read "PYGEOAPI_CONFIG")) _ (λ config _.
                              Returns-bind (required (read "PYGEOAPI_OPENAPI")) _ (λ openapi _.
                                Returns-bind (required (read "FASTGEOAPI_CONTEXT")) _ (λ context _.
                                  Returns-bind
                                    (optional environment.parse_bool
                                      (read "FASTGEOAPI_REVERSE_PROXY"))
                                    _
                                    (λ reverse_proxy _.
                                      Returns-bind
                                        (flag environment.parse_bool false
                                          (read "FASTGEOAPI_WITH_MCP"))
                                        _
                                        (λ with_mcp set.
                                          Returns-bind
                                            (flag environment.parse_bool false
                                              (read "FASTGEOAPI_MCP_ALLOW_UNAUTHENTICATED"))
                                            _
                                            (λ allow allowed.
                                              Returns-bind
                                                (optional environment.parse_int (
                                                  read
                                                    "FASTGEOAPI_MCP_ACCESS_TOKEN_EXPIRY_SECONDS"))
                                                _
                                                (λ expiry _.
                                                  Returns-ok (set, allowed))))))))))))))))

no_server :
    (world : World) (cfg : Config) (app : RootApp) (server : McpServer)
    → create_root world cfg false ≡ ok app
    → app.mcp ≢ some server
unfolding root_of
no_server world cfg app server h e =
    let (api, made, is_root) = create_root-eq world cfg false app h in
    let absent : none ≡ some server = ap (λ a. a.mcp) is_root ∙ e in absurd (ground arith)

with_server-created :
    (world : World) (cfg : Config) (created : Option McpServer) (app : RootApp) (server : McpServer)
    → with_server world cfg created ≡ ok app
    → app.mcp ≡ some server
    → created ≡ some server
unfolding with_server mount_mcp
with_server-created world cfg none app server h e = absurd (no_server world cfg app server h e)
with_server-created world cfg (some created) app server h e =
    let (root, made, last) =
      >>=-eq-ok (create_root world cfg true) (λ root. ok (mount_mcp world cfg created root)) h in
    let is_app : mount_mcp world cfg created root ≡ app = ground arith in ap (λ a. a.mcp) is_app ∙ e

-- The MCP server of an application that started was asked for, and created for it.
start_app-created :
    (world : World) (cfg : Config) (with_mcp : Bool) (app : RootApp) (server : McpServer)
    → start_app world cfg with_mcp ≡ ok app
    → app.mcp ≡ some server
    → (with_mcp ≡ true) × (create_mcp_server none world.around cfg ≡ ok (some server))
unfolding start_app
start_app-created world cfg true app server h e =
    let (created, found, started) =
      >>=-eq-ok (create_mcp_server none world.around cfg) (with_server world cfg) h in
    (refl, found ∙ ap ok (with_server-created world cfg created app server started e))
start_app-created world cfg false app server h e = absurd (no_server world cfg app server h e)

-- From the environment to the server: an application with an MCP server without authentication is only
-- started where FASTGEOAPI_WITH_MCP and FASTGEOAPI_MCP_ALLOW_UNAUTHENTICATED are both set, under the
-- prefix of the state, to texts that are read as true, and JWKS or the OIDC endpoint is missing.
pub start_app-IsSetTrue :
    (environment : Environment) (env_prefix : String) (s : Settings)
    (oidc_client_id oidc_client_secret : String) (world : World) (app : RootApp)
    (server : McpServer)
    → settings environment env_prefix ≡ ok s
    → let cfg = config_of s oidc_client_id oidc_client_secret in
      start_app world cfg s.fastgeoapi_with_mcp ≡ ok app
      → app.mcp ≡ some server
      → server.auth ≡ none
      → IsSetTrue environment env_prefix "FASTGEOAPI_WITH_MCP"
        × IsSetTrue environment env_prefix "FASTGEOAPI_MCP_ALLOW_UNAUTHENTICATED"
        × (is_auth_configured cfg ≡ false)
unfolding config_of
start_app-IsSetTrue environment env_prefix s oidc_client_id oidc_client_secret world app server
      loaded started has_server open_server =
    let cfg = config_of s oidc_client_id oidc_client_secret in
    let (mcp_set, allow_set) = (settings-HasFlags environment env_prefix).has s loaded in
    let (with_mcp, created) =
      start_app-created world cfg s.fastgeoapi_with_mcp app server started has_server in
    let (missing, allowed) =
      ((create_mcp_server_auth none world.around cfg server created).0).0 open_server in
    (
      flag-true environment _ (mcp_set ∙ ap ok with_mcp),
      flag-true environment _ (allow_set ∙ ap ok allowed),
      missing,
    )
