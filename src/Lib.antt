-- ===== src/Lib.antt =====
-- A verification library for fastgeoapi, a FastAPI application that serves pygeoapi behind an
-- authentication layer and can offer it as an MCP server.
--
-- How the program is put together, and which file models which part:
--   - Base, Text, Json: Python's exceptions as the errors of a result type, its dicts, texts and JSON
--     values. Base.Exec is the type of code with state and exceptions, from a state to a result
--     and a state, where an exception keeps the effects made before it.
--   - Resolver: app/utils/openapi_resolver.py. `resolve_external_refs` replaces the external
--     references of an OpenAPI document by what they refer to. Resolver.Cache has the documents of a
--     run in memory and the cache files on disk, Resolver.Refs the URLs and fragments,
--     Resolver.Objects the recursion over a document, Resolver.Counting the tests for references.
--     Resolver.Spec is the description without caches that the theorems compare it with, and
--     Resolver.Shape the relation between a document and what it is resolved to.
--   - Auth: app/auth/auth_jwks.py. `decode_token` and `authenticate` of JWKSAuthentication as chains of
--     checks that may raise.
--   - Middleware: the ASGI layers. Middleware.Oauth2 and Middleware.Receive are
--     app/middleware/oauth2.py, Middleware.Provider is app/auth/oauth2.py and app/config/auth.py,
--     Middleware.Protected puts the JWKS authentication behind the layer, Middleware.Responder is
--     app/middleware/pygeoapi.py and Middleware.Proxy is app/middleware/proxy.py.
--   - Mcp: app/auth/mcp_auth_provider.py. Mcp.Bearer is RFC6750CompliantAuthMiddleware, Mcp.Settings the
--     arguments of the OIDC proxy, Mcp.Audience the patch of the token endpoint,
--     Mcp.Patched the layers of the provider and both patches of fastmcp.
--   - App: app/main.py, app/cli.py and the settings of app/config/app.py. App.Startup is
--     `_build_pygeoapi_subapp` with `patch_route`, App.Modes the layers that `create_app` chooses,
--     App.Stack those layers at work, App.McpServer `create_mcp_server` with the discovery routes,
--     App.Lifespan `combined_lifespan`, App.Root the root application with its probes and mounts and
--     the end of the module, App.Command the `openapi` and `run` commands, and App.Generator is
--     app/utils/openapi_generator.py. App.Settings is app/config/app.py, from the environment to what
--     the application reads, and App.Program puts the routes, the layers and the MCP server together
--     and answers requests one after the other.
--   - Openapi: app/pygeoapi/openapi.py, the security sections and the corrected schema, and in
--     Openapi.Generation the document that is generated with it.
--   - Conformance: app/pygeoapi/api/conformance.py, the advertised classes and their page.
--   - Pygeoapi: app/pygeoapi/api/__init__.py and app/pygeoapi/starlette_app.py, the patch of
--     `validate_datetime` and the responses.
--   - Docker: scripts/docker/build.py, the command that builds the image. Nox: noxfile.py, the sessions
--     as the commands that they run, and the git hooks.
--   - Logging: app/config/logging.py. Service: app/utils/service_result.py, app_exceptions.py and
--     request_exceptions.py.
-- The parts meet as in the program: `create_app` stacks the layers, the OAuth2 layer asks the JWKS
-- authentication, the responder sends what `augment_security` makes of the document, the MCP server is
-- built from the document that the resolver returns, the conformance page goes through `get_response`,
-- and the readiness probe looks for the file that the generator writes.
--
-- Code outside the repository is a parameter: the network, the clock, the file system, the parsers of
-- YAML and JSON, urljoin and the digest of a URL (Resolver.Env); authlib and the key server
-- (Auth.Jwks.Jose); re.match; openapi_pydantic; Starlette's routes, responses and headers; the modules
-- of pygeoapi; FastMCP and the MCP SDK; loguru; pydantic's reading of the environment; the processes
-- that a script or a session runs. What a theorem needs of one of them is a named hypothesis, and each
-- has an instance in the Tests modules.
--
-- Bounds: the recursion of the resolver runs on fuel, which counts the frames of Python's recursion
-- limit, and RecursionError is its end. A theorem on results without a limit says that some limit is
-- enough exactly where the relation Expands holds; for a document without external references the
-- depth of the document is enough. Numbers in JSON values are natural numbers, since the program
-- copies them or tests them for zero only. Texts are compared by their characters.
--
-- JSON values have texts as keys and no dates, so a document of YAML with other keys or with dates is
-- not a value here; that `json.load` gives back what `json.dump` put out is a hypothesis where a
-- theorem needs it, and `json.dump` may raise.
--
-- Not modelled: the lines that are logged; how pydantic finds a name in the environment and reads a
-- truth value or a number; the OPA and API key layers inside fastapi_opa and fastapi_key_auth, and
-- Starlette's CORS layer, which are functions here; what FastMCP does with its arguments, beyond the
-- routes, the guard and the tools of App.Program; what uvicorn does; and what the commands of a session
-- do, which install packages and check the sources.
pub mod Base
pub mod Text
pub mod Json
pub mod Resolver
pub mod Auth
pub mod Middleware
pub mod Mcp
pub mod App
pub mod Openapi
pub mod Conformance
pub mod Pygeoapi
pub mod Logging
pub mod Docker
pub mod Nox
pub mod Service
