-- ===== src/App/Startup.antt =====
-- How the application is put together in app/main.py: `_build_pygeoapi_subapp` with the routes that
-- app/utils/pygeoapi_utils.py patches, and the exceptions that the start and the `openapi` command
-- of app/cli.py translate.
pub mod Patched
pub mod Tests
use fastgeoapi.Base.{
  String, Bool, true, false, Option, none, some, List, [], ◌∷◌, map, Result, ok, err, Exception,
  file_not_found, os_error, locale_error, pygeoapi_env_error, pygeoapi_language_error, ◌==◌,
  if◌then◌else◌,
}
use fastgeoapi.Base.Errors.{◌>>=◌}
use fastgeoapi.App.McpServer.{Route}

-- The `except` clauses of both. FileNotFoundError is an OSError, and stands before it.
unfoldable pub startup_error : Exception → Exception
startup_error file_not_found = file_not_found
startup_error os_error = pygeoapi_env_error
startup_error locale_error = pygeoapi_language_error
startup_error e = e

unfoldable pub translate_startup {ℓ} : {A : Type ℓ} → Result A → Result A
unfolding startup_error
translate_startup (ok a) = ok a
translate_startup (err e) = err (startup_error e)

-- What the code reads of pygeoapi's application: its first route, and the routes of the API that
-- the second one mounts.
pub record PygeoapiApp : Type 0 where
  pub static_route : Route
  pub api_routes : List Route
  pub url_prefix : Option String

-- The routes of the sub-application: the static one and a mount.
pub record PygeoapiSubApp : Type 0 where
  pub static_route : Route
  pub mount_path : String
  pub routes : List Route

-- url_prefix or "/"
prefix_or_root : Option String → String
prefix_or_root none = "/"
prefix_or_root (some prefix) = if prefix == "" then "/" else prefix

-- `new_route` is Starlette's constructor, of a path and an endpoint.
module _ (new_route : String → String → Route) where
  unfoldable pub patch_route : Route → Route
  patch_route route =
      if route.path == "/conformance"
      then new_route "/conformance" "patched_conformance"
      else if route.path == "/jobs/{job_id}/results"
      then new_route "/jobs/{job_id}/results" "patched_get_job_result"
      else route

  unfoldable pub patched_app : PygeoapiApp → PygeoapiSubApp
  unfolding patch_route prefix_or_root
  patched_app app = record {
    static_route = app.static_route;
    mount_path = prefix_or_root app.url_prefix;
    routes = map patch_route app.api_routes;
  }

  -- `import_app` is the import of pygeoapi's application, which reads its configuration.
  unfoldable pub build_pygeoapi_subapp : Result PygeoapiApp → Result PygeoapiSubApp
  unfolding translate_startup patched_app
  build_pygeoapi_subapp import_app = translate_startup (import_app >>= λ app. ok (patched_app app))
