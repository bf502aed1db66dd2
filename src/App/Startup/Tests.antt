-- ===== src/App/Startup/Tests.antt =====
-- An application of pygeoapi with a route that is patched and one that is not.
use fastgeoapi.Base.{String, true, none, [], ◌∷◌}
use fastgeoapi.App.McpServer.{Route}
use fastgeoapi.App.Startup.{PygeoapiApp}

abbrev pub route : String → String → Route
route path endpoint = record { is_route = true; path = path; endpoint = endpoint; methods = [] }

abbrev pub pygeoapi : PygeoapiApp
pygeoapi = record {
  static_route = route "/static" "static";
  api_routes = route "/conformance" "conformance" ∷ route "/collections" "collections" ∷ [];
  url_prefix = none;
}
