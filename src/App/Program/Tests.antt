-- ===== src/App/Program/Tests.antt =====
-- Requests to an application with the MCP server: to a probe, to the API and to the MCP root.
use fastgeoapi.Base.{All, ◌≡◌, refl, true, false, none, some, List, [], ◌∷◌, ok}
use fastgeoapi.Middleware.Scope.{Scope}
use fastgeoapi.Middleware.Responder.{start, body}
use fastgeoapi.App.Config.{is_set}
use fastgeoapi.App.Tests.{cfg, server}
use fastgeoapi.App.McpServer.{is_auth_configured}
use fastgeoapi.App.Stack.{Asgi}
use fastgeoapi.App.Stack.Tests.{packages, settings, page, broken, anonymous}
use fastgeoapi.App.Root.Tests.{world, started, starts, matches, probe}
use fastgeoapi.Text.{ends_with}
use fastgeoapi.Mcp.Bearer.{lacks}
use fastgeoapi.Middleware.Proxy.{rewrite_mount_root}
use fastgeoapi.App.McpServer.{mount_well_known}
use fastgeoapi.App.Root.{mcp_mount, root_of, mount_mcp, discovery_routes, handle}
use fastgeoapi.App.Root.Routing.{routed}
use fastgeoapi.App.Program.{McpPackages, Endpoints, simple, answer_request, answer_all}
use fastgeoapi.App.Program.Admitted.{Reaches, by_mcp, answer_request-Reaches}
use fastgeoapi.App.Program.Sealed.{AnswersAgree, answer_all-AnswersAgree}

abbrev mcp : McpPackages
mcp = record {
  provider_routes = λ scope. none;
  authenticated = λ scope. record {
    type = scope.type;
    headers = scope.headers;
    is_authenticated = false;
    auth_scopes = none;
  };
  auth_error_response = λ status error description. start status [] none ∷ body error false ∷ [];
  required_scopes = "openid" ∷ [];
  resource_metadata_url = none;
  tools = λ app. app;
}

abbrev endpoints : Endpoints
endpoints = record {
  endpoint = λ route scope. ok (body route.endpoint false ∷ []);
  no_route = λ scope. ok (start 404 [] none ∷ []);
  cors = λ arguments. record {
    preflight_response = λ scope. none;
    simple_response = λ scope messages. messages;
  };
}

abbrev requests : List Scope
requests = probe ∷ record anonymous { path = "/mcp" } ∷ record anonymous { path = "/geoapi" } ∷ []

configured : is_auth_configured cfg ≡ true
unfolding is_auth_configured is_set
configured = refl

-- One that always answers, and one that fails from the second request on.
abbrev steady : List Scope → Asgi
steady earlier = page

abbrev failing : List Scope → Asgi
failing [] = page
failing (scope ∷ earlier) = broken

answer_all-AnswersAgree_example :
    AnswersAgree packages settings mcp endpoints matches started requests
      (answer_all packages settings mcp endpoints matches started true steady false [] requests)
      (answer_all packages settings mcp endpoints matches started true failing false [] requests)
answer_all-AnswersAgree_example =
    answer_all-AnswersAgree packages settings mcp endpoints matches world cfg true started true
      false steady failing requests starts configured

-- A user that the SDK has authenticated for the required scope.
abbrev mcp_of_user : McpPackages
mcp_of_user = record mcp {
  authenticated = λ scope. record {
    type = scope.type;
    headers = scope.headers;
    is_authenticated = true;
    auth_scopes = some ("openid" ∷ []);
  };
}

abbrev call : Scope
call = record anonymous { path = "/mcp" }

has_scope :
    All
      (λ r. lacks (mcp_of_user.authenticated (routed started call)).auth_scopes r ≡ false)
      mcp_of_user.required_scopes
unfolding lacks
has_scope = (refl, tt)

takes_call : handle matches started call ≡ some mcp_mount
unfolding handle matches mount_mcp root_of discovery_routes mount_well_known rewrite_mount_root
    ends_with
takes_call = refl

call-Reaches :
    Reaches packages settings mcp_of_user endpoints matches cfg started page
      (routed started call)
      (handle matches started call)
      (page (routed started call))
unfolding mount_mcp
call-Reaches = rw takes_call (by_mcp server refl refl refl has_scope)

answer_request-Reaches_example :
    (answer_request packages settings mcp_of_user endpoints matches started true page false call).1
    ≡ simple packages settings mcp_of_user endpoints matches
        (routed started call)
        (page (routed started call))
answer_request-Reaches_example =
    answer_request-Reaches packages settings mcp_of_user endpoints matches world cfg true started
      true false page call (page (routed started call)) starts configured refl call-Reaches
