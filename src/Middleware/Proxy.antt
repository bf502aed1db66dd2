-- ===== src/Middleware/Proxy.antt =====
-- app/middleware/proxy.py: the path of the MCP mount, and the links behind a reverse proxy.
pub mod Links
use fastgeoapi.Base.{
  ℕ, String, ◌<>◌, Bool, true, false, ◌&&◌, ◌||◌, Option, none, some, List, [], ◌∷◌, Result, ok,
  err, key_error, ◌==◌, if◌then◌else◌,
}
use fastgeoapi.Base.Errors.{◌>>=◌}
use fastgeoapi.Text.{replace}
use fastgeoapi.App.Config.{is_set}
use fastgeoapi.Middleware.Scope.{Scope, is_http, header}

-- MCPMountRootRewriteMiddleware: the scope that the inner application gets.
unfoldable pub rewrite_mount_root : Scope → Scope
rewrite_mount_root scope =
    if is_http scope && (scope.path == "/mcp") then record scope { path = "/mcp/" } else scope

pub record Response : Type 0 where
  pub status_code : ℕ
  pub headers : List (String × String)
  pub body : String

-- What Starlette's Response does: the headers of a response that is built from a body and headers,
-- the assignment to a header, and the text of the length of a body.
pub record Headers : Type 0 where
  pub init_headers : String → List (String × String) → List (String × String)
  pub set_header : String → String → List (String × String) → List (String × String)
  pub content_length : String → String

unfoldable pub is_text_type : String → Bool
is_text_type content_type =
    content_type == "text/html"
    || content_type == "application/json"
    || content_type == "application/ld+json"
    || content_type == "application/schema+json"
    || content_type == "application/vnd.oai.openapi+json;version=3.0"

unfoldable pub text_of : Option String → String
text_of none = ""
text_of (some text) = text

-- Where both headers are there and not empty: f"{proto}://{host}"
unfoldable pub proxied_base_url : Scope → Option String
unfolding text_of is_set
proxied_base_url request =
    let proto = header "x-forwarded-proto" request.headers in
    let host = header "x-forwarded-host" request.headers in
    if is_set proto && is_set host then some (text_of proto <> ("://" <> text_of host)) else none

-- response_.headers["content-type"]
unfoldable pub content_type_of : Option String → Result String
content_type_of none = err key_error
content_type_of (some content_type) = ok content_type

module _ (starlette : Headers) (pygeoapi_baseurl : String) where
  unfoldable pub rebuild : String → Response → Response
  rebuild text response = record response {
    headers = starlette.init_headers text response.headers;
    body = text;
  }

  -- the response with the links replaced, and the header that names the new base
  unfoldable pub proxied : String → Response → Response
  unfolding rebuild
  proxied base response =
      let replaced = rebuild (replace pygeoapi_baseurl base response.body) response in
      record replaced {
        headers = starlette.set_header "x-pygeoapi-forwarded-url" base replaced.headers;
      }

  unfoldable pub choose_response : Option String → Response → Result Response
  unfolding proxied content_type_of is_text_type
  choose_response none response = ok (rebuild response.body response)
  choose_response (some base) response = do
    content_type ← content_type_of (header "content-type" response.headers)
    ok (if is_text_type content_type then proxied base response else rebuild response.body response)

  unfoldable pub with_content_length : Response → Response
  with_content_length response = record response {
    headers =
        starlette.set_header "content-length" (starlette.content_length response.body)
          response.headers;
  }

  -- ForwardedLinksMiddleware.dispatch, on the response that `call_next` came to
  unfoldable pub dispatch : Scope → Response → Result Response
  unfolding choose_response with_content_length proxied_base_url
  dispatch request response_ = do
    response ← choose_response (proxied_base_url request) response_
    ok (with_content_length response)
