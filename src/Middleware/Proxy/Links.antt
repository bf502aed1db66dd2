-- ===== src/Middleware/Proxy/Links.antt =====
-- What the proxy layers change and what they keep.
use fastgeoapi.Base.{
  Result, ◌<>◌, true, err, key_error, String, ◌≡◌, ◌≢◌, ◌⊎◌, inl, inr, refl, ◌&&◌, none, some, ok,
  arith, Bool-cases, eq_iff, ◌==◌,
}
use fastgeoapi.Text.{replace}
use fastgeoapi.Middleware.Scope.{Scope, is_http, header}
use fastgeoapi.Middleware.Proxy.{rewrite_mount_root, Response, Headers}

mount_differs : ◌≢◌ {A = String} "/mcp/" "/mcp"
mount_differs e =
    let same : ("/mcp/" == "/mcp") ≡ true = (eq_iff "/mcp/" "/mcp").1 e in ground (arith, same)

-- No HTTP request reaches the router with the bare path of the mount; every other path, and the
-- method and the headers of every request, are as they came.
pub rewrite_mount_root-path :
    (scope : Scope)
    → (is_http scope ≡ true → (rewrite_mount_root scope).path ≢ "/mcp")
      × (scope.path ≢ "/mcp" → rewrite_mount_root scope ≡ scope)
      × ((rewrite_mount_root scope).method ≡ scope.method)
      × ((rewrite_mount_root scope).headers ≡ scope.headers)
unfolding rewrite_mount_root
rewrite_mount_root-path scope = elim (Bool-cases (is_http scope && (scope.path == "/mcp"))) [
  | inl bare ↦ rw bare (
    λ h e. mount_differs e,
    λ other. absurd (ground (arith, eq_iff scope.path "/mcp")),
    refl,
    refl,
  )
  | inr plain ↦
      rw plain (λ h e. ground (arith, eq_iff scope.path "/mcp"), λ other. refl, refl, refl)
]

-- Both forwarded headers are there and not empty, and name this base.
abbrev pub IsForwarded : Scope → String → Type 0
IsForwarded request base =
    (proto host : String) × (header "x-forwarded-proto" request.headers ≡ some proto)
    × (header "x-forwarded-host" request.headers ≡ some host)
    × (proto ≢ "")
    × (host ≢ "")
    × (base ≡ proto <> ("://" <> host))

-- The five types of content that have links.
abbrev pub HasLinks : String → Type 0
HasLinks content_type =
    (content_type ≡ "text/html")
    ⊎ (content_type ≡ "application/json")
    ⊎ (content_type ≡ "application/ld+json")
    ⊎ (content_type ≡ "application/schema+json")
    ⊎ (content_type ≡ "application/vnd.oai.openapi+json;version=3.0")

-- The links are replaced for this request and this response.
abbrev pub IsProxied : Scope → Response → String → Type 0
IsProxied request response base =
    IsForwarded request base
    × (content_type : String) × (header "content-type" response.headers ≡ some content_type)
    × HasLinks content_type

-- The body that a response has after the layer, by the request and what the application sent.
pub data HasBody (baseurl : String) (request : Scope) (response_ : Response) : String → Type 0 where
  with_links :
      (base : String)
      → IsProxied request response_ base
      → HasBody baseurl request response_ (replace baseurl base response_.body)
  as_it_was :
      ((base : String) → ¬ IsProxied request response_ base)
      → HasBody baseurl request response_ response_.body

-- What the layer comes to for a response: KeyError, where a forwarded request meets a response without
-- a type, or a response with this status, length and body.
abbrev pub Dispatched : Headers → String → Scope → Response → Result Response → Type 0
Dispatched starlette baseurl request response_ outcome =
    ((base : String) × IsForwarded request base
      × (header "content-type" response_.headers ≡ none)
      × (outcome ≡ err key_error))
    ⊎ ((response : Response) × (outcome ≡ ok response)
        × (response.status_code ≡ response_.status_code)
        × (header "content-length" response.headers ≡ some (starlette.content_length response.body))
        × HasBody baseurl request response_ response.body)
