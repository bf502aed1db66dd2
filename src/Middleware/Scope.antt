-- ===== src/Middleware/Scope.antt =====
-- What the layers read of an ASGI scope and of the request in it.
use fastgeoapi.Base.{
  String, ◌≡◌, ◌⊎◌, inl, inr, refl, Bool, true, false, Option, none, some, List, [], ◌∷◌, ◌==◌,
  if◌then◌else◌,
}

pub data ScopeType : Type 0 where
  http websocket lifespan : ScopeType

pub ScopeType-cases : (t : ScopeType) → (t ≡ lifespan) ⊎ (t ≡ websocket) ⊎ (t ≡ http)
ScopeType-cases http = inr (inr refl)
ScopeType-cases websocket = inr (inl refl)
ScopeType-cases lifespan = inl refl

pub record Scope : Type 0 where
  pub type : ScopeType
  pub path : String
  pub method : String
  -- the headers in their order, names in lower case
  pub headers : List (String × String)

-- scope["type"] == "http"
abbrev pub is_http : Scope → Bool
is_http scope = elim scope.type [ http ↦ true | _ ↦ false ]

-- request.headers.get(name): the first header of that name
unfoldable pub header : String → List (String × String) → Option String
header name [] = none
header name ((k, v) ∷ headers) = if k == name then some v else header name headers
