-- ===== src/Mcp/Audience.antt =====
-- `patch_private_key_jwt_audience` of app/auth/mcp_auth_provider.py: the wrapped constructor gets a
-- token endpoint whose doubled slashes are collapsed, and the class is patched only once.
pub mod Collapse
use fastgeoapi.Base.{String, ◌<>◌, Bool, true, false, Option, none, some, if◌then◌else◌}
use fastgeoapi.Text.{partition, replace}

collapse : String → Option (String × String) → String
collapse url none = url
collapse url (some (scheme, rest)) = scheme <> ("://" <> replace "//" "/" rest)

-- What `patched_init` passes on as `token_endpoint_url`.
unfoldable pub patched_endpoint : String → String
unfolding collapse partition
patched_endpoint token_endpoint_url =
    collapse token_endpoint_url (partition "://" token_endpoint_url)

-- The class PrivateKeyJWTClientAuthenticator: its mark, and what its constructor does to the
-- endpoint.
pub record Authenticator : Type 0 where
  pub patched : Bool
  pub init : String → String

-- patch_private_key_jwt_audience
unfoldable pub patch_audience : Authenticator → Authenticator
unfolding patched_endpoint
patch_audience cls =
    if cls.patched
    then cls
    else record { patched = true; init = λ url. cls.init (patched_endpoint url) }
