-- ===== src/Base.antt =====
-- The names that the other modules share: the libraries', passed on, and those of four children.
mod Tests
pub mod Errors
pub mod Exec
pub mod Dict
pub mod Int
pub use Tests.*
pub use Errors.{Exception, Result, ok, err, >>=-eq-ok, >>=-ok, Result-cases}
pub use Errors.{
  key_error, type_error, value_error, attribute_error, index_error, recursion_error, os_error,
  file_not_found, unbound_local_error, overflow_error, assertion_error, request_error, decode_error,
  expired_token_error, jose_error, oauth2_error, mcp_auth_misconfigured_error, pygeoapi_env_error,
  pygeoapi_language_error, locale_error, provider_connection_error, called_process_error,
  abort_error, other_error,
}
pub use Prim.Native.Nat.{ℕ, zero, suc, ◌+◌, ◌-◌, ◌≤◌, ◌<◌, max}
pub use Prim.Native.String.{String, ◌++◌ as ◌<>◌}
pub use mathlib.Core.Path.{◌≡◌, refl, sym, ap, ap₂, ◌∙◌}
pub use mathlib.Core.Logic.{◌≢◌, ◌↔◌, ◌⊎◌, inl, inr}
pub use mathlib.Core.Bool.{Bool, true, false, not, ◌&&◌, ◌||◌}
pub use mathlib.Core.Option.{Option, none, some}
pub use mathlib.Core.List.{List, [], ◌∷◌, ◌++◌, map}
pub use native.Mathlib.Omega.{arith}
pub use text.Mathlib.Text.{◌==◌}
pub use text.Mathlib.TextEquality.{eq_iff}
pub use text.Mathlib.TextPositions.{eq_refl}
