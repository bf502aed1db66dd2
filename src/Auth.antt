-- ===== src/Auth.antt =====
-- app/auth: the authentication by a JSON Web Key Set.
pub mod Tests
pub mod Jwks
