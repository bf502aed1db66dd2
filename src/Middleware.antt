-- ===== src/Middleware.antt =====
-- app/middleware: the ASGI layers around the pygeoapi application.
mod Tests
pub mod Scope
pub mod Responder
pub mod Proxy
pub mod Oauth2
pub mod Protected
pub mod Provider
pub mod Receive
