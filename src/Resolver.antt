-- ===== src/Resolver.antt =====
-- app/utils/openapi_resolver.py, a module for each layer of it and for what is proved.
pub mod Env
pub mod Cache
pub mod Refs
pub mod Objects
pub mod Counting
pub mod Spec
pub mod Expansion
pub mod Transparent
pub mod Resolved
pub mod Unchanged
pub mod Shape
pub mod Termination
pub mod Cycles
pub mod Fetching
pub mod Requests
pub mod DiskCache
pub mod Fragments
mod Tests
