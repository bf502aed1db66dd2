-- ===== src/Nox.antt =====
-- noxfile.py: the sessions that lint, test and document the program.
pub mod Branch
pub mod Hooks
pub mod Session
pub mod Sessions
pub mod Installs
pub mod Patched
mod Tests
