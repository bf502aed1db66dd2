-- ===== src/App.antt =====
-- app/main.py and the `openapi` command of app/cli.py: how the application is put together.
mod Tests
pub mod Config
pub mod Settings
pub mod Modes
pub mod McpServer
pub mod Command
pub mod Startup
pub mod Root
pub mod Program
pub mod Lifespan
pub mod Stack
pub mod Generator
