-- ===== src/Setup.antt =====
-- server/ServerSetup.cpp, server/RendererFactory.cpp and server/main.cpp: how the server starts.
pub mod Defaults
pub mod Screens
pub mod Warnings
pub mod DefaultCube
pub mod Files
pub mod Restart
pub mod Start
pub mod Backends
pub mod Service
mod Tests
