-- ===== src/Server.antt =====
-- server/Server.cpp, server/Server.h, server/App.cpp and server/App.h: the stack of applications.
pub mod Apps
pub mod Requests
pub mod Clients
pub mod Tick
pub mod Stack
pub mod Discipline
pub mod Effects
pub mod Runs
pub mod History
pub mod Histories
pub mod Drawing
pub mod Lifecycle
mod Tests
