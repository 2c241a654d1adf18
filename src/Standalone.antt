-- ===== src/Standalone.antt =====
-- application/MatrixApplicationStandalone.cpp: an application that drives the panels itself.
pub mod Setup
pub mod Threads
pub mod Sync
pub mod MainSteps
pub mod RenderSteps
pub mod Frames
mod Tests
