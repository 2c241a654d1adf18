-- ===== src/Application.antt =====
-- application/MatrixApplication.cpp: an application's life and its frames.
pub mod Life
pub mod Handler
pub mod Answers
pub mod Frames
pub mod Defined
pub mod Connect
mod Tests
