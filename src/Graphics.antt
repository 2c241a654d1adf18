-- ===== src/Graphics.antt =====
-- common/Color.cpp and common/Screen.cpp: colours and the pixels of one panel.
pub mod Color
pub mod Screen
pub mod Pixels
pub mod Draws
mod Tests
