-- ===== src/Cube.antt =====
-- application/CubeApplication.cpp: the six panels as the faces of a cube.
pub mod Points
pub mod Drawing
pub mod Plane
pub mod Bresenham
pub mod LineRange
pub mod PlaneLines
pub mod Font
pub mod FontCells
pub mod Text
pub mod TextPoints
pub mod TextLayout
pub mod Surface
pub mod Lines
mod Tests
