-- ===== src/Params.antt =====
-- application/AnimationParams.cpp and application/AnimationParams.h: the parameters of an application.
pub mod TextMap
pub mod Store
pub mod Updates
pub mod Transfer
mod Tests
