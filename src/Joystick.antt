-- ===== src/Joystick.antt =====
-- common/Joystick.cpp: the joysticks of a simulator and what an application reads of them.
pub mod Simulator
pub mod Presses
mod Tests
