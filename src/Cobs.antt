-- ===== src/Cobs.antt =====
-- common/Cobs.cpp and common/Cobs.h: the byte stuffing of a socket's messages.
-- A byte is a number below 256; `size_t` is taken unbounded.
pub mod Defs
pub mod Frame
pub mod Encode
pub mod Decode
pub mod Total
pub mod Wire
pub mod Stream
mod Tests
