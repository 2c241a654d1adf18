-- ===== src/Renderer.antt =====
-- renderer/: what the renderers do with the frames, before the device or the network.
pub mod Rotation
pub mod Turned
pub mod Spi
pub mod SpiRows
pub mod SpiFrame
pub mod WebSocket
pub mod Newest
pub mod Browsers
mod Tests
