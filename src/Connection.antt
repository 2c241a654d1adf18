-- ===== src/Connection.antt =====
-- The two queued connections: common/SocketConnection.cpp for applications, and
-- renderer/WebSocketSimulatorRenderer/WsSession.h for the browser.
pub mod Socket
pub mod Queue
pub mod Drain
pub mod Receive
pub mod Sending
pub mod Session
pub mod Ipc
pub mod Handshake
mod StoredQueues
mod Tests
