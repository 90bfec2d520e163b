-- ===== src/Port.antt =====
-- Port forwarding, namespace `bookfiler::port` (src/core/PortForwardingServer*.hpp and .cpp).
pub mod State
pub mod Configure
pub mod Connection
pub mod Listener
pub mod Server
