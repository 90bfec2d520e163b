-- ===== src/Tunnel.antt =====
-- The SSH tunnel server, src/core/TunnelServer*.hpp and .cpp.
pub mod State
pub mod Configure
pub mod Listener
pub mod Server
pub mod Connection
pub mod Relaying
pub mod Serving
