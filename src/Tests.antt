-- ===== src/Tests.antt =====
-- A concrete platform, and the theorems at concrete inputs on it. No code of src/ stands here.
pub mod World
pub mod Client
pub mod Port
pub mod Tunnel
pub mod Loader
pub mod Example
pub mod Module
pub mod Turns
pub mod Many
pub mod Relaying
pub mod Threads
pub mod File
pub mod Forwarding
