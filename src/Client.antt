-- ===== src/Client.antt =====
-- The SSH client, src/core/Client.hpp and src/core/Client.cpp.
pub mod State
pub mod Configure
pub mod Object
pub mod Channel
pub mod Loop
pub mod Session
