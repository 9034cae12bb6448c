-- ===== src/Proxy.antt =====
-- src/proxy/: the SOCKS listener, the pool of SSH sessions behind it, and the tunnels between them.
pub mod Socks
mod Tests
pub mod Pool
pub mod Supervise
pub mod System
pub mod Run
pub mod Tunnel
pub mod Ssh
pub mod Client
