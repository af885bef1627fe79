-- ===== src/Server.antt =====
-- The tunnel server's own limits (internal/server).
pub mod Pending
pub mod Budget
pub mod Held
pub mod Pin
pub mod Ports
pub mod Names
pub mod CustomDomain
pub mod Tunnels
pub mod Edge
