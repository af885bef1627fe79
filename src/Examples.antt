-- ===== src/Examples.antt =====
-- The theorems at concrete inputs, and runs of the code.
mod Frames
mod Sessions
mod Server
mod Tunnels
mod Limits
mod Edge
mod Custom
