-- ===== src/Tests.antt =====
-- Runs of the definitions on concrete inputs, and the theorems at concrete inputs.
pub mod Libraries
mod Ports
mod OnManager
mod OnRelay
mod OnServer
mod OnIpLock
mod OnAcl
mod OnAead
mod OnCache
