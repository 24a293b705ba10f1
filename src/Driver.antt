-- ===== src/Driver.antt =====
-- pkg/driver: the CSI services.
pub mod Identity
pub mod Node
pub mod Capability
pub mod Controller
pub mod Publish
pub mod Server
