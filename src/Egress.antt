-- ===== src/Egress.antt =====
-- The egress proxy of the browser runtime, services/clouddeskd/src/browser_egress_proxy.rs.
pub mod Address
pub mod Policy
pub mod Proxy
pub mod Safety
pub mod Verbatim
mod Tests
