-- ===== src/Netzwerk.antt =====
-- netzwerk/src: interfaces, address ranges and the NAT of the host.
pub mod Interface
pub mod Range
pub mod Pf
pub mod PfRequests
pub mod Route
pub mod RouteMessages
