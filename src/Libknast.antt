-- ===== src/Libknast.antt =====
-- libknast/src: mounting, the network of a container and the OCI operations.
pub mod Filesystem
pub mod World
pub mod AddressPool
pub mod Network
pub mod Processes
pub mod Bundle
pub mod Operations
