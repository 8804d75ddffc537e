-- ===== src/ContainerdShim.antt =====
-- containerd-shim/src: the task service of containerd over the OCI operations.
pub mod Host
pub mod Extensions
pub mod TaskService
