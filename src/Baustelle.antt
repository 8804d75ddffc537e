-- ===== src/Baustelle.antt =====
-- baustelle/src: images are fetched, unpacked and turned into bundles.
pub mod User
pub mod RuntimeConfig
pub mod Fetcher
pub mod Archive
pub mod Unpacker
pub mod Containerfile
