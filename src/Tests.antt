-- ===== src/Tests.antt =====
-- Concrete inputs on which the theorems are applied: a host whose calls succeed, an SQLite file, and
-- formats of the stored types.
mod World
mod Registry
mod Words
mod Codecs
mod Images
mod Archives
mod Builds
mod Shim
mod Formats
mod Storage
mod Operations
mod Bundle
mod Network
mod Texts
