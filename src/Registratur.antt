-- ===== src/Registratur.antt =====
-- registratur/src: the client of an image registry.
pub mod Domain
pub mod Http
pub mod WwwAuthenticate
pub mod Client
