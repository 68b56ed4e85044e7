-- ===== src/Server.antt =====
-- server/src: the HTTP service beside the engine. Its modules follow the files of that folder.
pub mod Ascii
pub mod Numerals
pub mod Bytes
pub mod Auth
pub mod Crypto
pub mod RequestLog
pub mod RateLimiter
pub mod Http
pub mod Service
