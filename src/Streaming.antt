-- ===== src/Streaming.antt =====
-- The streaming service, streaming/src/stream.
pub mod Breaker
pub mod Cookie
pub mod CookiesPool
pub mod Handler
pub mod Hls
pub mod Oauth
pub mod Playlist
pub mod Restricted
mod RequestTests
mod Tests
