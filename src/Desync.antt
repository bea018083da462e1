-- ===== src/Desync.antt =====
-- utils/dpi-desync: a local SOCKS5 proxy that cuts the first bytes of a connection, the TLS
-- ClientHello, so that no single segment or record shows the host name.
pub mod Hello
pub mod Strategy
pub mod Tamper
pub mod Socks
mod Tests
