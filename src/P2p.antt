-- ===== src/P2p.antt =====
-- src/p2p.rs: the connection to a Bitcoin node that announces blocks. What is read from the socket is a
-- list of bytes.
pub mod Frame
pub mod Announce
pub mod Version
pub mod Handshake
