-- ===== src/Encoding.antt =====
-- src/bitcoin_encoding.rs: the CompactSize writer and the hexadecimal reader, with the reader of
-- src/p2p.rs, the length function of src/template.rs, and what they use of the standard library
-- on hexadecimal text.
pub mod Varint
pub mod Decimal
pub mod HexText
