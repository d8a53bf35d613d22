-- ===== src/Gdb.antt =====
-- gdb_protocol.c.
pub mod Lexer
pub mod Hex
pub mod State
pub mod Packet
pub mod Commands
pub mod Uint32
pub mod Sending
pub mod Scanner
pub mod Handlers
pub mod Valid
