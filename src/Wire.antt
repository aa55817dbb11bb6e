-- ===== src/Wire.antt =====
-- The WormWire codec of the Bun client, apps/bun/src/lib/wire.ts, and the server's reader of the
-- same frames, src/protocol/wire.zig.
pub mod Bytes
pub mod Command
pub mod CommandCode
pub mod Concat
pub mod Encode
pub mod Format
pub mod Frame
pub mod Server
pub mod Response
mod Tests
