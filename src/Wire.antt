-- ===== src/Wire.antt =====
-- The wire loop of pglite-REL_17_4_WASM: interactive_one.c, pg_proto.c and pgl_sjlj.c.
pub mod World
pub mod Action
pub mod Session
pub mod Proto
pub mod Loop
pub mod Client
pub mod File
pub mod Single
mod Tests
