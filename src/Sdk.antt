-- ===== src/Sdk.antt =====
-- The C library additions of wasm-build/sdk_port-wasi: the dynamic linker and the signals.
pub mod Dict
pub mod Dlfcn
pub mod Shm
pub mod Signals
mod Tests
