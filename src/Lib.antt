-- ===== src/Lib.antt =====
-- PGlite's own C code, around a PostgreSQL that is not in the repository.
--
-- The program. A WebAssembly build of PostgreSQL is driven by its host through a few exported
-- functions. The host puts a request into the CMA buffer at address 1, or into the file PGS_IN,
-- gives its length with `interactive_write`, and calls `interactive_one`, which runs the wire loop
-- over the request, with pg_proto.c included as the `switch` on the message type and pgl_sjlj.c as
-- the error branch, and leaves the reply in the CMA buffer or in the file PGS_OUT. The start-up
-- code uses the string helpers of pgl_tools.h, and the WASI build gets a dynamic linker and signal
-- functions from wasm-build/sdk_port-wasi.
--
-- The parts:
--   Prelude: native numbers, lists, bytes and C's `int`, shared by all.
--   Tools: pglite-REL_17_4_WASM/pgl_tools.h, `strconcat`, `strcat_alloc`, `mksub_dir` and
--     `startswith`. A store past the end of a buffer is `none`.
--   Wire: pglite-REL_17_4_WASM/interactive_one.c, pg_proto.c and pgl_sjlj.c.
--     World: the globals, the locals of one call, and `Backend`, the parameter for PostgreSQL.
--       Every call of it may return, raise an error or end the process, and may change its own
--       state and the globals that PostgreSQL shares with the loop, but not the globals that only
--       PGlite writes.
--     Action: the monad of these effects, and rules for pre- and postconditions.
--     Session: the small entry points, `clear_error`, `startup_auth` and `startup_pass`, and the
--       stub `ProcessStartupPacket` of pgl_stubs.h.
--     Proto: the cases of pg_proto.c.
--     Loop: `interactive_one`, cut at its labels into blocks; `run` follows their jumps, and an
--       error is a jump to the last `sigsetjmp` of the call, the locals keeping their values; with
--       none in the call it is a fault, or FATAL while PG_exception_stack is NULL. The proofs on it
--       share a few modules: Frame is the part of the state that decides where a reply goes and how
--       long it is, Kept the predicates on it that the messages and the error reset keep, Stages how
--       a predicate for each label carries over a run, Entering and Staging the blocks before and
--       after `sigsetjmp`. Frees, Ends, Contains, Opens, Safe and Settles are about what a call
--       comes to, Executes about a query message.
--     Client: `send_to_pglite` of pglite-REL_17_4_WASM/repl.html, the host's side, in the CMA
--       buffer and by the file PGS_IN, over the entry points of Session and Loop; a session is a
--       list of requests, one after the other.
--     File: `interactive_file` of pgl_mains.c, which runs the commands of a file through the same
--       `switch`; its fuel is enough when it exceeds the length of the file.
--     Single: the single-user mains of pgl_mains.c. An error of a command jumps back to `sigsetjmp`,
--       whose branch resets the state and goes on with the rest of the file.
--   Start: pglite-REL_17_4_WASM/pg_main.c. The file itself is the part of `main_pre` that turns
--     arguments into settings.
--     Env: `getenv`, `setenv` and `unsetenv` on an association list, and `setdefault` of pgl_tools.h.
--     Main: the rest of `main_pre`, and `main`. Initdb: `pgl_initdb`, `main_post` with `init_locale`
--       of pgl_stubs.h, and `pgl_backend`, over `Host`, the parameter for initdb, the bootstrap mode,
--       the locale and the file system.
--     Pipes: `pgl_popen` and `pgl_pclose` of pgl_os.h.
--   Shell: `appendShellString` of pgl_stubs.h, with a reader of a POSIX shell's words to check it.
--   Embed: `copy_argv` of pglite-modpython.c; Host is `pre_main`, `main` and the Python
--     module's `Begin` and `End` there, over the runtime that wasm2c generates.
--   Sdk: wasm-build/sdk_port-wasi. Dict and Dlfcn are sdk_port-wasi-dlfcn.c, the name tables,
--     `dlopen` and `dlsym`; Signals is the signal part of sdk_port-wasi.c, over libc's `signal` and
--     `raise` as parameters; Shm is `shm_open` and `shm_unlink` over files, with what `%d` prints as a
--     parameter, and Static those of wasm-build/sdk_port.h.
--
-- Bounds. `interactive_one` runs on fuel, one unit for each block. `Wire.Loop.Ends.block_limit`
-- computes from the error counter `canary_ex` and from a bound on the input how much is enough, and
-- `Wire.Loop.Progress` names what that takes of PostgreSQL: `SocketBackend` consumes the type byte
-- of a message, only the input calls take in more, and neither the error recovery nor the final
-- flush raises an error. Numbers that C keeps in an `int` are integers without a bound: lengths,
-- counters and capacities are limited by the memory of the target long before they wrap. Signal
-- sets have the eight bits of the source's `unsigned char`. `malloc`, `realloc`, `strdup` and
-- `fopen` for writing are taken to succeed.
--
-- The configuration is the Emscripten build with PGDEBUG, PG16 and EMUL_CMA undefined; what the
-- code prints is left out, except for the prompt and the warning of an empty packet.
--
-- Not modelled: PostgreSQL's initdb, which pgl_initdb.c includes from outside the repository, the
-- stubs of pgl_stubs.h that return constants, the tables of the Python module of
-- pglite-modpython.c, the socket emulation of sdk_port-wasi.c (system calls, and code under
-- `#if 0`), the constant stubs of sdk_port.h, the page around `send_to_pglite` in repl.html, the
-- build scripts, and the patches, which are diffs of third-party code.
pub mod Prelude
pub mod Tools
pub mod Wire
pub mod Sdk
pub mod Start
pub mod Shell
pub mod Embed
