-- ===== src/Start/Pipes.antt =====
-- pglite-REL_17_4_WASM/pgl_os.h: `pgl_popen` and `pgl_pclose`, which give initdb a file for each of
-- its two commands. Opening a file for writing is taken to succeed; what is printed is left out.
pub mod Answers
use pglite_build.Prelude.{ℕ, ◌+◌, Option, none, some, List, [], ◌∷◌, ltb, ◌==◌, if◌then◌else◌}

-- A `FILE *`: IDB_PIPE_BOOT, IDB_PIPE_SINGLE or the standard error.
pub data Stream : Type 0 where
  pipe_boot pipe_single standard_error : Stream

-- IDB_STAGE and IDB_PIPE_FP, and the streams that were opened and not closed, newest first.
pub record Pipes : Type 0 where
  pub idb_stage : ℕ
  pub idb_pipe_fp : Option Stream
  pub unclosed : List Stream

abbrev pub no_pipes : Pipes
no_pipes = record { idb_stage = 0; idb_pipe_fp = none; unclosed = [] }

abbrev pub opened : Stream → ℕ → Pipes → Stream × Pipes
opened stream stage p = (
  stream,
  record p { idb_stage = stage; idb_pipe_fp = some stream; unclosed = stream ∷ p.unclosed },
)

unfoldable pub pgl_popen : Pipes → Stream × Pipes
pgl_popen p =
    if ltb 1 p.idb_stage
    then (standard_error, p)
    else if p.idb_stage == 0
    then opened pipe_boot 1 p
    else opened pipe_single 2 p

-- `fclose`: the stream is the newest one that is open, since IDB_PIPE_FP names the last one.
abbrev pub close_newest : List Stream → List Stream
close_newest [] = []
close_newest (s ∷ open_streams) = open_streams

-- `if (IDB_PIPE_FP)`
abbrev pub close_pipe : Option Stream → Pipes → Pipes
close_pipe none p = p
close_pipe (some fp) p = record p { idb_pipe_fp = none; unclosed = close_newest p.unclosed }

-- The argument, a stream, is not used.
unfoldable pub pgl_pclose : Stream → Pipes → Pipes
pgl_pclose stream p = close_pipe p.idb_pipe_fp p

-- What initdb does with its pipes: a call of `popen`, and one of `pclose` on a stream.
pub data PipeEvent : Type 0 where
  popen : PipeEvent
  pclose : Stream → PipeEvent

-- The streams that the calls of `popen` answer, and what is left.
unfoldable pub run_pipes : List PipeEvent → Pipes → List Stream × Pipes
run_pipes [] p = ([], p)
run_pipes (popen ∷ events) p =
    let (stream, p') = pgl_popen p in
    let (streams, q) = run_pipes events p' in (stream ∷ streams, q)
run_pipes (pclose stream ∷ events) p = run_pipes events (pgl_pclose stream p)
