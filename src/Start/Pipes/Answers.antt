-- ===== src/Start/Pipes/Answers.antt =====
-- Which streams the pipes of initdb are, and that none of them is left open.
use pglite_build.Prelude.{
  ℕ, zero, suc, ◌≡◌, refl, ap, ◌∙◌, Option, none, some, List, [], ◌∷◌, arith,
}
use pglite_build.Start.Pipes.{
  Stream, pipe_boot, pipe_single, standard_error, Pipes, no_pipes, pgl_popen, pgl_pclose,
  close_pipe, PipeEvent, popen, pclose, run_pipes,
}

-- The stream for the call of `popen` that has `n` calls before it.
abbrev pub nth_stream : ℕ → Stream
nth_stream zero = pipe_boot
nth_stream (suc zero) = pipe_single
nth_stream (suc (suc n)) = standard_error

abbrev pub nth_streams : ℕ → List PipeEvent → List Stream
nth_streams n [] = []
nth_streams n (popen ∷ events) = nth_stream n ∷ nth_streams (suc n) events
nth_streams n (pclose stream ∷ events) = nth_streams n events

-- The stage after `n` calls of `popen`.
abbrev stage_of : ℕ → ℕ
stage_of zero = 0
stage_of (suc zero) = 1
stage_of (suc (suc n)) = 2

close_pipe_stage : (fp : Option Stream) (p : Pipes) → (close_pipe fp p).idb_stage ≡ p.idb_stage
close_pipe_stage none p = refl
close_pipe_stage (some fp) p = refl

popen_at :
    (n : ℕ) (p : Pipes)
    → p.idb_stage ≡ stage_of n
    → ((pgl_popen p).0 ≡ nth_stream n) × ((pgl_popen p).1.idb_stage ≡ stage_of (suc n))
unfolding pgl_popen
popen_at zero p h = ground arith
popen_at (suc zero) p h = ground arith
popen_at (suc (suc n)) p h = ground arith

run_from :
    (events : List PipeEvent) (n : ℕ) (p : Pipes)
    → p.idb_stage ≡ stage_of n
    → (run_pipes events p).0 ≡ nth_streams n events
unfolding run_pipes pgl_pclose
run_from [] n p h = refl
run_from (popen ∷ events) n p h =
    let (stream_is, stage_is) = popen_at n p h in
    rw stream_is (ap (◌∷◌ (nth_stream n)) (run_from events (suc n) (pgl_popen p).1 stage_is))
run_from (pclose stream ∷ events) n p h =
    run_from events n (pgl_pclose stream p) (close_pipe_stage p.idb_pipe_fp p ∙ h)

-- Whatever the order of the calls, the first `popen` answers the boot file, the second the file of
-- the single-user mode, and every later one the standard error.
pub run_pipes-nth_streams :
    (events : List PipeEvent) → (run_pipes events no_pipes).0 ≡ nth_streams 0 events
run_pipes-nth_streams events = run_from events 0 no_pipes refl

-- Each `popen` is followed by a `pclose` before the next one.
abbrev pub IsPaired : List PipeEvent → Type 0
IsPaired [] = Unit {0}
IsPaired (popen ∷ []) = ⊥
IsPaired (popen ∷ popen ∷ events) = ⊥
IsPaired (popen ∷ pclose stream ∷ events) = IsPaired events
IsPaired (pclose stream ∷ events) = IsPaired events

pair_closes :
    (p : Pipes) (stream : Stream)
    → p.idb_pipe_fp ≡ none
    → p.unclosed ≡ []
    → (((pgl_pclose stream (pgl_popen p).1).idb_pipe_fp) ≡ none)
      × ((pgl_pclose stream (pgl_popen p).1).unclosed ≡ [])
unfolding pgl_popen pgl_pclose
pair_closes p stream h k = ground arith

none_left :
    (events : List PipeEvent) (p : Pipes)
    → IsPaired events
    → p.idb_pipe_fp ≡ none
    → p.unclosed ≡ []
    → (run_pipes events p).1.unclosed ≡ []
unfolding run_pipes
none_left [] p h e k = k
none_left (popen ∷ []) p h e k = absurd h
none_left (popen ∷ popen ∷ events) p h e k = absurd h
none_left (popen ∷ pclose stream ∷ events) p h e k =
    let (no_pipe, closed) = pair_closes p stream e k in
    none_left events (pgl_pclose stream (pgl_popen p).1) h no_pipe closed
none_left (pclose stream ∷ events) p h e k =
    none_left events (pgl_pclose stream p) h (idle.0) (idle.1)
  where
    idle : ((pgl_pclose stream p).idb_pipe_fp ≡ none) × ((pgl_pclose stream p).unclosed ≡ [])
    idle = unfold pgl_pclose in rw e (refl, k)

-- If initdb closes each pipe before it opens the next one, no file is left open in the end.
run_pipes_closes :
    (events : List PipeEvent) → IsPaired events → (run_pipes events no_pipes).1.unclosed ≡ []
run_pipes_closes events h = none_left events no_pipes h refl refl
