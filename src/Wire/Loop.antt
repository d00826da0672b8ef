-- ===== src/Wire/Loop.antt =====
-- interactive_one.c, `interactive_one`, with pgl_sjlj.c as the Emscripten build includes it. The
-- function is cut at its labels: a block runs to the next jump and names its target, and `run`
-- follows the jumps. PGDEBUG, PG16 and EMUL_CMA are not defined.
pub mod Blocks
pub mod Frame
pub mod Kept
pub mod Stages
pub mod Entering
pub mod Staging
pub mod Opens
pub mod Sound
pub mod Safe
pub mod Executes
pub mod Contains
pub mod Frees
pub mod Replies
pub mod Progress
pub mod Ends
pub mod Settles
use pglite_build.Prelude.{
  ℕ, zero, suc, Bool, true, false, Option, none, some, ℤ, pos, minus_one, if◌then◌else◌,
}
use pglite_build.Wire.World.{Backend, World, Outcome, ok, thrown, exited, fault, diverged}
use pglite_build.Wire.Action.{Action, ◌>>◌, modify}
use Blocks.{Label, entry, handler, block}

-- `longjmp`, which keeps the values of the locals. With no `sigsetjmp` in this call, the jump goes to
-- a frame that has returned if an earlier call has set PG_exception_stack; while that is NULL, elog
-- makes the error FATAL and the process ends.
unfoldable pub jump_back : {S : Type 0} → (Label → Action S (Unit {0})) → Bool → Action S (Unit {0})
jump_back next true w = next handler w
jump_back next false w = (if w.pg_exception_stack then fault else exited, w)

-- What follows a block: its target, or the last `sigsetjmp` if it raised an error.
unfoldable pub follow :
    {S : Type 0} → (Label → Action S (Unit {0})) → Outcome (Option Label) → Action S (Unit {0})
unfolding jump_back
follow next (ok none) w = (ok tt, w)
follow next (ok (some l)) w = next l w
follow next thrown w = jump_back next w.armed w
follow next exited w = (exited, w)
follow next fault w = (fault, w)
follow next diverged w = (diverged, w)

module _ (b : Backend) where
  unfoldable pub run : ℕ → Label → Action b.State (Unit {0})
  run zero l w = (diverged, w)
  run (suc fuel) l w = let (r, w') = block b l w in follow (run fuel) r w'

  -- The initial values of the locals.
  abbrev pub locals : World b.State → World b.State
  locals w = record w {
    peek = minus_one;
    firstchar = pos 0;
    packetlen = pos 0;
    pipelining = true;
    fp = false;
    armed = false;
  }

  unfoldable pub interactive_one : ℕ → Action b.State (Unit {0})
  interactive_one fuel w = run fuel entry (locals w)
