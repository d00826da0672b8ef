-- ===== src/Wire/Loop/Frees.antt =====
-- Every return of `interactive_one` goes through the label `return_early`.
use pglite_build.Prelude.{
  ℕ, zero, suc, ◌≡◌, ◌≢◌, refl, Bool, true, false, Option, none, some, pos, arith, [], ◌∷◌, Bytes,
}
use pglite_build.Wire.World.{Backend, World, Outcome, ok, thrown, exited, fault, diverged}
use pglite_build.Wire.Action.{Action, ◌>>=◌, modify}
use pglite_build.Wire.Action.Rules.{Leads, leads_rules}
use pglite_build.Wire.Proto.{Next, proceed, wire_flush}
use pglite_build.Wire.Loop.{jump_back, follow, run, interactive_one, locals}
use pglite_build.Wire.Loop.Blocks.{
  Label, entry, incoming, looping, handler, resume_on_error, flushing, return_early, first_byte,
  clear_first, block, at_entry, round, wire_round, wire_message, text_round, on_error, retry,
  flush_reply, free_buffers, read_input, other_input, text_input, file_input, memory_input,
  handle_message, after_switch, input_from,
}

-- The block ended in a jump, and not to where the call began.
abbrev pub IsJump : Option Label → Type 0
IsJump none = ⊥
IsJump (some entry) = ⊥
IsJump (some _) = Unit {0}

module _ (b : Backend) where
  memory_input-IsJump : Leads IsJump (memory_input b)
  unfolding memory_input
  memory_input-IsJump = search leads_rules depth 40

  file_input-IsJump : (content : Bytes) → Leads IsJump (file_input b content)
  unfolding file_input
  file_input-IsJump content = search leads_rules depth 40

  text_input-IsJump : Leads IsJump (text_input b)
  unfolding text_input
  text_input-IsJump = search (leads_rules, memory_input-IsJump) depth 40

  input_from-IsJump : (file : Option Bytes) → Leads IsJump (input_from b file)
  unfolding input_from
  input_from-IsJump none = text_input-IsJump
  input_from-IsJump (some []) = search (leads_rules, text_input-IsJump) depth 40
  input_from-IsJump (some (c ∷ cs)) = search (leads_rules, file_input-IsJump) depth 40

  pub at_entry-IsJump : Leads IsJump (at_entry b)
  unfolding at_entry read_input other_input
  at_entry-IsJump = search (leads_rules, memory_input-IsJump, input_from-IsJump) depth 40

  after_switch-IsJump : (next : Next) → Leads IsJump (after_switch b next)
  unfolding after_switch
  after_switch-IsJump wire_flush = search leads_rules depth 40
  after_switch-IsJump proceed = search leads_rules depth 40

  round-IsJump : Leads IsJump (round b)
  unfolding round wire_round wire_message text_round handle_message
  round-IsJump = search (leads_rules, after_switch-IsJump) depth 40

  on_error-IsJump : Leads IsJump (on_error b)
  unfolding on_error retry
  on_error-IsJump = search leads_rules depth 40

  flush_reply-IsJump : Leads IsJump (flush_reply b)
  unfolding flush_reply
  flush_reply-IsJump = search leads_rules depth 40

  incoming-IsJump : Leads IsJump (block b incoming)
  unfolding block
  incoming-IsJump = search leads_rules depth 40

  looping-IsJump : Leads IsJump (block b looping)
  unfolding block
  looping-IsJump = search (leads_rules, round-IsJump) depth 40

  resume-IsJump : Leads IsJump (block b resume_on_error)
  unfolding block
  resume-IsJump = search leads_rules depth 40

  -- A block that returns is the last one.
  block_returns : (l : Label) (w : World b.State) → (block b l w).0 ≡ ok none → l ≡ return_early
  unfolding block
  block_returns entry w e = absurd ((at_entry-IsJump).at w none e)
  block_returns incoming w e = absurd ((incoming-IsJump).at w none e)
  block_returns looping w e = absurd ((looping-IsJump).at w none e)
  block_returns handler w e = absurd ((on_error-IsJump).at w none e)
  block_returns resume_on_error w e = absurd ((resume-IsJump).at w none e)
  block_returns flushing w e = absurd ((flush_reply-IsJump).at w none e)
  block_returns return_early w e = refl

  -- No block leads back to the beginning.
  pub block-ne-entry : (l : Label) (w : World b.State) → (block b l w).0 ≢ ok (some entry)
  unfolding block free_buffers ◌>>=◌ modify
  block-ne-entry entry w e = (at_entry-IsJump).at w (some entry) e
  block-ne-entry incoming w e = (incoming-IsJump).at w (some entry) e
  block-ne-entry looping w e = (looping-IsJump).at w (some entry) e
  block-ne-entry handler w e = (on_error-IsJump).at w (some entry) e
  block-ne-entry resume_on_error w e = (resume-IsJump).at w (some entry) e
  block-ne-entry flushing w e = (flush_reply-IsJump).at w (some entry) e
  block-ne-entry return_early w e = cc

first_byte-clear_first : (io : Bytes) → first_byte (clear_first io) ≡ 0
first_byte-clear_first [] = refl
first_byte-clear_first (c ∷ cs) = refl

-- What the client finds when a call has returned.
pub record IsFreed {S : Type 0} (w : World S) : Type 0 where
  pub no_request : w.cma_rsize ≡ pos 0
  pub first_cleared : first_byte w.io ≡ 0
  pub canary_reset : w.canary_ex ≡ 0
  pub file_removed : w.fp ≡ true → w.pgs_in ≡ none

module _ (b : Backend) where
  last_block-IsFreed : (w : World b.State) → IsFreed (block b return_early w).1
  unfolding block free_buffers ◌>>=◌ modify
  last_block-IsFreed w = ground (arith, first_byte-clear_first w.io)

  returned-IsFreed :
      (l : Label) (w : World b.State) → (block b l w).0 ≡ ok none → IsFreed (block b l w).1
  returned-IsFreed l w e = rw (block_returns b l w e) (last_block-IsFreed w)

  jump_back-IsFreed :
      (next : Label → Action b.State (Unit {0})) (armed : Bool) (w : World b.State)
      → ((l : Label) (w : World b.State) → (next l w).0 ≡ ok tt → IsFreed (next l w).1)
      → (jump_back next armed w).0 ≡ ok tt
      → IsFreed (jump_back next armed w).1
  unfolding jump_back
  jump_back-IsFreed next true w later e = later handler w e
  jump_back-IsFreed next false w later e = absurd (ground arith)

  follow-IsFreed :
      (next : Label → Action b.State (Unit {0})) (r : Outcome (Option Label)) (w : World b.State)
      → ((l : Label) (w : World b.State) → (next l w).0 ≡ ok tt → IsFreed (next l w).1)
      → (r ≡ ok none → IsFreed w)
      → (follow next r w).0 ≡ ok tt
      → IsFreed (follow next r w).1
  unfolding follow
  follow-IsFreed next (ok none) w later now e = now refl
  follow-IsFreed next (ok (some l)) w later now e = later l w e
  follow-IsFreed next thrown w later now e = jump_back-IsFreed next w.armed w later e
  follow-IsFreed next exited w later now e = cc
  follow-IsFreed next fault w later now e = cc
  follow-IsFreed next diverged w later now e = cc

  run-IsFreed :
      (fuel : ℕ) (l : Label) (w : World b.State)
      → (run b fuel l w).0 ≡ ok tt
      → IsFreed (run b fuel l w).1
  unfolding run
  run-IsFreed zero l w e = cc
  run-IsFreed (suc fuel) l w e =
      follow-IsFreed (run b fuel) (block b l w).0 (block b l w).1 (run-IsFreed fuel)
        (returned-IsFreed l w) e

  -- A call of `interactive_one` that returns leaves the request length zero, the first byte of the
  -- CMA buffer zero, the error counter zero, and no PGS_IN file if it has opened one.
  pub interactive_one-IsFreed :
      (fuel : ℕ) (w : World b.State)
      → (interactive_one b fuel w).0 ≡ ok tt
      → IsFreed (interactive_one b fuel w).1
  unfolding interactive_one
  interactive_one-IsFreed fuel w e = run-IsFreed fuel entry (locals b w) e
