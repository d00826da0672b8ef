-- ===== src/Wire/Loop/Ends.antt =====
-- `interactive_one` ends: a bound on the blocks that it runs, from the length of the input and the
-- error counter `canary_ex`.
pub mod Bounds
pub mod Quiet
pub mod Round
pub mod Recovery
use pglite_build.Prelude.{
  ℕ, zero, suc, ◌+◌, ◌-◌, ◌*◌, ◌≤◌, ◌<◌, ◌≡◌, ◌≢◌, refl, Bool, true, false, Option, none, some,
  arith, inl, inr, ◌⊎◌, if◌then◌else◌,
}
use pglite_build.Wire.World.{Backend, World, Outcome, ok, thrown, exited, fault, diverged}
use pglite_build.Wire.Action.{Action, ◌>>=◌, modify, pure, gets}
use pglite_build.Wire.Action.Rules.{Leads}
use pglite_build.Wire.Action.Triple.{
  Triple, Post, Post-weaken, Triple-bind, Triple-modify, Triple-pure, Triple-gets, Triple-if,
}
use pglite_build.Wire.Loop.{run, follow, jump_back, interactive_one, locals}
use pglite_build.Wire.Loop.Blocks.{
  Label, entry, incoming, looping, handler, resume_on_error, flushing, return_early, block,
  at_entry, round, on_error, flush_reply, free_buffers,
}
use pglite_build.Wire.Loop.Frees.{IsJump, at_entry-IsJump}
use pglite_build.Wire.Loop.Progress.{Progress}
use pglite_build.Wire.Loop.Stages.{Arrives}
use Bounds.{InBounds, at_entry-InBounds}
use Round.{rounds, rounds_left, AtMost, Target, round-Target}
use Recovery.{Recovered, on_error-Recovered, flush_reply_calm, resume_calm}

module _ (b : Backend) (p : Progress b) where
  open p use {unread, bound}

  -- The blocks that the returns to the loop which `canary_ex` still allows can take.
  abbrev budget : ℕ → ℕ
  budget c = (9 - c) * (bound + 12)

  budget-suc : (c : ℕ) → c ≤ 8 → budget c ≡ budget (c + 1) + bound + 12
  budget-suc c h = let e : 9 - c ≡ suc (9 - (c + 1)) = omega arith in rw e (grind arith)

  -- A bound on the blocks that are still to run.
  abbrev rank : Label → World b.State → ℕ
  rank entry w = budget w.canary_ex + bound + 9
  rank incoming w = budget w.canary_ex + bound + 7
  rank looping w = budget w.canary_ex + rounds b p w + 4
  rank handler w = budget w.canary_ex + 3
  rank resume_on_error w = 3
  rank flushing w = 2
  rank return_early w = 1

  abbrev pub IsBounded : World b.State → Type 0
  IsBounded w = (w.is_wire ≡ true) × (unread w.rest ≤ bound)

  -- A jump to where fewer blocks are left than `n`.
  abbrev Nearer : ℕ → Option Label → World b.State → Type 0
  Nearer n none w = IsBounded w
  Nearer n (some l) w = IsBounded w × (rank l w < n)

  abbrev Caught : ℕ → World b.State → Type 0
  Caught n w = IsBounded w × (rank handler w < n)

  rounds-le : (w : World b.State) → IsBounded w → rounds b p w ≤ bound + 2
  rounds-le w h = ground arith

  Nearer-IsBounded :
      (n : ℕ) (j : Option Label) (w : World b.State)
      → Nearer n j w
      → Arrives IsBounded IsBounded j w
  Nearer-IsBounded n none w h = h
  Nearer-IsBounded n (some return_early) w h = h.0
  Nearer-IsBounded n (some _) w h = h.0

  Arrives-IsBounded :
      (j : Option Label) (w : World b.State) → Arrives IsBounded IsBounded j w → IsBounded w
  Arrives-IsBounded none w h = h
  Arrives-IsBounded (some return_early) w h = h
  Arrives-IsBounded (some _) w h = h

  later-Nearer :
      (c : ℕ) (j : Option Label) (w : World b.State)
      → IsJump j
      → InBounds b p c w
      → Nearer (budget c + bound + 9) j w
  later-Nearer c none w i h = elim i [ ]
  later-Nearer c (some entry) w i h = elim i [ ]
  later-Nearer c (some _) w i h = ground (arith, rounds-le w)

  Post-Nearer :
      (x : Outcome (Option Label) × World b.State) (c : ℕ)
      → ((j : Option Label) → x.0 ≡ ok j → IsJump j)
      → Post (λ _. InBounds b p c) (InBounds b p c) x
      → Post (Nearer (budget c + bound + 9)) (Caught (budget c + bound + 9)) x
  Post-Nearer (ok j, w) c i h = later-Nearer c j w (i j refl) h
  Post-Nearer (thrown, w) c i h = ground arith
  Post-Nearer (exited, w) c i h = tt
  Post-Nearer (fault, w) c i h = tt
  Post-Nearer (diverged, w) c i h = h

  looping-Nearer :
      (c l : ℕ) (j : Option Label) (w : World b.State)
      → Target b p c l j w
      → Nearer (budget c + l + 4) j w
  looping-Nearer c l none w h = elim h [ ]
  looping-Nearer c l (some looping) w h = ground arith
  looping-Nearer c l (some resume_on_error) w h = ground arith
  looping-Nearer c l (some flushing) w h = ground arith
  looping-Nearer c l (some entry) w h = elim h [ ]
  looping-Nearer c l (some incoming) w h = elim h [ ]
  looping-Nearer c l (some handler) w h = elim h [ ]
  looping-Nearer c l (some return_early) w h = elim h [ ]

  handler-Nearer :
      (c : ℕ) (j : Option Label) (w : World b.State)
      → Recovered b p c j w
      → Nearer (budget c + 3) j w
  handler-Nearer c none w h = elim h [ ]
  handler-Nearer c (some incoming) w h = ground (arith, budget-suc c)
  handler-Nearer c (some flushing) w h = ground arith
  handler-Nearer c (some entry) w h = elim h [ ]
  handler-Nearer c (some looping) w h = elim h [ ]
  handler-Nearer c (some handler) w h = elim h [ ]
  handler-Nearer c (some resume_on_error) w h = elim h [ ]
  handler-Nearer c (some return_early) w h = elim h [ ]

  last-Nearer :
      (j : Option Label) (w : World b.State) → (j ≡ some return_early) × IsBounded w → Nearer 2 j w
  last-Nearer j w h = rw h.0 (h.1, omega arith)

  resume-Nearer :
      (j : Option Label) (w : World b.State)
      → ((j ≡ some flushing) ⊎ (j ≡ some return_early)) × IsBounded w
      → Nearer 3 j w
  resume-Nearer j w (inl e, h) = rw e (h, omega arith)
  resume-Nearer j w (inr e, h) = rw e (h, omega arith)

  incoming_block :
      (w : World b.State)
      → IsBounded w
      → Post (Nearer (rank incoming w)) (Caught (rank incoming w)) (block b incoming w)
  unfolding block ◌>>=◌ modify
  incoming_block w h = (h, ground (arith, rounds-le w))

  round_or_leave :
      (more : Bool) (w : World b.State)
      → more ≡ w.pipelining
      → IsBounded w
      → Post
          (Nearer (rank looping w))
          (Caught (rank looping w))
          ((if more then round b else pure (some resume_on_error)) w)
  unfolding pure
  round_or_leave true w e h =
      Post-weaken (round b w) (looping-Nearer w.canary_ex (rounds b p w)) (λ w' q. ground arith)
        ((round-Target b p w.canary_ex (rounds b p w)).at w ((refl, h.0, h.1), ground arith))
  round_or_leave false w e h = (h, omega arith)

  looping_block :
      (w : World b.State)
      → IsBounded w
      → Post (Nearer (rank looping w)) (Caught (rank looping w)) (block b looping w)
  unfolding block ◌>>=◌
  looping_block w h = round_or_leave w.pipelining w refl h

  -- Each block leads nearer to the end.
  block-Nearer :
      (l : Label) (w : World b.State)
      → IsBounded w
      → Post (Nearer (rank l w)) (Caught (rank l w)) (block b l w)
  unfolding block
  block-Nearer entry w h =
      Post-Nearer (at_entry b w) w.canary_ex ((at_entry-IsJump b).at w)
        ((at_entry-InBounds b p w.canary_ex).at w (refl, h.0, h.1))
  block-Nearer incoming w h = incoming_block w h
  block-Nearer looping w h = looping_block w h
  block-Nearer handler w h =
      Post-weaken (on_error b w) (handler-Nearer w.canary_ex) (λ w' q. absurd q)
        ((on_error-Recovered b p w.canary_ex).at w (refl, h.0, h.1))
  block-Nearer resume_on_error w h =
      Post-weaken (block b resume_on_error w) (λ j w' q. resume-Nearer j w' (q.0, (q.1.1, q.1.2)))
        (λ w' q. absurd q) ((resume_calm b p w.canary_ex).at w (refl, h.0, h.1))
  block-Nearer flushing w h =
      Post-weaken (flush_reply b w) (λ j w' q. last-Nearer j w' (q.0, (q.1.1, q.1.2)))
        (λ w' q. absurd q) ((flush_reply_calm b p w.canary_ex).at w (refl, h.0, h.1))
  block-Nearer return_early w h = unfold ◌>>=◌ free_buffers modify in h

  -- Each block keeps the bound.
  pub block-IsBounded :
      (l : Label)
      → Triple
          (Arrives IsBounded IsBounded (some l))
          (block b l)
          (Arrives IsBounded IsBounded)
          IsBounded
  block-IsBounded l = record {
    at = λ w h.
        Post-weaken (block b l w) (Nearer-IsBounded (rank l w)) (λ w' q. q.0)
          (block-Nearer l w (Arrives-IsBounded (some l) w h));
  }

  rank-pos : (l : Label) (w : World b.State) → 0 < rank l w
  rank-pos entry w = omega arith
  rank-pos _ w = omega arith

  jump_back_ends :
      (next : Label → Action b.State (Unit {0})) (armed : Bool) (w : World b.State)
      → (next handler w).0 ≢ diverged
      → (jump_back next armed w).0 ≢ diverged
  unfolding jump_back
  jump_back_ends next true w h = h
  jump_back_ends next false w h = λ e. absurd (ground arith)

  follow_ends :
      (next : Label → Action b.State (Unit {0})) (n : ℕ)
      (x : Outcome (Option Label) × World b.State)
      → ((l : Label) (w : World b.State) → IsBounded w → rank l w < n → (next l w).0 ≢ diverged)
      → Post (Nearer n) (Caught n) x
      → (follow next x.0 x.1).0 ≢ diverged
  unfolding follow
  follow_ends next n (ok none, w) k h = λ e. cc
  follow_ends next n (ok (some l), w) k h = k l w h.0 h.1
  follow_ends next n (thrown, w) k h = jump_back_ends next w.armed w (k handler w h.0 h.1)
  follow_ends next n (exited, w) k h = λ e. cc
  follow_ends next n (fault, w) k h = λ e. cc
  follow_ends next n (diverged, w) k h = absurd h

  run_ends :
      (fuel : ℕ) (l : Label) (w : World b.State)
      → IsBounded w
      → rank l w ≤ fuel
      → (run b fuel l w).0 ≢ diverged
  unfolding run
  run_ends zero l w h le = absurd (omega (arith, rank-pos l w))
  run_ends (suc fuel) l w h le =
      follow_ends (run b fuel) (rank l w) (block b l w)
        (λ l' w' h' lt. run_ends fuel l' w' h' (omega arith)) (block-Nearer l w h)

  -- The blocks that one call may need.
  abbrev pub block_limit : World b.State → ℕ
  block_limit w = (9 - w.canary_ex) * (bound + 12) + bound + 9

  -- In wire mode, a call of `interactive_one` comes to an end within `block_limit` blocks: it
  -- returns, ends the process or meets a fault, and does not loop. The conditions are `Progress`
  -- (each message takes input, input is bounded, recovery raises no error) and that what is unread
  -- at the start is within the bound.
  pub interactive_one_ends :
      (w : World b.State) (fuel : ℕ)
      → w.is_wire ≡ true
      → unread w.rest ≤ bound
      → block_limit w ≤ fuel
      → (interactive_one b fuel w).0 ≢ diverged
  unfolding interactive_one
  interactive_one_ends w fuel wire fits enough =
      run_ends fuel entry (locals b w) (wire, fits) enough
