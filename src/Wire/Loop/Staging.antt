-- ===== src/Wire/Loop/Staging.antt =====
-- The blocks of `interactive_one`, for any condition on the globals that decide where a reply goes:
-- it stands up to the flush, and `After` from there on.
use pglite_build.Prelude.{◌≡◌, ◌∙◌, refl, Bool, true, Option, some, ℤ}
use pglite_build.Wire.World.{Backend, World, Call, prompt}
use pglite_build.Wire.Action.{Action, ◌>>◌, ask, call, pure}
use pglite_build.Wire.Action.Triple.{
  Triple, Triple-bind, Triple-pure, Triple-gets, Triple-if, Stable, stable_rules,
}
use pglite_build.Wire.Action.Triple.Calls.{Triple-call, Triple-ask_any}
use pglite_build.Wire.Session.{clear_error, startup_auth, startup_pass}
use pglite_build.Wire.Proto.{Next, proceed, wire_flush, switch}
use pglite_build.Wire.Loop.Blocks.{
  Label, entry, incoming, looping, handler, resume_on_error, flushing, return_early, block, round,
  wire_round, wire_message, text_round, on_error, retry, flush_reply, free_buffers, handle_message,
  after_switch, publish,
}
use pglite_build.Wire.Loop.Frame.{View, view}
use pglite_build.Wire.Loop.Kept.{
  On, Kept, Kept-ask, Kept-call, Kept-switch, Kept-auth, Kept-pass, Kept-clear,
}
use pglite_build.Wire.Loop.Entering.{entry-Leading}
use pglite_build.Wire.Loop.Stages.{Arrives, then_on, to_return, jump_rules}

pub record Staged (b : Backend) (Q : View b.State → Type 0) (After : World b.State → Type 0)
    : Type 0 where
  pub kept : Kept b Q
  pub armed : (v : View b.State) → Q v → Q (record v { armed = true })
  pub prompted : (w : World b.State) → On Q w → w.is_repl ≡ true → After w
  pub publishes : Triple (On Q) (publish b) (λ _. After) (On Q)
  pub frees : Triple After (free_buffers b) (λ _. After) (On Q)

module _ (b : Backend) (Q : View b.State → Type 0) (After : World b.State → Type 0)
    (s : Staged b Q After) where
  -- Where a block leads from where the condition stands.
  abbrev Leading : Action b.State (Option Label) → Type 0
  Leading m = Triple (On Q) m (Arrives (On Q) After) (On Q)

  any_ask : (c : Call) → Stable (On Q) (ask b c)
  any_ask = Kept-ask b Q s.kept

  any_call : (c : Call) → Stable (On Q) (call b c)
  any_call = Kept-call b Q s.kept

  any_switch : (f : ℤ) → Stable (On Q) (switch b true f)
  any_switch = Kept-switch b Q s.kept true

  auth : Stable (On Q) (startup_auth b)
  auth = Kept-auth b Q s.kept

  pass : Stable (On Q) (startup_pass b true)
  pass = Kept-pass b Q s.kept true

  clear : Stable (On Q) (clear_error b)
  clear = Kept-clear b Q s.kept

  ruleset block_rules = (jump_rules, stable_rules, any_ask, any_call, any_switch, auth, pass, clear)

  after_switch-Leading : (next : Next) → Leading (after_switch b next)
  unfolding after_switch
  after_switch-Leading wire_flush = search block_rules depth 20
  after_switch-Leading proceed = search block_rules depth 60

  handle_message-Leading : Leading (handle_message b)
  unfolding handle_message
  handle_message-Leading = search (after_switch-Leading, block_rules) depth 60

  wire_round-Leading : (first : ℤ) → Leading (wire_round b first)
  unfolding wire_round wire_message
  wire_round-Leading first = search (handle_message-Leading, block_rules) depth 60

  text_round-Leading : Leading (text_round b)
  unfolding text_round
  text_round-Leading = search (handle_message-Leading, block_rules) depth 60

  round-Leading : Leading (round b)
  unfolding round
  round-Leading = search (wire_round-Leading, text_round-Leading, block_rules) depth 60

  on_error-Leading : Leading (on_error b)
  unfolding on_error retry
  on_error-Leading = search block_rules depth 60

  flush-Leading : Leading (flush_reply b)
  unfolding flush_reply
  flush-Leading = then_on _ _ (search stable_rules) λ auth.
      then_on _ _ (search block_rules depth 40)
        λ _. Triple-bind {R = λ _. After} _ _ s.publishes (λ _. to_return)

  last-Leading : Triple After (block b return_early) (Arrives (On Q) After) (On Q)
  unfolding block
  last-Leading = Triple-bind {R = λ _. After} _ _ s.frees (λ _. Triple-pure _ (λ w h. h))

  -- With the prompt on the call is over.
  prompt-Leading :
      (repl : Bool)
      → repl ≡ true
      → Triple
          (λ w. On Q w × (w.is_repl ≡ repl))
          (call b prompt >> pure (some return_early))
          (Arrives (On Q) After)
          (On Q)
  prompt-Leading repl on =
      Triple-bind {R = λ _ w. On Q w × (w.is_repl ≡ repl)} _ _
        (Triple-call b prompt
          (Triple-ask_any b prompt (λ w h. (s.kept.calls prompt w h.0, h.1)) (λ w h. h.0)))
        (λ _. Triple-pure _ (λ w h. s.prompted w h.0 (h.1 ∙ on)))

  -- Every block but the first.
  pub later-Leading :
      (l : Label)
      → (l ≡ entry → ⊥)
      → Triple (Arrives (On Q) After (some l)) (block b l) (Arrives (On Q) After) (On Q)
  unfolding block
  later-Leading entry ne = absurd (ne refl)
  later-Leading incoming ne = search (arming, block_rules) depth 40
    where
      arming :
          (w : World b.State) → On Q w → On Q (record w { armed = true; pg_exception_stack = true })
      arming w h = s.armed (view w) h
  later-Leading looping ne = search (round-Leading, block_rules) depth 40
  later-Leading handler ne = on_error-Leading
  later-Leading resume_on_error ne =
      Triple-bind {R = λ repl w. On Q w × (w.is_repl ≡ repl)} _ _ (Triple-gets _ (λ w h. (h, refl)))
        λ repl.
          Triple-if repl _ _ (λ on. prompt-Leading repl on) (λ off. Triple-pure _ (λ w h. h.0))
  later-Leading flushing ne = flush-Leading
  later-Leading return_early ne = last-Leading

  -- The first block, where the condition stands however the input is found.
  module _ (gives_up : (w : World b.State) → On Q w → After w)
      (files : (on : Bool) (v : View b.State) → Q v → Q (record v { sockfiles = on }))
      (opened : (on : Bool) (v : View b.State) → Q v → Q (record v { socket_file = on }))
      (drained : (v : View b.State) → Q v → Q (record v { socket_data = 0 })) where
    pub block-Leading :
        (l : Label)
        → Triple (Arrives (On Q) After (some l)) (block b l) (Arrives (On Q) After) (On Q)
    unfolding block
    block-Leading entry = entry-Leading b Q After s.kept gives_up files opened drained
    block-Leading incoming = later-Leading incoming (λ e. cc)
    block-Leading looping = later-Leading looping (λ e. cc)
    block-Leading handler = later-Leading handler (λ e. cc)
    block-Leading resume_on_error = later-Leading resume_on_error (λ e. cc)
    block-Leading flushing = later-Leading flushing (λ e. cc)
    block-Leading return_early = later-Leading return_early (λ e. cc)
