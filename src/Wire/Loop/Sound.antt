-- ===== src/Wire/Loop/Sound.antt =====
-- The blocks of `interactive_one` that use no null file.
use pglite_build.Prelude.{◌≢◌, refl, Bool, true, Option, none, some, ℤ, Bytes, [], ◌∷◌}
use pglite_build.Wire.World.{Backend}
use pglite_build.Wire.Action.{Action}
use pglite_build.Wire.Action.Faultless.{
  Faultless, Faultless-pure, Faultless-gets, Faultless-if, Faultless-bind, Faultless-ask,
  Faultless-call, Faultless-text, Faultless-modify, Faultless-modify_shared, faultless_rules,
}
use pglite_build.Wire.Session.{io_init, clear_error, startup_auth, startup_pass}
use pglite_build.Wire.Proto.{Next, proceed, wire_flush, switch}
use pglite_build.Wire.Loop.Frame.{Closed, any_switch, any_auth, any_pass, any_clear}
use pglite_build.Wire.Loop.Blocks.{
  Label, entry, incoming, looping, handler, resume_on_error, flushing, return_early, block,
  at_entry, round, wire_round, wire_message, text_round, on_error, retry, free_buffers, read_input,
  other_input, text_input, file_input, memory_input, handle_message, after_switch, input_from,
  open_reply_file, idle_notifications, cma_input,
}

module _ (b : Backend) where
  abbrev NoFault : (A : Type 0) → Action b.State A → Type 0
  NoFault A m = Faultless m

  NoFault-Closed : Closed b NoFault
  NoFault-Closed = record {
    pures = λ A a. Faultless-pure a;
    reads = λ A f. Faultless-gets f;
    tests = λ A t m n hm hn. Faultless-if t m n hm hn;
    binds = λ A B m f hm hf. Faultless-bind m f hm hf;
    asks = λ c. Faultless-ask b c;
    texts = Faultless-text b;
    writes = λ f e. Faultless-modify f;
    shares = λ f e k. Faultless-modify_shared f;
    leaves = Faultless-modify _;
  }

  Faultless-switch : (f : ℤ) → Faultless (switch b true f)
  Faultless-switch = any_switch b NoFault NoFault-Closed true

  Faultless-auth : Faultless (startup_auth b)
  Faultless-auth = any_auth b NoFault NoFault-Closed

  Faultless-pass : Faultless (startup_pass b true)
  Faultless-pass = any_pass b NoFault NoFault-Closed true

  Faultless-clear : Faultless (clear_error b)
  Faultless-clear = any_clear b NoFault NoFault-Closed

  ruleset sound_rules = (
    faultless_rules, Faultless-ask, Faultless-call, Faultless-switch, Faultless-auth,
    Faultless-pass, Faultless-clear,
  )

  Faultless-after : (next : Next) → Faultless (after_switch b next)
  unfolding after_switch
  Faultless-after wire_flush = search sound_rules
  Faultless-after proceed = search sound_rules depth 60

  Faultless-message : Faultless (handle_message b)
  unfolding handle_message
  Faultless-message = search (sound_rules, Faultless-after) depth 60

  Faultless-round : Faultless (round b)
  unfolding round wire_round wire_message text_round
  Faultless-round = search (sound_rules, Faultless-message) depth 60

  Faultless-init : (in_auth out_auth : Bool) → Faultless (io_init b in_auth out_auth)
  unfolding io_init
  Faultless-init in_auth out_auth = search sound_rules depth 60

  Faultless-memory : Faultless (memory_input b)
  unfolding memory_input
  Faultless-memory = search sound_rules depth 60

  Faultless-file : (content : Bytes) → Faultless (file_input b content)
  unfolding file_input
  Faultless-file content = search sound_rules depth 60

  Faultless-input : (file : Option Bytes) → Faultless (input_from b file)
  unfolding input_from text_input
  Faultless-input none = search (sound_rules, Faultless-memory) depth 40
  Faultless-input (some []) = search (sound_rules, Faultless-memory) depth 40
  Faultless-input (some (c ∷ cs)) = search (sound_rules, Faultless-file) depth 40

  Faultless-entry : Faultless (at_entry b)
  unfolding at_entry read_input other_input open_reply_file idle_notifications cma_input
  Faultless-entry = search (sound_rules, Faultless-init, Faultless-memory, Faultless-input) depth 80

  -- Every block but the flush.
  pub Faultless-block : (l : Label) → l ≢ flushing → Faultless (block b l)
  unfolding block on_error retry free_buffers
  Faultless-block entry ne = Faultless-entry
  Faultless-block incoming ne = search sound_rules depth 40
  Faultless-block looping ne = search (sound_rules, Faultless-round) depth 40
  Faultless-block handler ne = search sound_rules depth 60
  Faultless-block resume_on_error ne = search sound_rules depth 40
  Faultless-block flushing ne = absurd (ne refl)
  Faultless-block return_early ne = search sound_rules depth 40
