-- ===== src/Wire/Loop/Ends/Bounds.antt =====
-- Everything that the blocks of `interactive_one` do before and between the error branches keeps the
-- error counter, the wire mode and the bound on the unread input.
use pglite_build.Prelude.{ℕ, ◌≤◌, ◌≡◌, Bool, true, Option, none, some, arith, Bytes, [], ◌∷◌}
use pglite_build.Wire.World.{Backend, World, Call}
use pglite_build.Wire.Action.{ask, call, pq_getmsgstring}
use pglite_build.Wire.Action.Triple.{Stable, stable_rules}
use pglite_build.Wire.Action.Triple.Calls.{Stable-call, Stable-ask, Stable-text, Stable-repeat}
use pglite_build.Wire.Session.{
  discard_input, startup_auth, process_startup_packet, recv_password_packet, startup_pass, io_init,
  clear_error,
}
use pglite_build.Wire.Loop.Blocks.{
  at_entry, read_input, other_input, text_input, file_input, memory_input, input_from,
  open_reply_file, idle_notifications, cma_input,
}
use pglite_build.Wire.Loop.Progress.{Progress}

module _ (b : Backend) (p : Progress b) (c : ℕ) where
  open p use {unread, remaining, bound}

  -- The loop is in wire mode, the error counter is `c`, and the input is within its bound.
  abbrev pub InBounds : World b.State → Type 0
  InBounds w = (w.canary_ex ≡ c) × (w.is_wire ≡ true) × (unread w.rest ≤ bound)

  pub InBounds-ask : (x : Call) → Stable InBounds (ask b x)
  InBounds-ask x = Stable-ask b x (λ w h. ground (arith, p.bounded x w))

  pub InBounds-call : (x : Call) → Stable InBounds (call b x)
  InBounds-call x = Stable-call b x (λ w h. ground (arith, p.bounded x w))

  InBounds-text : Stable InBounds (pq_getmsgstring b)
  InBounds-text = Stable-text b (λ w h. ground (arith, p.quiet_text w))

  discard_input-InBounds : Stable InBounds (discard_input b)
  unfolding discard_input
  discard_input-InBounds = search (stable_rules, InBounds-call, Stable-repeat) depth 40

  pub startup_auth-InBounds : Stable InBounds (startup_auth b)
  unfolding startup_auth process_startup_packet
  startup_auth-InBounds = search (stable_rules, InBounds-call, discard_input-InBounds) depth 40

  recv_password_packet-InBounds : Stable InBounds (recv_password_packet b)
  unfolding recv_password_packet
  recv_password_packet-InBounds = search (stable_rules, InBounds-call, InBounds-ask) depth 40

  pub startup_pass-InBounds : (check : Bool) → Stable InBounds (startup_pass b check)
  unfolding startup_pass
  startup_pass-InBounds check =
      search
        (
          stable_rules, InBounds-call, InBounds-ask, discard_input-InBounds,
          recv_password_packet-InBounds,
        )
        depth 60

  io_init-InBounds : (i o : Bool) → Stable InBounds (io_init b i o)
  unfolding io_init
  io_init-InBounds i o = search (stable_rules, InBounds-ask) depth 40

  clear_error-InBounds : Stable InBounds (clear_error b)
  unfolding clear_error
  clear_error-InBounds = search (stable_rules, InBounds-call, InBounds-ask) depth 80

  memory_input-InBounds : Stable InBounds (memory_input b)
  unfolding memory_input
  memory_input-InBounds = search (stable_rules, InBounds-call) depth 40

  file_input-InBounds : (content : Bytes) → Stable InBounds (file_input b content)
  unfolding file_input
  file_input-InBounds content =
      search (stable_rules, InBounds-call, startup_auth-InBounds, startup_pass-InBounds) depth 60

  text_input-InBounds : Stable InBounds (text_input b)
  unfolding text_input
  text_input-InBounds = search (stable_rules, memory_input-InBounds) depth 40

  input_from-InBounds : (file : Option Bytes) → Stable InBounds (input_from b file)
  unfolding input_from
  input_from-InBounds none = text_input-InBounds
  input_from-InBounds (some []) = search (stable_rules, text_input-InBounds) depth 40
  input_from-InBounds (some (x ∷ xs)) = search (stable_rules, file_input-InBounds) depth 40

  pub at_entry-InBounds : Stable InBounds (at_entry b)
  unfolding at_entry read_input other_input open_reply_file idle_notifications cma_input
  at_entry-InBounds =
      search
        (
          stable_rules, InBounds-call, InBounds-ask, io_init-InBounds, memory_input-InBounds,
          input_from-InBounds,
        )
        depth 80
