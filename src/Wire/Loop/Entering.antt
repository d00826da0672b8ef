-- ===== src/Wire/Loop/Entering.antt =====
-- The first block of `interactive_one`, for a condition that stands however the input is found.
use pglite_build.Prelude.{Bool, true, false, Option, none, some, [], ◌∷◌, Bytes}
use pglite_build.Wire.World.{Backend, World, Call}
use pglite_build.Wire.Action.{Action, ask, call, pure}
use pglite_build.Wire.Action.Triple.{Triple, Triple-pure, Stable, Stable-modify, stable_rules}
use pglite_build.Wire.Session.{startup_auth, startup_pass}
use pglite_build.Wire.Loop.Blocks.{
  Label, return_early, at_entry, read_input, other_input, text_input, file_input, memory_input,
  input_from, open_reply_file, idle_notifications, cma_input,
}
use pglite_build.Wire.Loop.Frame.{View, view}
use pglite_build.Wire.Loop.Kept.{On, Kept, Kept-ask, Kept-call, Kept-auth, Kept-pass, Kept-init}
use pglite_build.Wire.Loop.Stages.{Arrives, jump_rules}

module _ (b : Backend) (Q : View b.State → Type 0) (After : World b.State → Type 0)
    (kept : Kept b Q) (gives_up : (w : World b.State) → On Q w → After w)
    (files : (on : Bool) (v : View b.State) → Q v → Q (record v { sockfiles = on }))
    (opened : (on : Bool) (v : View b.State) → Q v → Q (record v { socket_file = on }))
    (drained : (v : View b.State) → Q v → Q (record v { socket_data = 0 })) where
  abbrev Leading : Action b.State (Option Label) → Type 0
  Leading m = Triple (On Q) m (Arrives (On Q) After) (On Q)

  any_ask : (c : Call) → Stable (On Q) (ask b c)
  any_ask = Kept-ask b Q kept

  any_call : (c : Call) → Stable (On Q) (call b c)
  any_call = Kept-call b Q kept

  auth : Stable (On Q) (startup_auth b)
  auth = Kept-auth b Q kept

  pass : Stable (On Q) (startup_pass b true)
  pass = Kept-pass b Q kept true

  give_up : Leading (pure (some return_early))
  give_up = Triple-pure _ gives_up

  ruleset input_rules = (give_up, jump_rules, stable_rules, any_ask, any_call, auth, pass)

  memory_input-Leading : Leading (memory_input b)
  unfolding memory_input
  memory_input-Leading = search input_rules depth 60

  from_files :
      (on : Bool) (w : World b.State)
      → On Q w
      → On Q (record w { shared = record (w.shared) { sockfiles = on } })
  from_files on w h = files on (view w) h

  open_reply-Stable : Stable (On Q) (open_reply_file b)
  unfolding open_reply_file
  open_reply-Stable = search (Stable-modify, opening, stable_rules) depth 40
    where
      opening : (w : World b.State) → On Q w → On Q (record w { socket_file = true })
      opening w h = opened true (view w) h

  cma_input-Stable : Stable (On Q) (cma_input b)
  unfolding cma_input
  cma_input-Stable = search (from_files, stable_rules) depth 40

  file_input-Leading : (content : Bytes) → Leading (file_input b content)
  unfolding file_input
  file_input-Leading content = search (from_files, input_rules) depth 60

  text_input-Leading : Leading (text_input b)
  unfolding text_input
  text_input-Leading = search (memory_input-Leading, input_rules) depth 60

  input_from-Leading : (file : Option Bytes) → Leading (input_from b file)
  unfolding input_from
  input_from-Leading none = text_input-Leading
  input_from-Leading (some []) = search (text_input-Leading, input_rules) depth 20
  input_from-Leading (some (c ∷ cs)) = search (file_input-Leading, input_rules) depth 20

  idle-Stable : Stable (On Q) (idle_notifications b)
  unfolding idle_notifications
  idle-Stable = search input_rules depth 40

  read_input-Leading : Leading (read_input b)
  unfolding read_input other_input
  read_input-Leading =
      search
        (
          open_reply-Stable, idle-Stable, cma_input-Stable, memory_input-Leading,
          input_from-Leading, input_rules,
        )
        depth 60

  pub entry-Leading : Leading (at_entry b)
  unfolding at_entry
  entry-Leading =
      search (Kept-init b Q kept (opened false) drained, read_input-Leading, input_rules) depth 60
