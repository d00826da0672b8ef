-- ===== src/Wire/Loop/Settles.antt =====
-- The ReadyForQuery of `wire_flush` in interactive_one.c: when one is due after the last message.
use mathlib.Core.List.{Mem, mem-cons_self}
use pglite_build.Prelude.{ap, arith, not, ◌≡◌, ◌≢◌, ◌∙◌, refl, Bool, true, false, some, ℕ}
use pglite_build.Wire.World.{Backend, World, Call, ok, ready_for_query, dest_remote}
use pglite_build.Wire.Action.{◌>>◌, ask, call, modify, when}
use pglite_build.Wire.Action.Triple.{
  Triple, Triple-bind, Triple-gets, Triple-if, Triple-modify, Triple-pure, Stable, Stable-modify,
  stable_rules,
}
use pglite_build.Wire.Action.Triple.Calls.{Stable-ask, Stable-call, Triple-call, Triple-ask_any}
use pglite_build.Wire.Session.{clear_error}
use pglite_build.Wire.Loop.{run}
use pglite_build.Wire.Loop.Blocks.{
  Label, entry, incoming, looping, handler, resume_on_error, flushing, return_early, block,
  flush_reply, on_error, retry, publish, close_reply_file, free_buffers,
}
use pglite_build.Wire.Loop.Frees.{block-ne-entry}
use pglite_build.Wire.Loop.Stages.{Arrives, run-After, to_return, jump_rules}

-- The loop is over, and a ReadyForQuery is due to a client that is authenticated.
abbrev pub IsDue : {S : Type 0} → World S → Type 0
IsDue w =
    (w.pipelining ≡ false)
    × (w.is_repl ≡ false)
    × (w.client_auth_in_progress ≡ false)
    × (w.send_ready_for_query ≡ true)

-- It was sent, and none is due.
abbrev pub IsSettled : {S : Type 0} → World S → Type 0
IsSettled w = Mem (ready_for_query dest_remote) w.log × (w.send_ready_for_query ≡ false)

apart : (t : Bool) → t ≡ true → t ≡ false → ⊥
apart t on off = cc

off_not : (t : Bool) → t ≡ false → not t ≡ false → ⊥
off_not t off on = let flipped : true ≡ false = rw off at on in cc

module _ (b : Backend) where
  abbrev Sent : World b.State → Type 0
  Sent w = IsDue w × Mem (ready_for_query dest_remote) w.log

  abbrev Leading : Label → Type 0
  Leading l = Triple (Arrives IsDue IsSettled (some l)) (block b l) (Arrives IsDue IsSettled) IsDue

  IsDue-ask : (c : Call) → Stable {S = b.State} IsDue (ask b c)
  IsDue-ask c = Stable-ask b c (λ w h. h)

  IsDue-call : (c : Call) → Stable {S = b.State} IsDue (call b c)
  IsDue-call c = Stable-call b c (λ w h. h)

  ruleset due_rules = (jump_rules, stable_rules, IsDue-ask, IsDue-call)

  IsDue-again : Stable {S = b.State} IsDue (modify λ w. record w { send_ready_for_query = true })
  IsDue-again = Stable-modify _ (λ w h. (h.0, h.1, h.2, refl))

  clear-IsDue : Stable {S = b.State} IsDue (clear_error b)
  unfolding clear_error
  clear-IsDue = search (IsDue-again, due_rules) depth 90

  handler-Leading : Leading handler
  unfolding block on_error retry
  handler-Leading = search (clear-IsDue, due_rules) depth 60

  incoming-Leading : Leading incoming
  unfolding block
  incoming-Leading = search due_rules depth 40

  looping-Leading : Leading looping
  unfolding block
  looping-Leading =
      Triple-bind {R = λ more w. IsDue w × (more ≡ false)} _ _ (Triple-gets _ (λ w h. (h, h.0)))
        λ more.
          Triple-if more _ _ (λ on. record { at = λ w h. absurd (apart more on h.1) })
            (λ off. Triple-pure _ (λ w h. h.0))

  resume-Leading : Leading resume_on_error
  unfolding block
  resume-Leading =
      Triple-bind {R = λ repl w. IsDue w × (repl ≡ false)} _ _ (Triple-gets _ (λ w h. (h, h.1)))
        λ repl.
          Triple-if repl _ _ (λ on. record { at = λ w h. absurd (apart repl on h.1) })
            (λ off. Triple-pure _ (λ w h. h.0))

  close-IsSettled :
      {E : World b.State → Type 0} → Triple IsSettled (close_reply_file b) (λ _. IsSettled) E
  unfolding close_reply_file
  close-IsSettled = record { at = λ w h. ground (arith, h) }

  publish-IsSettled : {E : World b.State → Type 0} → Triple IsSettled (publish b) (λ _. IsSettled) E
  unfolding publish
  publish-IsSettled = search (close-IsSettled, stable_rules) depth 60

  -- The flag is on: the message is sent.
  send-IsSettled :
      (ready : Bool)
      → Triple
          (λ w. IsDue w × (ready ≡ true))
          (when ready (
            call b (ready_for_query dest_remote)
            >> modify (λ w. record w { send_ready_for_query = false })))
          (λ _. IsSettled)
          IsDue
  send-IsSettled ready =
      Triple-if ready _ _
        (λ on.
          Triple-bind {R = λ _. Sent} _ _
            (Triple-call b _ (Triple-ask_any b _ (λ w h. (h.0, mem-cons_self)) (λ w h. h.0)))
            (λ _. Triple-modify _ (λ w h. (h.1, refl))))
        (λ off. record { at = λ w h. absurd (apart ready h.1 off) })

  flush-Leading : Leading flushing
  unfolding block flush_reply
  flush-Leading =
      Triple-bind {R = λ auth w. IsDue w × (auth ≡ false)} _ _ (Triple-gets _ (λ w h. (h, h.2)))
        λ auth.
          Triple-bind {R = λ _. IsSettled} _ _
            (Triple-if (not auth) _ _
              (λ sends. Triple-bind {R = λ _. IsDue} _ _ (Triple-gets _ (λ w h. h.0)) λ notify.
                Triple-bind {R = λ _. IsDue} _ _ (search due_rules depth 20) λ _.
                  Triple-bind {R = λ ready w. IsDue w × (ready ≡ true)} _ _
                    (Triple-gets _ (λ w h. (h, h.3))) send-IsSettled)
              (λ waits. record { at = λ w h. absurd (off_not auth h.1 waits) }))
            λ _. Triple-bind {R = λ _. IsSettled} _ _ publish-IsSettled (λ _. to_return)

  last-Leading : Leading return_early
  unfolding block free_buffers
  last-Leading =
      Triple-bind {R = λ _. IsSettled} _ _ (Triple-modify _ (λ w h. h))
        (λ _. Triple-pure _ (λ w h. h))

  block-Leading : (l : Label) → l ≢ entry → Leading l
  block-Leading entry ne = absurd (ne refl)
  block-Leading incoming ne = incoming-Leading
  block-Leading looping ne = looping-Leading
  block-Leading handler ne = handler-Leading
  block-Leading resume_on_error ne = resume-Leading
  block-Leading flushing ne = flush-Leading
  block-Leading return_early ne = last-Leading

  -- If the loop is over with the prompt off and the client authenticated, and the last message has
  -- left a ReadyForQuery due, then `interactive_one`, when it returns from there, has called
  -- `ReadyForQuery(DestRemote)`, also if the backend raises errors on the way, and none is due.
  pub run-IsSettled :
      (fuel : ℕ) (w : World b.State)
      → IsDue w
      → (run b fuel looping w).0 ≡ ok tt
      → IsSettled (run b fuel looping w).1
  run-IsSettled fuel w h e =
      run-After b IsDue IsSettled (λ l. l ≢ entry) leads_on (λ e. cc) block-Leading fuel looping w
        (λ e. cc) h e
    where
      leads_on : (l k : Label) (w : World b.State) → (block b l w).0 ≡ ok (some k) → k ≡ entry → ⊥
      leads_on l k w to at_start = block-ne-entry b l w (to ∙ ap (λ j. ok (some j)) at_start)
