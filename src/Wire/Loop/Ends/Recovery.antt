-- ===== src/Wire/Loop/Ends/Recovery.antt =====
-- The error branch and the final flush raise no error, and the error branch counts its returns to
-- the loop in `canary_ex`.
use pglite_build.Prelude.{ℕ, ◌+◌, ◌≤◌, ◌≡◌, refl, true, Option, some, ℤ, arith, inl, inr, ◌⊎◌}
use pglite_build.Wire.World.{Backend, World, Call, ready_for_query, prompt, Dest}
use pglite_build.Wire.Action.{ask, call, ◌>>=◌, ◌>>◌, modify, pure}
use pglite_build.Wire.Action.Triple.{Triple, stable_rules, Triple-bind, Triple-pure, Triple-if}
use pglite_build.Wire.Action.Triple.Calls.{Calm-ask, Calm-call}
use pglite_build.Wire.Session.{clear_error}
use pglite_build.Wire.Loop.Blocks.{
  Label, incoming, resume_on_error, flushing, return_early, on_error, retry, flush_reply, publish,
  close_reply_file, block,
}
use pglite_build.Wire.Loop.Progress.{Progress, is_recovery}
use pglite_build.Wire.Loop.Ends.Bounds.{InBounds}

module _ (b : Backend) (p : Progress b) (c : ℕ) where
  recovery_ask :
      (x : Call)
      → is_recovery x ≡ true
      → Triple (InBounds b p c) (ask b x) (λ _. InBounds b p c) (λ _. ⊥)
  recovery_ask x e = Calm-ask b x (λ w h. ground (arith, p.bounded x w)) (λ w. p.recovers x w e)

  pub recovery_call :
      (x : Call)
      → is_recovery x ≡ true
      → Triple (InBounds b p c) (call b x) (λ _. InBounds b p c) (λ _. ⊥)
  recovery_call x e = Calm-call b x (λ w h. ground (arith, p.bounded x w)) (λ w. p.recovers x w e)

  clear_error_calm : Triple (InBounds b p c) (clear_error b) (λ _. InBounds b p c) (λ _. ⊥)
  unfolding clear_error
  clear_error_calm = search (stable_rules, recovery_call, recovery_ask) depth 80

  -- Where the error branch may lead.
  abbrev pub Recovered : Option Label → World b.State → Type 0
  Recovered (some incoming) w = InBounds b p (c + 1) w × (c ≤ 8)
  Recovered (some flushing) w = InBounds b p c w
  Recovered _ w = ⊥

  retry-Recovered : (left : ℤ) → Triple (InBounds b p c) (retry b left) Recovered (λ _. ⊥)
  unfolding retry ◌>>=◌ modify
  retry-Recovered left = record { at = λ w h. ground arith }

  -- An error goes back to the loop only nine times.
  pub on_error-Recovered : Triple (InBounds b p c) (on_error b) Recovered (λ _. ⊥)
  unfolding on_error
  on_error-Recovered =
      Triple-bind {R = λ _. InBounds b p c} _ _ clear_error_calm
        λ _. Triple-bind {R = λ _. InBounds b p c} _ _ (recovery_ask _ refl) retry-Recovered

  close_reply_file_calm :
      Triple (InBounds b p c) (close_reply_file b) (λ _. InBounds b p c) (λ _. ⊥)
  unfolding close_reply_file
  close_reply_file_calm = record { at = λ w h. ground arith }

  publish_calm : Triple (InBounds b p c) (publish b) (λ _. InBounds b p c) (λ _. ⊥)
  unfolding publish
  publish_calm = search (stable_rules, close_reply_file_calm) depth 40

  ready_calm :
      (dest : Dest)
      → Triple (InBounds b p c) (call b (ready_for_query dest)) (λ _. InBounds b p c) (λ _. ⊥)
  ready_calm dest = recovery_call _ refl

  pub flush_reply_calm :
      Triple
        (InBounds b p c)
        (flush_reply b)
        (λ j w. (j ≡ some return_early) × InBounds b p c w)
        (λ _. ⊥)
  unfolding flush_reply
  flush_reply_calm = Triple-bind {R = λ _. InBounds b p c} _ _ (search stable_rules) λ auth.
      Triple-bind {R = λ _. InBounds b p c} _ _ (search (stable_rules, recovery_call) depth 40) λ _.
        Triple-bind {R = λ _. InBounds b p c} _ _ publish_calm λ _. Triple-pure _ (λ w h. (refl, h))

  pub resume_calm :
      Triple
        (InBounds b p c)
        (block b resume_on_error)
        (λ j w. ((j ≡ some flushing) ⊎ (j ≡ some return_early)) × InBounds b p c w)
        (λ _. ⊥)
  unfolding block
  resume_calm = Triple-bind {R = λ _. InBounds b p c} _ _ (search stable_rules) λ repl.
      Triple-if repl (call b prompt >> pure (some return_early)) (pure (some flushing))
        (λ _.
          Triple-bind {R = λ _. InBounds b p c} _ _ (recovery_call _ refl)
            λ _. Triple-pure _ (λ w h. (inr refl, h)))
        (λ _. Triple-pure _ (λ w h. (inl refl, h)))
