-- ===== src/Wire/Loop/Ends/Quiet.antt =====
-- No message handler of pg_proto.c takes in new input: they keep a bound on what is unread.
use pglite_build.Prelude.{ℕ, zero, suc, ◌+◌, ◌≤◌, ◌≡◌, refl, Bool, false, ℤ, [], ◌∷◌, Bytes, arith}
use pglite_build.Wire.World.{Backend, World, Call}
use pglite_build.Wire.Action.{ask, call, pq_getmsgstring}
use pglite_build.Wire.Action.Triple.{Stable, stable_rules, Stable-pure, Stable-bind}
use pglite_build.Wire.Action.Triple.Calls.{Stable-call, Stable-ask, Stable-text}
use pglite_build.Wire.Proto.{
  Message, query, dispatch, param_types, on_query, on_parse, on_bind, on_execute, on_function_call,
  on_close, on_describe, on_flush, on_sync, on_terminate, unless_pipelining, close_target_of,
  drop_statement,
}
use pglite_build.Wire.Loop.Progress.{Progress, is_input}
use pglite_build.Wire.Loop.Ends.Bounds.{InBounds}

module _ (b : Backend) (p : Progress b) (c l : ℕ) where
  open p use {unread}

  -- At least two less than `l` is unread.
  abbrev pub Below : World b.State → Type 0
  Below w = InBounds b p c w × (unread w.rest + 2 ≤ l)

  Below-ask : (x : Call) → is_input x ≡ false → Stable Below (ask b x)
  Below-ask x e = Stable-ask b x (λ w h. ground (arith, p.bounded x w, p.quiet x w))

  pub Below-call : (x : Call) → is_input x ≡ false → Stable Below (call b x)
  Below-call x e = Stable-call b x (λ w h. ground (arith, p.bounded x w, p.quiet x w))

  Below-text : Stable Below (pq_getmsgstring b)
  Below-text = Stable-text b (λ w h. ground (arith, p.quiet_text w))

  param_types-Below : (n : ℕ) → Stable Below (param_types b n)
  unfolding param_types
  param_types-Below zero = search stable_rules
  param_types-Below (suc n) =
      Stable-bind _ _ (Below-ask _ refl)
        (λ oid. Stable-bind _ _ (param_types-Below n) (λ oids. Stable-pure (oid ∷ oids)))

  drop_statement-Below : (name : Bytes) → Stable Below (drop_statement b name)
  unfolding drop_statement
  drop_statement-Below [] = search (Below-call)
  drop_statement-Below (x ∷ xs) = search (Below-call)

  close_target_of-Below : (t : ℤ) (name : Bytes) → Stable Below (close_target_of b t name)
  unfolding close_target_of
  close_target_of-Below t name =
      search (stable_rules, Below-ask, Below-call, drop_statement-Below) depth 40

  ruleset message_rules =
      (stable_rules, Below-ask, Below-call, Below-text, param_types-Below, close_target_of-Below)

  pub dispatch-Below : (loop : Bool) (m : Message) (f : ℤ) → Stable Below (dispatch b loop m f)
  unfolding dispatch on_query on_parse on_bind on_execute on_function_call on_close on_describe
      on_flush on_sync on_terminate unless_pipelining
  dispatch-Below loop query f = search message_rules depth 60
  dispatch-Below loop _ f = search message_rules depth 60
