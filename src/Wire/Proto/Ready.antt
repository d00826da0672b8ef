-- ===== src/Wire/Proto/Ready.antt =====
-- When a message of pg_proto.c asks for a ReadyForQuery.
use pglite_build.Prelude.{
  ◌≡◌, refl, sym, Bool, true, false, ℤ, arith, if◌then◌else◌, zero, suc, ℕ, [], ◌∷◌, Bytes,
}
use pglite_build.Wire.World.{Backend, World, ok}
use pglite_build.Wire.Action.{Action, ◌>>=◌, ◌>>◌, modify, pure, ask, call, pq_getmsgstring}
use pglite_build.Wire.Action.Triple.{
  Triple, Stable, stable_rules, Triple-bind, Triple-modify, Triple-pure, Triple-weaken, Stable-pure,
  Stable-bind,
}
use pglite_build.Wire.Action.Triple.Calls.{Stable-call, Stable-ask, Stable-text}
use pglite_build.Wire.Action.Triple.Results.{Triple-returns}
use pglite_build.Wire.Proto.{
  Message, query, parse, bind, execute, function_call, close, describe, flush, sync, eof, terminate,
  copy, unknown, dispatch, switch, message_of, param_types, on_query, on_parse, on_bind, on_execute,
  on_function_call, on_close, on_describe, on_flush, on_sync, on_terminate, unless_pipelining,
  close_target_of, drop_statement, Next, proceed,
}

-- `send_ready_for_query` after a message that has been handled, from what it and `pipelining` were.
abbrev pub ready_after : Message → Bool → Bool → Bool
ready_after query ready pipelining = true
ready_after function_call ready pipelining = true
ready_after sync ready pipelining = true
ready_after parse ready pipelining = false
ready_after eof ready pipelining = false
ready_after terminate ready pipelining = false
ready_after bind ready pipelining = if pipelining then false else ready
ready_after execute ready pipelining = if pipelining then false else ready
ready_after close ready pipelining = if pipelining then false else ready
ready_after describe ready pipelining = if pipelining then false else ready
ready_after _ ready pipelining = ready

module _ (b : Backend) (ready pipelining : Bool) where
  -- The two flags have not been touched yet.
  abbrev Untouched : World b.State → Type 0
  Untouched w = (w.send_ready_for_query ≡ ready) × (w.pipelining ≡ pipelining)

  Untouched-ask : (x : _) → Stable Untouched (ask b x)
  Untouched-ask x = Stable-ask b x (λ w h. h)

  Untouched-call : (x : _) → Stable Untouched (call b x)
  Untouched-call x = Stable-call b x (λ w h. h)

  Untouched-text : Stable Untouched (pq_getmsgstring b)
  Untouched-text = Stable-text b (λ w h. h)

  Untouched-types : (n : ℕ) → Stable Untouched (param_types b n)
  unfolding param_types
  Untouched-types zero = Stable-pure []
  Untouched-types (suc n) =
      Stable-bind _ _ (Untouched-ask _)
        (λ oid. Stable-bind _ _ (Untouched-types n) (λ oids. Stable-pure (oid ∷ oids)))

  Untouched-drop : (name : Bytes) → Stable Untouched (drop_statement b name)
  unfolding drop_statement
  Untouched-drop [] = Untouched-call _
  Untouched-drop (x ∷ xs) = Untouched-call _

  Untouched-target : (t : ℤ) (name : Bytes) → Stable Untouched (close_target_of b t name)
  unfolding close_target_of
  Untouched-target t name =
      search (stable_rules, Untouched-ask, Untouched-call, Untouched-drop) depth 40

  -- The flag has its last value.
  abbrev Settled : Message → World b.State → Type 0
  Settled m w = w.send_ready_for_query ≡ ready_after m ready pipelining

  abbrev Anything : World b.State → Type 0
  Anything w = Unit {0}

  -- Steps that touch neither flag come before the rest.
  then_settled :
      {A B : Type 0} {Q : World b.State → Type 0} {f : A → Action b.State B} (s : Action b.State A)
      → Stable Untouched s
      → ((a : A) → Triple Untouched (f a) (λ _. Q) Anything)
      → Triple Untouched (s >>= f) (λ _. Q) Anything
  then_settled s h k =
      Triple-bind {R = λ _. Untouched} s _ (Triple-weaken s h (λ _ w u. u) (λ w u. tt)) k

  set_ready_lem :
      (v : Bool) (m : Message)
      → v ≡ ready_after m ready pipelining
      → Triple Untouched
          (modify (λ w. record w { send_ready_for_query = v }))
          (λ _. Settled m)
          Anything
  set_ready_lem v m e = Triple-modify _ (λ w h. e)

  unless_pipelining_lem :
      (m : Message)
      → (if pipelining then false else ready) ≡ ready_after m ready pipelining
      → Triple Untouched (unless_pipelining b true) (λ _. Settled m) Anything
  unfolding unless_pipelining
  unless_pipelining_lem m e = Triple-modify _ (λ w h. ground arith)

  unchanged_lem :
      {A : Type 0} (m : Message) (a : A)
      → ready ≡ ready_after m ready pipelining
      → Triple Untouched (pure a) (λ _. Settled m) Anything
  unchanged_lem m a e = Triple-pure a (λ w h. ground arith)

  ruleset handler_rules = (
    then_settled, stable_rules, Untouched-ask, Untouched-call, Untouched-text, Untouched-types,
    Untouched-target, set_ready_lem, unless_pipelining_lem, unchanged_lem, refl,
  )

  on_query_lem : Triple Untouched (on_query b) (λ _. Settled query) Anything
  unfolding on_query
  on_query_lem = search handler_rules depth 40

  on_parse_lem : (c : ℤ) → Triple Untouched (on_parse b true c) (λ _. Settled parse) Anything
  unfolding on_parse
  on_parse_lem c = search handler_rules depth 40

  on_close_lem : (c : ℤ) → Triple Untouched (on_close b true c) (λ _. Settled close) Anything
  unfolding on_close
  on_close_lem c = search handler_rules depth 40

  on_bind_lem : (c : ℤ) → Triple Untouched (on_bind b true c) (λ _. Settled bind) Anything
  unfolding on_bind
  on_bind_lem c = search handler_rules depth 40

  on_execute_lem : (c : ℤ) → Triple Untouched (on_execute b true c) (λ _. Settled execute) Anything
  unfolding on_execute
  on_execute_lem c = search handler_rules depth 40

  on_describe_lem :
      (c : ℤ) → Triple Untouched (on_describe b true c) (λ _. Settled describe) Anything
  unfolding on_describe
  on_describe_lem c = search handler_rules depth 40

  on_function_call_lem :
      (c : ℤ) → Triple Untouched (on_function_call b c) (λ _. Settled function_call) Anything
  unfolding on_function_call
  on_function_call_lem c = search handler_rules depth 40

  on_sync_lem : Triple Untouched (on_sync b) (λ _. Settled sync) Anything
  unfolding on_sync
  on_sync_lem = search handler_rules depth 40

  on_flush_lem : Stable Untouched (on_flush b)
  unfolding on_flush
  on_flush_lem = search handler_rules depth 40

  -- The rest of `on_terminate` leaves the flag alone.
  on_terminate_lem :
      (loop : Bool) (m : Message)
      → ready_after m ready pipelining ≡ false
      → Triple Untouched (on_terminate b loop) (λ _. Settled m) Anything
  unfolding on_terminate
  on_terminate_lem loop m e = then_settled _ (search handler_rules) λ remote.
      then_settled _ (search handler_rules) λ _.
        Triple-bind {R = λ _. Settled m} _ _ (Triple-modify _ (λ w h. sym e))
          λ _. search stable_rules depth 20

  Settled-then :
      (m : Message) (s : Action b.State (Unit {0})) (next : Next)
      → Triple Untouched s (λ _. Settled m) Anything
      → Triple Untouched (s >> pure next) (λ _. Settled m) Anything
  Settled-then m s next h =
      Triple-bind {R = λ _. Settled m} s _ h (λ _. Triple-pure next (λ w q. q))

  Untouched-then :
      (m : Message) (s : Action b.State (Unit {0})) (next : Next)
      → ready ≡ ready_after m ready pipelining
      → Stable Untouched s
      → Triple Untouched (s >> pure next) (λ _. Settled m) Anything
  Untouched-then m s next e h = then_settled s h (λ _. unchanged_lem m next e)

  dispatch-Settled :
      (m : Message) (c : ℤ) → Triple Untouched (dispatch b true m c) (λ _. Settled m) Anything
  unfolding dispatch
  dispatch-Settled query c = Settled-then query _ _ on_query_lem
  dispatch-Settled parse c = Settled-then parse _ _ (on_parse_lem c)
  dispatch-Settled bind c = Settled-then bind _ _ (on_bind_lem c)
  dispatch-Settled execute c = Settled-then execute _ _ (on_execute_lem c)
  dispatch-Settled function_call c = Settled-then function_call _ _ (on_function_call_lem c)
  dispatch-Settled close c = Settled-then close _ _ (on_close_lem c)
  dispatch-Settled describe c = Settled-then describe _ _ (on_describe_lem c)
  dispatch-Settled flush c = Untouched-then flush _ _ refl on_flush_lem
  dispatch-Settled sync c = Settled-then sync _ _ on_sync_lem
  dispatch-Settled eof c = then_settled _ (Untouched-call _) (λ _. on_terminate_lem true eof refl)
  dispatch-Settled terminate c = on_terminate_lem true terminate refl
  dispatch-Settled copy c = unchanged_lem copy proceed refl
  dispatch-Settled unknown c = Untouched-then unknown _ _ refl (Untouched-call _)

module _ (b : Backend) where
  -- In the loop, a message that is handled with no error leaves `send_ready_for_query` set after a
  -- query, a function call or a Sync, and cleared after a Parse and at the end of the session; a
  -- Bind, Execute, Close or Describe clears it if more input is pending, and the others keep it.
  pub switch-ready_after :
      (c : ℤ) (w : World b.State) (next : Next)
      → (switch b true c w).0 ≡ ok next
      → (switch b true c w).1.send_ready_for_query
        ≡ ready_after (message_of c) w.send_ready_for_query w.pipelining
  unfolding switch
  switch-ready_after c w next e =
      Triple-returns (dispatch b true (message_of c) c)
        (dispatch-Settled b w.send_ready_for_query w.pipelining (message_of c) c) w (refl, refl)
        next e
