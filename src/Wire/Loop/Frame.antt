-- ===== src/Wire/Loop/Frame.antt =====
-- The messages, the authentication and the error reset: of the globals that a reply depends on, they
-- write no more than `is_repl`, which they turn off.
use pglite_build.Prelude.{ℕ, zero, suc, ◌≡◌, Bool, false, ℤ, [], ◌∷◌, ◌-◌, Bytes, if◌then◌else◌}
use pglite_build.Wire.World.{Backend, World, Call, Shared}
use pglite_build.Wire.Action.{
  Action, ◌>>=◌, pure, gets, ask, call, pq_getmsgstring, modify, modify_shared, repeat,
}
use pglite_build.Wire.Session.{
  clear_error, discard_input, startup_auth, startup_pass, recv_password_packet,
  process_startup_packet,
}
use pglite_build.Wire.Proto.{
  Message, query, dispatch, switch, param_types, on_query, on_parse, on_bind, on_execute,
  on_function_call, on_close, on_describe, on_flush, on_sync, on_terminate, unless_pipelining,
  close_target_of, drop_statement,
}

-- The part of the state that decides where a reply goes, how long it is and what an error does.
pub record View (S : Type 0) : Type 0 where
  pub channel : ℤ
  pub cma_wsize : ℕ
  pub cma_rsize : ℤ
  pub is_wire : Bool
  pub is_repl : Bool
  pub armed : Bool
  pub sockfiles : Bool
  pub socket_file : Bool
  pub socket_data : ℕ
  pub rest : S

abbrev pub view : {S : Type 0} → World S → View S
view w = record {
  channel = w.channel;
  cma_wsize = w.cma_wsize;
  cma_rsize = w.cma_rsize;
  is_wire = w.is_wire;
  is_repl = w.is_repl;
  armed = w.armed;
  sockfiles = w.shared.sockfiles;
  socket_file = w.socket_file;
  socket_data = w.shared.socket_data;
  rest = w.rest;
}

-- A property of actions that every way to build one keeps, as long as it writes nothing of the view
-- but to turn the prompt off.
pub record Closed (b : Backend) (R : (A : Type 0) → Action b.State A → Type 0) : Type 1 where
  pub pures : (A : Type 0) (a : A) → R A (pure a)
  pub reads : (A : Type 0) (f : World b.State → A) → R A (gets f)
  pub tests :
      (A : Type 0) (t : Bool) (m n : Action b.State A) → R A m → R A n → R A (if t then m else n)
  pub binds :
      (A B : Type 0) (m : Action b.State A) (f : A → Action b.State B)
      → R A m
      → ((a : A) → R B (f a))
      → R B (m >>= f)
  pub asks : (c : Call) → R ℤ (ask b c)
  pub texts : R Bytes (pq_getmsgstring b)
  pub writes :
      (f : World b.State → World b.State)
      → ((w : World b.State) → view (f w) ≡ view w)
      → R (Unit {0}) (modify f)
  pub shares :
      (f : Shared → Shared)
      → ((s : Shared) → (f s).sockfiles ≡ s.sockfiles)
      → ((s : Shared) → (f s).socket_data ≡ s.socket_data)
      → R (Unit {0}) (modify_shared f)
  pub leaves : R (Unit {0}) (
      modify λ w. record w {
        sf_connected = w.sf_connected - 1;
        is_repl = false;
        send_ready_for_query = false;
      })

module _ (b : Backend) (R : (A : Type 0) → Action b.State A → Type 0) (closed : Closed b R) where
  any_pure : (A : Type 0) (a : A) → R A (pure a)
  any_pure = closed.pures

  any_read : (A : Type 0) (f : World b.State → A) → R A (gets f)
  any_read = closed.reads

  any_test :
      (A : Type 0) (t : Bool) (m n : Action b.State A) → R A m → R A n → R A (if t then m else n)
  any_test = closed.tests

  any_bind :
      (A B : Type 0) (m : Action b.State A) (f : A → Action b.State B)
      → R A m
      → ((a : A) → R B (f a))
      → R B (m >>= f)
  any_bind = closed.binds

  any_ask : (c : Call) → R ℤ (ask b c)
  any_ask = closed.asks

  any_text : R Bytes (pq_getmsgstring b)
  any_text = closed.texts

  any_write :
      (f : World b.State → World b.State)
      → ((w : World b.State) → view (f w) ≡ view w)
      → R (Unit {0}) (modify f)
  any_write = closed.writes

  any_share :
      (f : Shared → Shared)
      → ((s : Shared) → (f s).sockfiles ≡ s.sockfiles)
      → ((s : Shared) → (f s).socket_data ≡ s.socket_data)
      → R (Unit {0}) (modify_shared f)
  any_share = closed.shares

  any_call : (c : Call) → R _ (call b c)
  unfolding call
  any_call c = any_bind _ _ _ _ (any_ask c) (λ _. any_pure _ tt)

  any_repeat : (n : ℕ) (m : Action b.State (Unit {0})) → R _ m → R _ (repeat n m)
  unfolding repeat
  any_repeat zero m h = any_pure _ tt
  any_repeat (suc n) m h = any_bind _ _ _ _ h (λ _. any_repeat n m h)

  ruleset basic_rules =
      (any_pure, any_read, any_test, any_bind, any_ask, any_text, any_write, any_share, any_call)

  any_types : (n : ℕ) → R _ (param_types b n)
  unfolding param_types
  any_types zero = any_pure _ []
  any_types (suc n) =
      any_bind _ _ _ _ (any_ask _)
        (λ oid. any_bind _ _ _ _ (any_types n) (λ oids. any_pure _ (oid ∷ oids)))

  any_drop : (name : Bytes) → R _ (drop_statement b name)
  unfolding drop_statement
  any_drop [] = any_call _
  any_drop (x ∷ xs) = any_call _

  any_target : (t : ℤ) (name : Bytes) → R _ (close_target_of b t name)
  unfolding close_target_of
  any_target t name = search (basic_rules, any_drop) depth 40

  any_terminate : (loop : Bool) → R _ (on_terminate b loop)
  unfolding on_terminate
  any_terminate loop = search (basic_rules, closed.leaves) depth 40

  ruleset message_rules = (basic_rules, any_types, any_target, any_terminate)

  any_dispatch : (loop : Bool) (m : Message) (f : ℤ) → R _ (dispatch b loop m f)
  unfolding dispatch on_query on_parse on_bind on_execute on_function_call on_close on_describe
      on_flush on_sync unless_pipelining
  any_dispatch loop query f = search message_rules depth 60
  any_dispatch loop _ f = search message_rules depth 60

  pub any_switch : (loop : Bool) (f : ℤ) → R _ (switch b loop f)
  unfolding switch
  any_switch loop f = search (message_rules, any_dispatch)

  pub any_discard : R _ (discard_input b)
  unfolding discard_input
  any_discard = search (message_rules, any_repeat) depth 40

  pub any_auth : R _ (startup_auth b)
  unfolding startup_auth process_startup_packet
  any_auth = search (message_rules, any_discard) depth 60

  any_password : R _ (recv_password_packet b)
  unfolding recv_password_packet
  any_password = search message_rules depth 60

  pub any_pass : (check : Bool) → R _ (startup_pass b check)
  unfolding startup_pass
  any_pass check = search (message_rules, any_password, any_discard) depth 80

  pub any_clear : R _ (clear_error b)
  unfolding clear_error
  any_clear = search message_rules depth 90
