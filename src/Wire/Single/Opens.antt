-- ===== src/Wire/Single/Opens.antt =====
-- Which database the single-user mains open.
use mathlib.Core.List.{Mem, mem-cons_self, mem-cons_of_mem}
use pglite_build.Prelude.{◌≡◌, refl, not, Bool, Option, none, List, Bytes, ℤ, ◌≢◌}
use pglite_build.Wire.World.{
  Backend, World, Call, Answer, returns, raises, ends, ereport, level_fatal, start_up,
  init_postgres, ok,
}
use pglite_build.Wire.Action.{outcome, Action, ◌>>=◌, call, ask}
use pglite_build.Wire.Action.Triple.{Post, Triple, Triple-bind, Stable, stable_rules}
use pglite_build.Wire.Action.Triple.Calls.{
  Triple-ask, Triple-call, Triple-ask_any, Stable-call, Stable-ask,
}
use pglite_build.Wire.Action.Triple.Results.{Triple-returns}
use pglite_build.Wire.Single.{
  or_user, connect, report_session, create_contexts, configure, send_cancel_key,
  async_postgres_single_user_main,
}

-- The backend was given the database and the user.
abbrev pub Opened : {S : Type 0} → Option Bytes → Option Bytes → World S → Type 0
Opened dbname username w =
    (libraries : Bool) × Mem (start_up (init_postgres dbname username libraries)) w.log

module _ (b : Backend) where
  any_call : (c : Call) → Stable (λ _. Unit {0}) (call b c)
  any_call c = Stable-call b c (λ w h. tt)

  any_ask : (c : Call) → Stable (λ _. Unit {0}) (ask b c)
  any_ask c = Stable-ask b c (λ w h. tt)

  module _ (dbname username : Option Bytes) where
    Opened-ask :
        (c : Call)
        → Triple (Opened dbname username) (ask b c) (λ _. Opened dbname username) (λ _. Unit {0})
    Opened-ask c =
        Triple-ask_any b c (λ w (libraries, m). (libraries, mem-cons_of_mem c m)) (λ w h. tt)

    Opened-call :
        (c : Call)
        → Triple (Opened dbname username) (call b c) (λ _. Opened dbname username) (λ _. Unit {0})
    Opened-call c = Triple-call b c (Opened-ask c)

    connect-Opened :
        Triple
          (λ _. Unit {0})
          (connect b dbname username)
          (λ _. Opened dbname username)
          (λ _. Unit {0})
    unfolding connect
    connect-Opened = Triple-bind {R = λ _ _. Unit {0}} _ _ (search stable_rules) λ walsender.
        Triple-call b _ (Triple-ask_any b _ (λ w h. (not walsender, mem-cons_self)) (λ w h. tt))

    connect-then :
        (f : Unit {0} → Action b.State (Unit {0}))
        → Triple (Opened dbname username) (f tt) (λ _. Opened dbname username) (λ _. Unit {0})
        → Triple
            (λ _. Unit {0})
            (connect b dbname username >>= f)
            (λ _. Opened dbname username)
            (λ _. Unit {0})
    connect-then f h = Triple-bind {R = λ _. Opened dbname username} _ f connect-Opened (λ _. h)

  any_then :
      {A : Type 0} {Q : World b.State → Type 0} (m : Action b.State A)
      (f : A → Action b.State (Unit {0}))
      → Stable (λ _. Unit {0}) m
      → ((a : A) → Triple (λ _. Unit {0}) (f a) (λ _. Q) (λ _. Unit {0}))
      → Triple (λ _. Unit {0}) (m >>= f) (λ _. Q) (λ _. Unit {0})
  any_then m f hm hf = Triple-bind {R = λ _ _. Unit {0}} m f hm hf

  -- A call that never returns.
  call_never :
      (c : Call)
      → ((w : World b.State) (n : ℤ) → (b.answer c w).0 ≢ returns n)
      → Triple (λ _. Unit {0}) (call b c) (λ _ _. ⊥) (λ _. Unit {0})
  call_never c h = Triple-call b c (Triple-ask b c (λ w p. no_value _ (b.answer c w).0 (h w)))
    where
      no_value :
          (w : World b.State) (a : Answer ℤ)
          → ((n : ℤ) → a ≢ returns n)
          → Post (λ _ _. ⊥) (λ _. Unit {0}) (outcome a, w)
      no_value w (returns n) k = k n refl
      no_value w raises k = tt
      no_value w ends k = tt

  module _ (switches : List (Option Bytes) → Option Bytes) where
    configure_any : Stable (λ _. Unit {0}) (configure b switches)
    unfolding configure
    configure_any = search (stable_rules, any_call, any_ask) depth 60

    async-Opened :
        (argv : List (Option Bytes)) (username : Option Bytes) (async_restart : Bool)
        → Triple
            (λ _. Unit {0})
            (async_postgres_single_user_main b switches argv username async_restart)
            (λ _. Opened (or_user (switches argv) username) username)
            (λ _. Unit {0})
    unfolding async_postgres_single_user_main report_session send_cancel_key create_contexts
    async-Opened argv username async_restart = any_then _ _ (search any_call) λ _.
        any_then _ _ (search any_call) λ _. any_then _ _ (search any_call) λ _.
          any_then _ _ (search (stable_rules, any_call)) λ _.
            any_then _ _ (search (stable_rules, configure_any))
              λ _. connect-then _ _ _ (search (stable_rules, Opened-call, Opened-ask) depth 80)

    -- If `AsyncPostgresSingleUserMain` returns, restarting or not, it has opened the database that the
    -- switches name, or else the one with the user's name, for that user.
    pub async_postgres_single_user_main-Opened :
        (argv : List (Option Bytes)) (username : Option Bytes) (async_restart : Bool)
        (w : World b.State)
        → (async_postgres_single_user_main b switches argv username async_restart w).0 ≡ ok tt
        → Opened
            (or_user (switches argv) username)
            username
            (async_postgres_single_user_main b switches argv username async_restart w).1
    async_postgres_single_user_main-Opened argv username async_restart w e =
        Triple-returns (async_postgres_single_user_main b switches argv username async_restart)
          (async-Opened argv username async_restart) w tt tt e

    -- With neither a database nor a user, and a FATAL report that does not return, it does not return.
    async_postgres_single_user_main_refuses :
        ((w : World b.State) (n : ℤ) → (b.answer (ereport level_fatal) w).0 ≢ returns n)
        → (argv : List (Option Bytes)) (async_restart : Bool) (w : World b.State)
        → switches argv ≡ none
        → (async_postgres_single_user_main b switches argv none async_restart w).0 ≢ ok tt
    unfolding async_postgres_single_user_main
    async_postgres_single_user_main_refuses fatal argv async_restart w unnamed = λ e.
        Triple-returns {P = λ _. Unit {0}} {E = λ _. Unit {0}} {Q = λ _ _. ⊥}
          (async_postgres_single_user_main b switches argv none async_restart)
          (rw unnamed (
            any_then _ _ (search any_call) λ _. any_then _ _ (search any_call) λ _.
              any_then _ _ (search any_call) λ _.
                Triple-bind {R = λ _ _. ⊥} _ _ (call_never (ereport level_fatal) fatal)
                  (λ _. record { at = λ w' h. absurd h })))
          w tt tt e
