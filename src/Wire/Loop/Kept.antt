-- ===== src/Wire/Loop/Kept.antt =====
-- Conditions on the view that the messages, the authentication and the error reset keep.
use mathlib.Core.Path.{subst}
use pglite_build.Prelude.{sym, Bool, false, ℤ}
use pglite_build.Wire.World.{Backend, World, Call}
use pglite_build.Wire.Action.{Action, ask, call, modify, modify_shared}
use pglite_build.Wire.Action.Triple.{
  Stable, Stable-pure, Stable-gets, Stable-if, Stable-bind, Stable-modify, Stable-modify_shared,
  stable_rules,
}
use pglite_build.Wire.Action.Triple.Calls.{Stable-ask, Stable-text, Stable-call, after, after_text}
use pglite_build.Wire.Session.{io_init, clear_error, startup_auth, startup_pass}
use pglite_build.Wire.Proto.{switch}
use pglite_build.Wire.Loop.Frame.{View, view, Closed, any_switch, any_auth, any_pass, any_clear}

abbrev pub On : {S : Type 0} → (View S → Type 0) → World S → Type 0
On Q w = Q (view w)

-- `Q` stands whatever the backend does, and when the prompt is turned off.
pub record Kept (b : Backend) (Q : View b.State → Type 0) : Type 0 where
  pub calls : (c : Call) (w : World b.State) → On Q w → On Q (after b c w)
  pub texts : (w : World b.State) → On Q w → On Q (after_text b w)
  pub off : (v : View b.State) → Q v → Q (record v { is_repl = false })

module _ (b : Backend) (Q : View b.State → Type 0) (kept : Kept b Q) where
  abbrev Keeps : (A : Type 0) → Action b.State A → Type 0
  Keeps A m = Stable (On Q) m

  Keeps-Closed : Closed b Keeps
  Keeps-Closed = record {
    pures = λ A a. Stable-pure a;
    reads = λ A f. Stable-gets f;
    tests = λ A t m n hm hn. Stable-if t m n hm hn;
    binds = λ A B m f hm hf. Stable-bind m f hm hf;
    asks = λ c. Stable-ask b c (kept.calls c);
    texts = Stable-text b kept.texts;
    writes = λ f e. Stable-modify f (λ w h. subst Q (sym (e w)) h);
    shares = λ f e k. Stable-modify_shared f (λ w h.
        subst (λ on. Q (record (view w) { sockfiles = on; socket_data = (f w.shared).socket_data }))
          (sym (e w.shared))
          (subst (λ n. Q (record (view w) { socket_data = n })) (sym (k w.shared)) h));
    leaves = Stable-modify _ (λ w h. kept.off (view w) h);
  }

  pub Kept-ask : (c : Call) → Stable (On Q) (ask b c)
  Kept-ask c = Stable-ask b c (kept.calls c)

  pub Kept-call : (c : Call) → Stable (On Q) (call b c)
  Kept-call c = Stable-call b c (kept.calls c)

  pub Kept-switch : (loop : Bool) (f : ℤ) → Stable (On Q) (switch b loop f)
  Kept-switch = any_switch b Keeps Keeps-Closed

  pub Kept-auth : Stable (On Q) (startup_auth b)
  Kept-auth = any_auth b Keeps Keeps-Closed

  pub Kept-pass : (check : Bool) → Stable (On Q) (startup_pass b check)
  Kept-pass = any_pass b Keeps Keeps-Closed

  pub Kept-clear : Stable (On Q) (clear_error b)
  Kept-clear = any_clear b Keeps Keeps-Closed

  -- A new client has no reply file and nothing to read.
  module _ (closed : (v : View b.State) → Q v → Q (record v { socket_file = false }))
      (drained : (v : View b.State) → Q v → Q (record v { socket_data = 0 })) where
    Kept-drained : Stable {S = b.State} (On Q) (modify_shared λ s. record s { socket_data = 0 })
    Kept-drained = Stable-modify_shared _ (λ w h. drained (view w) h)

    Kept-closed :
        (auth : Bool)
        → Stable {S = b.State}
            (On Q)
            (modify λ w. record w { client_auth_in_progress = auth; socket_file = false })
    Kept-closed auth = Stable-modify _ (λ w h. closed (view w) h)

    pub Kept-init : (in_auth out_auth : Bool) → Stable (On Q) (io_init b in_auth out_auth)
    unfolding io_init
    Kept-init in_auth out_auth = search (Kept-closed, Kept-drained, stable_rules, Kept-ask) depth 40
