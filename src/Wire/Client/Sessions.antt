-- ===== src/Wire/Client/Sessions.antt =====
-- A session of requests in the CMA buffer, one after the other.
use pglite_build.Prelude.{
  ap, suc, ◌≡◌, ◌≤◌, ◌∙◌, ◌+◌, ◌*◌, refl, ◌⊎◌, inl, inr, ℕ, List, [], ◌∷◌, Bytes, length,
}
use pglite_build.Wire.World.{Backend, World, ok, exited}
use pglite_build.Wire.Action.{Action, ◌>>=◌, gets, modify, pure}
use pglite_build.Wire.Action.Rules.{then_ok, then_value, then_exited}
use pglite_build.Wire.Session.{interactive_write}
use pglite_build.Wire.Loop.{interactive_one, locals}
use pglite_build.Wire.Loop.Blocks.{entry}
use pglite_build.Wire.Loop.Stages.{run-After_every}
use pglite_build.Wire.Loop.Frees.{interactive_one-IsFreed}
use pglite_build.Wire.Loop.Progress.{Progress}
use pglite_build.Wire.Loop.Contains.{interactive_one-ne-thrown, outcome_cases}
use pglite_build.Wire.Loop.Ends.{interactive_one_ends, IsBounded, block-IsBounded}
use pglite_build.Wire.Loop.Opens.{IsCalm}
use pglite_build.Wire.Loop.Safe.{interactive_one-ne-fault}
use pglite_build.Wire.Client.{Window, put_request, reply_window, send_to_pglite, session}
use pglite_build.Wire.Client.Settled.{IsIdle, interactive_one-IsIdle}

-- Messages of at least two bytes.
abbrev pub AreMessages : List Bytes → Type 0
AreMessages [] = Unit {0}
AreMessages (encoded ∷ requests) = (2 ≤ length encoded) × AreMessages requests

module _ (b : Backend) (p : Progress b) (calm : IsCalm b) (fuel : ℕ)
    (enough : 9 * (p.bound + 12) + p.bound + 9 ≤ fuel) where
  -- Between two requests.
  abbrev pub IsReady : World b.State → Type 0
  IsReady w = IsIdle w × (w.canary_ex ≡ 0) × (p.unread w.rest ≤ p.bound)

  module _ (encoded : Bytes) (w : World b.State) (ready : IsReady w)
      (long : 2 ≤ length encoded) where
    abbrev sent : World b.State
    sent = put_request encoded w

    one_cases :
        ((interactive_one b fuel sent).0 ≡ ok tt) ⊎ ((interactive_one b fuel sent).0 ≡ exited)
    unfolding put_request interactive_write
    one_cases =
        elim (outcome_cases (interactive_one b fuel sent).0 (interactive_one-ne-thrown b fuel sent)
          (interactive_one_ends b p sent fuel ready.0.0 ready.2 (rw ready.1 enough))) [
            | inl (u, returned) ↦ inl returned
            | inr (inl ended) ↦ inr ended
            | inr (inr stale) ↦ absurd (
                interactive_one-ne-fault b (length encoded) fuel sent calm long refl ready.0.2
                  stale)
          ]

    one-IsReady : (interactive_one b fuel sent).0 ≡ ok tt → IsReady (interactive_one b fuel sent).1
    unfolding put_request interactive_write interactive_one
    one-IsReady returned =
        let idle =
          interactive_one-IsIdle b (length encoded) fuel sent calm long (refl, ready.0.0, ready.0.1)
            ready.0.2 returned in
        let bounded =
          run-After_every b (IsBounded b p) (IsBounded b p) (block-IsBounded b p) fuel entry
            (locals b sent) (ready.0.0, ready.2) returned in
        (idle, (interactive_one-IsFreed b fuel sent returned).canary_reset, bounded.1)

    -- The call returns, or the process has ended.
    send_cases :
        ((window : Window) × (send_to_pglite b fuel encoded w
            ≡ (ok window, (interactive_one b fuel sent).1))
          × IsReady (interactive_one b fuel sent).1)
        ⊎ ((send_to_pglite b fuel encoded w).0 ≡ exited)
    unfolding send_to_pglite modify gets reply_window
    send_cases = elim one_cases [
      | inl returned ↦ inl (
        reply_window (length encoded) (interactive_one b fuel sent).1,
        then_ok (interactive_one b fuel) (λ _. gets (reply_window (length encoded))) sent tt
            returned,
        one-IsReady returned,
      )
      | inr ended ↦ inr (
          then_exited (interactive_one b fuel) (λ _. gets (reply_window (length encoded))) sent
            ended)
    ]

  abbrev collect : Window → List Window → Action b.State (List Window)
  collect window windows = pure (window ∷ windows)

  abbrev rest : List Bytes → Window → Action b.State (List Window)
  rest requests window = session b fuel requests >>= collect window

  -- From a state between two requests, in wire mode and with enough fuel, a session of requests of at
  -- least two bytes comes to its end: the call for each request returns, and the state is again one
  -- between two requests, with the error counter at 0; or else the process has ended. It never loops,
  -- jumps to a call that has returned or lets an error out. The conditions on the backend are
  -- `Progress`, and that it raises no error before `sigsetjmp`.
  pub session-IsReady :
      (requests : List Bytes) (w : World b.State)
      → IsReady w
      → AreMessages requests
      → ((windows : List Window) × (w' : World b.State) × (session b fuel requests w
            ≡ (ok windows, w'))
          × (length windows ≡ length requests)
          × IsReady w')
        ⊎ ((session b fuel requests w).0 ≡ exited)
  unfolding session pure
  session-IsReady [] w ready long = inl ([], w, refl, refl, ready)
  session-IsReady (encoded ∷ requests) w ready long = elim (send_cases encoded w ready long.0) [
    | inl (window, same, ready') ↦
        let next = (interactive_one b fuel (put_request encoded w)).1 in
        let first = then_value (send_to_pglite b fuel encoded) (rest requests) w window next same in
        elim (session-IsReady requests next ready' long.1) [
          | inl (windows, w', same', shape, ready'') ↦ inl (
            window ∷ windows,
            w',
            first ∙ then_value (session b fuel requests) (collect window) next windows w' same',
            ap suc shape,
            ready'',
          )
          | inr ended ↦ inr (
              ap (λ x. x.0) first
              ∙ then_exited (session b fuel requests) (collect window) next ended)
        ]
    | inr ended ↦ inr (then_exited (send_to_pglite b fuel encoded) (rest requests) w ended)
  ]
