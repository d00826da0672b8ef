-- ===== src/Wire/Action/Triple/Calls.antt =====
-- Pre- and postconditions of the calls of the backend.
use pglite_build.Prelude.{◌≢◌, refl, ℤ, ◌∷◌, ℕ, zero, suc}
use pglite_build.Wire.World.{Answer, returns, raises, ends, World, Backend, Call}
use pglite_build.Wire.Action.{Action, ask, call, outcome, pure, pq_getmsgstring, repeat}
use pglite_build.Wire.Action.Triple.{
  Post, Post-weaken, Triple, Triple-bind, Triple-pure, Stable, Stable-pure, Stable-bind,
}

-- The world after a call of the backend.
abbrev pub after : (b : Backend) → Call → World b.State → World b.State
after b c w = let (a, sh, s) = b.answer c w in record w { shared = sh; rest = s; log = c ∷ w.log }

abbrev pub after_text : (b : Backend) → World b.State → World b.State
after_text b w = let (a, sh, s) = b.getmsgstring w in record w { shared = sh; rest = s }

-- A call of the backend, from what its answer guarantees.
module _ (b : Backend) {P E : World b.State → Type 0} where
  pub Triple-ask :
      {Q : ℤ → World b.State → Type 0} (c : Call)
      → ((w : World b.State) → P w → Post Q E (outcome (b.answer c w).0, after b c w))
      → Triple P (ask b c) Q E
  unfolding ask
  Triple-ask c h = record { at = h }

  pub Triple-call :
      {Q : Unit {0} → World b.State → Type 0} (c : Call)
      → Triple P (ask b c) (λ _. Q tt) E
      → Triple P (call b c) Q E
  unfolding call
  Triple-call c h = Triple-bind (ask b c) (λ _. pure tt) h (λ _. Triple-pure tt (λ w q. q))

Post-any :
    {S A : Type 0} (P : World S → Type 0) (a : Answer A) (w : World S)
    → P w
    → Post (λ _. P) P (outcome a, w)
Post-any P (returns a) w h = h
Post-any P raises w h = h
Post-any P ends w h = tt

Post-calm :
    {S A : Type 0} (P : World S → Type 0) (a : Answer A) (w : World S)
    → a ≢ raises
    → P w
    → Post (λ _. P) (λ _. ⊥) (outcome a, w)
Post-calm P (returns a) w ne h = h
Post-calm P raises w ne h = ne refl
Post-calm P ends w ne h = tt

module _ (b : Backend) {P : World b.State → Type 0} where
  pub Stable-ask : (c : Call) → ((w : World b.State) → P w → P (after b c w)) → Stable P (ask b c)
  Stable-ask c h = Triple-ask b c (λ w p. Post-any P (b.answer c w).0 (after b c w) (h w p))

  pub Stable-call : (c : Call) → ((w : World b.State) → P w → P (after b c w)) → Stable P (call b c)
  Stable-call c h = Triple-call b c (Stable-ask c h)

  -- Whatever the answer is.
  pub Triple-ask_any :
      {R E : World b.State → Type 0} (c : Call)
      → ((w : World b.State) → P w → R (after b c w))
      → ((w : World b.State) → R w → E w)
      → Triple P (ask b c) (λ _. R) E
  Triple-ask_any {R} c h k = Triple-ask b c λ w p.
      Post-weaken {A = ℤ} {R = λ _. R} (outcome (b.answer c w).0, after b c w) (λ _ w r. r) k
        (Post-any R (b.answer c w).0 (after b c w) (h w p))

  pub Stable-text : ((w : World b.State) → P w → P (after_text b w)) → Stable P (pq_getmsgstring b)
  unfolding pq_getmsgstring
  Stable-text h = record { at = λ w p. Post-any P (b.getmsgstring w).0 (after_text b w) (h w p) }

  pub Stable-repeat : (n : ℕ) (m : Action b.State (Unit {0})) → Stable P m → Stable P (repeat n m)
  unfolding repeat
  Stable-repeat zero m h = Stable-pure tt
  Stable-repeat (suc n) m h = Stable-bind m (λ _. repeat n m) h (λ _. Stable-repeat n m h)

  -- A call that raises no error.
  pub Calm-ask :
      (c : Call)
      → ((w : World b.State) → P w → P (after b c w))
      → ((w : World b.State) → (b.answer c w).0 ≢ raises)
      → Triple P (ask b c) (λ _. P) (λ _. ⊥)
  Calm-ask c h k = Triple-ask b c (λ w p. Post-calm P (b.answer c w).0 (after b c w) (k w) (h w p))

  pub Calm-call :
      (c : Call)
      → ((w : World b.State) → P w → P (after b c w))
      → ((w : World b.State) → (b.answer c w).0 ≢ raises)
      → Triple P (call b c) (λ _. P) (λ _. ⊥)
  Calm-call c h k = Triple-call b c (Calm-ask c h k)
