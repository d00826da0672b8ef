-- ===== src/Wire/Action.antt =====
-- State, errors and calls of the backend: the monad that the wire loop is written in.
pub mod Rules
pub mod Faultless
pub mod Triple
use pglite_build.Prelude.{ℕ, zero, suc, Bool, ◌∷◌, Bytes, ℤ, if◌then◌else◌}
use pglite_build.Wire.World.{
  Answer, returns, raises, ends, Outcome, ok, thrown, exited, fault, diverged, World, Backend, Call,
  Shared,
}

abbrev pub Action : Type 0 → Type 0 → Type 0
Action S A = World S → Outcome A × World S

module _ {S : Type 0} where
  module _ {A : Type 0} where
    unfoldable pub pure : A → Action S A
    pure a w = (ok a, w)

    -- The end of the process, `abort` included.
    unfoldable pub exit : Action S A
    exit w = (exited, w)

    unfoldable pub gets : (World S → A) → Action S A
    gets f w = (ok (f w), w)

  unfoldable pub modify : (World S → World S) → Action S (Unit {0})
  modify f w = (ok tt, f w)

  -- A change of the globals that the backend writes too.
  unfoldable pub modify_shared : (Shared → Shared) → Action S (Unit {0})
  unfolding modify
  modify_shared f = modify λ w. record w { shared = f w.shared }

  module _ {A B : Type 0} where
    abbrev pub continue : Outcome A → (A → Action S B) → Action S B
    continue (ok a) f w = f a w
    continue thrown f w = (thrown, w)
    continue exited f w = (exited, w)
    continue fault f w = (fault, w)
    continue diverged f w = (diverged, w)

    infixl 5 ◌>>=◌ ◌>>◌
    -- Opening this opens the primitive actions too.
    unfoldable pub ◌>>=◌ : Action S A → (A → Action S B) → Action S B
    unfolding pure exit gets modify_shared
    ◌>>=◌ m f w = let (r, w') = m w in continue r f w'

    abbrev pub ◌>>◌ : Action S A → Action S B → Action S B
    m >> k = m >>= λ _. k

  -- `if (b) m`
  abbrev pub when : Bool → Action S (Unit {0}) → Action S (Unit {0})
  when b m = if b then m else pure tt

  -- `for (int i = 0; i < n; i++) m`
  unfoldable pub repeat : ℕ → Action S (Unit {0}) → Action S (Unit {0})
  unfolding ◌>>=◌
  repeat zero m = pure tt
  repeat (suc n) m = m >> repeat n m

abbrev pub outcome : {A : Type 0} → Answer A → Outcome A
outcome (returns a) = ok a
outcome raises = thrown
outcome ends = exited

module _ (b : Backend) where
  -- A call of the backend, for its result.
  unfoldable pub ask : Call → Action b.State ℤ
  ask c w =
      let (a, sh, s) = b.answer c w in
      (outcome a, record w { shared = sh; rest = s; log = c ∷ w.log })

  -- A call of the backend, for its effect.
  unfoldable pub call : Call → Action b.State (Unit {0})
  unfolding ask ◌>>=◌
  call c = ask c >> pure tt

  unfoldable pub pq_getmsgstring : Action b.State Bytes
  pq_getmsgstring w =
      let (a, sh, s) = b.getmsgstring w in (outcome a, record w { shared = sh; rest = s })
