-- ===== src/Wire/Action/Triple/Results.antt =====
-- What the conditions say of a run that has returned, raised an error or come to an end.
use mathlib.Core.Path.{subst}
use pglite_build.Prelude.{◌≢◌, ◌≡◌}
use pglite_build.Wire.World.{Outcome, ok, thrown, exited, fault, diverged, World}
use pglite_build.Wire.Action.{Action}
use pglite_build.Wire.Action.Triple.{Post, Triple}

Post-value :
    {S A : Type 0} (Q : A → World S → Type 0) (E : World S → Type 0) (x : Outcome A × World S)
    (a : A)
    → x.0 ≡ ok a
    → Post Q E x
    → Q a x.1
Post-value Q E (ok y, w) a e h = subst (λ z. Q z w) (cc) h
Post-value Q E (thrown, w) a e h = cc
Post-value Q E (exited, w) a e h = cc
Post-value Q E (fault, w) a e h = cc
Post-value Q E (diverged, w) a e h = cc

Post-ends :
    {S A : Type 0} (Q : A → World S → Type 0) (E : World S → Type 0) (x : Outcome A × World S)
    → Post Q E x
    → x.0 ≢ diverged
Post-ends Q E (ok y, w) h = λ e. cc
Post-ends Q E (thrown, w) h = λ e. cc
Post-ends Q E (exited, w) h = λ e. cc
Post-ends Q E (fault, w) h = λ e. cc
Post-ends Q E (diverged, w) h = absurd h

Post-throws :
    {S A : Type 0} (Q : A → World S → Type 0) (E : World S → Type 0) (x : Outcome A × World S)
    → x.0 ≡ thrown
    → Post Q E x
    → E x.1
Post-throws Q E (ok y, w) e h = cc
Post-throws Q E (thrown, w) e h = h
Post-throws Q E (exited, w) e h = cc
Post-throws Q E (fault, w) e h = cc
Post-throws Q E (diverged, w) e h = cc

-- What holds of a run that has returned, or raised an error.
module _ {S A : Type 0} {P E : World S → Type 0} {Q : A → World S → Type 0} where
  pub Triple-returns :
      (m : Action S A)
      → Triple P m Q E
      → (w : World S) → P w
      → (a : A) → (m w).0 ≡ ok a
      → Q a (m w).1
  Triple-returns m h w p a e = Post-value Q E (m w) a e (h.at w p)

  pub Triple-throws :
      (m : Action S A) → Triple P m Q E → (w : World S) → P w → (m w).0 ≡ thrown → E (m w).1
  Triple-throws m h w p e = Post-throws Q E (m w) e (h.at w p)

  pub Triple-ends : (m : Action S A) → Triple P m Q E → (w : World S) → P w → (m w).0 ≢ diverged
  Triple-ends m h w p = Post-ends Q E (m w) (h.at w p)
