-- ===== src/Wire/Action/Rules.antt =====
-- What an action's value satisfies, one rule for each way to build an action.
use pglite_build.Prelude.{◌≡◌, refl, Bool, true, false, if◌then◌else◌}
use mathlib.Core.Path.{subst}
use pglite_build.Wire.World.{Outcome, ok, thrown, exited, fault, diverged, World}
use pglite_build.Wire.Action.{Action, pure, exit, continue, ◌>>=◌}

-- If `m` returns, its value satisfies `Q`.
pub record Leads {S A : Type 0} (Q : A → Type 0) (m : Action S A) : Type 0 where
  pub at : (w : World S) (a : A) → (m w).0 ≡ ok a → Q a

module _ {S : Type 0} where
  module _ {A : Type 0} {Q : A → Type 0} where
    pub Leads-pure : (a : A) → Q a → Leads Q (pure {S = S} a)
    unfolding pure
    Leads-pure a q = record { at = λ w x e. subst Q (cc) q }

    pub Leads-exit : Leads Q (exit {S = S} {A = A})
    unfolding exit
    Leads-exit = record { at = λ w a e. cc }

    pub Leads-if :
        (b : Bool) (m n : Action S A) → Leads Q m → Leads Q n → Leads Q (if b then m else n)
    Leads-if true m n km kn = km
    Leads-if false m n km kn = kn

  module _ {A B : Type 0} {Q : B → Type 0} where
    Leads-continue :
        (r : Outcome A) (f : A → Action S B) (w : World S)
        → ((a : A) → Leads Q (f a))
        → (x : B) → (continue r f w).0 ≡ ok x
        → Q x
    Leads-continue (ok a) f w lf x e = (lf a).at w x e
    Leads-continue thrown f w lf x e = cc
    Leads-continue exited f w lf x e = cc
    Leads-continue fault f w lf x e = cc
    Leads-continue diverged f w lf x e = cc

    pub Leads-bind :
        (m : Action S A) (f : A → Action S B) → ((a : A) → Leads Q (f a)) → Leads Q (m >>= f)
    unfolding ◌>>=◌
    Leads-bind m f lf = record { at = λ w x e. let (r, w') = m w in Leads-continue r f w' lf x e }

pub ruleset leads_rules = (Leads-pure, Leads-exit, Leads-if, Leads-bind)

module _ {S A B : Type 0} where
  continue-ok :
      (r : Outcome A) (f : A → Action S B) (w : World S) (x : B)
      → (continue r f w).0 ≡ ok x
      → (a : A) × (r ≡ ok a) × (continue r f w ≡ f a w)
  continue-ok (ok a) f w x e = (a, refl, refl)
  continue-ok thrown f w x e = cc
  continue-ok exited f w x e = cc
  continue-ok fault f w x e = cc
  continue-ok diverged f w x e = cc

  -- The two parts of a bind that has returned.
  pub bind-ok :
      (m : Action S A) (f : A → Action S B) (w : World S) (x : B)
      → ((m >>= f) w).0 ≡ ok x
      → (a : A) × ((m w).0 ≡ ok a) × ((m >>= f) w ≡ f a (m w).1)
  unfolding ◌>>=◌
  bind-ok m f w x e = continue-ok (m w).0 f (m w).1 x e

-- What a bind does after an outcome that is known.
module _ {S A B : Type 0} (m : Action S A) (f : A → Action S B) (w : World S) where
  pub then_ok : (a : A) → (m w).0 ≡ ok a → (m >>= f) w ≡ f a (m w).1
  unfolding ◌>>=◌
  then_ok a e = rw e refl

  pub then_value : (a : A) (w' : World S) → m w ≡ (ok a, w') → (m >>= f) w ≡ f a w'
  unfolding ◌>>=◌
  then_value a w' e = rw e refl

  pub then_exited : (m w).0 ≡ exited → ((m >>= f) w).0 ≡ exited
  unfolding ◌>>=◌
  then_exited e = rw e refl

  pub then_fault : (m w).0 ≡ fault → ((m >>= f) w).0 ≡ fault
  unfolding ◌>>=◌
  then_fault e = rw e refl
