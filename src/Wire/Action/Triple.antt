-- ===== src/Wire/Action/Triple.antt =====
-- Pre- and postconditions of actions, for a return and for an error apart.
pub mod Calls
pub mod Results
use mathlib.Core.Path.{subst}
use pglite_build.Prelude.{◌≢◌, ◌≡◌, refl, Bool, true, false, if◌then◌else◌, ℤ, ◌∷◌, ℕ, zero, suc}
use pglite_build.Wire.World.{
  Answer, returns, raises, ends, Outcome, ok, thrown, exited, fault, diverged, World, Backend, Call,
  Shared,
}
use pglite_build.Wire.Action.{
  Action, pure, exit, gets, modify, modify_shared, continue, ◌>>=◌, ask, call, outcome,
  pq_getmsgstring, repeat,
}

-- No action runs out of fuel; an end of the process and a fault are not constrained.
abbrev pub Post :
    {S A : Type 0} → (A → World S → Type 0) → (World S → Type 0) → Outcome A × World S → Type 0
Post Q E (ok a, w) = Q a w
Post Q E (thrown, w) = E w
Post Q E (exited, w) = Unit {0}
Post Q E (fault, w) = Unit {0}
Post Q E (diverged, w) = ⊥

pub record Triple {S A : Type 0} (P : World S → Type 0) (m : Action S A) (Q : A → World S → Type 0)
    (E : World S → Type 0) : Type 0 where
  pub at : (w : World S) → P w → Post Q E (m w)

module _ {S A B : Type 0} {E : World S → Type 0} {R : A → World S → Type 0}
    {Q : B → World S → Type 0} where
  Triple-continue :
      (f : A → Action S B) (x : Outcome A × World S)
      → ((a : A) → Triple (R a) (f a) Q E)
      → Post R E x
      → Post Q E (continue x.0 f x.1)
  Triple-continue f (ok a, w) hf h = (hf a).at w h
  Triple-continue f (thrown, w) hf h = h
  Triple-continue f (exited, w) hf h = tt
  Triple-continue f (fault, w) hf h = tt
  Triple-continue f (diverged, w) hf h = h

module _ {S : Type 0} {P E : World S → Type 0} where
  module _ {A : Type 0} {Q : A → World S → Type 0} where
    pub Triple-pure : (a : A) → ((w : World S) → P w → Q a w) → Triple P (pure a) Q E
    unfolding pure
    Triple-pure a h = record { at = h }

    pub Triple-gets : (f : World S → A) → ((w : World S) → P w → Q (f w) w) → Triple P (gets f) Q E
    unfolding gets
    Triple-gets f h = record { at = h }

    pub Triple-if :
        (b : Bool) (m n : Action S A)
        → (b ≡ true → Triple P m Q E)
        → (b ≡ false → Triple P n Q E)
        → Triple P (if b then m else n) Q E
    Triple-if true m n hm hn = hm refl
    Triple-if false m n hm hn = hn refl

  pub Triple-modify :
      {Q : Unit {0} → World S → Type 0} (f : World S → World S)
      → ((w : World S) → P w → Q tt (f w))
      → Triple P (modify f) Q E
  unfolding modify
  Triple-modify f h = record { at = h }

  module _ {A B : Type 0} {R : A → World S → Type 0} {Q : B → World S → Type 0} where
    pub Triple-bind :
        (m : Action S A) (f : A → Action S B)
        → Triple P m R E
        → ((a : A) → Triple (R a) (f a) Q E)
        → Triple P (m >>= f) Q E
    unfolding ◌>>=◌
    Triple-bind m f hm hf = record { at = λ w h. Triple-continue f (m w) hf (hm.at w h) }

-- `m` keeps `P` if it returns or raises.
abbrev pub Stable : {S A : Type 0} → (World S → Type 0) → Action S A → Type 0
Stable P m = Triple P m (λ _. P) P

module _ {S : Type 0} {P E : World S → Type 0} where
  module _ {A : Type 0} where
    pub Stable-pure : (a : A) → Triple P (pure a) (λ _. P) E
    Stable-pure a = Triple-pure a (λ w h. h)

    pub Stable-gets : (f : World S → A) → Triple P (gets f) (λ _. P) E
    Stable-gets f = Triple-gets f (λ w h. h)

    pub Stable-exit : Triple P (exit {A = A}) (λ _. P) E
    unfolding exit
    Stable-exit = record { at = λ w h. tt }

    pub Stable-if :
        (b : Bool) (m n : Action S A)
        → Triple P m (λ _. P) E
        → Triple P n (λ _. P) E
        → Triple P (if b then m else n) (λ _. P) E
    Stable-if b m n hm hn = Triple-if b m n (λ _. hm) (λ _. hn)

  pub Stable-modify :
      (f : World S → World S) → ((w : World S) → P w → P (f w)) → Triple P (modify f) (λ _. P) E
  Stable-modify f h = Triple-modify f h

  pub Stable-modify_shared :
      (f : Shared → Shared)
      → ((w : World S) → P w → P (record w { shared = f w.shared }))
      → Triple P (modify_shared f) (λ _. P) E
  unfolding modify_shared
  Stable-modify_shared f h = Triple-modify _ h

  pub Stable-bind :
      {A B : Type 0} (m : Action S A) (f : A → Action S B)
      → Triple P m (λ _. P) E
      → ((a : A) → Triple P (f a) (λ _. P) E)
      → Triple P (m >>= f) (λ _. P) E
  Stable-bind m f hm hf = Triple-bind m f hm hf

module _ {S A : Type 0} {E : World S → Type 0} {R : A → World S → Type 0} where
  pub Post-weaken :
      {E' : World S → Type 0} {R' : A → World S → Type 0} (x : Outcome A × World S)
      → ((a : A) (w : World S) → R a w → R' a w)
      → ((w : World S) → E w → E' w)
      → Post R E x
      → Post R' E' x
  Post-weaken (ok a, w) f g h = f a w h
  Post-weaken (thrown, w) f g h = g w h
  Post-weaken (exited, w) f g h = tt
  Post-weaken (fault, w) f g h = tt
  Post-weaken (diverged, w) f g h = h

module _ {S A : Type 0} {P E E' : World S → Type 0} {Q Q' : A → World S → Type 0} where
  pub Triple-weaken :
      (m : Action S A)
      → Triple P m Q E
      → ((a : A) (w : World S) → Q a w → Q' a w)
      → ((w : World S) → E w → E' w)
      → Triple P m Q' E'
  Triple-weaken m h f g = record { at = λ w p. Post-weaken (m w) f g (h.at w p) }

module _ {S A : Type 0} {P P' E : World S → Type 0} {Q : A → World S → Type 0} where
  pub Triple-strengthen :
      (m : Action S A) → Triple P m Q E → ((w : World S) → P' w → P w) → Triple P' m Q E
  Triple-strengthen m h f = record { at = λ w p. h.at w (f w p) }

pub ruleset stable_rules = (
  Stable-pure, Stable-gets, Stable-exit, Stable-if, Stable-modify, Stable-modify_shared,
  Stable-bind,
)
