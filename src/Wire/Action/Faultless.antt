-- ===== src/Wire/Action/Faultless.antt =====
-- Actions that use no null file and no stale jump buffer, one rule for each way to build an action.
use pglite_build.Prelude.{◌≡◌, ◌≢◌, refl, ℕ, zero, suc, Bool, true, false, if◌then◌else◌}
use pglite_build.Wire.World.{
  Answer, returns, raises, ends, Outcome, ok, thrown, exited, fault, diverged, World, Backend, Call,
  Shared,
}
use pglite_build.Wire.Action.{
  Action, pure, exit, gets, modify, modify_shared, continue, ◌>>=◌, ask, call, outcome,
  pq_getmsgstring, repeat,
}
use pglite_build.Wire.Action.Triple.{Post, Triple}

pub record Faultless {S A : Type 0} (m : Action S A) : Type 0 where
  pub at : (w : World S) → (m w).0 ≢ fault

-- The same where `P` holds.
pub record FaultlessOn {S A : Type 0} (P : World S → Type 0) (m : Action S A) : Type 0 where
  pub on : (w : World S) → P w → (m w).0 ≢ fault

module _ {S : Type 0} where
  module _ {A : Type 0} where
    pub Faultless-pure : (a : A) → Faultless {S = S} (pure a)
    unfolding pure
    Faultless-pure a = record { at = λ w e. cc }

    pub Faultless-exit : Faultless {S = S} (exit {A = A})
    unfolding exit
    Faultless-exit = record { at = λ w e. cc }

    pub Faultless-gets : (f : World S → A) → Faultless (gets f)
    unfolding gets
    Faultless-gets f = record { at = λ w e. cc }

    pub Faultless-if :
        (b : Bool) (m n : Action S A) → Faultless m → Faultless n → Faultless (if b then m else n)
    Faultless-if true m n hm hn = hm
    Faultless-if false m n hm hn = hn

  pub Faultless-modify : (f : World S → World S) → Faultless (modify f)
  unfolding modify
  Faultless-modify f = record { at = λ w e. cc }

  pub Faultless-modify_shared : (f : Shared → Shared) → Faultless {S = S} (modify_shared f)
  unfolding modify_shared
  Faultless-modify_shared f = Faultless-modify _

  module _ {A B : Type 0} where
    continue-ne-fault :
        (r : Outcome A) (f : A → Action S B) (w : World S)
        → r ≢ fault
        → ((a : A) → r ≡ ok a → (f a w).0 ≢ fault)
        → (continue r f w).0 ≢ fault
    continue-ne-fault (ok a) f w h hf = hf a refl
    continue-ne-fault thrown f w h hf = λ e. cc
    continue-ne-fault exited f w h hf = λ e. cc
    continue-ne-fault fault f w h hf = absurd (h refl)
    continue-ne-fault diverged f w h hf = λ e. cc

    pub Faultless-bind :
        (m : Action S A) (f : A → Action S B)
        → Faultless m
        → ((a : A) → Faultless (f a))
        → Faultless (m >>= f)
    unfolding ◌>>=◌
    Faultless-bind m f hm hf = record {
      at = λ w. continue-ne-fault (m w).0 f (m w).1 (hm.at w) (λ a e. (hf a).at (m w).1);
    }

pub ruleset faultless_rules = (
  Faultless-pure, Faultless-exit, Faultless-gets, Faultless-if, Faultless-modify,
  Faultless-modify_shared, Faultless-bind,
)

outcome-ne-fault : {A : Type 0} (a : Answer A) → outcome a ≢ fault
outcome-ne-fault (returns a) = λ e. cc
outcome-ne-fault raises = λ e. cc
outcome-ne-fault ends = λ e. cc

module _ (b : Backend) where
  pub Faultless-ask : (c : Call) → Faultless (ask b c)
  unfolding ask
  Faultless-ask c = record { at = λ w. outcome-ne-fault (b.answer c w).0 }

  pub Faultless-call : (c : Call) → Faultless (call b c)
  unfolding call
  Faultless-call c =
      Faultless-bind (ask b c) (λ _. pure tt) (Faultless-ask c) (λ _. Faultless-pure tt)

  pub Faultless-text : Faultless (pq_getmsgstring b)
  unfolding pq_getmsgstring
  Faultless-text = record { at = λ w. outcome-ne-fault (b.getmsgstring w).0 }

pub Faultless-repeat :
    {S : Type 0} (n : ℕ) (m : Action S (Unit {0})) → Faultless m → Faultless (repeat n m)
unfolding repeat
Faultless-repeat zero m h = Faultless-pure tt
Faultless-repeat (suc n) m h = Faultless-bind m (λ _. repeat n m) h (λ _. Faultless-repeat n m h)

pub FaultlessOn-any :
    {S A : Type 0} {P : World S → Type 0} (m : Action S A) → Faultless m → FaultlessOn P m
FaultlessOn-any m h = record { on = λ w p. h.at w }

pub FaultlessOn-if :
    {S A : Type 0} {P : World S → Type 0} (t : Bool) (m n : Action S A)
    → FaultlessOn P m
    → FaultlessOn P n
    → FaultlessOn P (if t then m else n)
FaultlessOn-if true m n hm hn = hm
FaultlessOn-if false m n hm hn = hn

module _ {S A B : Type 0} where
  Post-next :
      (R E : World S → Type 0) (x : Outcome A × World S) (f : A → Action S B)
      → Post (λ _. R) E x
      → ((a : A) → FaultlessOn R (f a))
      → x.0 ≢ fault
      → (continue x.0 f x.1).0 ≢ fault
  Post-next R E (ok a, w) f h hf ne = (hf a).on w h
  Post-next R E (thrown, w) f h hf ne = λ e. cc
  Post-next R E (exited, w) f h hf ne = λ e. cc
  Post-next R E (fault, w) f h hf ne = absurd (ne refl)
  Post-next R E (diverged, w) f h hf ne = λ e. cc

  pub FaultlessOn-bind :
      {P R E : World S → Type 0} (m : Action S A) (f : A → Action S B)
      → Triple P m (λ _. R) E
      → FaultlessOn P m
      → ((a : A) → FaultlessOn R (f a))
      → FaultlessOn P (m >>= f)
  unfolding ◌>>=◌
  FaultlessOn-bind {R} {E} m f t h hf = record {
    on = λ w p. Post-next R E (m w) f (t.at w p) hf (h.on w p);
  }
