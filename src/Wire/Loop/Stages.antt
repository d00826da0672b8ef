-- ===== src/Wire/Loop/Stages.antt =====
-- A call of `interactive_one` in two stages: what holds before its reply is handed over, or the call
-- is given up, and what holds after.
use pglite_build.Prelude.{
  arith, ℕ, zero, suc, ◌≡◌, refl, Bool, true, false, Option, none, some, if◌then◌else◌,
}
use pglite_build.Wire.World.{Backend, World, Outcome, ok, thrown, exited, fault, diverged}
use pglite_build.Wire.Action.{Action, ◌>>=◌, pure}
use pglite_build.Wire.Action.Triple.{Triple, Post, Triple-bind, Triple-if, Triple-pure}
use pglite_build.Wire.Loop.{jump_back, follow, run}
use pglite_build.Wire.Loop.Blocks.{
  Label, incoming, looping, handler, resume_on_error, flushing, return_early, block,
}

module _ {S : Type 0} (Before After : World S → Type 0) where
  -- Where a block may lead.
  abbrev pub Arrives : Option Label → World S → Type 0
  Arrives none w = After w
  Arrives (some return_early) w = After w
  Arrives (some _) w = Before w

module _ {S : Type 0} {Before After : World S → Type 0} where
  pub then_on :
      {A : Type 0} {P : World S → Type 0} (m : Action S A) (f : A → Action S (Option Label))
      → Triple P m (λ _. P) Before
      → ((a : A) → Triple P (f a) (Arrives Before After) Before)
      → Triple P (m >>= f) (Arrives Before After) Before
  then_on {P} m f hm hf = Triple-bind {R = λ _. P} m f hm hf

  pub either :
      {P : World S → Type 0} (t : Bool) (m n : Action S (Option Label))
      → Triple P m (Arrives Before After) Before
      → Triple P n (Arrives Before After) Before
      → Triple P (if t then m else n) (Arrives Before After) Before
  either t m n hm hn = Triple-if t m n (λ _. hm) (λ _. hn)

  pub to_loop : Triple Before (pure (some looping)) (Arrives Before After) Before
  to_loop = Triple-pure _ (λ w h. h)

  pub to_incoming : Triple Before (pure (some incoming)) (Arrives Before After) Before
  to_incoming = Triple-pure _ (λ w h. h)

  pub to_flush : Triple Before (pure (some flushing)) (Arrives Before After) Before
  to_flush = Triple-pure _ (λ w h. h)

  pub to_resume : Triple Before (pure (some resume_on_error)) (Arrives Before After) Before
  to_resume = Triple-pure _ (λ w h. h)

  pub to_return : Triple After (pure (some return_early)) (Arrives Before After) Before
  to_return = Triple-pure _ (λ w h. h)

pub ruleset jump_rules = (then_on, either, to_loop, to_incoming, to_flush, to_resume, to_return)

-- If every block that is met keeps to the two stages, a call that returns has come to the second.
module _ (b : Backend) (Before After : World b.State → Type 0) (Met : Label → Type 0)
    (met : (l k : Label) (w : World b.State) → (block b l w).0 ≡ ok (some k) → Met k)
    (caught : Met handler) where
  -- What the rest of the run guarantees.
  abbrev Later : (Label → Action b.State (Unit {0})) → Type 0
  Later next =
      (l : Label) (w : World b.State)
      → Met l
      → Arrives Before After (some l) w
      → (next l w).0 ≡ ok tt
      → After (next l w).1

  jump_back-After :
      (next : Label → Action b.State (Unit {0})) (armed : Bool) (w : World b.State)
      → Later next
      → Before w
      → (jump_back next armed w).0 ≡ ok tt
      → After (jump_back next armed w).1
  unfolding jump_back
  jump_back-After next true w later h e = later handler w caught h e
  jump_back-After next false w later h e = absurd (ground arith)

  follow-After :
      (next : Label → Action b.State (Unit {0})) (x : Outcome (Option Label) × World b.State)
      → Later next
      → ((k : Label) → x.0 ≡ ok (some k) → Met k)
      → Post (Arrives Before After) Before x
      → (follow next x.0 x.1).0 ≡ ok tt
      → After (follow next x.0 x.1).1
  unfolding follow
  follow-After next (ok none, w) later known h e = h
  follow-After next (ok (some l), w) later known h e = later l w (known l refl) h e
  follow-After next (thrown, w) later known h e = jump_back-After next w.armed w later h e
  follow-After next (exited, w) later known h e = cc
  follow-After next (fault, w) later known h e = cc
  follow-After next (diverged, w) later known h e = cc

  pub run-After :
      ((l : Label)
        → Met l
        → Triple (Arrives Before After (some l)) (block b l) (Arrives Before After) Before)
      → (fuel : ℕ) (l : Label) (w : World b.State) → Met l
      → Arrives Before After (some l) w
      → (run b fuel l w).0 ≡ ok tt
      → After (run b fuel l w).1
  unfolding run
  run-After blocks zero l w m h e = cc
  run-After blocks (suc fuel) l w m h e =
      follow-After (run b fuel) (block b l w) (run-After blocks fuel) (λ k. met l k w)
        ((blocks l m).at w h) e

-- Every block.
abbrev Every : Label → Type 0
Every l = Unit {0}

pub run-After_every :
    (b : Backend) (Before After : World b.State → Type 0)
    → ((l : Label)
        → Triple (Arrives Before After (some l)) (block b l) (Arrives Before After) Before)
    → (fuel : ℕ) (l : Label) (w : World b.State) → Arrives Before After (some l) w
    → (run b fuel l w).0 ≡ ok tt
    → After (run b fuel l w).1
run-After_every b Before After blocks fuel l w h e =
    run-After b Before After Every (λ l k w e. tt) tt (λ l m. blocks l) fuel l w tt h e
