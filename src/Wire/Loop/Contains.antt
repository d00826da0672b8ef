-- ===== src/Wire/Loop/Contains.antt =====
-- Which outcomes a call of `interactive_one` may have.
use pglite_build.Prelude.{
  arith, ◌≡◌, ◌≢◌, refl, ◌⊎◌, inl, inr, ℕ, zero, suc, Bool, true, false, Option, none, some,
}
use pglite_build.Wire.World.{Backend, World, Outcome, ok, thrown, exited, fault, diverged}
use pglite_build.Wire.Action.{Action}
use pglite_build.Wire.Loop.{run, follow, jump_back, interactive_one, locals}
use pglite_build.Wire.Loop.Blocks.{Label, entry, handler, block}

-- An error never leaves `interactive_one`.
module _ (b : Backend) where
  jump_back-ne-thrown :
      (next : Label → Action b.State (Unit {0})) (armed : Bool) (w : World b.State)
      → (next handler w).0 ≢ thrown
      → (jump_back next armed w).0 ≢ thrown
  unfolding jump_back
  jump_back-ne-thrown next true w h = h
  jump_back-ne-thrown next false w h = λ e. absurd (ground arith)

  follow-ne-thrown :
      (next : Label → Action b.State (Unit {0})) (x : Outcome (Option Label)) (w : World b.State)
      → ((l : Label) (w : World b.State) → (next l w).0 ≢ thrown)
      → (follow next x w).0 ≢ thrown
  unfolding follow
  follow-ne-thrown next (ok none) w h = λ e. cc
  follow-ne-thrown next (ok (some l)) w h = h l w
  follow-ne-thrown next thrown w h = jump_back-ne-thrown next w.armed w (h handler w)
  follow-ne-thrown next exited w h = λ e. cc
  follow-ne-thrown next fault w h = λ e. cc
  follow-ne-thrown next diverged w h = λ e. cc

  run-ne-thrown : (fuel : ℕ) (l : Label) (w : World b.State) → (run b fuel l w).0 ≢ thrown
  unfolding run
  run-ne-thrown zero l w = λ e. cc
  run-ne-thrown (suc fuel) l w =
      follow-ne-thrown (run b fuel) (block b l w).0 (block b l w).1 (run-ne-thrown fuel)

  pub interactive_one-ne-thrown :
      (fuel : ℕ) (w : World b.State) → (interactive_one b fuel w).0 ≢ thrown
  unfolding interactive_one
  interactive_one-ne-thrown fuel w = run-ne-thrown fuel entry (locals b w)

-- The outcomes that are left.
pub outcome_cases :
    {A : Type 0} (x : Outcome A)
    → x ≢ thrown
    → x ≢ diverged
    → ((a : A) × (x ≡ ok a)) ⊎ ((x ≡ exited) ⊎ (x ≡ fault))
outcome_cases (ok a) t d = inl (a, refl)
outcome_cases thrown t d = absurd (t refl)
outcome_cases exited t d = inr (inl refl)
outcome_cases fault t d = inr (inr refl)
outcome_cases diverged t d = absurd (d refl)
