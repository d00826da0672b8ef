-- ===== src/Wire/Client/Settled.antt =====
-- What a request in the CMA buffer leaves for the next one.
use pglite_build.Prelude.{
  ap, ◌≡◌, ◌≢◌, ◌≤◌, ◌∙◌, refl, inl, inr, ℕ, Bool, true, false, some, pos, ltb, arith,
}
use pglite_build.Wire.World.{Backend, World, ok}
use pglite_build.Wire.Action.{modify_shared}
use pglite_build.Wire.Action.Triple.{
  Triple, Triple-bind, Triple-gets, Triple-if, Triple-modify, Triple-strengthen, stable_rules,
}
use pglite_build.Wire.Loop.{run, interactive_one, locals}
use pglite_build.Wire.Loop.Blocks.{
  Label, entry, incoming, block, publish, close_reply_file, free_buffers,
}
use pglite_build.Wire.Loop.Frame.{View}
use pglite_build.Wire.Loop.Kept.{On, Kept}
use pglite_build.Wire.Loop.Stages.{run-After}
use pglite_build.Wire.Loop.Staging.{Staged, later-Leading}
use pglite_build.Wire.Loop.Frees.{block-ne-entry}
use pglite_build.Wire.Loop.Opens.{IsCalm}
use pglite_build.Wire.Loop.Safe.{run-Begins}

-- Wire mode, with a request of `n` bytes.
abbrev Wire : {S : Type 0} → ℕ → View S → Type 0
Wire n v = (v.cma_rsize ≡ pos n) × (v.is_wire ≡ true) × (v.is_repl ≡ false)

-- Wire mode, and nothing left to send.
abbrev pub IsIdle : {S : Type 0} → World S → Type 0
IsIdle w = (w.is_wire ≡ true) × (w.is_repl ≡ false) × (w.shared.socket_data ≡ 0)

on_off : (repl : Bool) → repl ≡ true → repl ≡ false → ⊥
on_off repl on off = cc

module _ (b : Backend) (n : ℕ) where
  Wire-Kept : Kept b (Wire n)
  Wire-Kept = record { calls = λ c w h. h; texts = λ w h. h; off = λ v h. (h.0, h.1, refl) }

  close-IsIdle : {E : World b.State → Type 0} → Triple IsIdle (close_reply_file b) (λ _. IsIdle) E
  unfolding close_reply_file
  close-IsIdle = record { at = λ w h. ground (arith, h) }

  empty_of : (pending data_left : ℕ) → data_left ≡ pending → ltb 0 pending ≡ false → data_left ≡ 0
  empty_of pending data_left e h = ground arith

  publish-IsIdle : {E : World b.State → Type 0} → Triple (On (Wire n)) (publish b) (λ _. IsIdle) E
  unfolding publish modify_shared
  publish-IsIdle =
      Triple-bind {R = λ pending w. On (Wire n) w × (w.shared.socket_data ≡ pending)} _ _
        (Triple-gets _ (λ w h. (h, refl)))
        λ pending.
          Triple-bind {R = λ _ w. On (Wire n) w × (w.shared.socket_data ≡ pending)} _ _
            (search (stable_rules))
            λ files.
              Triple-bind {R = λ _ w. On (Wire n) w × (w.shared.socket_data ≡ pending)} _ _
                (search (stable_rules))
                λ opened.
                  Triple-if (ltb 0 pending) _ _
                    (λ more.
                      Triple-strengthen {P = On (Wire n)} _
                        (Triple-bind {R = λ _. On (Wire n)} _ _ (search stable_rules depth 20) λ _.
                          Triple-bind {R = λ _. On (Wire n)} _ _ (search stable_rules depth 20)
                            λ _. Triple-modify _ (λ w h. (h.1, h.2, refl)))
                        (λ w h. h.0))
                    (λ no_more.
                      Triple-bind {R = λ _. IsIdle} _ _
                        (Triple-modify _ (λ w h.
                          (h.0.1, h.0.2, empty_of pending w.shared.socket_data h.1 no_more)))
                        (λ _. search (close-IsIdle, stable_rules) depth 20))

  Wire-Staged : Staged b (Wire n) IsIdle
  unfolding free_buffers
  Wire-Staged = record {
    kept = Wire-Kept;
    armed = λ v h. h;
    prompted = λ w h on. absurd (on_off w.is_repl on h.2);
    publishes = publish-IsIdle;
    frees = Triple-modify _ (λ w h. h);
  }

  -- From `sigsetjmp` on.
  incoming-IsIdle :
      (fuel : ℕ) (w : World b.State)
      → On (Wire n) w
      → (run b fuel incoming w).0 ≡ ok tt
      → IsIdle (run b fuel incoming w).1
  incoming-IsIdle fuel w h e =
      run-After b (On (Wire n)) IsIdle (λ l. l ≢ entry) leads_on (λ e. cc)
        (later-Leading b (Wire n) IsIdle Wire-Staged) fuel incoming w (λ e. cc) h e
    where
      leads_on : (l k : Label) (w : World b.State) → (block b l w).0 ≡ ok (some k) → k ≡ entry → ⊥
      leads_on l k w to at_start = block-ne-entry b l w (to ∙ ap (λ j. ok (some j)) at_start)

  -- A call in wire mode that returns leaves nothing to send.
  pub interactive_one-IsIdle :
      (fuel : ℕ) (w : World b.State)
      → IsCalm b
      → 2 ≤ n
      → On (Wire n) w
      → w.shared.socket_data ≡ 0
      → (interactive_one b fuel w).0 ≡ ok tt
      → IsIdle (interactive_one b fuel w).1
  unfolding interactive_one
  interactive_one-IsIdle fuel w calm long h idle e =
      elim (run-Begins b calm (λ v. Wire n v.view_of) (Wire-Kept).calls (λ on v h. h) (λ on v h. h)
        n long (λ v h. h.0) (λ v h. h) fuel (locals b w) h idle) [
          | inl (spent, lacking) ↦ cc
          | inr (inl ended) ↦ cc
          | inr (inr (f, w', spent, same, (h', opened), copied)) ↦
              rw same (incoming-IsIdle f w' h' (rw (← same) e))
        ]
