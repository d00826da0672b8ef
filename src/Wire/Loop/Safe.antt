-- ===== src/Wire/Loop/Safe.antt =====
-- Which calls of `interactive_one` use no null file and no jump buffer of a call that has returned.
use pglite_build.Prelude.{
  ap, ◌≡◌, ◌≢◌, ◌≤◌, refl, ◌⊎◌, inl, inr, ℕ, zero, suc, Bool, true, false, Option, none, some, pos,
  ltb, arith,
}
use pglite_build.Wire.World.{Backend, World, Call, Outcome, ok, thrown, exited, fault, diverged}
use pglite_build.Wire.Action.{Action, ◌>>=◌, pure, modify}
use pglite_build.Wire.Action.Faultless.{
  Faultless, FaultlessOn, Faultless-pure, Faultless-call, faultless_rules, FaultlessOn-any,
  FaultlessOn-bind, FaultlessOn-if,
}
use pglite_build.Wire.Loop.Frame.{View}
use pglite_build.Wire.Loop.Kept.{On, Kept, Kept-call}
use pglite_build.Wire.Loop.Stages.{Arrives}
use pglite_build.Wire.Loop.Staging.{Staged, later-Leading}
use pglite_build.Wire.Loop.Frees.{block-ne-entry}
use pglite_build.Wire.Loop.Opens.{Front, At, IsCopied, IsCalm, WithFile, at_entry-ToLoop}
use pglite_build.Wire.Loop.{run, follow, jump_back, interactive_one, locals}
use pglite_build.Wire.Action.Triple.{Post, Triple, Triple-modify, Triple-strengthen, stable_rules}
use pglite_build.Wire.Action.Triple.Calls.{after}
use pglite_build.Wire.Loop.Sound.{Faultless-block}
use pglite_build.Wire.Loop.Blocks.{
  Label, entry, incoming, looping, handler, resume_on_error, flushing, return_early, block,
  flush_reply, free_buffers, publish, close_reply_file,
}

-- This call has its `sigsetjmp`, and the reply file is open.
abbrev Armed : {S : Type 0} → View S → Type 0
Armed v = (v.armed ≡ true) × (v.socket_file ≡ true)

abbrev Anything : {S : Type 0} → World S → Type 0
Anything w = Unit {0}

module _ (b : Backend) where
  -- A part that keeps `Armed`, and the rest.
  safely :
      {A B : Type 0} (m : Action b.State A) (f : A → Action b.State B)
      → Triple (On Armed) m (λ _. On Armed) (On Armed)
      → Faultless m
      → ((a : A) → FaultlessOn (On Armed) (f a))
      → FaultlessOn (On Armed) (m >>= f)
  safely m f t h hf = FaultlessOn-bind {R = On Armed} {E = On Armed} m f t (FaultlessOn-any m h) hf

  Armed-Kept : Kept b Armed
  Armed-Kept = record { calls = λ c w h. h; texts = λ w h. h; off = λ v h. h }

  close-any : {E : World b.State → Type 0} → Triple Anything (close_reply_file b) (λ _. Anything) E
  unfolding close_reply_file
  close-any = record { at = λ w h. ground arith }

  publish-any : {E : World b.State → Type 0} → Triple Anything (publish b) (λ _. Anything) E
  unfolding publish
  publish-any = search (close-any, stable_rules) depth 60

  close-FaultlessOn : FaultlessOn (On Armed) (close_reply_file b)
  unfolding close_reply_file
  close-FaultlessOn = record { on = λ w h e. ground arith }

  publish-FaultlessOn : FaultlessOn (On Armed) (publish b)
  unfolding publish
  publish-FaultlessOn = safely _ _ (search (stable_rules)) (search (faultless_rules)) λ pending.
      safely _ _ (search (stable_rules)) (search (faultless_rules)) λ files.
        safely _ _ (search (stable_rules)) (search (faultless_rules)) λ opened.
          FaultlessOn-if (ltb 0 pending) _ _ (FaultlessOn-any _ (search faultless_rules depth 40)) (
            safely _ _ (search (stable_rules)) (search (faultless_rules)) λ _.
              FaultlessOn-if files _ _ close-FaultlessOn
                (FaultlessOn-any _ (search (faultless_rules))))

  Armed-Staged : Staged b Armed Anything
  unfolding free_buffers
  Armed-Staged = record {
    kept = Armed-Kept;
    armed = λ v h. (refl, h.1);
    prompted = λ w h on. tt;
    publishes = Triple-strengthen {P = Anything} _ publish-any (λ w h. tt);
    frees = Triple-modify _ (λ w h. tt);
  }

  flush-FaultlessOn : FaultlessOn (On Armed) (flush_reply b)
  unfolding flush_reply
  flush-FaultlessOn = safely _ _ (search (stable_rules)) (search (faultless_rules)) λ auth.
      safely _ _ (search (stable_rules, Kept-call b Armed Armed-Kept) depth 40)
        (search (faultless_rules, Faultless-call b) depth 40)
        λ _.
          FaultlessOn-bind {R = Anything} {E = Anything} _ _
            (Triple-strengthen {P = Anything} _ publish-any (λ w h. tt)) publish-FaultlessOn
            (λ _. FaultlessOn-any _ (Faultless-pure _))

  block-ne-fault :
      (l : Label) (w : World b.State)
      → Arrives (On Armed) Anything (some l) w
      → (block b l w).0 ≢ fault
  unfolding block
  block-ne-fault flushing w h = (flush-FaultlessOn).on w h
  block-ne-fault entry w h = (Faultless-block b entry (λ e. cc)).at w
  block-ne-fault incoming w h = (Faultless-block b incoming (λ e. cc)).at w
  block-ne-fault looping w h = (Faultless-block b looping (λ e. cc)).at w
  block-ne-fault handler w h = (Faultless-block b handler (λ e. cc)).at w
  block-ne-fault resume_on_error w h = (Faultless-block b resume_on_error (λ e. cc)).at w
  block-ne-fault return_early w h = (Faultless-block b return_early (λ e. cc)).at w

  jump_back-ne-fault :
      (next : Label → Action b.State (Unit {0})) (armed : Bool) (w : World b.State)
      → armed ≡ true
      → (next handler w).0 ≢ fault
      → (jump_back next armed w).0 ≢ fault
  unfolding jump_back
  jump_back-ne-fault next true w is h = h
  jump_back-ne-fault next false w is h = cc

  follow-ne-fault :
      (next : Label → Action b.State (Unit {0})) (x : Outcome (Option Label) × World b.State)
      → ((l : Label) (w : World b.State)
          → l ≢ entry
          → Arrives (On Armed) Anything (some l) w
          → (next l w).0 ≢ fault)
      → Post (Arrives (On Armed) Anything) (On Armed) x
      → x.0 ≢ fault
      → x.0 ≢ ok (some entry)
      → (follow next x.0 x.1).0 ≢ fault
  unfolding follow
  follow-ne-fault next (ok none, w) later h ne nf = λ e. cc
  follow-ne-fault next (ok (some l), w) later h ne nf = later l w (λ e. nf (rw e refl)) h
  follow-ne-fault next (thrown, w) later h ne nf =
      jump_back-ne-fault next w.armed w h.0 (later handler w (λ e. cc) h)
  follow-ne-fault next (exited, w) later h ne nf = λ e. cc
  follow-ne-fault next (fault, w) later h ne nf = absurd (ne refl)
  follow-ne-fault next (diverged, w) later h ne nf = λ e. cc

  run-ne-fault :
      (fuel : ℕ) (l : Label) (w : World b.State)
      → l ≢ entry
      → Arrives (On Armed) Anything (some l) w
      → (run b fuel l w).0 ≢ fault
  unfolding run
  run-ne-fault zero l w ne h = λ e. cc
  run-ne-fault (suc fuel) l w ne h =
      follow-ne-fault (run b fuel) (block b l w) (run-ne-fault fuel)
        ((later-Leading b Armed Anything Armed-Staged l ne).at w h) (block-ne-fault l w h)
        (block-ne-entry b l w)

none-ne-some : (l : Label) → (let o : Option Label = none in o) ≢ some l
none-ne-some l e = cc

some_eq : (k l : Label) → some k ≡ some l → k ≡ l
some_eq k l e = cc

-- How a call begins, with a request in the CMA buffer.
module _ (b : Backend) (calm : IsCalm b) (Q : Front b.State → Type 0)
    (calls : (c : Call) (w : World b.State) → At Q w → At Q (after b c w))
    (files : (on : Bool) (v : Front b.State)
      → Q v
      → Q (record v { view_of = record (v.view_of) { sockfiles = on } }))
    (opened : (on : Bool) (v : Front b.State)
      → Q v
      → Q (record v { view_of = record (v.view_of) { socket_file = on } }))
    (n : ℕ) (long : 2 ≤ n) (request : (v : Front b.State) → Q v → v.view_of.cma_rsize ≡ pos n) where
  -- It lacks fuel, ends the process, or comes to `sigsetjmp`.
  abbrev pub Begins : ℕ → Outcome (Unit {0}) × World b.State → Type 0
  Begins fuel x =
      ((fuel ≡ 0) × (x.0 ≡ diverged))
      ⊎ ((x.0 ≡ exited)
          ⊎ ((f : ℕ) × (w' : World b.State) × (fuel ≡ suc f)
              × (x ≡ run b f incoming w')
              × At (WithFile Q) w'
              × IsCopied n w'))

  pub follow-Begins :
      (fuel : ℕ) (x : Outcome (Option Label) × World b.State)
      → Post (λ j w. (j ≡ some incoming) × At (WithFile Q) w × IsCopied n w) (λ _. ⊥) x
      → x.0 ≢ fault
      → Begins (suc fuel) (follow (run b fuel) x.0 x.1)
  unfolding follow
  follow-Begins fuel (ok none, w') h ne = absurd (none-ne-some incoming h.0)
  follow-Begins fuel (ok (some l), w') h ne =
      inr (inr (fuel, w', refl, ap (λ k. run b fuel k w') (some_eq l incoming h.0), h.1, h.2))
  follow-Begins fuel (thrown, w') h ne = absurd h
  follow-Begins fuel (exited, w') h ne = inr (inl refl)
  follow-Begins fuel (fault, w') h ne = absurd (ne refl)
  follow-Begins fuel (diverged, w') h ne = absurd h

  pub run-Begins :
      (drained : (v : Front b.State)
        → Q v
        → Q (record v { view_of = record (v.view_of) { socket_data = 0 } }))
      (fuel : ℕ) (w : World b.State)
      → At Q w
      → w.shared.socket_data ≡ 0
      → Begins fuel (run b fuel entry w)
  unfolding run block
  run-Begins drained zero w h idle = inl (refl, refl)
  run-Begins drained (suc fuel) w h idle =
      follow-Begins fuel (block b entry w)
        ((at_entry-ToLoop b calm Q calls files opened n long request drained).at w (h, idle))
        ((Faultless-block b entry (λ e. cc)).at w)

module _ (b : Backend) where
  abbrev Requested : ℕ → View b.State → Type 0
  Requested n v = v.cma_rsize ≡ pos n

  Requested-Kept : (n : ℕ) → Kept b (Requested n)
  Requested-Kept n = record { calls = λ c w h. h; texts = λ w h. h; off = λ v h. h }

  incoming-ne-fault :
      (fuel : ℕ) (w : World b.State) → w.socket_file ≡ true → (run b fuel incoming w).0 ≢ fault
  unfolding run follow block ◌>>=◌ modify pure
  incoming-ne-fault zero w opened = λ e. cc
  incoming-ne-fault (suc fuel) w opened =
      run-ne-fault b fuel looping (record w { armed = true; pg_exception_stack = true }) (λ e. cc)
        (refl, opened)

  -- If a request of at least two bytes is in the CMA buffer, no reply is pending, and the backend
  -- raises no error before `sigsetjmp`, then `interactive_one` never uses a null file nor jumps to
  -- a call that has returned, whatever errors the backend raises later.
  pub interactive_one-ne-fault :
      (n fuel : ℕ) (w : World b.State)
      → IsCalm b
      → 2 ≤ n
      → w.cma_rsize ≡ pos n
      → w.shared.socket_data ≡ 0
      → (interactive_one b fuel w).0 ≢ fault
  unfolding interactive_one
  interactive_one-ne-fault n fuel w calm long request idle =
      elim (run-Begins b calm (λ v. Requested n v.view_of) (Requested-Kept n).calls (λ on v h. h)
        (λ on v h. h) n long (λ v h. h) (λ v h. h) fuel (locals b w) request idle) [
          | inl (spent, lacking) ↦ λ e. cc
          | inr (inl ended) ↦ λ e. cc
          | inr (inr (f, w', spent, same, (h, opened), copied)) ↦
              rw same (incoming-ne-fault f w' opened)
        ]
