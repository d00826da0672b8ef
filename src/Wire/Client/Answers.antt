-- ===== src/Wire/Client/Answers.antt =====
-- The reply to a request that the host sends by the file PGS_IN.
use mathlib.Core.Path.{subst}
use pglite_build.Prelude.{
  arith, ap, sym, ◌≤◌, ◌≡◌, ◌≢◌, ◌∙◌, refl, ◌⊎◌, inl, inr, ℕ, zero, suc, Bool, true, false, Option,
  none, some, ◌∷◌, Bytes, pos, ltb,
}
use pglite_build.Wire.World.{Backend, World, Outcome, ok, thrown, exited, fault, diverged}
use pglite_build.Wire.Action.{Action, ◌>>=◌, ◌>>◌, gets, modify, modify_shared, pure}
use pglite_build.Wire.Action.Rules.{then_ok, then_exited, then_fault}
use pglite_build.Wire.Action.Triple.{
  Post, Triple, Triple-bind, Triple-gets, Triple-if, Triple-modify, Triple-strengthen, stable_rules,
}
use pglite_build.Wire.Session.{interactive_write}
use pglite_build.Wire.Loop.{interactive_one, run, follow, jump_back, locals}
use pglite_build.Wire.Loop.Blocks.{Label, entry, block, publish, close_reply_file, free_buffers}
use pglite_build.Wire.Loop.Kept.{On}
use pglite_build.Wire.Loop.Stages.{run-After}
use pglite_build.Wire.Loop.Staging.{Staged, later-Leading}
use pglite_build.Wire.Loop.Frees.{block-ne-entry}
use pglite_build.Wire.Loop.Progress.{Progress}
use pglite_build.Wire.Loop.Ends.{block_limit, interactive_one_ends}
use pglite_build.Wire.Loop.Contains.{interactive_one-ne-thrown, outcome_cases}
use pglite_build.Wire.Client.{send_file_to_pglite}
use pglite_build.Wire.Client.Files.{
  KeepsFiles, Filed, Filed-Kept, Answered, Unarmed, Begun, Requests, at_entry-Begun,
}

on_off : (repl : Bool) → repl ≡ true → repl ≡ false → ⊥
on_off repl on off = cc

module _ (b : Backend) (keeps : KeepsFiles b) where
  close-Answered :
      {E : World b.State → Type 0} → Triple (On Filed) (close_reply_file b) (λ _. Answered) E
  unfolding close_reply_file
  close-Answered = record { at = λ w h. rw (h.2) (w.shared.olock, refl) }

  publish-Answered : {E : World b.State → Type 0} → Triple (On Filed) (publish b) (λ _. Answered) E
  unfolding publish modify_shared
  publish-Answered = Triple-bind {R = λ _. On Filed} _ _ (search (stable_rules)) λ pending.
      Triple-bind {R = λ files w. On Filed w × (files ≡ true)} _ _ (Triple-gets _ (λ w h. (h, h.1)))
        λ files.
          Triple-bind {R = λ opened w. On Filed w × (files ≡ true) × (opened ≡ true)} _ _
            (Triple-gets _ (λ w h. (h.0, h.1, h.0.2)))
            λ opened.
              Triple-if (ltb 0 pending) _ _
                (λ some_bytes.
                  Triple-bind {R = λ _ w. (files ≡ true) × (opened ≡ true)} _ _
                    (Triple-if files _ _ (λ on. Triple-modify _ (λ w h. (h.1, h.2)))
                      (λ off. Triple-modify _ (λ w h. (h.1, h.2))))
                    λ _.
                      Triple-bind {R = λ _. Answered} _ _
                        (Triple-if opened _ _
                          (λ on.
                            Triple-bind {R = λ _ w. (files ≡ true) × (opened ≡ true)} _ _
                              (Triple-modify _ (λ w h. h))
                              (λ _.
                                Triple-if files _ _
                                  (λ yes. Triple-modify _ (λ w h. (w.shared.olock, refl)))
                                  (λ no. record { at = λ w h. absurd (on_off files h.0 no) })))
                          (λ shut. record { at = λ w h. absurd (on_off opened h.1 shut) }))
                        (λ _. Triple-modify _ (λ w h. h)))
                (λ no_bytes.
                  Triple-bind {R = λ _ w. On Filed w × (files ≡ true)} _ _
                    (Triple-modify _ (λ w h. (h.0, h.1)))
                    λ _.
                      Triple-if files _ _
                        (λ on. Triple-strengthen {P = On Filed} _ close-Answered (λ w h. h.0))
                        (λ off. record { at = λ w h. absurd (on_off files h.1 off) }))

  Filed-Staged : Staged b Filed Answered
  unfolding free_buffers
  Filed-Staged = record {
    kept = Filed-Kept b keeps;
    armed = λ v h. h;
    prompted = λ w h on. absurd (on_off w.is_repl on h.0);
    publishes = publish-Answered;
    frees = Triple-modify _ (λ w h. h);
  }

  -- From the second block on.
  later-Answered :
      (fuel : ℕ) (l : Label) (w : World b.State)
      → l ≢ entry
      → Begun b keeps (some l) w
      → (run b fuel l w).0 ≡ ok tt
      → Answered (run b fuel l w).1
  later-Answered fuel l w ne h e =
      run-After b (On Filed) Answered (λ k. k ≢ entry) leads_on (λ same. cc)
        (later-Leading b Filed Answered Filed-Staged) fuel l w ne h e
    where
      leads_on : (l k : Label) (w : World b.State) → (block b l w).0 ≡ ok (some k) → k ≡ entry → ⊥
      leads_on l k w to at_start = block-ne-entry b l w (to ∙ ap (λ j. ok (some j)) at_start)

  jump_back-ne-ok :
      (next : Label → Action b.State (Unit {0})) (armed : Bool) (w : World b.State)
      → armed ≡ false
      → (jump_back next armed w).0 ≢ ok tt
  unfolding jump_back
  jump_back-ne-ok next true w h = λ e. cc
  jump_back-ne-ok next false w h = λ e. absurd (ground arith)

  follow-Answered :
      (fuel : ℕ) (x : Outcome (Option Label) × World b.State)
      → Post (Begun b keeps) Unarmed x
      → x.0 ≢ ok (some entry)
      → (follow (run b fuel) x.0 x.1).0 ≡ ok tt
      → Answered (follow (run b fuel) x.0 x.1).1
  unfolding follow
  follow-Answered fuel (ok none, w) h ne e = h
  follow-Answered fuel (ok (some l), w) h ne e =
      later-Answered fuel l w (λ same. ne (ap (λ j. ok (some j)) same)) h e
  follow-Answered fuel (thrown, w) h ne e = absurd (jump_back-ne-ok (run b fuel) w.armed w h e)
  follow-Answered fuel (exited, w) h ne e = cc
  follow-Answered fuel (fault, w) h ne e = cc
  follow-Answered fuel (diverged, w) h ne e = cc

  one-Answered :
      (fuel c : ℕ) (cs : Bytes) (w : World b.State)
      → Requests b keeps c cs (locals b w)
      → (interactive_one b fuel w).0 ≡ ok tt
      → Answered (interactive_one b fuel w).1
  unfolding interactive_one run block
  one-Answered zero c cs w h e = cc
  one-Answered (suc fuel) c cs w h e =
      follow-Answered fuel (block b entry (locals b w))
        ((at_entry-Begun b keeps c cs).at (locals b w) h) (block-ne-entry b entry (locals b w)) e

-- The host finds a reply file and removes it, or the call has ended the process or met a fault.
abbrev pub IsAnswered : {S : Type 0} → Outcome (Option Bytes) × World S → Type 0
IsAnswered (x, w) =
    ((content : Bytes) × (x ≡ ok (some content)) × (w.pgs_out ≡ none))
    ⊎ ((x ≡ exited) ⊎ (x ≡ fault))

module _ (b : Backend) (fuel : ℕ) where
  -- What `send_file_to_pglite` does after the call.
  abbrev collect : Action b.State (Option Bytes)
  collect =
      gets (λ w. w.pgs_out) >>= λ reply. modify (λ w. record w { pgs_out = none }) >> pure reply

  collect-IsAnswered :
      (content : Bytes) (w : World b.State) → w.pgs_out ≡ some content → IsAnswered (collect w)
  unfolding gets modify pure ◌>>=◌
  collect-IsAnswered content w h = inl (content, ap ok h, refl)

  -- In wire mode with nothing left to send, with the prompt off and enough fuel, and if the backend
  -- makes progress and never turns from the files to the CMA buffer, a request of at least one byte
  -- that is sent by file gets a reply file, which the host removes, unless the process ends or meets
  -- a fault. The call always ends.
  pub send_file_to_pglite-IsAnswered :
      (p : Progress b) (c : ℕ) (cs : Bytes) (w : World b.State)
      → KeepsFiles b
      → w.is_wire ≡ true
      → w.is_repl ≡ false
      → w.shared.socket_data ≡ 0
      → p.unread w.rest ≤ p.bound
      → block_limit b p w ≤ fuel
      → IsAnswered (send_file_to_pglite b fuel (c ∷ cs) w)
  unfolding send_file_to_pglite modify interactive_write ◌>>=◌
  send_file_to_pglite-IsAnswered p c cs w keeps wire off idle fits enough =
      elim (outcome_cases (interactive_one b fuel sent).0 (interactive_one-ne-thrown b fuel sent)
        (interactive_one_ends b p sent fuel wire fits enough)) [
          | inl (u, returned) ↦
              let (content, found) =
                one-Answered b keeps fuel c cs sent ((refl, off, refl, refl), idle) returned in
              subst IsAnswered
                (sym (then_ok (interactive_one b fuel) (λ _. collect) sent tt returned))
                (collect-IsAnswered content (interactive_one b fuel sent).1 found)
          | inr (inl ended) ↦
              inr (inl (then_exited (interactive_one b fuel) (λ _. collect) sent ended))
          | inr (inr stale) ↦
              inr (inr (then_fault (interactive_one b fuel) (λ _. collect) sent stale))
        ]
    where
      sent : World b.State
      sent = record w { cma_rsize = pos 0; cma_wsize = 0; pgs_in = some (c ∷ cs) }
