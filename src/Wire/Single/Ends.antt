-- ===== src/Wire/Single/Ends.antt =====
-- The single mode runs its file to the end, through the errors of its commands.
use pglite_build.Prelude.{
  ℕ, zero, suc, ◌<◌, ◌≤◌, ◌≡◌, ◌≢◌, refl, Bool, true, Option, none, some, List, Bytes, length,
  arith,
}
use pglite_build.Wire.World.{
  Backend, World, Call, Outcome, ok, thrown, exited, fault, diverged, raises, memory_context_switch,
}
use pglite_build.Wire.Action.{Action, call, ask}
use pglite_build.Wire.Action.Triple.{
  Post, Post-weaken, Stable, Triple, Triple-bind, Triple-modify, Triple-weaken, stable_rules,
}
use pglite_build.Wire.Action.Triple.Calls.{Stable-call, Stable-ask, Calm-ask, Calm-call}
use pglite_build.Wire.Session.{clear_error}
use pglite_build.Wire.File.Ends.{Feeds, FeedsBelow, IsRead, interactive_file-IsRead}
use pglite_build.Wire.Loop.Progress.{is_recovery}
use pglite_build.Wire.Single.{
  run_feed, resume_feed, jump_to, after_error, single_mode, re_start_up,
  re_postgres_single_user_main, connect, report_session, create_contexts,
}

-- The calls of the error recovery raise no error.
abbrev pub Recovers : Backend → Type 0
Recovers b = (c : Call) (w : World b.State) → is_recovery c ≡ true → (b.answer c w).0 ≢ raises

-- The feed is closed, and the pointer to it is NULL.
abbrev pub IsClosed : {S : Type 0} → World S → Type 0
IsClosed w = w.single_mode_feed ≡ none

module _ (b : Backend) (r : Recovers b) where
  recovery_ask :
      (stream : Bytes) (c : Call)
      → is_recovery c ≡ true
      → Triple (Feeds b stream) (ask b c) (λ _. Feeds b stream) (λ _. ⊥)
  recovery_ask stream c e = Calm-ask b c (λ w h. h) (λ w. r c w e)

  recovery_call :
      (stream : Bytes) (c : Call)
      → is_recovery c ≡ true
      → Triple (Feeds b stream) (call b c) (λ _. Feeds b stream) (λ _. ⊥)
  recovery_call stream c e = Calm-call b c (λ w h. h) (λ w. r c w e)

  clear_error-Feeds :
      (stream : Bytes) → Triple (Feeds b stream) (clear_error b) (λ _. Feeds b stream) (λ _. ⊥)
  unfolding clear_error
  clear_error-Feeds stream = search (stable_rules, recovery_call, recovery_ask) depth 80

  run_feed-IsClosed :
      (semi_newline : Bool) (fuel : ℕ) (stream : Bytes)
      → length stream < fuel
      → Triple
          (Feeds b stream)
          (run_feed b semi_newline fuel)
          (λ _. IsClosed)
          (FeedsBelow b (length stream))
  unfolding run_feed
  run_feed-IsClosed semi_newline fuel stream h =
      Triple-bind {R = λ _. Feeds b stream} _ _ (search stable_rules) λ ignoring.
        Triple-bind {R = λ _. Feeds b stream} _ _ (search stable_rules) λ _.
          Triple-bind {R = λ _. IsRead b} _ _
            (interactive_file-IsRead b semi_newline fuel stream h
              (λ w. r memory_context_switch w refl))
            λ _. Triple-modify _ (λ w q. refl)

  resume_feed-IsClosed :
      (semi_newline : Bool) (fuel : ℕ) (stream : Bytes)
      → length stream < fuel
      → Triple
          (Feeds b stream)
          (resume_feed b semi_newline fuel)
          (λ _. IsClosed)
          (FeedsBelow b (length stream))
  unfolding resume_feed
  resume_feed-IsClosed semi_newline fuel stream h =
      Triple-bind {R = λ _. Feeds b stream} _ _
        (Triple-weaken _ (clear_error-Feeds stream) (λ a w q. q) (λ w q. absurd q))
        λ _. run_feed-IsClosed semi_newline fuel stream h

  jump_to-IsClosed :
      (next : Action b.State (Unit {0})) (E : World b.State → Type 0)
      (x : Outcome (Unit {0}) × World b.State)
      → Post (λ _. IsClosed) E x
      → ((w : World b.State) → E w → Post (λ _. IsClosed) (λ _. ⊥) (next w))
      → Post (λ _. IsClosed) (λ _. ⊥) (jump_to b next x.0 x.1)
  jump_to-IsClosed next E (ok u, w) h k = h
  jump_to-IsClosed next E (thrown, w) h k = k w h
  jump_to-IsClosed next E (exited, w) h k = tt
  jump_to-IsClosed next E (fault, w) h k = tt
  jump_to-IsClosed next E (diverged, w) h k = h

  after_error-IsClosed :
      (semi_newline : Bool) (errors fuel n : ℕ) (w : World b.State)
      → n ≤ errors
      → n ≤ fuel
      → FeedsBelow b n w
      → Post (λ _. IsClosed) (λ _. ⊥) (after_error b semi_newline errors fuel w)
  unfolding after_error
  after_error-IsClosed semi_newline zero fuel n w h k (stream, feeds, less) =
      absurd (omega (arith, h, less))
  after_error-IsClosed semi_newline (suc errors) fuel n w h k (stream, feeds, less) =
      jump_to-IsClosed (after_error b semi_newline errors fuel) (FeedsBelow b (length stream))
        (resume_feed b semi_newline fuel w)
        ((resume_feed-IsClosed semi_newline fuel stream (omega (arith, less, k))).at w feeds)
        λ w' below.
          after_error-IsClosed semi_newline errors fuel (length stream) w' (omega (arith, less, h))
            (omega (arith, less, k)) below

  -- If the recovery raises no error and there is more fuel than the feed has bytes, then the single
  -- mode does not run out of it, the error of a command never leaves it, and when it returns the feed
  -- is closed.
  pub single_mode-IsClosed :
      (semi_newline : Bool) (fuel : ℕ) (stream : Bytes) (w : World b.State)
      → w.single_mode_feed ≡ some stream
      → length stream < fuel
      → Post (λ _. IsClosed) (λ _. ⊥) (single_mode b semi_newline fuel w)
  unfolding single_mode
  single_mode-IsClosed semi_newline fuel stream w feeds h =
      jump_to-IsClosed (after_error b semi_newline fuel fuel) (FeedsBelow b (length stream))
        (run_feed b semi_newline fuel w) ((run_feed-IsClosed semi_newline fuel stream h).at w feeds)
        λ w' below.
          after_error-IsClosed semi_newline fuel fuel (length stream) w' (omega (arith, h))
            (omega (arith, h)) below

  Feeds-call : (stream : Bytes) (c : Call) → Stable (Feeds b stream) (call b c)
  Feeds-call stream c = Stable-call b c (λ w h. h)

  Feeds-ask : (stream : Bytes) (c : Call) → Stable (Feeds b stream) (ask b c)
  Feeds-ask stream c = Stable-ask b c (λ w h. h)

  module _ (switches : List (Option Bytes) → Option Bytes) where
    re_start_up-Feeds :
        (stream : Bytes) (argv : List (Option Bytes)) (username : Option Bytes)
        → Triple
            (λ _. Unit {0})
            (re_start_up b switches (some stream) argv username)
            (λ _. Feeds b stream)
            (Feeds b stream)
    unfolding re_start_up connect report_session create_contexts
    re_start_up-Feeds stream argv username =
        Triple-bind {R = λ _. Feeds b stream} _ _ (Triple-modify _ (λ w q. refl))
          λ _. search (stable_rules, Feeds-call, Feeds-ask) depth 60

    -- If its file is there and the recovery raises no error, `RePostgresSingleUserMain` comes to an
    -- end with one unit of fuel more than the bytes of the file. When it returns, the feed is closed;
    -- an error that leaves it was raised before the first command, with the whole file unread.
    pub re_postgres_single_user_main-IsClosed :
        (semi_newline : Bool) (fuel : ℕ) (content : Bytes) (argv : List (Option Bytes))
        (username : Option Bytes) (w : World b.State)
        → length content < fuel
        → Post
            (λ _. IsClosed)
            (Feeds b content)
            (re_postgres_single_user_main b switches semi_newline fuel
              (some content)
              argv
              username
              w)
    unfolding re_postgres_single_user_main
    re_postgres_single_user_main-IsClosed semi_newline fuel content argv username w h =
        (Triple-bind {R = λ _. Feeds b content} _ _ (re_start_up-Feeds content argv username) λ _.
            record {
              at = λ w' feeds.
                  Post-weaken (single_mode b semi_newline fuel w') (λ a x q. q) (λ x q. absurd q)
                    (single_mode-IsClosed semi_newline fuel content w' feeds h);
            }).at
          w tt
