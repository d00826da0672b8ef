-- ===== src/Wire/File/Ends.antt =====
-- `interactive_file` comes to the end of its feed, and where an error leaves it.
use pglite_build.Prelude.{
  ℕ, zero, suc, ◌<◌, ◌≤◌, ◌≡◌, ◌≢◌, refl, ap, ◌∙◌, true, Bool, false, ◌&&◌, some, [], Bytes, ◌==◌,
  length, pos, arith,
}
use pglite_build.Wire.World.{Backend, World, memory_context_switch, raises, Call}
use pglite_build.Wire.Action.{Action, call, ask, pq_getmsgstring}
use pglite_build.Wire.Action.Triple.{
  Post, Triple, Triple-bind, Triple-if, Triple-pure, Triple-gets, Triple-weaken, Stable,
  stable_rules,
}
use pglite_build.Wire.Action.Triple.Calls.{
  Calm-call, Triple-call, Triple-ask_any, Stable-call, Stable-ask, Stable-text,
}
use pglite_build.Wire.Proto.{switch, dispatch, message_of, on_query}
use pglite_build.Wire.File.{
  Command, read_command, handle_text, take_command, run_command, read_commands, interactive_file,
}
use pglite_build.Wire.File.Commands.{read_command_consumes, read_command_eof}

module _ (b : Backend) where
  -- The feed is open, and `stream` is left of it.
  abbrev pub Feeds : Bytes → World b.State → Type 0
  Feeds stream w = w.single_mode_feed ≡ some stream

  -- The feed is open, with less than `n` bytes left.
  abbrev pub FeedsBelow : ℕ → World b.State → Type 0
  FeedsBelow n w = (stream : Bytes) × Feeds stream w × (length stream < n)

  Feeds-call : (stream : Bytes) (c : Call) → Stable (Feeds stream) (call b c)
  Feeds-call stream c = Stable-call b c (λ w h. h)

  Feeds-ask : (stream : Bytes) (c : Call) → Stable (Feeds stream) (ask b c)
  Feeds-ask stream c = Stable-ask b c (λ w h. h)

  Feeds-text : (stream : Bytes) → Stable (Feeds stream) (pq_getmsgstring b)
  Feeds-text stream = Stable-text b (λ w h. h)

  query-Feeds : (stream : Bytes) → Stable (Feeds stream) (on_query b)
  unfolding on_query
  query-Feeds stream = search (stable_rules, Feeds-call, Feeds-ask, Feeds-text) depth 40

  switch-Feeds : (stream : Bytes) → Stable (Feeds stream) (switch b false (pos b'Q'))
  unfolding switch dispatch message_of
  switch-Feeds stream = search (stable_rules, query-Feeds)

  handle_text-Feeds : (stream text : Bytes) → Stable (Feeds stream) (handle_text b text)
  unfolding handle_text
  handle_text-Feeds stream text = search (stable_rules, switch-Feeds) depth 20

  -- The command that the feed holds is taken off it.
  take_command-Feeds :
      (semi_newline : Bool) (stream : Bytes) {E : World b.State → Type 0}
      → Triple
          (Feeds stream)
          (take_command b semi_newline (some stream))
          (λ command w. (command ≡ read_command semi_newline [] stream) × Feeds command.unread w)
          E
  unfolding take_command
  take_command-Feeds semi_newline stream = record { at = λ w h. (refl, refl) }

  -- The feed is open, and nothing is left of it.
  abbrev pub IsRead : World b.State → Type 0
  IsRead w = Feeds [] w

  -- A fact about the value of an action, for what follows it.
  Triple-fact :
      {A F : Type 0} {P E : World b.State → Type 0} {Q : A → World b.State → Type 0}
      (m : Action b.State A)
      → (F → Triple P m Q E)
      → Triple (λ w. F × P w) m Q E
  Triple-fact m h = record { at = λ w p. (h p.0).at w p.1 }

  -- No command is run unless it took some input, and an error leaves the feed after it.
  run_command-IsRead :
      (command : Command) (m n : ℕ) (later : Action b.State (Unit {0}))
      → m ≤ n
      → (command.at_eof ≡ true → command.unread ≡ [])
      → ((command.at_eof && length command.text == 0) ≡ false → length command.unread < m)
      → (length command.unread < m
          → Triple (Feeds command.unread) later (λ _. IsRead) (FeedsBelow n))
      → Triple (Feeds command.unread) (run_command b command later) (λ _. IsRead) (FeedsBelow n)
  unfolding run_command
  run_command-IsRead command m n later le last_read shorter h =
      Triple-if _ _ _ (λ empty. Triple-pure tt (λ w q. q ∙ ap some (last_read (ground arith))))
        λ full.
          Triple-bind {R = λ _. Feeds command.unread} _ _
            (Triple-weaken _ (handle_text-Feeds command.unread command.text) (λ a w q. q)
              (λ w q. (command.unread, q, omega (arith, shorter full, le))))
            λ _.
              Triple-if _ _ _ (λ last. Triple-pure tt (λ w q. q ∙ ap some (last_read last)))
                (λ more. h (shorter full))

  read_commands-IsRead :
      (semi_newline : Bool) (fuel n : ℕ) (stream : Bytes)
      → length stream < fuel
      → length stream ≤ n
      → Triple (Feeds stream) (read_commands b semi_newline fuel) (λ _. IsRead) (FeedsBelow n)
  unfolding read_commands
  read_commands-IsRead semi_newline zero n stream h k = absurd (omega arith)
  read_commands-IsRead semi_newline (suc fuel) n stream h k =
      Triple-bind {R = λ feed w. (feed ≡ some stream) × Feeds stream w} _ _
        (Triple-gets _ (λ w q. (q, q)))
        λ feed. Triple-fact _ λ is. rw is (
          Triple-bind _ _ (take_command-Feeds semi_newline stream) λ command. Triple-fact _ λ reads.
            run_command-IsRead command (length stream) n _ k
              (rw reads (read_command_eof semi_newline [] stream))
              (rw reads (read_command_consumes semi_newline stream))
              λ less.
                read_commands-IsRead semi_newline fuel n command.unread (omega (arith, less, h))
                  (omega (arith, less, k)))

  file-IsRead :
      {E : World b.State → Type 0} (semi_newline : Bool) (fuel : ℕ) (stream : Bytes)
      → length stream < fuel
      → Triple (Feeds stream) (call b memory_context_switch) (λ _. Feeds stream) E
      → ((w : World b.State) → FeedsBelow (length stream) w → E w)
      → Triple (Feeds stream) (interactive_file b semi_newline fuel) (λ _. IsRead) E
  unfolding interactive_file
  file-IsRead semi_newline fuel stream h switched weaker =
      Triple-bind {R = λ _. Feeds stream} _ _ (search stable_rules) λ _.
        Triple-bind {R = λ _. Feeds stream} _ _ switched λ _.
          Triple-bind {R = λ _. Feeds stream} _ _ (search stable_rules) λ _.
            Triple-weaken _
              (read_commands-IsRead semi_newline fuel (length stream) stream h (omega arith))
              (λ a w q. q) weaker

  -- If no error is raised before the first command, an error leaves less of the feed than there was.
  pub interactive_file-IsRead :
      (semi_newline : Bool) (fuel : ℕ) (stream : Bytes)
      → length stream < fuel
      → ((w : World b.State) → (b.answer memory_context_switch w).0 ≢ raises)
      → Triple
          (Feeds stream)
          (interactive_file b semi_newline fuel)
          (λ _. IsRead)
          (FeedsBelow (length stream))
  interactive_file-IsRead semi_newline fuel stream h calm =
      file-IsRead semi_newline fuel stream h
        (Triple-weaken _ (Calm-call b {P = Feeds stream} _ (λ w q. q) calm) (λ a w q. q)
          (λ w q. absurd q))
        (λ w q. q)

  -- With one unit of fuel more than the bytes of its feed, `interactive_file` comes to an end, and when
  -- it returns it has read its whole feed.
  pub interactive_file_ends :
      (semi_newline : Bool) (fuel : ℕ) (stream : Bytes) (w : World b.State)
      → w.single_mode_feed ≡ some stream
      → length stream < fuel
      → Post (λ _. IsRead) (λ _. Unit {0}) (interactive_file b semi_newline fuel w)
  interactive_file_ends semi_newline fuel stream w feeds h =
      (file-IsRead {E = λ _. Unit {0}} semi_newline fuel stream h
          (Triple-call b _ (Triple-ask_any b _ (λ w q. q) (λ w q. tt))) (λ w q. tt)).at
        w feeds
