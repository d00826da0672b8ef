-- ===== src/Wire/Loop/Executes.antt =====
-- What the backend is given for a query message.
use mathlib.Core.List.{Mem, mem-cons_self, mem-cons_of_mem}
use pglite_build.Prelude.{
  ◌≡◌, ◌∙◌, refl, Bool, true, false, Option, ℤ, is_zero, if◌then◌else◌, List, pos, Bytes, [], ◌∷◌,
  ◌++◌,
}
use pglite_build.Tools.Concat.{NulFree}
use pglite_build.Wire.World.{
  Backend, World, Call, Outcome, ok, thrown, exited, fault, diverged, returns,
  process_client_read_interrupt, set_statement_timestamp, exec_simple_query,
  exec_replication_command, pq_getmsgend, Answer, raises, ends,
}
use pglite_build.Wire.Action.{
  Action, ◌>>=◌, ◌>>◌, ask, call, gets, modify, when, outcome, pq_getmsgstring,
}
use pglite_build.Wire.Action.Triple.{
  Triple, Triple-bind, Triple-gets, Triple-if, Triple-modify, Triple-pure, stable_rules, Post,
}
use pglite_build.Wire.Action.Triple.Calls.{
  after, after_text, Triple-ask, Triple-ask_any, Triple-call,
}
use pglite_build.Wire.Action.Triple.Results.{Triple-returns}
use pglite_build.Wire.Proto.{Next, proceed, wire_flush, switch, dispatch, message_of, on_query}
use pglite_build.Wire.Loop.Blocks.{Label, handle_message, after_switch}

-- How the backend reads a text: `pq_getmsgstring` answers the bytes up to the NUL, and the calls
-- before it leave the message alone; they and the reading keep the client's role.
pub record ReadsText (b : Backend) : Type 0 where
  pub interrupted :
      (w : World b.State)
      → (after b process_client_read_interrupt w).shared.input_message ≡ w.shared.input_message
  pub stamped :
      (w : World b.State)
      → (after b set_statement_timestamp w).shared.input_message ≡ w.shared.input_message
  pub interrupted_role :
      (w : World b.State)
      → (after b process_client_read_interrupt w).shared.am_walsender ≡ w.shared.am_walsender
  pub stamped_role :
      (w : World b.State)
      → (after b set_statement_timestamp w).shared.am_walsender ≡ w.shared.am_walsender
  pub read_role : (w : World b.State) → (after_text b w).shared.am_walsender ≡ w.shared.am_walsender
  pub ended_role :
      (w : World b.State) → (after b pq_getmsgend w).shared.am_walsender ≡ w.shared.am_walsender
  pub reads :
      (w : World b.State) (text rest : Bytes)
      → NulFree text
      → w.shared.input_message ≡ text ++ 0 ∷ rest
      → (b.getmsgstring w).0 ≡ returns text

-- Whether the client is a walsender, and what `exec_replication_command` answers: a query is given to
-- `exec_simple_query`; a walsender's text is given to `exec_replication_command`, and to
-- `exec_simple_query` too if that answers 0, which says that it is no replication command.
abbrev pub Executed : Bool → ℤ → Bytes → List Call → Type 0
Executed false handled text log = Mem (exec_simple_query text) log
Executed true handled text log =
    Mem (exec_replication_command text) log × (handled ≡ pos 0 → Mem (exec_simple_query text) log)

module _ (b : Backend) (r : ReadsText b) (text : Bytes) (no_nul : NulFree text) (walsender : Bool)
    (handled : ℤ)
    (replies : (w : World b.State) (n : ℤ)
      → (b.answer (exec_replication_command text) w).0 ≡ returns n
      → n ≡ handled) where
  abbrev Holds : World b.State → Type 0
  Holds w = (w.shared.input_message ≡ text ++ 0 ∷ []) × (w.shared.am_walsender ≡ walsender)

  abbrev Role : Bytes → World b.State → Type 0
  Role read w = (read ≡ text) × (w.shared.am_walsender ≡ walsender)

  abbrev Given : World b.State → Type 0
  Given w = Executed walsender handled text w.log

  longer :
      (on : Bool) (c : Call) (log : List Call)
      → Executed on handled text log
      → Executed on handled text (c ∷ log)
  longer false c log h = mem-cons_of_mem c h
  longer true c log (h, k) = (mem-cons_of_mem c h, λ e. mem-cons_of_mem c (k e))

  abbrev Any : World b.State → Type 0
  Any w = Unit {0}

  ask-Given : (c : Call) → Triple Given (ask b c) (λ _. Given) Any
  ask-Given c = Triple-ask_any b c (λ w. longer walsender c w.log) (λ w h. tt)

  call-Given : (c : Call) → Triple Given (call b c) (λ _. Given) Any
  call-Given c = Triple-call b c (ask-Given c)

  Post-text :
      (a : Outcome Bytes) (w : World b.State)
      → a ≡ ok text
      → w.shared.am_walsender ≡ walsender
      → Post Role Any (a, w)
  Post-text (ok read) w e role = let same : read ≡ text = cc in (same, role)
  Post-text thrown w e role = tt
  Post-text exited w e role = tt
  Post-text fault w e role = tt
  Post-text diverged w e role = cc

  text-reads : Triple Holds (pq_getmsgstring b) Role Any
  unfolding pq_getmsgstring
  text-reads = record {
    at = λ w h.
        let is : (b.getmsgstring w).0 ≡ returns text = r.reads w text [] no_nul h.0 in
        Post-text (outcome (b.getmsgstring w).0) (after_text b w) (rw is refl)
          (r.read_role w ∙ h.1);
  }

  -- The replication command was given, and `n` is what it answered.
  abbrev Replied : ℤ → World b.State → Type 0
  Replied n w = (n ≡ handled) × Mem (exec_replication_command text) w.log

  Post-Replied :
      (a : Answer ℤ) (w : World b.State)
      → ((n : ℤ) → a ≡ returns n → n ≡ handled)
      → Mem (exec_replication_command text) w.log
      → Post Replied Any (outcome a, w)
  Post-Replied (returns n) w is m = (is n refl, m)
  Post-Replied raises w is m = tt
  Post-Replied ends w is m = tt

  replies-Replied : Triple Any (ask b (exec_replication_command text)) Replied Any
  replies-Replied = Triple-ask b _ λ w h.
      Post-Replied (b.answer (exec_replication_command text) w).0
        (after b (exec_replication_command text) w) (replies w) mem-cons_self

  simple-Given :
      Triple Any (call b (exec_simple_query text)) (λ _ w. Executed false handled text w.log) Any
  simple-Given = Triple-call b _ (Triple-ask_any b _ (λ w h. mem-cons_self) (λ w h. tt))

  -- The command, and the query if it was none.
  replication-Given :
      Triple Any
        (ask b (exec_replication_command text) >>= λ n.
          when (is_zero n) (call b (exec_simple_query text)))
        (λ _ w. Executed true handled text w.log)
        Any
  replication-Given = Triple-bind _ _ replies-Replied λ n.
      Triple-if (is_zero n) _ _
        (λ zero.
          Triple-call b _
            (Triple-ask_any b _ (λ w h. (mem-cons_of_mem _ h.1, λ e. mem-cons_self)) (λ w h. tt)))
        (λ other. Triple-pure _ (λ w h. (h.1, λ e. absurd (not_zero n other (h.0 ∙ e)))))
    where
      not_zero : (n : ℤ) → is_zero n ≡ false → n ≡ pos 0 → ⊥
      not_zero n other e = let yes : is_zero n ≡ true = rw e refl in cc

  run-Given :
      (on : Bool) (read : Bytes)
      → on ≡ walsender
      → read ≡ text
      → Triple Any
          (if on
            then (ask b (exec_replication_command read) >>= λ n.
                when (is_zero n) (call b (exec_simple_query read)))
            else call b (exec_simple_query read))
          (λ _. Given)
          Any
  run-Given true read role is = rw (is, ← role) replication-Given
  run-Given false read role is = rw (is, ← role) simple-Given

  query-Given : Triple Holds (on_query b) (λ _. Given) Any
  unfolding on_query
  query-Given =
      Triple-bind {R = λ _. Holds} _ _
        (Triple-call b _
          (Triple-ask_any b _ (λ w h. (r.stamped w ∙ h.0, r.stamped_role w ∙ h.1)) (λ w h. tt)))
        λ _. Triple-bind {R = Role} _ _ text-reads λ read.
          Triple-bind {R = λ _. Role read} _ _
            (Triple-call b _ (Triple-ask_any b _ (λ w h. (h.0, r.ended_role w ∙ h.1)) (λ w h. tt)))
            λ _.
              Triple-bind {R = λ on _. (on ≡ walsender) × (read ≡ text)} _ _
                (Triple-gets _ (λ w h. (h.1, h.0)))
                λ on.
                  Triple-bind {R = λ _. Given} _ _
                    (record { at = λ w h. (run-Given on read h.0 h.1).at w tt })
                    (λ _. Triple-modify _ (λ w h. h))

  after_switch-Given : (next : Next) → Triple Given (after_switch b next) (λ _. Given) Any
  unfolding after_switch
  after_switch-Given wire_flush = Triple-pure _ (λ w h. h)
  after_switch-Given proceed = search (stable_rules, ask-Given, call-Given) depth 60

  -- The message after the interrupts.
  abbrev handled_message : Bool → Action b.State (Option Label)
  handled_message notify =
      when notify (call b process_client_read_interrupt)
      >> (switch b true (pos b'Q') >>= λ next. after_switch b next)

  handled-Given : (notify : Bool) → Triple Holds (handled_message notify) (λ _. Given) Any
  unfolding switch dispatch message_of
  handled-Given notify =
      Triple-bind {R = λ _. Holds} _ _
        (Triple-if notify _ _
          (λ on. Triple-call b _ (
            Triple-ask_any b _ (λ w h. (r.interrupted w ∙ h.0, r.interrupted_role w ∙ h.1))
              (λ w h. tt)))
          (λ off. Triple-pure _ (λ w h. h)))
        λ _.
          Triple-bind {R = λ _. Given} _ _
            (Triple-bind {R = λ _. Given} _ _ query-Given (λ _. Triple-pure _ (λ w h. h)))
            after_switch-Given

  handle_message-handled :
      (w : World b.State)
      → w.firstchar ≡ pos b'Q'
      → w.shared.ignore_till_sync ≡ false
      → handle_message b w
        ≡ handled_message w.shared.notify_interrupt_pending
            (record w { doing_command_read = false })
  unfolding handle_message ◌>>=◌ modify gets
  handle_message-handled w is heeded = rw (heeded, is) refl

  -- If the backend reads a text up to its NUL, the calls before it keep the client's role, and no
  -- messages are ignored, then a query message that is handled with no error has given its text to
  -- `exec_simple_query` if the client is no walsender; if it is one, to `exec_replication_command`,
  -- and also to `exec_simple_query` if 0 is what that answers whenever it returns.
  pub handle_message-Executed :
      (w : World b.State) (next : Option Label)
      → w.firstchar ≡ pos b'Q'
      → w.shared.ignore_till_sync ≡ false
      → w.shared.input_message ≡ text ++ 0 ∷ []
      → w.shared.am_walsender ≡ walsender
      → (handle_message b w).0 ≡ ok next
      → Executed walsender handled text (handle_message b w).1.log
  handle_message-Executed w next is heeded holds role e =
      let same = handle_message-handled w is heeded in
      rw same (
        Triple-returns (handled_message w.shared.notify_interrupt_pending)
          (handled-Given w.shared.notify_interrupt_pending)
          (record w { doing_command_read = false }) (holds, role) next (rw (← same) e))
