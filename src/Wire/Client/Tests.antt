-- ===== src/Wire/Client/Tests.antt =====
-- The theorems on the host's side at the small backend of the wire loop's tests.
use pglite_build.Prelude.{
  ℤ, ◌-◌, ◌+◌, ap, ◌∙◌, ℕ, ◌≡◌, ◌≢◌, refl, ◌⊎◌, List, length, true, false, some, [], ◌∷◌, Bytes,
  pos, arith,
}
use pglite_build.Wire.World.{
  Backend, World, Shared, Call, Answer, returns, raises, ok, exited, fault, ready_for_query,
  pq_buffer_remaining_data, socket_backend, pq_init,
}
use pglite_build.Wire.Action.{pq_getmsgstring, ◌>>=◌, call, ask, modify, modify_shared, gets, pure}
use pglite_build.Wire.Session.{interactive_read, interactive_write}
use pglite_build.Wire.Loop.{interactive_one, run, follow}
use pglite_build.Wire.Loop.Blocks.{
  looping, block, at_entry, read_input, open_reply_file, idle_notifications, cma_input,
  memory_input, round, wire_round, wire_message, handle_message, after_switch, flush_reply, publish,
  free_buffers,
}
use pglite_build.Wire.Loop.Executes.{ReadsText, Executed, handle_message-Executed}
use pglite_build.Tools.{c_string}
use pglite_build.Tools.Concat.{c_string-append}
use pglite_build.Wire.Loop.Opens.{IsCalm}
use pglite_build.Wire.Loop.Safe.{interactive_one-ne-fault}
use pglite_build.Wire.Proto.{on_query, switch, message_of, dispatch, on_sync}
use pglite_build.Wire.Client.Prompts.{as_query, interactive_one-as_query}
use pglite_build.Wire.Client.Files.{KeepsFiles}
use pglite_build.Wire.Client.Answers.{IsAnswered, send_file_to_pglite-IsAnswered}
use pglite_build.Wire.Client.{
  send_file_to_pglite, Window, send_to_pglite, session, reply_window, put_request,
}
use pglite_build.Wire.Client.Delivers.{Counts, IsDelivered, send_to_pglite-IsDelivered}
use pglite_build.Wire.Client.Sessions.{IsReady, session-IsReady}
use pglite_build.Wire.Tests.{
  sync_answer, two_syncs, two_syncs_with, sync_backend, sync_progress, sync_recovers,
}

sync_calm : IsCalm sync_backend
sync_calm c w e = sync_recovers c w

abbrev syncs : Bytes
syncs = b'S' ∷ b'S' ∷ []

interactive_one-ne-fault_example : (interactive_one sync_backend 137 two_syncs).0 ≢ fault
interactive_one-ne-fault_example =
    interactive_one-ne-fault sync_backend 2 137 two_syncs sync_calm (omega arith) refl refl

session-IsReady_example :
    ((windows : List Window) × (w' : World ℕ) × (session sync_backend 137
          (syncs ∷ syncs ∷ [])
          two_syncs
        ≡ (ok windows, w'))
      × (length windows ≡ 2)
      × IsReady sync_backend sync_progress sync_calm 137 (omega arith) w')
    ⊎ ((session sync_backend 137 (syncs ∷ syncs ∷ []) two_syncs).0 ≡ exited)
session-IsReady_example =
    session-IsReady sync_backend sync_progress sync_calm 137 (omega arith) (syncs ∷ syncs ∷ [])
      two_syncs ((refl, refl, refl), refl, omega arith) (omega arith)

-- The same backend, where the second number counts the bytes that were written.
abbrev count_answer : Call → World (ℕ × ℕ) → Answer ℤ × Shared × (ℕ × ℕ)
count_answer pq_buffer_remaining_data w = (returns (pos w.rest.0), w.shared, w.rest)
count_answer socket_backend w = (returns (pos b'S'), w.shared, (w.rest.0 - 1, w.rest.1))
count_answer (ready_for_query dest) w = (
  returns (pos 0),
  record (w.shared) { socket_data = w.shared.socket_data + 6 },
  (w.rest.0, w.rest.1 + 6),
)
count_answer _ w = (returns (pos 0), w.shared, w.rest)

abbrev count_backend : Backend
count_backend = record {
  State = ℕ × ℕ;
  answer = count_answer;
  getmsgstring = λ w. (returns [], w.shared, w.rest);
}

count-Counts : Counts count_backend (λ s. s.1)
count-Counts = record { calls = counted; texts = λ w. refl }
  where
    counted :
        (c : Call) (w : World (ℕ × ℕ))
        → (count_answer c w).1.socket_data + w.rest.1
          ≡ w.shared.socket_data + (count_answer c w).2.1
    counted pq_buffer_remaining_data w = refl
    counted socket_backend w = refl
    counted (ready_for_query dest) w = omega arith
    counted _ w = refl

count-IsCalm : IsCalm count_backend
count-IsCalm c w e = quiet c
  where
    quiet : (c : Call) → (count_answer c w).0 ≡ raises → ⊥
    quiet pq_buffer_remaining_data = λ e. cc
    quiet socket_backend = λ e. cc
    quiet (ready_for_query dest) = λ e. cc
    quiet _ = λ e. cc

-- The reply to two Syncs: twelve bytes, after thirty that were written before.
send_to_pglite-IsDelivered_example :
    IsDelivered
      (λ s. s.1)
      2
      (pos 0)
      (2, 30)
      (record { msg_start = 4; msg_end = 16 })
      (send_to_pglite count_backend 137 syncs (two_syncs_with (2, 30))).1
unfolding send_to_pglite reply_window interactive_read put_request interactive_write interactive_one
    run follow block at_entry ◌>>=◌ read_input open_reply_file call ask idle_notifications cma_input
    memory_input round wire_round wire_message handle_message after_switch switch dispatch
    message_of on_sync flush_reply publish free_buffers modify modify_shared gets pure
send_to_pglite-IsDelivered_example =
    send_to_pglite-IsDelivered count_backend 137 (λ s. s.1) syncs (two_syncs_with (2, 30))
      (record { msg_start = 4; msg_end = 16 }) count-Counts count-IsCalm (omega arith) refl refl
      refl answered
  where
    answered :
        (send_to_pglite count_backend 137 syncs (two_syncs_with (2, 30))).0
        ≡ ok (record { msg_start = 4; msg_end = 16 })
    answered = refl

sync_files : KeepsFiles sync_backend
sync_files = record { calls = same; texts = λ w h. h }
  where
    same :
        (c : Call) (w : World ℕ) → w.shared.sockfiles ≡ true → (sync_answer c w).1.sockfiles ≡ true
    same pq_buffer_remaining_data w h = h
    same socket_backend w h = h
    same pq_init w h = h
    same (ready_for_query dest) w h = h
    same _ w h = h

send_file_to_pglite-IsAnswered_example :
    IsAnswered (send_file_to_pglite sync_backend 137 syncs two_syncs)
send_file_to_pglite-IsAnswered_example =
    send_file_to_pglite-IsAnswered sync_backend 137 sync_progress b'S' (b'S' ∷ []) two_syncs
      sync_files refl refl refl (omega arith) (omega arith)

-- With the prompt on.
abbrev at_prompt : World ℕ
at_prompt = record two_syncs { is_wire = false; is_repl = true }

interactive_one-as_query_example :
    ((interactive_one sync_backend 3 (put_request syncs at_prompt)).0 ≡ exited)
    ⊎ ((w' : World ℕ) × (interactive_one sync_backend 3 (put_request syncs at_prompt) ≡ (
          let (r, w'') = handle_message sync_backend (as_query syncs w') in
          follow (run sync_backend 0) r w''))
        × (w'.armed ≡ true)
        × (w'.socket_file ≡ true))
interactive_one-as_query_example =
    interactive_one-as_query sync_backend syncs 0 at_prompt sync_calm (omega arith) refl refl refl

-- A backend that reads a text up to its NUL.
abbrev text_backend : Backend
text_backend = record {
  State = ℕ;
  answer = sync_answer;
  getmsgstring = λ w. (returns (c_string w.shared.input_message), w.shared, w.rest);
}

text_reads : ReadsText text_backend
text_reads = record {
  interrupted = λ w. refl;
  stamped = λ w. refl;
  interrupted_role = λ w. refl;
  stamped_role = λ w. refl;
  read_role = λ w. refl;
  ended_role = λ w. refl;
  reads = λ w text rest no_nul e.
      ap (λ m. returns (c_string m)) e ∙ ap returns (c_string-append text rest no_nul);
}

-- The text "SS" with its NUL is in the message buffer.
abbrev with_query : World ℕ
with_query = as_query syncs at_prompt

handle_message-Executed_example :
    Executed false (pos 0) syncs (handle_message text_backend with_query).1.log
unfolding handle_message after_switch switch dispatch message_of on_query call ask ◌>>=◌ modify gets
    pure pq_getmsgstring c_string
handle_message-Executed_example =
    handle_message-Executed text_backend text_reads syncs ((λ e. cc), ((λ e. cc), tt)) false (pos 0)
      (λ w n e. cc) with_query (some looping) refl refl refl refl refl
