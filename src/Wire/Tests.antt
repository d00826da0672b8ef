-- ===== src/Wire/Tests.antt =====
-- The theorems on the wire loop at a small backend: each message is a Sync of one byte, and
-- `ReadyForQuery` puts six bytes into the reply.
use pglite_build.Prelude.{
  ℕ, ◌+◌, ◌-◌, ◌≤◌, ◌≡◌, ◌≢◌, refl, codes, true, false, none, some, [], ◌∷◌, ℤ, pos, minus_one,
  arith,
}
use pglite_build.Wire.World.{
  Backend, World, Shared, Call, Answer, returns, ok, diverged, dest_none, socket_backend,
  pq_buffer_remaining_data, pq_init, ready_for_query,
}
use pglite_build.Wire.Action.{◌>>=◌, call, ask, modify, modify_shared, gets, pure, exit}
use pglite_build.Wire.Loop.{interactive_one, run, follow}
use pglite_build.Wire.Loop.Blocks.{
  looping, block, at_entry, read_input, open_reply_file, idle_notifications, cma_input,
  memory_input, round, wire_round, wire_message, handle_message, after_switch, flush_reply, publish,
  free_buffers,
}
use pglite_build.Wire.Loop.Settles.{IsSettled, run-IsSettled}
use pglite_build.Wire.Loop.Replies.{publish-IsPublished, IsPublished}
use pglite_build.Wire.File.{interactive_file}
use pglite_build.Wire.File.Ends.{IsRead, interactive_file_ends}
use pglite_build.Wire.Action.Triple.{Post}
use pglite_build.Wire.Loop.Frees.{IsFreed, interactive_one-IsFreed}
use pglite_build.Wire.Loop.Progress.{Progress, is_input, is_passive}
use pglite_build.Wire.Loop.Ends.{interactive_one_ends}
use pglite_build.Wire.Proto.{proceed, switch, message_of, dispatch, on_sync}
use pglite_build.Wire.Proto.Ready.{switch-ready_after}

abbrev pub quiet_shared : Shared
quiet_shared = record {
  ignore_till_sync = false;
  doing_extended_query_message = false;
  notify_interrupt_pending = false;
  am_walsender = false;
  sockfiles = false;
  where_to_send_output = dest_none;
  socket_data = 0;
  query_cancel_pending = false;
  idle_in_transaction_timeout_enabled = false;
  idle_session_timeout_enabled = false;
  xact_started = false;
  error_context_stack = false;
  debug_query_string = false;
  input_message = [];
  password_message = [];
  olock = [];
}

-- Two Sync messages of one byte are in the CMA buffer.
abbrev pub two_syncs_with : {S : Type 0} → S → World S
two_syncs_with rest = record {
  canary_ex = 0;
  channel = pos 0;
  cma_wsize = 0;
  cma_rsize = pos 2;
  is_wire = true;
  is_repl = false;
  sf_connected = 1;
  send_ready_for_query = false;
  client_auth_in_progress = false;
  doing_command_read = false;
  my_proc_port = true;
  socket_file = false;
  md5_salt = [];
  io = b'S' ∷ b'S' ∷ [];
  pgs_in = none;
  pgs_out = none;
  single_mode_feed = none;
  peek = minus_one;
  firstchar = pos 0;
  packetlen = pos 0;
  pipelining = true;
  fp = false;
  armed = false;
  pg_exception_stack = false;
  shared = quiet_shared;
  rest = rest;
  log = [];
}

abbrev pub two_syncs : World ℕ
two_syncs = two_syncs_with 2

abbrev pub sync_answer : Call → World ℕ → Answer ℤ × Shared × ℕ
sync_answer pq_buffer_remaining_data w = (returns (pos w.rest), w.shared, w.rest)
sync_answer socket_backend w = (returns (pos b'S'), w.shared, w.rest - 1)
sync_answer pq_init w = (returns (pos 1), w.shared, w.rest)
sync_answer (ready_for_query dest) w =
    (returns (pos 0), record (w.shared) { socket_data = w.shared.socket_data + 6 }, w.rest)
sync_answer _ w = (returns (pos 0), w.shared, w.rest)

abbrev pub sync_backend : Backend
sync_backend = record {
  State = ℕ;
  answer = sync_answer;
  getmsgstring = λ w. (returns [], w.shared, w.rest);
}

pub sync_bounded : (c : Call) (w : World ℕ) → w.rest ≤ 2 → (sync_answer c w).2 ≤ 2
sync_bounded socket_backend w h = omega arith
sync_bounded pq_buffer_remaining_data w h = h
sync_bounded pq_init w h = h
sync_bounded (ready_for_query dest) w h = h
sync_bounded _ w h = h

pub sync_quiet : (c : Call) (w : World ℕ) → is_input c ≡ false → (sync_answer c w).2 ≤ w.rest
sync_quiet socket_backend w h = cc
sync_quiet pq_buffer_remaining_data w h = omega arith
sync_quiet pq_init w h = omega arith
sync_quiet (ready_for_query dest) w h = omega arith
sync_quiet _ w h = omega arith

pub sync_passive : (c : Call) (w : World ℕ) → is_passive c ≡ true → (sync_answer c w).2 ≡ w.rest
sync_passive socket_backend w h = cc
sync_passive pq_buffer_remaining_data w h = refl
sync_passive pq_init w h = refl
sync_passive (ready_for_query dest) w h = refl
sync_passive _ w h = refl

pub sync_recovers : (c : Call) (w : World ℕ) → (sync_answer c w).0 ≢ Answer.raises
sync_recovers socket_backend w = λ e. cc
sync_recovers pq_buffer_remaining_data w = λ e. cc
sync_recovers pq_init w = λ e. cc
sync_recovers (ready_for_query dest) w = λ e. cc
sync_recovers _ w = λ e. cc

abbrev pub sync_progress : Progress sync_backend
sync_progress = record {
  unread = λ n. n;
  remaining = λ n. n;
  bound = 2;
  answers = λ w. refl;
  consumes = λ w h. omega arith;
  bounded = sync_bounded;
  quiet = sync_quiet;
  quiet_text = λ w. omega arith;
  passive = sync_passive;
  recovers = λ c w e. sync_recovers c w;
}

interactive_one_ends_example : (interactive_one sync_backend 137 two_syncs).0 ≢ diverged
interactive_one_ends_example =
    interactive_one_ends sync_backend sync_progress two_syncs 137 refl (omega arith) (omega arith)

-- Both messages are handled and the reply is handed over.
returned : (interactive_one sync_backend 137 two_syncs).0 ≡ ok tt
unfolding interactive_one run follow block at_entry ◌>>=◌ read_input open_reply_file call ask
    idle_notifications cma_input memory_input round wire_round wire_message handle_message
    after_switch switch dispatch message_of on_sync flush_reply publish free_buffers modify
    modify_shared gets pure exit
returned = refl

interactive_one-IsFreed_example : IsFreed (interactive_one sync_backend 137 two_syncs).1
interactive_one-IsFreed_example = interactive_one-IsFreed sync_backend 137 two_syncs returned

-- The last message has left a ReadyForQuery due.
abbrev due : World ℕ
due = record two_syncs { pipelining = false; send_ready_for_query = true }

run-IsSettled_example : IsSettled (run sync_backend 4 looping due).1
unfolding run follow block flush_reply publish free_buffers ◌>>=◌ call ask modify modify_shared gets
    pure
run-IsSettled_example = run-IsSettled sync_backend 4 due (refl, refl, refl, refl) sent
  where
    sent : (run sync_backend 4 looping due).0 ≡ ok tt
    sent = refl

switch-ready_after_example :
    (switch sync_backend true (pos b'S') two_syncs).1.send_ready_for_query ≡ true
unfolding switch dispatch message_of ◌>>=◌ on_sync call
switch-ready_after_example = switch-ready_after sync_backend (pos b'S') two_syncs proceed refl

-- Six bytes of reply are in the CMA buffer.
abbrev with_reply : World ℕ
with_reply = record two_syncs {
  socket_file = true;
  shared = record quiet_shared { socket_data = 6 };
}

publish-IsPublished_example :
    IsPublished sync_backend with_reply (publish sync_backend with_reply).1
unfolding publish ◌>>=◌ modify gets pure modify_shared
publish-IsPublished_example = publish-IsPublished sync_backend with_reply published
  where
    published : (publish sync_backend with_reply).0 ≡ ok tt
    published = refl

-- A file of two commands is open.
abbrev with_feed : World ℕ
with_feed = record two_syncs { single_mode_feed = some (codes "ab;\n\ncd;\n\n") }

interactive_file_ends_example :
    Post
      (λ _. IsRead sync_backend)
      (λ _. Unit {0})
      (interactive_file sync_backend true 12 with_feed)
interactive_file_ends_example =
    interactive_file_ends sync_backend true 12 (codes "ab;\n\ncd;\n\n") with_feed refl (omega arith)
