-- ===== src/Wire/Loop/Blocks.antt =====
-- interactive_one.c, `interactive_one`: the code between its labels.
use pglite_build.Prelude.{
  ℕ, ◌+◌, true, false, not, ◌&&◌, Option, none, some, [], ◌∷◌, ◌++◌, Bytes, ℤ, pos, minus_one,
  is_neg, is_zero, is_pos, is_eof, gt_zero, lt_ℤ, to_ℕ, add_ℕ, signed_char, ltb, ◌==◌, length, take,
  if◌then◌else◌,
}
use pglite_build.Tools.{c_string}
use pglite_build.Wire.World.{
  Backend, Outcome, fault, dest_debug, dest_remote, memory_context_switch,
  invalidate_catalog_snapshot, is_aborted_block, is_transaction_block, process_notify_interrupt,
  process_client_read_interrupt, pq_recvbuf_fill, pq_buffer_remaining_data, socket_backend,
  ready_for_query, prompt, warn_empty_packet,
}
use pglite_build.Wire.Action.{
  Action, pure, exit, ◌>>=◌, ◌>>◌, gets, modify, modify_shared, when, ask, call,
}
use pglite_build.Wire.Session.{io_init, clear_error, startup_auth, startup_pass}
use pglite_build.Wire.Proto.{Next, proceed, wire_flush, switch}

-- `looping` is the test of `while (pipelining)`; `handler` is the branch of `sigsetjmp` that an
-- error comes back to.
pub data Label : Type 0 where
  entry incoming looping handler resume_on_error flushing return_early : Label

-- A first byte: `IO[0]`, and what is found past the end of the modelled memory is a zero.
abbrev pub first_byte : Bytes → ℕ
first_byte [] = 0
first_byte (c ∷ cs) = c

abbrev pub clear_first : Bytes → Bytes
clear_first [] = []
clear_first (c ∷ cs) = 0 ∷ cs

module _ (b : Backend) where
  abbrev Step : Type 0
  Step = Action b.State (Unit {0})

  -- `none` is a return.
  abbrev pub Jump : Type 0
  Jump = Action b.State (Option Label)

  -- SOCKET_FILE is opened for writing, which empties the file; opening it is taken to succeed.
  unfoldable pub open_reply_file : Step
  open_reply_file = do
    is_open ← gets λ w. w.socket_file
    when (not is_open)
        (do modify λ w. record w { socket_file = true }; modify_shared λ s. record s { olock = [] })

  -- `if (send_ready_for_query) { ... }` before the input is read
  unfoldable pub idle_notifications : Step
  idle_notifications = do
    ready ← gets λ w. w.send_ready_for_query
    when ready (do
      aborted ← ask b is_aborted_block
      when (is_zero aborted) (do
        inside ← ask b is_transaction_block
        notify ← gets λ w. w.shared.notify_interrupt_pending
        when (is_zero inside && notify) (call b process_notify_interrupt))
      modify λ w. record w { send_ready_for_query = false })

  -- `packetlen = cma_rsize` is not zero: a packet in the CMA buffer
  unfoldable pub cma_input : Step
  cma_input = do
    modify_shared λ s. record s { sockfiles = false }
    repl ← gets λ w. w.is_repl
    modify_shared λ s. record s { where_to_send_output = if repl then dest_debug else dest_remote }

  -- The input is in memory, and the message may be copied out of it.
  unfoldable pub memory_input : Jump
  memory_input = do
    modify_shared λ s. record s { input_message = [] }
    repl ← gets λ w. w.is_repl
    when repl (
        modify λ w. record w {
          shared = record (w.shared) { input_message = take (to_ℕ w.packetlen) w.io };
        })
    len ← gets λ w. w.packetlen
    if lt_ℤ len 2
        then (do call b warn_empty_packet; when repl (call b prompt); pure (some return_early))
        else pure (some incoming)

  -- The file PGS_IN is open and holds `content`, which is not empty.
  unfoldable pub file_input : Bytes → Jump
  file_input content = do
    modify_shared λ s. record s { input_message = [] }
    modify λ w. record w { peek = pos (first_byte content) }
    sql ← gets λ w. w.is_repl && not w.is_wire
    if sql
        then modify_shared (λ s. record s { input_message = content; sockfiles = false })
        else (do
          modify_shared λ s. record s { where_to_send_output = dest_remote }
          call b (pq_recvbuf_fill (length content))
          modify_shared λ s. record s { sockfiles = true })
    first ← gets λ w. w.peek
    when (is_zero first) (do startup_auth b; modify λ w. record w { peek = minus_one })
    second ← gets λ w. w.peek
    when (is_pos second 112) (do startup_pass b true; modify λ w. record w { peek = minus_one })
    third ← gets λ w. w.peek
    if is_neg third
        then pure (some flushing)
        else (do modify λ w. record w { firstchar = w.peek }; pure (some incoming))

  -- A text in the CMA buffer, ended by a NUL.
  unfoldable pub text_input : Jump
  text_input = do
    first ← gets λ w. w.peek
    if is_zero first then pure (some return_early) else (do
      modify λ w. record w { firstchar = w.peek; packetlen = pos (length (c_string w.io)) }
      memory_input)

  -- The input is the file PGS_IN if there is one with something in it, else a text in memory.
  unfoldable pub input_from : Option Bytes → Jump
  input_from none = text_input
  input_from (some []) = do modify λ w. record w { fp = true; packetlen = pos 0 }; text_input
  input_from (some (c ∷ cs)) = do
    modify λ w. record w { fp = true; packetlen = pos (length (c ∷ cs)) }
    file_input (c ∷ cs)

  -- `cma_rsize` is zero
  unfoldable pub other_input : Jump
  other_input = do file ← gets λ w. w.pgs_in; input_from file

  unfoldable pub read_input : Jump
  read_input = do
    open_reply_file
    call b memory_context_switch
    modify_shared λ s. record s { input_message = [] }
    call b invalidate_catalog_snapshot
    idle_notifications
    modify λ w. record w {
      doing_command_read = true;
      peek = signed_char (first_byte w.io);
      packetlen = w.cma_rsize;
    }
    len ← gets λ w. w.packetlen
    if not (is_zero len) then (do cma_input; memory_input) else other_input

  unfoldable pub at_entry : Jump
  at_entry = do
    size ← gets λ w. w.cma_rsize
    if is_neg size then pure (some resume_on_error) else (do
      port ← gets λ w. w.my_proc_port
      wire ← gets λ w. w.is_wire
      when (not port) (io_init b wire false)
      pending ← gets λ w. w.shared.socket_data
      if ltb 0 pending then pure (some flushing) else read_input)

  -- What follows the `switch`.
  unfoldable pub after_switch : Next → Jump
  after_switch wire_flush = pure (some flushing)
  after_switch proceed = do
    more ← gets λ w. w.pipelining
    when more (do
      left ← ask b pq_buffer_remaining_data
      modify λ w. record w { pipelining = gt_zero left }
      ready ← gets λ w. w.pipelining && w.send_ready_for_query
      dest ← gets λ w. w.shared.where_to_send_output
      when ready
          (do call b (ready_for_query dest); modify λ w. record w { send_ready_for_query = false }))
    pure (some looping)

  -- After `DoingCommandRead = false`: interrupts, the skip to the next Sync, the message itself.
  unfoldable pub handle_message : Jump
  handle_message = do
    modify λ w. record w { doing_command_read = false }
    c ← gets λ w. w.firstchar
    ignoring ← gets λ w. w.shared.ignore_till_sync
    notify ← gets λ w. w.shared.notify_interrupt_pending
    when (not ignoring && notify) (call b process_client_read_interrupt)
    if ignoring && not (is_eof c) && not (is_pos c b'S')
        then pure (some looping)
        else (do next ← switch b true c; after_switch next)

  -- A message of the wire protocol.
  unfoldable pub wire_message : Jump
  wire_message = do
    c ← ask b socket_backend
    modify λ w. record w { firstchar = c }
    left ← ask b pq_buffer_remaining_data
    modify λ w. record w { pipelining = gt_zero left }
    handle_message

  -- In wire mode: a startup packet, a password, or a message.
  unfoldable pub wire_round : ℤ → Jump
  wire_round first =
      if is_zero first
      then (do startup_auth b; pure (some resume_on_error))
      else if is_pos first 112
      then (do startup_pass b true; pure (some resume_on_error))
      else wire_message

  -- Not in wire mode: the text that is in the message buffer.
  unfoldable pub text_round : Jump
  text_round = do
    at_eof ← gets λ w. is_eof w.firstchar && length w.shared.input_message == 0
    when (not at_eof) (do
      modify_shared λ s. record s { input_message = s.input_message ++ 0 ∷ [] }
      modify λ w. record w { firstchar = pos b'Q' })
    handle_message

  -- One round of `while (pipelining)`.
  unfoldable pub round : Jump
  round = do
    repl ← gets λ w. w.is_repl
    when repl (do
      modify λ w. record w { pipelining = false }
      modify_shared λ s. record s { where_to_send_output = dest_debug })
    modify λ w. record w { doing_command_read = true }
    wire ← gets λ w. w.is_wire
    first ← gets λ w. w.peek
    if wire then wire_round first else text_round

  -- Back to the loop if there is input left, `canary_ex++ > 8` testing the old value.
  unfoldable pub retry : ℤ → Jump
  retry left =
      if gt_zero left
      then (do
        canary ← gets λ w. w.canary_ex
        modify λ w. record w { canary_ex = w.canary_ex + 1 }
        when (ltb 8 canary) exit
        pure (some incoming))
      else pure (some flushing)

  -- pgl_sjlj.c, after an error
  unfoldable pub on_error : Jump
  on_error = do clear_error b; left ← ask b pq_buffer_remaining_data; retry left

  unfoldable pub close_reply_file : Step
  close_reply_file w =
      if w.socket_file
      then (Outcome.ok tt, record w { socket_file = false; pgs_out = some (w.shared.olock) })
      else (fault, w)

  -- The reply is handed to the client, in the CMA buffer or as the file PGS_OUT.
  unfoldable pub publish : Step
  publish = do
    pending ← gets λ w. w.shared.socket_data
    files ← gets λ w. w.shared.sockfiles
    opened ← gets λ w. w.socket_file
    if ltb 0 pending
        then (do
          if files
              then modify (λ w. record w { channel = minus_one })
              else modify (λ w. record w { cma_wsize = pending; channel = add_ℕ w.cma_rsize 2 })
          when opened (do
            modify λ w. record w { socket_file = false }
            when files (modify λ w. record w { pgs_out = some (w.shared.olock) }))
          modify_shared λ s. record s { socket_data = 0 })
        else (do modify λ w. record w { cma_wsize = 0 }; when files close_reply_file)

  -- `wire_flush`
  unfoldable pub flush_reply : Jump
  flush_reply = do
    auth ← gets λ w. w.client_auth_in_progress
    when (not auth) (do
      notify ← gets λ w. w.shared.notify_interrupt_pending
      when notify (call b process_notify_interrupt)
      ready ← gets λ w. w.send_ready_for_query
      when ready (do
        call b (ready_for_query dest_remote)
        modify λ w. record w { send_ready_for_query = false }))
    publish
    pure (some return_early)

  unfoldable pub free_buffers : Step
  free_buffers = modify λ w. record w {
    pgs_in = if w.fp then none else w.pgs_in;
    cma_rsize = pos 0;
    io = clear_first w.io;
    canary_ex = 0;
  }

  unfoldable pub block : Label → Jump
  block entry = at_entry
  block incoming = do
    modify λ w. record w { armed = true; pg_exception_stack = true }
    pure (some looping)
  block looping = do
    more ← gets λ w. w.pipelining
    if more then round else pure (some resume_on_error)
  block handler = on_error
  block resume_on_error = do
    repl ← gets λ w. w.is_repl
    if repl then (do call b prompt; pure (some return_early)) else pure (some flushing)
  block flushing = flush_reply
  block return_early = do free_buffers; pure none
