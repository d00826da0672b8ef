-- ===== src/Wire/Loop/Progress.antt =====
-- What the end of `interactive_one` asks of PostgreSQL's input routines and of its error recovery.
use pglite_build.Prelude.{ℕ, ◌≤◌, ◌<◌, ◌≡◌, ◌≢◌, Bool, true, false, pos}
use pglite_build.Wire.World.{
  Backend, World, Call, returns, raises, socket_backend, pq_startmsgread, pq_recvbuf_fill,
  pq_buffer_remaining_data, ready_for_query, process_client_read_interrupt,
  process_notify_interrupt, hold_interrupts, disable_all_timeouts, pq_comm_reset, emit_error_report,
  abort_current_transaction, walsnd_error_cleanup, portal_error_cleanup, my_replication_slot,
  replication_slot_release, replication_slot_cleanup, memory_context_switch, flush_error_state,
  pq_is_reading_msg, ereport, level_fatal, resume_interrupts, prompt,
}
use pglite_build.Wire.Action.Triple.Calls.{after, after_text}

-- The calls that may take in new input.
abbrev pub is_input : Call → Bool
is_input socket_backend = true
is_input pq_startmsgread = true
is_input (pq_recvbuf_fill n) = true
is_input _ = false

-- The calls that leave the receive buffer alone.
abbrev pub is_passive : Call → Bool
is_passive pq_buffer_remaining_data = true
is_passive (ready_for_query dest) = true
is_passive process_client_read_interrupt = true
is_passive process_notify_interrupt = true
is_passive _ = false

-- The calls of the error recovery and of the final flush.
abbrev pub is_recovery : Call → Bool
is_recovery pq_buffer_remaining_data = true
is_recovery (ready_for_query dest) = true
is_recovery process_notify_interrupt = true
is_recovery hold_interrupts = true
is_recovery disable_all_timeouts = true
is_recovery pq_comm_reset = true
is_recovery emit_error_report = true
is_recovery abort_current_transaction = true
is_recovery walsnd_error_cleanup = true
is_recovery portal_error_cleanup = true
is_recovery my_replication_slot = true
is_recovery replication_slot_release = true
is_recovery replication_slot_cleanup = true
is_recovery memory_context_switch = true
is_recovery flush_error_state = true
is_recovery pq_is_reading_msg = true
is_recovery (ereport level_fatal) = true
is_recovery resume_interrupts = true
is_recovery prompt = true
is_recovery _ = false

-- `unread` counts the bytes that are still to be read, and `remaining` those of them that are in
-- the receive buffer.
pub record Progress (b : Backend) : Type 0 where
  pub unread : b.State → ℕ
  pub remaining : b.State → ℕ
  pub bound : ℕ
  -- `pq_buffer_remaining_data` answers the number of buffered bytes.
  pub answers :
      (w : World b.State)
      → (b.answer pq_buffer_remaining_data w).0 ≡ returns (pos (remaining w.rest))
  -- `SocketBackend` consumes at least the type byte of a message that is in the buffer.
  pub consumes :
      (w : World b.State)
      → 0 < remaining w.rest
      → unread (after b socket_backend w).rest < unread w.rest
  -- The input of one frame is bounded.
  pub bounded :
      (c : Call) (w : World b.State) → unread w.rest ≤ bound → unread (after b c w).rest ≤ bound
  -- Only the input calls take in more.
  pub quiet :
      (c : Call) (w : World b.State)
      → is_input c ≡ false
      → unread (after b c w).rest ≤ unread w.rest
  pub quiet_text : (w : World b.State) → unread (after_text b w).rest ≤ unread w.rest
  pub passive :
      (c : Call) (w : World b.State)
      → is_passive c ≡ true
      → remaining (after b c w).rest ≡ remaining w.rest
  -- No error is raised while one is recovered from, or by the final flush.
  pub recovers : (c : Call) (w : World b.State) → is_recovery c ≡ true → (b.answer c w).0 ≢ raises
