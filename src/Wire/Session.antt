-- ===== src/Wire/Session.antt =====
-- interactive_one.c, the entry points besides `interactive_one`, and what it calls: the buffer
-- addresses, the mode switches, the error reset and the authentication exchange.
use pglite_build.Prelude.{
  ℕ, ◌+◌, ◌*◌, ◌/◌, Bool, true, false, not, Option, none, some, [], ◌∷◌, Bytes, ℤ, ◌==◌, is_zero,
  gt_zero, is_pos, to_ℕ, is_eof, length, if◌then◌else◌,
}
use pglite_build.Tools.{c_string}
use pglite_build.Wire.World.{
  Backend, World, dest_remote, level_error, level_fatal, ereport, pq_init, pq_startmsgread,
  pq_endmsgread, pq_getbyte, pq_getmessage, pq_beginmessage, pq_sendint32, pq_sendbytes,
  pq_endmessage, pq_flush, pfree, begin_reporting_guc_options, pgstat_report_connect, my_proc_pid,
  my_cancel_key, hold_interrupts, disable_all_timeouts, pq_comm_reset, emit_error_report,
  abort_current_transaction, walsnd_error_cleanup, portal_error_cleanup, my_replication_slot,
  replication_slot_release, replication_slot_cleanup, memory_context_switch, flush_error_state,
  pq_is_reading_msg, resume_interrupts,
}
use pglite_build.Wire.Action.{
  Action, pure, exit, ◌>>=◌, ◌>>◌, gets, modify, modify_shared, when, repeat, ask, call,
}

-- `CMA_FD` of pg_main.c; `cma_mb` is set by the build.
abbrev pub cma_fd : ℕ
cma_fd = 1

module _ (cma_mb : ℕ) where
  unfoldable pub get_buffer_size : ℕ → ℕ
  get_buffer_size fd = cma_mb * 1024 * 1024 / cma_fd

  unfoldable pub get_buffer_addr : ℕ → ℕ
  unfolding get_buffer_size
  get_buffer_addr fd = 1 + get_buffer_size fd * fd

module _ {S : Type 0} where
  unfoldable pub get_channel : World S → ℤ
  get_channel w = w.channel

  unfoldable pub interactive_read : World S → ℕ
  interactive_read w = w.cma_wsize

  unfoldable pub interactive_write : ℤ → World S → World S
  interactive_write size w = record w { cma_rsize = size; cma_wsize = 0 }

  unfoldable pub use_wire : ℤ → World S → World S
  use_wire state w =
      if gt_zero state
      then record w { is_wire = true; is_repl = false }
      else record w { is_wire = false; is_repl = true }

  -- `pgl_closed` of pgl_mains.c
  unfoldable pub pgl_closed : World S → Bool
  pgl_closed w = not (w.sf_connected == 0)

abbrev pub auth_req_ok : ℤ
auth_req_ok = ℤ.pos 0

abbrev pub auth_req_md5 : ℤ
auth_req_md5 = ℤ.pos 5

abbrev pub status_ok : ℤ
status_ok = ℤ.pos 0

abbrev pub max_auth_token_length : ℕ
max_auth_token_length = 65535

module _ (b : Backend) where
  abbrev Step : Type 0
  Step = Action b.State (Unit {0})

  unfoldable pub io_init : Bool → Bool → Step
  io_init in_auth out_auth = do
    modify λ w. record w { client_auth_in_progress = in_auth }
    port ← ask b pq_init
    modify λ w. record w { my_proc_port = not (is_zero port) }
    modify_shared λ s. record s { where_to_send_output = dest_remote }
    when (is_zero port) exit
    modify λ w. record w { client_auth_in_progress = out_auth; socket_file = false }
    modify_shared λ s. record s { socket_data = 0 }

  unfoldable pub clear_error : Step
  clear_error = do
    modify_shared λ s. record s { error_context_stack = false }
    call b hold_interrupts
    call b disable_all_timeouts
    modify_shared λ s. record s {
      query_cancel_pending = false;
      idle_in_transaction_timeout_enabled = false;
      idle_session_timeout_enabled = false;
    }
    modify λ w. record w { doing_command_read = false }
    call b pq_comm_reset
    call b emit_error_report
    modify_shared λ s. record s { debug_query_string = false }
    call b abort_current_transaction
    walsender ← gets λ w. w.shared.am_walsender
    when walsender (call b walsnd_error_cleanup)
    call b portal_error_cleanup
    slot ← ask b my_replication_slot
    when (not (is_zero slot)) (call b replication_slot_release)
    call b replication_slot_cleanup
    call b memory_context_switch
    call b flush_error_state
    extended ← gets λ w. w.shared.doing_extended_query_message
    when extended (modify_shared λ s. record s { ignore_till_sync = true })
    modify_shared λ s. record s { xact_started = false }
    reading ← ask b pq_is_reading_msg
    when (not (is_zero reading)) (call b (ereport level_fatal))
    call b resume_interrupts
    ignoring ← gets λ w. w.shared.ignore_till_sync
    when (not ignoring) (modify λ w. record w { send_ready_for_query = true })

  unfoldable pub discard_input : Step
  discard_input = do
    size ← gets λ w. w.cma_rsize
    when (not (is_zero size))
        (do call b pq_startmsgread; repeat (to_ℕ size) (call b pq_getbyte); call b pq_endmsgread)

  -- `ProcessStartupPacket` of pgl_stubs.h, a stub that accepts every packet
  unfoldable pub process_startup_packet : Action b.State ℤ
  process_startup_packet = pure status_ok

  unfoldable pub startup_auth : Step
  startup_auth = do
    modify λ w. record w { send_ready_for_query = false }
    status ← process_startup_packet
    when (is_zero status) (do
      modify λ w. record w { sf_connected = w.sf_connected + 1 }
      discard_input
      modify λ w. record w {
        client_auth_in_progress = true;
        md5_salt = 0x01 ∷ 0x23 ∷ 0x45 ∷ 0x56 ∷ [];
      }
      call b (pq_beginmessage b'R')
      call b (pq_sendint32 auth_req_md5)
      salt ← gets λ w. w.md5_salt
      call b (pq_sendbytes salt)
      call b pq_endmessage
      call b pq_flush)

  -- The password, or `none` for NULL.
  unfoldable pub recv_password_packet : Action b.State (Option Bytes)
  recv_password_packet = do
    call b pq_startmsgread
    mtype ← ask b pq_getbyte
    if not (is_pos mtype b'p')
        then (do when (not (is_eof mtype)) (call b (ereport level_error)); pure none)
        else (do
          status ← ask b (pq_getmessage max_auth_token_length)
          if not (is_zero status) then (do call b (pfree true); pure none) else (do
            buf ← gets λ w. w.shared.password_message
            when (not (length (c_string buf) + 1 == length buf)) (call b (ereport level_error))
            when (length buf == 1) (call b (ereport level_error))
            pure (some (c_string buf))))

  abbrev is_some : Option Bytes → Bool
  is_some none = false
  is_some (some _) = true

  unfoldable pub startup_pass : Bool → Step
  startup_pass check = do
    if check
        then (do passwd ← recv_password_packet; call b (pfree (is_some passwd)))
        else discard_input
    modify λ w. record w { client_auth_in_progress = false }
    call b (pq_beginmessage b'R')
    call b (pq_sendint32 auth_req_ok)
    call b pq_endmessage
    call b begin_reporting_guc_options
    call b pgstat_report_connect
    call b (pq_beginmessage b'K')
    pid ← ask b my_proc_pid
    call b (pq_sendint32 pid)
    key ← ask b my_cancel_key
    call b (pq_sendint32 key)
    call b pq_endmessage
    modify λ w. record w { send_ready_for_query = true }
    modify_shared λ s. record s { ignore_till_sync = false }
