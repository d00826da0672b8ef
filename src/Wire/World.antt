-- ===== src/Wire/World.antt =====
-- The globals of pglite-REL_17_4_WASM/interactive_one.c and pg_main.c, the locals of one call of
-- `interactive_one`, and the PostgreSQL backend, which is not in the repository, as a parameter.
use pglite_build.Prelude.{ℕ, Bool, Option, List, Bytes, ℤ}

-- `CommandDest`, as far as the loop sets it.
pub data Dest : Type 0 where
  dest_none dest_debug dest_remote : Dest

-- The level of an `ereport` that does not return.
pub data Level : Type 0 where
  level_error level_fatal : Level

-- The calls of the single-user mains of pgl_mains.c that the loop does not make.
pub data StartCall : Type 0 where
  init_standalone_process : Option Bytes → StartCall
  initialize_guc_options : StartCall
  process_postgres_switches : List (Option Bytes) → StartCall
  select_config_files check_data_dir change_to_data_dir create_data_dir_lock_file : StartCall
  local_process_control_file process_shared_preload_libraries initialize_max_backends : StartCall
  process_shmem_requests initialize_shmem_gucs initialize_wal_consistency_checking : StartCall
  create_shared_memory_and_semaphores get_current_timestamp init_process base_init : StartCall
  -- InitProcessing or NormalProcessing
  set_init_processing set_normal_processing : StartCall
  -- the database, the user, and whether the session libraries are loaded
  init_postgres : Option Bytes → Option Bytes → Bool → StartCall
  postmaster_context delete_postmaster_context is_under_postmaster log_disconnections : StartCall
  on_exit_log_disconnections init_wal_sender print_banner : StartCall
  create_message_context create_row_description_context init_row_description_buf : StartCall

-- Every call that leaves the files of the loop, with the arguments that it is given.
pub data Call : Type 0 where
  -- pqcomm.c and pqformat.c
  pq_init pq_startmsgread pq_endmsgread pq_getbyte pq_buffer_remaining_data : Call
  pq_comm_reset pq_is_reading_msg pq_flush pq_getmsgend pq_getmsgbyte : Call
  pq_getmessage pq_getmsgint pq_recvbuf_fill : ℕ → Call
  pq_beginmessage pq_putemptymessage : ℕ → Call
  pq_sendint32 : ℤ → Call
  pq_sendbytes : Bytes → Call
  pq_endmessage : Call
  -- postgres.c
  socket_backend : Call
  ready_for_query : Dest → Call
  process_notify_interrupt process_client_read_interrupt : Call
  forbidden_in_wal_sender : ℤ → Call
  exec_simple_query exec_replication_command : Bytes → Call
  exec_parse_message : Bytes → Bytes → List ℤ → Call
  exec_bind_message handle_function_request : Call
  exec_execute_message : Bytes → ℤ → Call
  exec_describe_statement_message exec_describe_portal_message : Bytes → Call
  start_xact_command finish_xact_command end_implicit_transaction_block : Call
  drop_unnamed_stmt set_statement_timestamp set_ps_display : Call
  drop_prepared_statement get_portal_by_name : Bytes → Call
  portal_drop : ℤ → Call
  -- the rest of the backend
  ereport : Level → Call
  -- `true` for a pointer that is not null
  pfree : Bool → Call
  pgstat_report_fastpath pgstat_report_connect begin_reporting_guc_options : Call
  pgstat_disconnect invalidate_catalog_snapshot is_aborted_block is_transaction_block : Call
  memory_context_switch : Call
  hold_interrupts resume_interrupts disable_all_timeouts emit_error_report : Call
  abort_current_transaction walsnd_error_cleanup portal_error_cleanup : Call
  my_replication_slot replication_slot_release replication_slot_cleanup flush_error_state : Call
  my_proc_pid my_cancel_key : Call
  -- the start of the backend
  start_up : StartCall → Call
  -- what is printed on the console
  prompt warn_empty_packet : Call

-- The globals that PostgreSQL's own code writes too, and the input message that it fills.
pub record Shared : Type 0 where
  pub ignore_till_sync : Bool
  pub doing_extended_query_message : Bool
  pub notify_interrupt_pending : Bool
  pub am_walsender : Bool
  pub sockfiles : Bool
  pub where_to_send_output : Dest
  pub socket_data : ℕ
  pub query_cancel_pending : Bool
  pub idle_in_transaction_timeout_enabled : Bool
  pub idle_session_timeout_enabled : Bool
  pub xact_started : Bool
  -- whether `error_context_stack` and `debug_query_string` are set
  pub error_context_stack : Bool
  pub debug_query_string : Bool
  pub input_message : Bytes
  -- the message buffer of `recv_password_packet`, without the NUL that StringInfo adds
  pub password_message : Bytes
  -- what has been written to the file PGS_OLOCK since it was opened
  pub olock : Bytes

-- A call of the backend returns, raises an error (a jump to `PG_exception_stack`), or ends the
-- process.
pub data Answer (A : Type 0) : Type 0 where
  returns : A → Answer A
  raises ends : Answer A

-- How a piece of the program ends. `fault` is a use of a null `FILE *` or of a stale jump buffer,
-- and `diverged` a lack of fuel.
pub data Outcome (A : Type 0) : Type 0 where
  ok : A → Outcome A
  thrown exited fault diverged : Outcome A

pub record World (S : Type 0) : Type 0 where
  -- globals of interactive_one.c and pg_main.c that only their own code writes
  pub canary_ex : ℕ
  pub channel : ℤ
  pub cma_wsize : ℕ
  pub cma_rsize : ℤ
  pub is_wire : Bool
  pub is_repl : Bool
  pub sf_connected : ℕ
  pub send_ready_for_query : Bool
  pub client_auth_in_progress : Bool
  pub doing_command_read : Bool
  pub my_proc_port : Bool
  pub socket_file : Bool
  pub md5_salt : Bytes
  -- the bytes at address 1 on, and the files PGS_IN and PGS_OUT
  pub io : Bytes
  pub pgs_in : Option Bytes
  pub pgs_out : Option Bytes
  -- the file that feeds the single-user start-up, from its position on: `none` is NULL
  pub single_mode_feed : Option Bytes
  -- locals of `interactive_one`
  pub peek : ℤ
  pub firstchar : ℤ
  pub packetlen : ℤ
  pub pipelining : Bool
  pub fp : Bool
  -- whether this call of `interactive_one` has reached its `sigsetjmp`
  pub armed : Bool
  pub pg_exception_stack : Bool
  pub shared : Shared
  pub rest : S
  -- the calls made so far, newest first
  pub log : List Call

-- PostgreSQL: its state, and what each call answers and leaves behind, given the whole world.
-- It cannot write the globals that only pglite's code writes.
pub record Backend : Type 1 where
  pub State : Type 0
  pub answer : Call → World State → Answer ℤ × Shared × State
  -- `pq_getmsgstring`, the one call that returns a text
  pub getmsgstring : World State → Answer Bytes × Shared × State
