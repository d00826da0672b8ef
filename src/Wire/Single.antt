-- ===== src/Wire/Single.antt =====
-- pglite-REL_17_4_WASM/pgl_mains.c: `RePostgresSingleUserMain`, with pgl_sjlj.c included for
-- INITDB_SINGLE as in the Emscripten build, and `AsyncPostgresSingleUserMain`. The store to
-- IgnoreSystemIndexes, which only PostgreSQL reads, is left out.
pub mod Ends
pub mod Opens
mod Tests
use pglite_build.Prelude.{
  ℕ, zero, suc, Bool, true, false, not, Option, none, some, List, [], ◌∷◌, Bytes, is_zero,
  if◌then◌else◌,
}
use pglite_build.Wire.World.{
  Backend, World, Outcome, ok, thrown, exited, fault, diverged, Dest, dest_debug, level_fatal,
  ereport, StartCall, init_standalone_process, initialize_guc_options, process_postgres_switches,
  select_config_files, check_data_dir, change_to_data_dir, create_data_dir_lock_file,
  local_process_control_file, process_shared_preload_libraries, initialize_max_backends,
  process_shmem_requests, initialize_shmem_gucs, initialize_wal_consistency_checking,
  create_shared_memory_and_semaphores, get_current_timestamp, init_process, base_init,
  set_init_processing, set_normal_processing, init_postgres, postmaster_context,
  delete_postmaster_context, is_under_postmaster, log_disconnections, on_exit_log_disconnections,
  init_wal_sender, print_banner, create_message_context, create_row_description_context,
  init_row_description_buf, start_up, begin_reporting_guc_options, pgstat_report_connect,
  memory_context_switch, pq_beginmessage, pq_sendint32, pq_endmessage, my_proc_pid, my_cancel_key,
}
use pglite_build.Wire.Action.{Action, pure, exit, ◌>>=◌, ◌>>◌, gets, modify, when, ask, call}
use pglite_build.Wire.Session.{clear_error}
use pglite_build.Wire.Proto.{is_remote}
use pglite_build.Wire.File.{interactive_file}

abbrev pub is_debug : Dest → Bool
is_debug dest_debug = true
is_debug _ = false

-- `argv[0]`
abbrev pub first_of : List (Option Bytes) → Option Bytes
first_of [] = none
first_of (a ∷ argv) = a

-- `dbname`, or the user's name.
abbrev pub or_user : Option Bytes → Option Bytes → Option Bytes
or_user none username = username
or_user (some dbname) username = some dbname

abbrev pub is_null : Option Bytes → Bool
is_null none = true
is_null (some s) = false

module _ (b : Backend) where
  abbrev Step : Type 0
  Step = Action b.State (Unit {0})

  abbrev pub start : StartCall → Step
  start c = call b (start_up c)

  -- From InitPostgres' session on: what is reported, and who is told of its end.
  unfoldable pub report_session : Step
  report_session = do
    call b begin_reporting_guc_options
    under ← ask b (start_up is_under_postmaster)
    logged ← ask b (start_up log_disconnections)
    when (not (is_zero under)) (when (not (is_zero logged)) (start on_exit_log_disconnections))
    call b pgstat_report_connect
    walsender ← gets λ w. w.shared.am_walsender
    when walsender (start init_wal_sender)

  -- The banner, MessageContext and the buffer of RowDescription messages.
  unfoldable pub create_contexts : Step
  create_contexts = do
    debug ← gets λ w. is_debug w.shared.where_to_send_output
    when debug (start print_banner)
    start create_message_context
    start create_row_description_context
    call b memory_context_switch
    start init_row_description_buf
    call b memory_context_switch

  unfoldable pub connect : Option Bytes → Option Bytes → Step
  connect dbname username = do
    walsender ← gets λ w. w.shared.am_walsender
    start (init_postgres dbname username (not walsender))

  -- What follows `sigsetjmp`: the feed is run and closed.
  unfoldable pub run_feed : Bool → ℕ → Step
  unfolding interactive_file
  run_feed semi_newline fuel = do
    ignoring ← gets λ w. w.shared.ignore_till_sync
    when (not ignoring) (modify λ w. record w { send_ready_for_query = true })
    interactive_file b semi_newline fuel
    modify λ w. record w { single_mode_feed = none }

  -- The same after an error: the branch of `sigsetjmp` does what `clear_error` does.
  unfoldable pub resume_feed : Bool → ℕ → Step
  unfolding clear_error run_feed
  resume_feed semi_newline fuel = do clear_error b; run_feed semi_newline fuel

  -- An error jumps back to `sigsetjmp`; `next` runs from there.
  abbrev pub jump_to : Step → Outcome (Unit {0}) → Step
  jump_to next (ok u) w = (ok u, w)
  jump_to next thrown w = next w
  jump_to next exited w = (exited, w)
  jump_to next fault w = (fault, w)
  jump_to next diverged w = (diverged, w)

  -- From the branch of `sigsetjmp` on, with fuel for the errors to come.
  unfoldable pub after_error : Bool → ℕ → ℕ → Step
  unfolding resume_feed
  after_error semi_newline zero fuel w = (diverged, w)
  after_error semi_newline (suc errors) fuel w =
      let (r, w') = resume_feed semi_newline fuel w in
      jump_to (after_error semi_newline errors fuel) r w'

  -- From `sigsetjmp` on.
  unfoldable pub single_mode : Bool → ℕ → Step
  unfolding after_error
  single_mode semi_newline fuel w =
      let (r, w') = run_feed semi_newline fuel w in
      jump_to (after_error semi_newline fuel fuel) r w'

  -- `file` is IDB_PIPE_SINGLE, and `switches` what `process_postgres_switches` leaves in `dbname`.
  module _ (switches : List (Option Bytes) → Option Bytes) where
    unfoldable pub re_start_up : Option Bytes → List (Option Bytes) → Option Bytes → Step
    unfolding connect report_session create_contexts
    re_start_up file argv username = do
      modify λ w. record w { single_mode_feed = file }
      start (process_postgres_switches argv)
      start local_process_control_file
      start process_shared_preload_libraries
      start process_shmem_requests
      start initialize_shmem_gucs
      start initialize_wal_consistency_checking
      start get_current_timestamp
      start set_init_processing
      connect (switches argv) username
      start set_normal_processing
      report_session
      create_contexts

    -- UseSemiNewlineNewline is set by the switch -j.
    unfoldable pub re_postgres_single_user_main :
        Bool → ℕ → Option Bytes → List (Option Bytes) → Option Bytes → Step
    unfolding re_start_up single_mode
    re_postgres_single_user_main semi_newline fuel file argv username = do
      re_start_up file argv username
      single_mode semi_newline fuel

    -- The part that a restart skips.
    unfoldable pub configure : Step
    configure = do
      configured ← ask b (start_up select_config_files)
      when (is_zero configured) exit
      start check_data_dir
      start change_to_data_dir
      start create_data_dir_lock_file
      start local_process_control_file
      start process_shared_preload_libraries
      start initialize_max_backends
      start process_shmem_requests
      start initialize_shmem_gucs
      start initialize_wal_consistency_checking
      start create_shared_memory_and_semaphores
      start get_current_timestamp
      start init_process
      start set_init_processing
      start base_init

    -- Cancellation info for the frontend.
    unfoldable pub send_cancel_key : Step
    send_cancel_key = do
      remote ← gets λ w. is_remote w.shared.where_to_send_output
      when remote (do
        call b (pq_beginmessage b'K')
        pid ← ask b my_proc_pid
        call b (pq_sendint32 pid)
        key ← ask b my_cancel_key
        call b (pq_sendint32 key)
        call b pq_endmessage)

    unfoldable pub async_postgres_single_user_main :
        List (Option Bytes) → Option Bytes → Bool → Step
    unfolding configure connect report_session send_cancel_key create_contexts
    async_postgres_single_user_main argv username async_restart = do
      start (init_standalone_process (first_of argv))
      start initialize_guc_options
      start (process_postgres_switches argv)
      let dbname = or_user (switches argv) username
      when (is_null dbname) (call b (ereport level_fatal))
      when (not async_restart) configure
      connect dbname username
      context ← ask b (start_up postmaster_context)
      when (not (is_zero context)) (start delete_postmaster_context)
      start set_normal_processing
      report_session
      send_cancel_key
      create_contexts
