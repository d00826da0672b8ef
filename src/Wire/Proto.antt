-- ===== src/Wire/Proto.antt =====
-- pg_proto.c: one message from the client. `pgl_loop` is whether PGL_LOOP is defined, as it is
-- where interactive_one.c includes the file, and not where pgl_mains.c does.
pub mod Ready
use pglite_build.Prelude.{
  ℕ, zero, suc, ◌-◌, Bool, true, false, not, List, [], ◌∷◌, Bytes, ℤ, is_zero, is_pos, is_eof, to_ℕ,
  if◌then◌else◌,
}
use pglite_build.Wire.World.{
  Backend, Dest, dest_none, dest_remote, level_error, level_fatal, ereport, pq_getmsgend,
  pq_getmsgbyte, pq_getmsgint, pq_flush, pq_putemptymessage, exec_simple_query,
  exec_replication_command, exec_parse_message, exec_bind_message, exec_execute_message,
  exec_describe_statement_message, exec_describe_portal_message, handle_function_request,
  forbidden_in_wal_sender, set_statement_timestamp, pgstat_report_fastpath, set_ps_display,
  start_xact_command, finish_xact_command, memory_context_switch, drop_prepared_statement,
  drop_unnamed_stmt, get_portal_by_name, portal_drop, end_implicit_transaction_block,
  pgstat_disconnect,
}
use pglite_build.Wire.Action.{
  Action, pure, ◌>>=◌, ◌>>◌, gets, modify, modify_shared, when, ask, call, pq_getmsgstring,
}

-- The labels of the `switch`; `eof` falls through to `terminate`, and `copy` stands for the three
-- COPY messages.
pub data Message : Type 0 where
  query parse bind execute function_call close describe flush sync eof terminate copy : Message
  unknown : Message

unfoldable pub message_of : ℤ → Message
message_of c =
    if is_pos c b'Q'
    then query
    else if is_pos c b'P'
    then parse
    else if is_pos c b'B'
    then bind
    else if is_pos c b'E'
    then execute
    else if is_pos c b'F'
    then function_call
    else if is_pos c b'C'
    then close
    else if is_pos c b'D'
    then describe
    else if is_pos c b'H'
    then flush
    else if is_pos c b'S'
    then sync
    else if is_eof c
    then eof
    else if is_pos c b'X'
    then terminate
    else if is_pos c b'd'
    then copy
    else if is_pos c b'c'
    then copy
    else if is_pos c b'f'
    then copy
    else unknown

-- How the `switch` is left: at its end, or by `goto wire_flush`.
pub data Next : Type 0 where
  proceed wire_flush : Next

abbrev pub is_remote : Dest → Bool
is_remote dest_remote = true
is_remote _ = false

module _ (b : Backend) where
  abbrev Step : Type 0
  Step = Action b.State (Unit {0})

  -- `for (int i = 0; i < n; i++) types[i] = pq_getmsgint(&input_message, 4);`
  unfoldable pub param_types : ℕ → Action b.State (List ℤ)
  param_types zero = pure []
  param_types (suc n) = do oid ← ask b (pq_getmsgint 4); oids ← param_types n; pure (oid ∷ oids)

  unfoldable pub on_query : Step
  on_query = do
    call b set_statement_timestamp
    query_string ← pq_getmsgstring b
    call b pq_getmsgend
    walsender ← gets λ w. w.shared.am_walsender
    if walsender
        then (do
          handled ← ask b (exec_replication_command query_string)
          when (is_zero handled) (call b (exec_simple_query query_string)))
        else call b (exec_simple_query query_string)
    modify λ w. record w { send_ready_for_query = true }

  unfoldable pub on_parse : Bool → ℤ → Step
  on_parse pgl_loop firstchar = do
    call b (forbidden_in_wal_sender firstchar)
    call b set_statement_timestamp
    stmt_name ← pq_getmsgstring b
    query_string ← pq_getmsgstring b
    num_params ← ask b (pq_getmsgint 2)
    types ← param_types (to_ℕ num_params)
    call b pq_getmsgend
    call b (exec_parse_message query_string stmt_name types)
    when pgl_loop (modify λ w. record w { send_ready_for_query = false })

  -- `if (send_ready_for_query) send_ready_for_query = !pipelining;`
  unfoldable pub unless_pipelining : Bool → Step
  unless_pipelining pgl_loop = when pgl_loop (
      modify λ w. record w {
        send_ready_for_query =
            if w.send_ready_for_query then not w.pipelining else w.send_ready_for_query;
      })

  unfoldable pub on_bind : Bool → ℤ → Step
  on_bind pgl_loop firstchar = do
    call b (forbidden_in_wal_sender firstchar)
    call b set_statement_timestamp
    call b exec_bind_message
    unless_pipelining pgl_loop

  unfoldable pub on_execute : Bool → ℤ → Step
  on_execute pgl_loop firstchar = do
    call b (forbidden_in_wal_sender firstchar)
    call b set_statement_timestamp
    portal_name ← pq_getmsgstring b
    max_rows ← ask b (pq_getmsgint 4)
    call b pq_getmsgend
    call b (exec_execute_message portal_name max_rows)
    unless_pipelining pgl_loop

  unfoldable pub on_function_call : ℤ → Step
  on_function_call firstchar = do
    call b (forbidden_in_wal_sender firstchar)
    call b set_statement_timestamp
    call b pgstat_report_fastpath
    call b set_ps_display
    call b start_xact_command
    call b memory_context_switch
    call b handle_function_request
    call b finish_xact_command
    modify λ w. record w { send_ready_for_query = true }

  -- `if (close_target[0] != '\0')`, else the unnamed statement
  unfoldable pub drop_statement : Bytes → Step
  drop_statement [] = call b drop_unnamed_stmt
  drop_statement (c ∷ cs) = call b (drop_prepared_statement (c ∷ cs))

  unfoldable pub close_target_of : ℤ → Bytes → Step
  close_target_of close_type close_target =
      if is_pos close_type b'S'
      then drop_statement close_target
      else if is_pos close_type b'P'
      then (do
        portal ← ask b (get_portal_by_name close_target)
        when (not (is_zero portal)) (call b (portal_drop portal)))
      else call b (ereport level_error)

  unfoldable pub on_close : Bool → ℤ → Step
  on_close pgl_loop firstchar = do
    call b (forbidden_in_wal_sender firstchar)
    close_type ← ask b pq_getmsgbyte
    close_target ← pq_getmsgstring b
    call b pq_getmsgend
    close_target_of close_type close_target
    remote ← gets λ w. is_remote w.shared.where_to_send_output
    when remote (call b (pq_putemptymessage b'3'))
    unless_pipelining pgl_loop

  unfoldable pub on_describe : Bool → ℤ → Step
  on_describe pgl_loop firstchar = do
    call b (forbidden_in_wal_sender firstchar)
    call b set_statement_timestamp
    describe_type ← ask b pq_getmsgbyte
    describe_target ← pq_getmsgstring b
    call b pq_getmsgend
    if is_pos describe_type b'S'
        then call b (exec_describe_statement_message describe_target)
        else if is_pos describe_type b'P'
        then call b (exec_describe_portal_message describe_target)
        else call b (ereport level_error)
    unless_pipelining pgl_loop

  unfoldable pub on_flush : Step
  on_flush = do
    call b pq_getmsgend
    remote ← gets λ w. is_remote w.shared.where_to_send_output
    when remote (call b pq_flush)

  unfoldable pub on_sync : Step
  on_sync = do
    call b pq_getmsgend
    call b end_implicit_transaction_block
    call b finish_xact_command
    modify λ w. record w { send_ready_for_query = true }

  -- `if (sf_connected) sf_connected--;` stops at zero, as `-` does.
  unfoldable pub on_terminate : Bool → Action b.State Next
  on_terminate pgl_loop = do
    remote ← gets λ w. is_remote w.shared.where_to_send_output
    when remote (modify_shared λ s. record s { where_to_send_output = dest_none })
    modify λ w. record w {
      sf_connected = w.sf_connected - 1;
      is_repl = false;
      send_ready_for_query = false;
    }
    modify_shared λ s. record s { ignore_till_sync = false }
    if pgl_loop
        then (do modify λ w. record w { pipelining = false }; pure wire_flush)
        else pure proceed

  unfoldable pub dispatch : Bool → Message → ℤ → Action b.State Next
  dispatch pgl_loop query c = on_query >> pure proceed
  dispatch pgl_loop parse c = on_parse pgl_loop c >> pure proceed
  dispatch pgl_loop bind c = on_bind pgl_loop c >> pure proceed
  dispatch pgl_loop execute c = on_execute pgl_loop c >> pure proceed
  dispatch pgl_loop function_call c = on_function_call c >> pure proceed
  dispatch pgl_loop close c = on_close pgl_loop c >> pure proceed
  dispatch pgl_loop describe c = on_describe pgl_loop c >> pure proceed
  dispatch pgl_loop flush c = on_flush >> pure proceed
  dispatch pgl_loop sync c = on_sync >> pure proceed
  dispatch pgl_loop eof c = call b pgstat_disconnect >> on_terminate pgl_loop
  dispatch pgl_loop terminate c = on_terminate pgl_loop
  dispatch pgl_loop copy c = pure proceed
  dispatch pgl_loop unknown c = call b (ereport level_fatal) >> pure proceed

  -- The whole `switch (firstchar)`.
  unfoldable pub switch : Bool → ℤ → Action b.State Next
  switch pgl_loop firstchar = dispatch pgl_loop (message_of firstchar) firstchar
