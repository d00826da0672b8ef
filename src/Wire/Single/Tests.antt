-- ===== src/Wire/Single/Tests.antt =====
-- The theorems on the single-user mains at a backend whose calls return, FATAL reports apart.
use pglite_build.Prelude.{
  ◌≡◌, refl, true, false, none, some, List, Option, Bytes, codes, [], ◌∷◌, ℤ, pos, minus_one, arith,
}
use pglite_build.Tools.{startswith, c_string}
use pglite_build.Wire.World.{
  Backend, World, Shared, Call, Answer, returns, raises, ends, exec_simple_query, ok, dest_none,
  ereport, level_fatal, start_up, select_config_files,
}
use pglite_build.Wire.Session.{clear_error}
use pglite_build.Wire.Proto.{switch, dispatch, message_of, on_query}
use pglite_build.Wire.File.{interactive_file, read_commands, read_command, is_skipped}
use pglite_build.Wire.Action.{modify_shared, pq_getmsgstring, ◌>>=◌, call, ask, modify, gets, pure}
use pglite_build.Wire.Action.Triple.{Post}
use pglite_build.Wire.File.Ends.{Feeds}
use pglite_build.Wire.Single.{
  single_mode, run_feed, re_postgres_single_user_main, async_postgres_single_user_main, connect,
  report_session, create_contexts, configure, send_cancel_key,
}
use pglite_build.Wire.Single.Ends.{
  Recovers, IsClosed, single_mode-IsClosed, re_postgres_single_user_main-IsClosed,
}
use pglite_build.Wire.Single.Opens.{Opened, async_postgres_single_user_main-Opened}

abbrev shared : Shared
shared = record {
  ignore_till_sync = false;
  doing_extended_query_message = false;
  notify_interrupt_pending = false;
  am_walsender = false;
  sockfiles = false;
  where_to_send_output = dest_none;
  socket_data = 0;
  query_cancel_pending = false;
  idle_in_transaction_timeout_enabled = false;
  idle_session_timeout_enabled = false;
  xact_started = false;
  error_context_stack = false;
  debug_query_string = false;
  input_message = [];
  password_message = [];
  olock = [];
}

-- A file of two commands is open.
abbrev world : World (Unit {0})
world = record {
  canary_ex = 0;
  channel = pos 0;
  cma_wsize = 0;
  cma_rsize = pos 0;
  is_wire = true;
  is_repl = false;
  sf_connected = 0;
  send_ready_for_query = false;
  client_auth_in_progress = false;
  doing_command_read = false;
  my_proc_port = true;
  socket_file = false;
  md5_salt = [];
  io = [];
  pgs_in = none;
  pgs_out = none;
  single_mode_feed = some (codes "ab;\n\ncd;\n\n");
  peek = minus_one;
  firstchar = pos 0;
  packetlen = pos 0;
  pipelining = true;
  fp = false;
  armed = false;
  pg_exception_stack = false;
  shared = shared;
  rest = tt;
  log = [];
}

-- Every query raises an error, and a FATAL report ends the process.
abbrev answer : Call → World (Unit {0}) → Answer ℤ × Shared × Unit {0}
answer (ereport level_fatal) w = (ends, w.shared, tt)
answer (exec_simple_query query) w = (raises, w.shared, tt)
answer (start_up select_config_files) w = (returns (pos 1), w.shared, tt)
answer _ w = (returns (pos 0), w.shared, tt)

abbrev failing : Backend
failing = record {
  State = Unit {0};
  answer = answer;
  getmsgstring = λ w. (returns [], w.shared, tt);
}

failing-Recovers : Recovers failing
failing-Recovers (exec_simple_query query) w e = cc
failing-Recovers (ereport level_fatal) w e = λ q. cc
failing-Recovers (start_up select_config_files) w e = λ q. cc
failing-Recovers _ w e = λ q. cc

-- The last argument is the database.
abbrev last : List (Option Bytes) → Option Bytes
last [] = none
last (a ∷ []) = a
last (a ∷ c ∷ argv) = last (c ∷ argv)

-- Both commands fail, and the feed is closed.
both_fail : (single_mode failing true 12 world).0 ≡ ok tt
unfolding single_mode run_feed interactive_file read_commands ◌>>=◌ call ask modify gets pure
    modify_shared switch dispatch message_of on_query clear_error pq_getmsgstring read_command
    is_skipped startswith c_string
both_fail = refl

single_mode-IsClosed_example : Post (λ _. IsClosed) (λ _. ⊥) (single_mode failing true 12 world)
single_mode-IsClosed_example =
    single_mode-IsClosed failing failing-Recovers true 12 (codes "ab;\n\ncd;\n\n") world refl
      (omega arith)

re_postgres_single_user_main-IsClosed_example :
    Post
      (λ _. IsClosed)
      (Feeds failing (codes "ab;\n\n"))
      (re_postgres_single_user_main failing last true 12 (some (codes "ab;\n\n")) [] none world)
re_postgres_single_user_main-IsClosed_example =
    re_postgres_single_user_main-IsClosed failing failing-Recovers last true 12 (codes "ab;\n\n") []
      none world (omega arith)

abbrev argv : List (Option Bytes)
argv = some (codes "postgres") ∷ some (codes "shop") ∷ []

started : (async_postgres_single_user_main failing last argv none false world).0 ≡ ok tt
unfolding async_postgres_single_user_main connect report_session create_contexts configure
    send_cancel_key ◌>>=◌ call ask modify gets pure
started = refl

async_postgres_single_user_main-Opened_example :
    Opened
      (some (codes "shop"))
      none
      (async_postgres_single_user_main failing last argv none false world).1
async_postgres_single_user_main-Opened_example =
    async_postgres_single_user_main-Opened failing last argv none false world started
