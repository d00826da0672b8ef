-- ===== src/Start/Tests.antt =====
-- The theorems on the start-up at concrete arguments.
use pglite_build.Prelude.{
  not, if◌then◌else◌, ℕ, List, true, false, some, refl, arith, zeros, ◌≡◌, ◌↔◌, ◌≤◌, [], ◌∷◌, ◌++◌,
  codes, length,
}
use pglite_build.Tools.{strops_buf}
use pglite_build.Start.Env.{Setting}
use pglite_build.Start.{settings_from, arg_env}
use pglite_build.Start.Pipes.{popen, pclose, pipe_boot, pipe_single, no_pipes, PipeEvent, run_pipes}
use pglite_build.Start.Pipes.Answers.{run_pipes-nth_streams}
use pglite_build.Start.Main.{Build, Startup, main, forced_exit, stays_alive}
use pglite_build.Start.Main.Ends.{main_lem, IsConfigured, chosen, keeps_alive, no_nul-NulFree}
use pglite_build.Start.Settings.{In, settings_from_iff}

abbrev user : Setting
user = record { key = codes "PGUSER"; value = codes "web" }

settings_from_iff_example : In user (settings_from [] 0 (codes "PGUSER=web")) ↔ (
    (codes "PGUSER=web" ≡ codes "PGUSER" ++ b'=' ∷ codes "web") × (length (codes "PGUSER") ≤ 255))
settings_from_iff_example = settings_from_iff (codes "PGUSER=web") user

-- initdb's two commands.
abbrev two_commands : List PipeEvent
two_commands = popen ∷ pclose pipe_boot ∷ popen ∷ pclose pipe_single ∷ []

run_pipes-nth_streams_example : (run_pipes two_commands no_pipes).0 ≡ pipe_boot ∷ pipe_single ∷ []
run_pipes-nth_streams_example = run_pipes-nth_streams two_commands

abbrev buffer : List ℕ
buffer = zeros strops_buf

abbrev wasm_build : Build
wasm_build = record {
  wasm_prefix = codes "/tmp/pglite";
  wasm_username = codes "postgres";
  is_node = true;
  uninit = buffer;
}

-- `postgres PGUSER=web REPL=Y`
abbrev web_start : Startup
web_start = record {
  env = [];
  argv = codes "postgres" ∷ codes "PGUSER=web" ∷ codes "REPL=Y" ∷ [];
  prefix = [];
  pgdata = [];
  pguser = [];
  tmpstr = buffer;
  is_repl = true;
  is_embed = false;
  made = [];
}

main_lem_example :
    (s' : Startup) × (main wasm_build web_start
      ≡ some (
        (if keeps_alive (chosen web_start (codes "REPL") (codes "N"))
            then stays_alive
            else forced_exit),
        s',
      ))
    × IsConfigured wasm_build web_start (codes "/tmp/pglite") s'
    × (s'.is_repl ≡ not (keeps_alive (chosen web_start (codes "REPL") (codes "N"))))
    × (s'.is_embed ≡ true)
unfolding arg_env
main_lem_example =
    main_lem wasm_build web_start (codes "/tmp/pglite") refl refl refl
      (no_nul-NulFree (codes "/tmp/pglite") refl) (omega arith)
