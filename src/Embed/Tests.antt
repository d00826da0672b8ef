-- ===== src/Embed/Tests.antt =====
-- The theorem on the copied arguments at two arguments.
use pglite_build.Prelude.{
  zeros, ℕ, zero, suc, ◌≡◌, refl, ap, true, false, none, arith, Option, some, List, [], ◌∷◌, Bytes,
  codes, length,
}
use pglite_build.Embed.{Argv, copy_argv, strings_length}
use pglite_build.Embed.Host.{Runtime, Embedded, pre_main, embed_main, begin_module}
use pglite_build.Embed.Host.Module.{Compares, end_module-begin_module}
use pglite_build.Embed.{copy_strings}
use pglite_build.Tools.{copy_to}
use pglite_build.Embed.Host.Env.{IsPrepared, pre_main-IsPrepared}
use pglite_build.Embed.Block.{copy_argv-read_argv, read_argv}

length-zeros : (n : ℕ) → length (zeros n) ≡ n
length-zeros zero = refl
length-zeros (suc n) = ap suc (length-zeros n)

abbrev two_args : List Bytes
two_args = codes "pg" ∷ codes "-j" ∷ []

copy_argv-read_argv_example :
    (a : Argv) × (copy_argv 4 zeros two_args ≡ some a)
    × (read_argv 12 a.pointers a.bytes ≡ two_args)
    × (length a.bytes ≡ strings_length two_args)
copy_argv-read_argv_example =
    copy_argv-read_argv 4 zeros two_args length-zeros
      (((λ e. cc), ((λ e. cc), tt)), (((λ e. cc), ((λ e. cc), tt)), tt))

-- A runtime that starts, and an environment with a user.
abbrev runtime : Runtime
runtime = record {
  wasi_init = λ argc argv env. true;
  wasi_file_descriptor_add = true;
  pointer_size = 4;
  uninit = zeros;
}

abbrev before : Embedded
before = record {
  env = record { key = codes "PGUSER"; value = codes "web" } ∷ [];
  g_argv = none;
  g_argc = 0;
  skip_main = false;
  instantiated = false;
  started = false;
}

pre_main-IsPrepared_example :
    (status : ℕ) × (s' : Embedded) × (pre_main runtime two_args before ≡ some (status, s'))
    × IsPrepared runtime two_args before s'
pre_main-IsPrepared_example =
    pre_main-IsPrepared runtime two_args before (omega arith) length-zeros
      (((λ e. cc), ((λ e. cc), tt)), (((λ e. cc), ((λ e. cc), tt)), tt))

-- A runtime that does not start.
abbrev unwilling : Runtime
unwilling = record runtime { wasi_init = λ argc argv env. false }

state_of : Option (ℕ × Embedded) → Embedded
state_of none = before
state_of (some (status, s)) = s

end_module-begin_module_example :
    (m : Embedded) × (begin_module unwilling before ≡ some m)
    × Compares before 1 (state_of (embed_main unwilling before)) m
unfolding embed_main pre_main copy_argv copy_strings state_of copy_to
end_module-begin_module_example =
    end_module-begin_module unwilling before (state_of (embed_main unwilling before)) 1 refl refl
