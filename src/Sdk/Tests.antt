-- ===== src/Sdk/Tests.antt =====
-- The theorems on the C library additions at small tables, libraries and signal sets.
use pglite_build.Prelude.{
  ◌<◌, ◌≤◌, ap, ◌≢◌, ℕ, zero, suc, List, Option, ◌≡◌, refl, true, false, none, some, [], ◌∷◌, Bytes,
  codes, pos, minus_one, ℤ, ◌==◌, ◌||◌, Bool, if◌then◌else◌, arith, str_eq,
}
use pglite_build.Sdk.Dict.{Dict, dict_add, dict_find}
use pglite_build.Sdk.Dict.Finds.{Represents}
use pglite_build.Sdk.Dict.Adds.{dict_add-Represents, dict_find-dict_add}
use pglite_build.Sdk.Dlfcn.{Linker, done, past_end, null_read, dlopen}
use pglite_build.Sdk.Dlfcn.Loads.{dlopen-dlopen, fresh}
use pglite_build.Sdk.Shm.{Shm, shm_open, shm_unlink, name_path}
use pglite_build.Sdk.Shm.Paths.{shm_unlink-shm_open, shm_open_differs}
use pglite_build.Sdk.Shm.Builds.{ShmCall, opens, unlinks, run_shm, run_static, run_shm-run_static}
use pglite_build.Sdk.Signals.{
  Sigset, ones, Handler, bit, sigaddset, sigdelset, Signals, Libc, sigprocmask, sig_block,
  sig_setmask, blocked_handler, application, is_sig_err,
}
use pglite_build.Sdk.Signals.Mask.{sigaddset-sigdelset_bits}
use pglite_build.Sdk.Signals.Restores.{sigprocmask-sigprocmask}

-- A table of one slot, which is taken.
abbrev full_table : Dict
full_table = record {
  len = 1;
  cap = 1;
  entry = some (record { key = codes "a"; value = pos 1 }) ∷ [];
}

abbrev full_table-Represents :
    Represents full_table (record { key = codes "a"; value = pos 1 } ∷ [])
full_table-Represents = record {
  free = 0;
  entry_is = refl;
  len_is = refl;
  cap_is = refl;
  cap_pos = omega arith;
}

dict_find-dict_add_example :
    (d' : Dict) × (dict_add full_table (codes "b") (pos 2) ≡ some d')
    × (dict_find d' (codes "a") minus_one ≡ (
        if str_eq (codes "b") (codes "a")
        then some (pos 2)
        else dict_find full_table (codes "a") minus_one))
dict_find-dict_add_example =
    dict_find-dict_add full_table (record { key = codes "a"; value = pos 1 } ∷ []) (codes "b")
      (codes "a") (pos 2) minus_one full_table-Represents

dict_add-Represents_example :
    (d' : Dict) × (dict_add full_table (codes "b") (pos 2) ≡ some d')
    × Represents d'
        (record { key = codes "a"; value = pos 1 } ∷ record { key = codes "b"; value = pos 2 } ∷ [])
dict_add-Represents_example =
    dict_add-Represents full_table (record { key = codes "a"; value = pos 1 } ∷ []) (codes "b")
      (pos 2) full_table-Represents

dlopen-dlopen_example :
    (4 < 2 → dlopen (fresh 4) (codes "a.so") ≡ past_end)
    × (2 ≤ 4
        → (l : Linker) × (dlopen (fresh 4) (codes "a.so") ≡ done (1, l))
          × (dlopen l (codes "b.so") ≡ null_read))
dlopen-dlopen_example = dlopen-dlopen 4 (codes "a.so") (codes "b.so")

-- Signals 1 and 3.
abbrev two_signals : Sigset
two_signals = false ∷ true ∷ false ∷ true ∷ false ∷ false ∷ false ∷ false ∷ []

-- SIGTERM, 15, does not fit.
sigaddset-sigdelset_bits_example :
    ((sigaddset 32 two_signals (pos 15)).0 ≡ pos 0)
    × ((sigdelset 32 two_signals (pos 15)).0 ≡ pos 0)
    × (bit (sigaddset 32 two_signals (pos 15)).1 3 ≡ true)
    × (bit (sigdelset 32 two_signals (pos 15)).1 3 ≡ true)
sigaddset-sigdelset_bits_example = sigaddset-sigdelset_bits 32 two_signals 15 3 refl (omega arith)

abbrev no_handlers : ℕ → List (Option Handler)
no_handlers zero = []
no_handlers (suc n) = none ∷ no_handlers n

-- A libc that keeps the handlers and the signals that were raised.
abbrev Handlers : Type 0
Handlers = (ℕ → Option Handler) × List ℕ

abbrev install : ℕ → Option Handler → Handlers → Handlers
install sig h (handlers, raised) = (λ j. if sig == j then h else handlers j, raised)

abbrev swap_handler : ℤ → Option Handler → Handlers → Option Handler × Handlers
swap_handler (ℤ.pos sig) h k = (k.0 sig, install sig h k)
swap_handler (ℤ.negsuc i) h k = (none, k)

abbrev swapping_libc : Libc Handlers
swapping_libc = record {
  signal = swap_handler;
  raise = λ sig st. record st { libc = (st.libc.0, sig ∷ st.libc.1) };
}

-- Both signals are blocked, and signal 3 has come.
abbrev waiting_signals : Signals Handlers
waiting_signals = record {
  blocked_set = two_signals;
  pending_array = false ∷ false ∷ false ∷ true ∷ false ∷ false ∷ false ∷ false ∷ [];
  old_handlers = no_handlers 8;
  libc = (λ sig. some blocked_handler, []);
}

abbrev signal_three : Sigset
signal_three = false ∷ false ∷ false ∷ true ∷ false ∷ false ∷ false ∷ false ∷ []

-- Signal 1 is blocked, and the application has handlers for the others.
abbrev running_signals : Signals Handlers
running_signals = record {
  blocked_set = false ∷ true ∷ false ∷ false ∷ false ∷ false ∷ false ∷ false ∷ [];
  pending_array = ones 0 8;
  old_handlers = no_handlers 8;
  libc = (λ sig. if sig == 1 then some blocked_handler else some (application sig), []);
}

application_answers :
    (j : ℕ) → is_sig_err (if j == 1 then some blocked_handler else some (application j)) ≡ false
application_answers j = go (j == 1)
  where
    go : (b : Bool) → is_sig_err (if b then some blocked_handler else some (application j)) ≡ false
    go true = refl
    go false = refl

sigprocmask-sigprocmask_example :
    (st₁ st₂ : Signals Handlers) × (sigprocmask swapping_libc 8 sig_block
        (some signal_three)
        running_signals
      ≡ some (pos 0, running_signals.blocked_set, st₁))
    × (sigprocmask swapping_libc 8 sig_setmask (some running_signals.blocked_set) st₁
        ≡ some (pos 0, st₁.blocked_set, st₂))
    × ((j : ℕ)
        → (bit st₁.blocked_set j ≡ (bit running_signals.blocked_set j || bit signal_three j))
          × (bit st₂.blocked_set j ≡ bit running_signals.blocked_set j)
          × (st₂.libc.0 j ≡ running_signals.libc.0 j))
sigprocmask-sigprocmask_example =
    sigprocmask-sigprocmask swapping_libc 8 (λ k. k.0) signal_three running_signals
      (λ sig h k on. (refl, λ j. refl)) (λ j low on. application_answers j) refl refl (omega arith)
      (omega arith)

-- No files, with SHM set or not; a number is printed as that many strokes.
abbrev no_files : Option Bytes → Shm
no_files shm = record { shm = shm; shm_index = 0; files = λ q. none }

abbrev strokes : ℕ → Bytes
strokes zero = []
strokes (suc n) = b'|' ∷ strokes n

strokes_injective : (m n : ℕ) → strokes m ≡ strokes n → m ≡ n
strokes_injective zero zero e = refl
strokes_injective zero (suc n) e = cc
strokes_injective (suc m) zero e = cc
strokes_injective (suc m) (suc n) e =
    let tail : strokes m ≡ strokes n = cc in ap suc (strokes_injective m n tail)

shm_unlink-shm_open_example :
    (let (path, s₁) = shm_open strokes (codes "/pg") (no_files none) in
      let (status, s₂) = shm_unlink strokes (codes "/pg") s₁ in
      (path ≡ name_path (codes "/pg"))
      × (s₁.files path ≡ some [])
      × (status ≡ pos 0)
      × ((q : Bytes) → s₂.files q ≡ (if str_eq path q then none else none)))
shm_unlink-shm_open_example = shm_unlink-shm_open strokes (codes "/pg") (no_files none) refl

-- A name is opened, unlinked and unlinked again.
abbrev shm_calls : List ShmCall
shm_calls = opens (codes "/pg") ∷ unlinks (codes "/pg") ∷ unlinks (codes "/pg") ∷ []

run_shm-run_static_example : run_shm strokes shm_calls (no_files none) ≡ (
    let (answers, files) = run_static shm_calls (no_files none).files in
    (answers, record (no_files none) { files = files }))
run_shm-run_static_example = run_shm-run_static strokes shm_calls (no_files none) refl

shm_open_differs_example :
    (shm_open strokes (codes "/pg") (no_files (some (codes "/s")))).0
    ≢ (shm_open strokes
        (codes "/pg")
        (shm_open strokes (codes "/pg") (no_files (some (codes "/s")))).1).0
shm_open_differs_example =
    shm_open_differs strokes strokes_injective (codes "/s") (codes "/pg") (codes "/pg")
      (no_files (some (codes "/s"))) refl (omega arith) (omega arith)
