-- ===== src/Sdk/Shm/Builds.antt =====
-- The two builds' shared memory, with PYDK and without, over whole sequences of calls.
use pglite_build.Prelude.{◌≡◌, refl, ℕ, none, List, [], ◌∷◌, Bytes, ℤ}
use pglite_build.Sdk.Shm.{Shm, Files, shm_open, shm_unlink}
use pglite_build.Sdk.Shm.Static

-- A call, and what it answers.
pub data ShmCall : Type 0 where
  opens unlinks : Bytes → ShmCall

pub data ShmAnswer : Type 0 where
  fd : Bytes → ShmAnswer
  status : ℤ → ShmAnswer

module _ (decimal : ℕ → Bytes) where
  unfoldable pub step : ShmCall → Shm → ShmAnswer × Shm
  step (opens name) s = let (path, s') = shm_open decimal name s in (fd path, s')
  step (unlinks name) s = let (r, s') = shm_unlink decimal name s in (status r, s')

  unfoldable pub run_shm : List ShmCall → Shm → List ShmAnswer × Shm
  run_shm [] s = ([], s)
  run_shm (c ∷ calls) s =
      let (a, s₁) = step c s in let (answers, s₂) = run_shm calls s₁ in (a ∷ answers, s₂)

unfoldable pub static_step : ShmCall → Files → ShmAnswer × Files
static_step (opens name) files =
    let (path, files') = Static.shm_open name files in (fd path, files')
static_step (unlinks name) files =
    let (r, files') = Static.shm_unlink name files in (status r, files')

unfoldable pub run_static : List ShmCall → Files → List ShmAnswer × Files
run_static [] files = ([], files)
run_static (c ∷ calls) files =
    let (a, files₁) = static_step c files in
    let (answers, files₂) = run_static calls files₁ in (a ∷ answers, files₂)

module _ (decimal : ℕ → Bytes) where
  step-static_step :
      (c : ShmCall) (s : Shm)
      → s.shm ≡ none
      → step decimal c s
        ≡ (let (a, files) = static_step c s.files in (a, record s { files = files }))
  unfolding step static_step shm_open shm_unlink Static.shm_open Static.shm_unlink
  step-static_step (opens name) s h = rw h refl
  step-static_step (unlinks name) s h = rw h refl

  -- Without SHM, both builds answer the same to every sequence of calls, leave the same files, and the
  -- counter stays where it is.
  pub run_shm-run_static :
      (calls : List ShmCall) (s : Shm)
      → s.shm ≡ none
      → run_shm decimal calls s
        ≡ (let (answers, files) = run_static calls s.files in (answers, record s { files = files }))
  unfolding run_shm run_static
  run_shm-run_static [] s h = refl
  run_shm-run_static (c ∷ calls) s h =
      let files = (static_step c s.files).1 in
      rw (step-static_step c s h, run_shm-run_static calls (record s { files = files }) h) refl
