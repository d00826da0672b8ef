-- ===== src/Wire/Loop/Replies.antt =====
-- Where the reply goes.
use pglite_build.Prelude.{
  ◌≡◌, refl, false, not, ◌&&◌, ◌||◌, some, minus_one, add_ℕ, ltb, arith, Bool-cases, inl, inr,
  if◌then◌else◌,
}
use pglite_build.Wire.World.{Backend, World, Outcome, ok, fault}
use pglite_build.Wire.Action.{◌>>=◌, modify, pure, gets, modify_shared}
use pglite_build.Wire.Loop.Blocks.{publish, close_reply_file}

module _ (b : Backend) where
  -- Where the reply of `pending` bytes is found after it has been handed over.
  abbrev pub IsPublished : World b.State → World b.State → Type 0
  IsPublished w w' =
      let pending = ltb 0 w.shared.socket_data in
      (w'.shared.socket_data ≡ 0)
      × (w'.cma_wsize ≡ (
          if pending
          then (if w.shared.sockfiles then w.cma_wsize else w.shared.socket_data)
          else 0))
      × (w'.channel ≡ (
          if pending
          then (if w.shared.sockfiles then minus_one else add_ℕ w.cma_rsize 2)
          else w.channel))
      × (w'.pgs_out
          ≡ (if w.shared.sockfiles && w.socket_file then some (w.shared.olock) else w.pgs_out))
      × (w'.socket_file ≡ (w.socket_file && not (pending || w.shared.sockfiles)))

  -- Handing over a reply, when it succeeds, takes every byte that is pending: a reply in the CMA
  -- buffer gets its length in `cma_wsize` and its offset in `channel`, one in files becomes PGS_OUT
  -- with the channel -1, and with nothing pending `cma_wsize` is zero; SOCKET_FILE is then closed
  -- if there was a reply or files are used.
  pub publish-IsPublished :
      (w : World b.State) → (publish b w).0 ≡ ok tt → IsPublished w (publish b w).1
  unfolding publish close_reply_file ◌>>=◌ modify gets pure modify_shared
  publish-IsPublished w e = elim (Bool-cases (ltb 0 w.shared.socket_data)) [
    | inl some_bytes ↦ elim (Bool-cases (w.shared.sockfiles)) [
      | inl files ↦ elim (Bool-cases (w.socket_file)) [
        | inl opened ↦ rw (some_bytes, files, opened) (refl, refl, refl, refl, refl)
        | inr closed ↦ rw (some_bytes, files, closed) (refl, refl, refl, refl, refl)
      ]
      | inr memory ↦ elim (Bool-cases (w.socket_file)) [
        | inl opened ↦ rw (some_bytes, memory, opened) (refl, refl, refl, refl, refl)
        | inr closed ↦ rw (some_bytes, memory, closed) (refl, refl, refl, refl, refl)
      ]
    ]
    | inr no_bytes ↦ elim (Bool-cases (w.shared.sockfiles)) [
      | inl files ↦ elim (Bool-cases (w.socket_file)) [
        | inl opened ↦ rw (no_bytes, files, opened) (empty no_bytes, refl, refl, refl, refl)
        | inr closed ↦ absurd (fault-ne (rw (no_bytes, files, closed) at e))
      ]
      | inr memory ↦ elim (Bool-cases (w.socket_file)) [
        | inl opened ↦ rw (no_bytes, memory, opened) (empty no_bytes, refl, refl, refl, refl)
        | inr closed ↦ rw (no_bytes, memory, closed) (empty no_bytes, refl, refl, refl, refl)
      ]
    ]
  ]
    where
      fault_unit : Outcome (Unit {0})
      fault_unit = fault

      empty : ltb 0 w.shared.socket_data ≡ false → w.shared.socket_data ≡ 0
      empty h = ground arith

      fault-ne : ¬ (fault_unit ≡ ok tt)
      fault-ne h = cc
