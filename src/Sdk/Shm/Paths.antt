-- ===== src/Sdk/Shm/Paths.antt =====
-- Which file stands for a name of shared memory.
use pglite_build.Prelude.{
  ℕ, ◌+◌, ◌≤◌, ◌≡◌, ◌≢◌, refl, sym, ap, ◌∙◌, none, some, [], ◌∷◌, ◌++◌, Bytes, pos, str_eq,
  str_eq_self, take_all, length, length-append, if◌then◌else◌, inl, inr, Bool-cases, arith, drop,
  drop-append,
}
use pglite_build.Sdk.Shm.{Shm, name_path, counted_path, put_file, shm_open, shm_unlink, tmpnam_size}

module _ (decimal : ℕ → Bytes) where
  -- Without SHM, a name that was opened is there, empty, and unlinking it answers 0 and leaves every
  -- file as it was but that one, which is gone.
  pub shm_unlink-shm_open :
      (name : Bytes) (s : Shm)
      → s.shm ≡ none
      → (let (path, s₁) = shm_open decimal name s in
          let (status, s₂) = shm_unlink decimal name s₁ in
          (path ≡ name_path name)
          × (s₁.files path ≡ some [])
          × (status ≡ pos 0)
          × ((q : Bytes) → s₂.files q ≡ (if str_eq path q then none else s.files q)))
  unfolding shm_open shm_unlink
  shm_unlink-shm_open name s h =
      rw h (
        refl,
        rw (str_eq_self (name_path name)) refl,
        rw (str_eq_self (name_path name)) refl,
        others,
      )
    where
      others :
          (q : Bytes)
          → put_file (put_file s.files (name_path name) (some [])) (name_path name) none q
            ≡ (if str_eq (name_path name) q then none else s.files q)
      others q = elim (Bool-cases (str_eq (name_path name) q)) [
        | inl same ↦ rw same refl
        | inr other ↦ rw other refl
      ]

  -- With SHM, two calls one after the other open two different files, even for the same name, if
  -- different numbers are printed differently and both paths fit the buffer.
  pub shm_open_differs :
      ((m n : ℕ) → decimal m ≡ decimal n → m ≡ n)
      → (shm name name' : Bytes) (s : Shm) → s.shm ≡ some shm
      → length shm + 1 + length (decimal s.shm_index) ≤ tmpnam_size
      → length shm + 1 + length (decimal (s.shm_index + 1)) ≤ tmpnam_size
      → (shm_open decimal name s).0 ≢ (shm_open decimal name' (shm_open decimal name s).1).0
  unfolding shm_open
  shm_open_differs injective shm name name' s h fits fits' e =
      let paths : counted_path decimal shm s.shm_index
          ≡ counted_path decimal shm (s.shm_index + 1) =
        rw h at e in
      omega (arith, injective s.shm_index (s.shm_index + 1) (numbers paths))
    where
      whole :
          (n : ℕ)
          → length shm + 1 + length (decimal n) ≤ tmpnam_size
          → counted_path decimal shm n ≡ shm ++ b'.' ∷ decimal n
      whole n k =
          take_all tmpnam_size (shm ++ b'.' ∷ decimal n)
            (omega (arith, k, length-append shm (b'.' ∷ decimal n)))

      numbers :
          counted_path decimal shm s.shm_index ≡ counted_path decimal shm (s.shm_index + 1)
          → decimal s.shm_index ≡ decimal (s.shm_index + 1)
      numbers paths = ap (drop 1) (
          sym (drop-append shm (b'.' ∷ decimal s.shm_index))
          ∙ ap (drop (length shm))
              (sym (whole s.shm_index fits) ∙ paths ∙ whole (s.shm_index + 1) fits')
          ∙ drop-append shm (b'.' ∷ decimal (s.shm_index + 1)))
