-- ===== src/Sdk/Signals/Mask.antt =====
-- Which bits the signal sets and the mask of sdk_port-wasi.c come to hold.
use pglite_build.Prelude.{
  ℕ, zero, suc, ◌+◌, ◌≤◌, ◌<◌, ◌≡◌, refl, ap, ◌∙◌, Bool, true, false, not, ◌&&◌, ◌||◌, Option, some,
  List, [], ◌∷◌, ltb, leb, ◌==◌, ℤ, pos, set, length, length-set, if◌then◌else◌, arith,
}
use pglite_build.Sdk.Signals.{
  Sigset, bit, zip_bits, without, union, sigaddset, sigdelset, Handler, blocked_handler, Signals,
  Libc, sig_block, block_one, block_from, is_sig_err, unblock_from, raise_from, change_mask,
  sigprocmask,
}

pub bit-set :
    (s : Sigset) (i j : ℕ) (x : Bool)
    → bit (set s i x) j ≡ (if (i == j) && ltb i (length s) then x else bit s j)
bit-set [] i j x = ground arith
bit-set (y ∷ s) zero zero x = ground arith
bit-set (y ∷ s) zero (suc j) x = ground arith
bit-set (y ∷ s) (suc i) zero x = ground arith
bit-set (y ∷ s) (suc i) (suc j) x = ground (arith, bit-set s i j x)

pub bit_past : (t : Sigset) (k : ℕ) → length t ≤ k → bit t k ≡ false
bit_past [] k h = refl
bit_past (x ∷ t) zero h = absurd (omega arith)
bit_past (x ∷ t) (suc k) h = bit_past t k (omega arith)

-- On a set of eight bits and a signal below NSIG, both functions return 0; `sigaddset` adds the signal
-- if it is below 8 and changes nothing if it is not, and `sigdelset` removes it.
pub sigaddset-sigdelset_bits :
    (nsig : ℕ) (s : Sigset) (i j : ℕ)
    → length s ≡ 8
    → i < nsig
    → ((sigaddset nsig s (pos i)).0 ≡ pos 0)
      × ((sigdelset nsig s (pos i)).0 ≡ pos 0)
      × (bit (sigaddset nsig s (pos i)).1 j ≡ (((i == j) && ltb i 8) || bit s j))
      × (bit (sigdelset nsig s (pos i)).1 j ≡ (not (i == j) && bit s j))
unfolding sigaddset sigdelset
sigaddset-sigdelset_bits nsig s i j size below = (
  ground arith,
  ground arith,
  ground (arith, bit-set s i j true),
  ground (arith, bit-set s i j false, bit_past s j),
)

bit-zip_bits :
    (f : Bool → Bool → Bool) (s t : Sigset) (j : ℕ)
    → f false false ≡ false
    → length s ≡ length t
    → bit (zip_bits f s t) j ≡ f (bit s j) (bit t j)
bit-zip_bits f [] [] j z e = sym_z z
  where
    sym_z : f false false ≡ false → false ≡ f false false
    sym_z h = rw h refl
bit-zip_bits f [] (y ∷ t) j z e = absurd (omega arith)
bit-zip_bits f (x ∷ s) [] j z e = absurd (omega arith)
bit-zip_bits f (x ∷ s) (y ∷ t) zero z e = refl
bit-zip_bits f (x ∷ s) (y ∷ t) (suc j) z e = bit-zip_bits f s t j z (omega arith)

length-zip_bits :
    (f : Bool → Bool → Bool) (s t : Sigset)
    → length s ≡ length t
    → length (zip_bits f s t) ≡ length s
length-zip_bits f [] t e = refl
length-zip_bits f (x ∷ s) [] e = absurd (omega arith)
length-zip_bits f (x ∷ s) (y ∷ t) e = ap suc (length-zip_bits f s t (omega arith))

pub length-union : (s t : Sigset) → length s ≡ length t → length (union s t) ≡ length s
length-union s t e = length-zip_bits _ s t e

pub length-without : (s t : Sigset) → length s ≡ length t → length (without s t) ≡ length s
length-without s t e = length-zip_bits _ s t e

pub bit-union :
    (s t : Sigset) (j : ℕ) → length s ≡ length t → bit (union s t) j ≡ (bit s j || bit t j)
bit-union s t j e = bit-zip_bits _ s t j refl e

pub bit-without :
    (s t : Sigset) (j : ℕ) → length s ≡ length t → bit (without s t) j ≡ (bit s j && not (bit t j))
bit-without s t j e = bit-zip_bits _ s t j refl e

-- Blocking more signals unblocks none.
pub without-union :
    (s t : Sigset) (j : ℕ) → length s ≡ length t → bit (without s (union s t)) j ≡ false
without-union s t j e =
    ground
      (arith, bit-without s (union s t) j (omega (arith, length-union s t e)), bit-union s t j e)

module _ {K : Type 0} (c : Libc K) (nsig : ℕ) where
  -- `signal` never answers SIG_ERR.
  abbrev Installs : Type 0
  Installs = (sig : ℤ) (h : Option Handler) (k : K) → is_sig_err (c.signal sig h k).0 ≡ false

  block_step : Sigset → ℕ → Signals K → Signals K
  block_step t sig st = if bit t sig then block_one c nsig sig st else st

  block_one-bits :
      (sig : ℕ) (st : Signals K)
      → Installs
      → (block_one c nsig sig st).blocked_set ≡ set st.blocked_set sig true
  unfolding block_one
  block_one-bits sig st h = rw (h (pos sig) (some blocked_handler) st.libc) refl

  block_step-bits :
      (t : Sigset) (sig j : ℕ) (st : Signals K)
      → Installs
      → length st.blocked_set ≡ length t
      → (length (block_step t sig st).blocked_set ≡ length t)
        × (bit (block_step t sig st).blocked_set j
            ≡ (bit st.blocked_set j || ((sig == j) && bit t j)))
  unfolding block_step
  block_step-bits t sig j st h e = go (bit t sig) refl
    where
      taken :
          bit t sig ≡ true
          → (length (block_one c nsig sig st).blocked_set ≡ length t)
            × (bit (block_one c nsig sig st).blocked_set j
                ≡ (bit st.blocked_set j || ((sig == j) && bit t j)))
      taken is = rw (block_one-bits sig st h) (
        length-set st.blocked_set sig true ∙ e,
        ground (arith, bit-set st.blocked_set sig j true, bit_past t sig),
      )

      go :
          (b : Bool)
          → bit t sig ≡ b
          → (length (if b then block_one c nsig sig st else st).blocked_set ≡ length t)
            × (bit (if b then block_one c nsig sig st else st).blocked_set j
                ≡ (bit st.blocked_set j || ((sig == j) && bit t j)))
      go true is = taken is
      go false is = (e, ground arith)

  block_from-bits :
      (t : Sigset) (n sig j : ℕ) (st : Signals K)
      → Installs
      → length st.blocked_set ≡ length t
      → bit (block_from c nsig t n sig st).blocked_set j
        ≡ (bit st.blocked_set j || (leb sig j && ltb j (sig + n) && bit t j))
  unfolding block_from block_step
  block_from-bits t zero sig j st h e = ground arith
  block_from-bits t (suc n) sig j st h e =
      let (same, bits) = block_step-bits t sig j st h e in
      block_from-bits t n (suc sig) j (block_step t sig st) h same ∙ ground (arith, bits)

  -- With nothing to unblock, the last two loops do nothing.
  pub nothing_unblocked :
      (t : Sigset) (n sig : ℕ) (st : Signals K)
      → ((j : ℕ) → bit t j ≡ false)
      → (received : List Bool) × (unblock_from c nsig t n sig st ≡ some (received, st))
        × (raise_from c nsig received sig st ≡ st)
  unfolding unblock_from raise_from
  nothing_unblocked t zero sig st h = ([], refl, refl)
  nothing_unblocked t (suc n) sig st h =
      let (received, same, quiet) = nothing_unblocked t n (suc sig) st h in
      (false ∷ received, rw (h sig, same) refl, quiet)

  -- If `signal` never answers SIG_ERR and NSIG is at least 8, `sigprocmask` with SIG_BLOCK returns
  -- 0 and the old mask, and the new mask holds the signals of both sets.
  sigprocmask_block :
      (s : Sigset) (st : Signals K) (j : ℕ)
      → Installs
      → 8 ≤ nsig
      → length s ≡ 8
      → length st.blocked_set ≡ 8
      → (st' : Signals K) × (sigprocmask c nsig sig_block (some s) st
          ≡ some (pos 0, st.blocked_set, st'))
        × (bit st'.blocked_set j ≡ (bit st.blocked_set j || bit s j))
  unfolding sigprocmask change_mask
  sigprocmask_block s st j h wide size size' =
      let to_block = without (union st.blocked_set s) st.blocked_set in
      let st' = block_from c nsig to_block nsig 0 st in
      let none_lost = λ (k : ℕ). without-union st.blocked_set s k (omega arith) in
      let (received, same, quiet) =
        nothing_unblocked (without st.blocked_set (union st.blocked_set s)) nsig 0 st' none_lost in
      (st', rw (same, quiet) refl, blocked)
    where
      longer : length (union st.blocked_set s) ≡ length st.blocked_set
      longer = length-union st.blocked_set s (omega arith)

      blocked :
          bit
            (block_from c nsig
              (without (union st.blocked_set s) st.blocked_set)
              nsig
              0
              st).blocked_set
            j
          ≡ (bit st.blocked_set j || bit s j)
      blocked = ground (
        arith,
        block_from-bits (without (union st.blocked_set s) st.blocked_set) nsig 0 j st h
            (omega (arith, longer, length-without (union st.blocked_set s) st.blocked_set longer)),
        bit-without (union st.blocked_set s) st.blocked_set j longer,
        bit-union st.blocked_set s j (omega arith),
        bit_past s j,
        bit_past st.blocked_set j,
      )
