-- ===== src/Sdk/Signals/Restores.antt =====
-- What `sigprocmask` (sdk_port-wasi.c) keeps when signals are blocked and the old mask is restored.
use pglite_build.Prelude.{
  ℕ, zero, suc, ◌+◌, ◌≤◌, ◌<◌, ◌≡◌, refl, ◌∙◌, Bool, true, false, not, ◌&&◌, ◌||◌, Option, some,
  List, [], ◌∷◌, ltb, leb, ◌==◌, pos, set, get_elem?, length, length-set, if◌then◌else◌, arith,
}
use pglite_build.Sdk.Signals.{
  Sigset, bit, without, union, Handler, blocked_handler, Signals, Libc, sig_block, sig_setmask,
  is_sig_err, block_one, block_from, raise_from, change_mask, sigprocmask,
}
use pglite_build.Sdk.Signals.Mask.{
  bit-set, bit_past, bit-without, length-without, bit-union, length-union, without-union,
  nothing_unblocked,
}
use pglite_build.Sdk.Signals.Unblocks.{
  Swaps, Holds, bit-clear, Unblocked, unblock_from-Unblocked, nothing_blocked,
}

get_elem?-set {ℓ} :
    {A : Type ℓ} (xs : List A) (i j : ℕ) (x : A)
    → get_elem? (set xs i x) j ≡ (if (i == j) && ltb i (length xs) then some x else get_elem? xs j)
get_elem?-set [] i j x = ground arith
get_elem?-set (y ∷ xs) zero zero x = ground arith
get_elem?-set (y ∷ xs) zero (suc j) x = ground arith
get_elem?-set (y ∷ xs) (suc i) zero x = ground arith
get_elem?-set (y ∷ xs) (suc i) (suc j) x = ground (arith, get_elem?-set xs i j x)

module _ {K : Type 0} (c : Libc K) (nsig : ℕ) (installed : K → ℕ → Option Handler) where
  raises_nothing :
      (received : List Bool) (sig : ℕ) (st : Signals K)
      → ((j : ℕ) → bit received j ≡ false)
      → raise_from c nsig received sig st ≡ st
  unfolding raise_from
  raises_nothing [] sig st h = refl
  raises_nothing (got ∷ received) sig st h =
      rw (h 0) (raises_nothing received (suc sig) st (λ j. h (suc j)))

  -- SIG_ERR stands for none of the signals of the set.
  abbrev pub Answers : Sigset → ℕ → K → Type 0
  Answers t sig k = (j : ℕ) → sig ≤ j → bit t j ≡ true → is_sig_err (installed k j) ≡ false

  -- What the first loop does on the `n` signals from `sig` on.
  record Blocked (t : Sigset) (n sig : ℕ) (st st' : Signals K) : Type 0 where
    blocked_bits :
        (j : ℕ)
        → bit st'.blocked_set j
          ≡ (bit st.blocked_set j || (leb sig j && ltb j (sig + n) && bit t j))
    pending_bits :
        (j : ℕ)
        → bit st'.pending_array j
          ≡ (bit st.pending_array j && not (leb sig j && ltb j (sig + n) && bit t j))
    saved :
        (j : ℕ)
        → get_elem? st'.old_handlers j ≡ (
            if leb sig j && ltb j (sig + n) && bit t j
            then some (installed st.libc j)
            else get_elem? st.old_handlers j)
    handlers :
        (j : ℕ)
        → installed st'.libc j ≡ (
            if leb sig j && ltb j (sig + n) && bit t j
            then some blocked_handler
            else installed st.libc j)
    blocked_size : length st'.blocked_set ≡ length st.blocked_set
    saved_size : length st'.old_handlers ≡ length st.old_handlers

  block_one-Blocked :
      (t : Sigset) (sig : ℕ) (st : Signals K)
      → Swaps c nsig installed t
      → is_sig_err (installed st.libc sig) ≡ false
      → length st.blocked_set ≡ length t
      → sig < length st.old_handlers
      → bit t sig ≡ true
      → Blocked t 1 sig st (block_one c nsig sig st)
  unfolding block_one
  block_one-Blocked t sig st swaps sound size fits is =
      let (answer, after) = swaps sig (some blocked_handler) st.libc is in
      record {
        blocked_bits = λ j.
            rw (answer, sound) (ground (arith, bit-set st.blocked_set sig j true, bit_past t sig));
        pending_bits = λ j. ground (arith, bit-clear st.pending_array sig j);
        saved = λ j.
            rw answer (ground (arith, get_elem?-set st.old_handlers sig j (installed st.libc sig)));
        handlers = λ j. ground (arith, after j);
        blocked_size = rw (answer, sound) (length-set st.blocked_set sig true);
        saved_size = length-set st.old_handlers sig _;
      }

  same-Blocked : (t : Sigset) (sig : ℕ) (st : Signals K) → bit t sig ≡ false → Blocked t 1 sig st st
  same-Blocked t sig st is = record {
    blocked_bits = λ j. ground arith;
    pending_bits = λ j. ground arith;
    saved = λ j. ground arith;
    handlers = λ j. ground arith;
    blocked_size = refl;
    saved_size = refl;
  }

  join-Blocked :
      (t : Sigset) (n sig : ℕ) (st st₁ st₂ : Signals K)
      → Blocked t 1 sig st st₁
      → Blocked t n (suc sig) st₁ st₂
      → Blocked t (suc n) sig st st₂
  join-Blocked t n sig st st₁ st₂ one rest = record {
    blocked_bits = λ j. ground (arith, one.blocked_bits j, rest.blocked_bits j);
    pending_bits = λ j. ground (arith, one.pending_bits j, rest.pending_bits j);
    saved = λ j. ground (arith, one.saved j, rest.saved j, one.handlers j);
    handlers = λ j. ground (arith, one.handlers j, rest.handlers j);
    blocked_size = rest.blocked_size ∙ one.blocked_size;
    saved_size = rest.saved_size ∙ one.saved_size;
  }

  block_from-Blocked :
      (t : Sigset) (n sig : ℕ) (st : Signals K)
      → Swaps c nsig installed t
      → Answers t sig st.libc
      → length st.blocked_set ≡ length t
      → sig + n ≤ length st.old_handlers
      → Blocked t n sig st (block_from c nsig t n sig st)
  unfolding block_from
  block_from-Blocked t zero sig st swaps sound size fits = record {
    blocked_bits = λ j. ground arith;
    pending_bits = λ j. ground arith;
    saved = λ j. ground arith;
    handlers = λ j. ground arith;
    blocked_size = refl;
    saved_size = refl;
  }
  block_from-Blocked t (suc n) sig st swaps sound size fits =
      let one = step (bit t sig) refl in
      let st₁ = if bit t sig then block_one c nsig sig st else st in
      let sound₁ : Answers t (suc sig) st₁.libc =
        λ j low on. ground (arith, one.handlers j, sound j (omega arith) on) in
      join-Blocked t n sig st st₁ (block_from c nsig t n (suc sig) st₁) one (
        block_from-Blocked t n (suc sig) st₁ swaps sound₁ (one.blocked_size ∙ size)
          (omega (arith, one.saved_size)))
    where
      step :
          (b : Bool)
          → bit t sig ≡ b
          → Blocked t 1 sig st (if b then block_one c nsig sig st else st)
      step true is =
          block_one-Blocked t sig st swaps (sound sig (omega arith) is) size (omega arith) is
      step false is = same-Blocked t sig st is

  module _ (s : Sigset) (st : Signals K) (swaps : Swaps c nsig installed s)
      (sound : Answers s 0 st.libc) (size : length s ≡ 8) (size' : length st.blocked_set ≡ 8)
      (wide : 8 ≤ nsig) (fits : nsig ≤ length st.old_handlers) where
    to_block : Sigset
    to_block = without (union st.blocked_set s) st.blocked_set

    to_block_bits : (j : ℕ) → bit to_block j ≡ (bit s j && not (bit st.blocked_set j))
    unfolding to_block
    to_block_bits j = ground (
      arith,
      bit-without (union st.blocked_set s) st.blocked_set j
          (length-union st.blocked_set s (omega arith)),
      bit-union st.blocked_set s j (omega arith),
    )

    inside : Signals K
    inside = block_from c nsig to_block nsig 0 st

    inside-Blocked : Blocked to_block nsig 0 st inside
    unfolding inside to_block
    inside-Blocked =
        block_from-Blocked to_block nsig 0 st
          (λ sig h k on. swaps sig h k (ground (arith, to_block_bits sig)))
          (λ j low on. sound j low (ground (arith, to_block_bits j)))
          (let longer = length-union st.blocked_set s (omega arith) in
            omega (arith, longer, length-without (union st.blocked_set s) st.blocked_set longer))
          (omega arith)

    sigprocmask-inside :
        sigprocmask c nsig sig_block (some s) st ≡ some (pos 0, st.blocked_set, inside)
    unfolding sigprocmask change_mask inside to_block
    sigprocmask-inside =
        let (received, same, quiet) =
          nothing_unblocked c nsig (without st.blocked_set (union st.blocked_set s)) nsig 0 inside
            (λ j. without-union st.blocked_set s j (omega arith)) in
        rw (same, quiet) refl

    to_unblock : Sigset
    to_unblock = without inside.blocked_set st.blocked_set

    to_unblock_bits : (j : ℕ) → bit to_unblock j ≡ (ltb j nsig && bit to_block j)
    unfolding to_unblock
    to_unblock_bits j = ground (
      arith,
      bit-without inside.blocked_set st.blocked_set j inside-Blocked.blocked_size,
      inside-Blocked.blocked_bits j,
      to_block_bits j,
    )

    none_left : (j : ℕ) → bit (without st.blocked_set inside.blocked_set) j ≡ false
    none_left j = ground (
      arith,
      bit-without st.blocked_set inside.blocked_set j (omega (arith, inside-Blocked.blocked_size)),
      inside-Blocked.blocked_bits j,
    )

    inside-Holds : Holds c nsig installed to_unblock 0 inside.libc
    inside-Holds j low on = ground (arith, inside-Blocked.handlers j, to_unblock_bits j)

    module _ (received : List Bool) (st' : Signals K)
        (u : Unblocked c nsig installed to_unblock nsig 0 inside received st') where
      none_received : (j : ℕ) → bit received j ≡ false
      none_received j =
          ground (arith, u.received_bits j, inside-Blocked.pending_bits j, to_unblock_bits j)

      mask_restored : (j : ℕ) → bit st'.blocked_set j ≡ bit st.blocked_set j
      mask_restored j = ground (
        arith,
        u.blocked_bits j,
        inside-Blocked.blocked_bits j,
        to_unblock_bits j,
        to_block_bits j,
      )

      handler_restored : (j : ℕ) → installed st'.libc j ≡ installed st.libc j
      handler_restored j = go (bit to_unblock j) refl
        where
          go : (b : Bool) → bit to_unblock j ≡ b → installed st'.libc j ≡ installed st.libc j
          go true is =
              let back = u.reinstalled j (omega arith) (ground (arith, to_unblock_bits j)) is in
              let there : get_elem? inside.old_handlers j ≡ some (installed st.libc j) =
                ground (arith, inside-Blocked.saved j, to_unblock_bits j) in
              let e : some (installed st'.libc j) ≡ some (installed st.libc j) = cc in cc
          go false is = ground (
            arith,
            u.untouched j is,
            inside-Blocked.handlers j,
            to_unblock_bits j,
            to_block_bits j,
            bit_past s j,
          )

    -- If, for each signal of the set, `signal` swaps the handlers and has one that is not SIG_ERR, the two
    -- sets have eight bits, NSIG is at least 8, there is an old handler for each signal, and no signal
    -- comes between the two calls, then `sigprocmask` with SIG_BLOCK and after it SIG_SETMASK with the
    -- old mask both return 0. In between the signals of both sets are blocked; in the end the mask and
    -- the handler of every signal are as before.
    pub sigprocmask-sigprocmask :
        (st₁ st₂ : Signals K) × (sigprocmask c nsig sig_block (some s) st
          ≡ some (pos 0, st.blocked_set, st₁))
        × (sigprocmask c nsig sig_setmask (some st.blocked_set) st₁
            ≡ some (pos 0, st₁.blocked_set, st₂))
        × ((j : ℕ)
            → (bit st₁.blocked_set j ≡ (bit st.blocked_set j || bit s j))
              × (bit st₂.blocked_set j ≡ bit st.blocked_set j)
              × (installed st₂.libc j ≡ installed st.libc j))
    unfolding sigprocmask change_mask to_unblock
    sigprocmask-sigprocmask =
        let (received, st', same, u) =
          unblock_from-Unblocked c nsig installed to_unblock nsig 0 inside
            (λ sig h k on. swaps sig h k (ground (arith, to_unblock_bits sig, to_block_bits sig)))
            inside-Holds (omega (arith, inside-Blocked.saved_size)) in
        let first =
          nothing_blocked c nsig installed (without st.blocked_set inside.blocked_set) nsig 0 inside
            none_left in
        let last = raises_nothing received 0 st' (none_received received st' u) in
        (
          inside,
          st',
          sigprocmask-inside,
          rw (first, same, last) refl,
          λ j. (
            ground (arith, inside-Blocked.blocked_bits j, to_block_bits j, bit_past s j),
            mask_restored received st' u j,
            handler_restored received st' u j,
          ),
        )
