-- ===== src/Sdk/Signals/Unblocks.antt =====
-- What SIG_UNBLOCK of `sigprocmask` (sdk_port-wasi.c) unblocks and raises.
use pglite_build.Prelude.{
  ℕ, zero, suc, ◌+◌, ◌≤◌, ◌<◌, ◌≡◌, refl, ◌∙◌, Bool, true, false, not, ◌&&◌, Option, some, List, [],
  ◌∷◌, ltb, leb, ◌==◌, pos, set, get_elem?, length, if◌then◌else◌, arith,
}
use pglite_build.Sdk.Signals.{
  Sigset, bit, Handler, blocked_handler, Signals, Libc, block_from, unblock_one, unblock_from,
}
use pglite_build.Sdk.Signals.Mask.{bit-set, bit_past}

get_elem?-some {ℓ} :
    {A : Type ℓ} (xs : List A) (i : ℕ) → i < length xs → (x : A) × (get_elem? xs i ≡ some x)
get_elem?-some [] i h = absurd (omega arith)
get_elem?-some (x ∷ xs) zero h = (x, refl)
get_elem?-some (x ∷ xs) (suc i) h = get_elem?-some xs i (omega arith)

pub bit-clear : (s : Sigset) (i j : ℕ) → bit (set s i false) j ≡ (not (i == j) && bit s j)
bit-clear s i j = ground (arith, bit-set s i j false, bit_past s j)

bit-one : (p : ℕ → Bool) (x : Bool) (i j : ℕ) → x ≡ p i → bit (x ∷ []) j ≡ (ltb j 1 && p (i + j))
bit-one p x i zero e = let z : i + 0 ≡ i = omega arith in rw z e
bit-one p x i (suc j) e = ground arith

module _ {K : Type 0} (c : Libc K) (nsig : ℕ) (installed : K → ℕ → Option Handler) where
  -- For the signals of the set, `signal` answers the handler that was installed, and installs the
  -- new one.
  abbrev pub Swaps : Sigset → Type 0
  Swaps t =
      (sig : ℕ) (h : Option Handler) (k : K)
      → bit t sig ≡ true
      → ((c.signal (pos sig) h k).0 ≡ installed k sig)
        × ((j : ℕ)
            → installed (c.signal (pos sig) h k).1 j ≡ (if sig == j then h else installed k j))

  -- `blocked_handler` stands for each signal of the set from `sig` on.
  abbrev pub Holds : Sigset → ℕ → K → Type 0
  Holds t sig k = (j : ℕ) → sig ≤ j → bit t j ≡ true → installed k j ≡ some blocked_handler

  pub nothing_blocked :
      (t : Sigset) (n sig : ℕ) (st : Signals K)
      → ((j : ℕ) → bit t j ≡ false)
      → block_from c nsig t n sig st ≡ st
  unfolding block_from
  nothing_blocked t zero sig st h = refl
  nothing_blocked t (suc n) sig st h = rw (h sig) (nothing_blocked t n (suc sig) st h)

  -- The state that unblocking one signal leaves, and its pending bit.
  unblocked : ℕ → Option Handler → Signals K → Signals K
  unblocked sig h st = record st {
    blocked_set = set st.blocked_set sig false;
    pending_array = set st.pending_array sig false;
    libc = (c.signal (pos sig) h st.libc).1;
  }

  unblock_one-some :
      (t : Sigset) (sig : ℕ) (h : Option Handler) (st : Signals K)
      → Swaps t
      → bit t sig ≡ true
      → get_elem? st.old_handlers sig ≡ some h
      → installed st.libc sig ≡ some blocked_handler
      → unblock_one c nsig sig st ≡ some (bit st.pending_array sig, unblocked sig h st)
  unfolding unblock_one unblocked
  unblock_one-some t sig h st swaps on old is = rw (old, (swaps sig h st.libc on).0, is) refl

  -- What the second loop does on the `n` signals from `sig` on.
  pub record Unblocked (t : Sigset) (n sig : ℕ) (st : Signals K) (received : List Bool)
      (st' : Signals K) : Type 0 where
    pub blocked_bits :
        (j : ℕ)
        → bit st'.blocked_set j
          ≡ (bit st.blocked_set j && not (leb sig j && ltb j (sig + n) && bit t j))
    pub pending_bits :
        (j : ℕ)
        → bit st'.pending_array j
          ≡ (bit st.pending_array j && not (leb sig j && ltb j (sig + n) && bit t j))
    pub received_bits :
        (j : ℕ) → bit received j ≡ (ltb j n && (bit t (sig + j) && bit st.pending_array (sig + j)))
    pub reinstalled :
        (j : ℕ)
        → sig ≤ j
        → j < sig + n
        → bit t j ≡ true
        → get_elem? st.old_handlers j ≡ some (installed st'.libc j)
    pub kept : (j : ℕ) → j < sig → installed st'.libc j ≡ installed st.libc j
    pub untouched : (j : ℕ) → bit t j ≡ false → installed st'.libc j ≡ installed st.libc j
    pub old_same : st'.old_handlers ≡ st.old_handlers

  unblocked-Unblocked :
      (t : Sigset) (sig : ℕ) (h : Option Handler) (st : Signals K)
      → Swaps t
      → get_elem? st.old_handlers sig ≡ some h
      → bit t sig ≡ true
      → Unblocked t 1 sig st (bit st.pending_array sig ∷ []) (unblocked sig h st)
  unfolding unblocked
  unblocked-Unblocked t sig h st swaps old is = record {
    blocked_bits = λ j. ground (arith, bit-clear st.blocked_set sig j);
    pending_bits = λ j. ground (arith, bit-clear st.pending_array sig j);
    received_bits = λ j.
        bit-one (λ k. bit t k && bit st.pending_array k) (bit st.pending_array sig) sig j
          (rw is refl);
    reinstalled = λ j low high on.
        let e : j ≡ sig = omega arith in
        rw e (rw (old, (swaps sig h st.libc is).1 sig) (ground arith));
    kept = λ j low. ground (arith, (swaps sig h st.libc is).1 j);
    untouched = λ j off. ground (arith, (swaps sig h st.libc is).1 j);
    old_same = refl;
  }

  same-Unblocked :
      (t : Sigset) (sig : ℕ) (st : Signals K)
      → bit t sig ≡ false
      → Unblocked t 1 sig st (false ∷ []) st
  same-Unblocked t sig st is = record {
    blocked_bits = λ j. ground arith;
    pending_bits = λ j. ground arith;
    received_bits = λ j. bit-one (λ k. bit t k && bit st.pending_array k) false sig j (rw is refl);
    reinstalled = λ j low high on. ground arith;
    kept = λ j low. refl;
    untouched = λ j off. refl;
    old_same = refl;
  }

  module _ (t : Sigset) (n sig : ℕ) (st st₁ st₂ : Signals K) (got : Bool) (received : List Bool)
      (one : Unblocked t 1 sig st (got ∷ []) st₁)
      (rest : Unblocked t n (suc sig) st₁ received st₂) where
    join-received :
        (j : ℕ)
        → bit (got ∷ received) j
          ≡ (ltb j (suc n) && (bit t (sig + j) && bit st.pending_array (sig + j)))
    join-received zero = ground (arith, one.received_bits 0)
    join-received (suc j) =
        let e : sig + suc j ≡ suc sig + j = omega arith in
        rw e (ground (arith, rest.received_bits j, one.pending_bits (suc sig + j)))

    join-reinstalled :
        (j : ℕ)
        → sig ≤ j
        → j < sig + suc n
        → bit t j ≡ true
        → get_elem? st.old_handlers j ≡ some (installed st₂.libc j)
    join-reinstalled j low high on = go (leb (suc sig) j) refl
      where
        go :
            (b : Bool)
            → leb (suc sig) j ≡ b
            → get_elem? st.old_handlers j ≡ some (installed st₂.libc j)
        go true h = rw (← one.old_same) (rest.reinstalled j (ground arith) (omega arith) on)
        go false h =
            let here : j < suc sig = ground arith in
            one.reinstalled j low (omega arith) on ∙ rw (rest.kept j here) refl

    join-Unblocked : Unblocked t (suc n) sig st (got ∷ received) st₂
    join-Unblocked = record {
      blocked_bits = λ j. ground (arith, one.blocked_bits j, rest.blocked_bits j);
      pending_bits = λ j. ground (arith, one.pending_bits j, rest.pending_bits j);
      received_bits = join-received;
      reinstalled = join-reinstalled;
      kept = λ j low. rest.kept j (omega arith) ∙ one.kept j low;
      untouched = λ j off. rest.untouched j off ∙ one.untouched j off;
      old_same = rest.old_same ∙ one.old_same;
    }

  stays_held :
      (t : Sigset) (sig : ℕ) (h : Option Handler) (st : Signals K)
      → Swaps t
      → bit t sig ≡ true
      → Holds t sig st.libc
      → Holds t (suc sig) (unblocked sig h st).libc
  unfolding unblocked
  stays_held t sig h st swaps is held j low on =
      ground (arith, (swaps sig h st.libc is).1 j, held j (omega arith) on)

  -- One round of the second loop.
  unblock_step :
      (t : Sigset) (sig : ℕ) (st : Signals K)
      → Swaps t
      → Holds t sig st.libc
      → sig < length st.old_handlers
      → (got : Bool) × (st₁ : Signals K) × ((if bit t sig
            then unblock_one c nsig sig st
            else some (false, st))
          ≡ some (got, st₁))
        × Unblocked t 1 sig st (got ∷ []) st₁
        × Holds t (suc sig) st₁.libc
  unblock_step t sig st swaps held fits = go (bit t sig) refl
    where
      go :
          (b : Bool)
          → bit t sig ≡ b
          → (got : Bool) × (st₁ : Signals K) × ((if b
                then unblock_one c nsig sig st
                else some (false, st))
              ≡ some (got, st₁))
            × Unblocked t 1 sig st (got ∷ []) st₁
            × Holds t (suc sig) st₁.libc
      go true is =
          let (h, old) = get_elem?-some st.old_handlers sig fits in
          (
            bit st.pending_array sig,
            unblocked sig h st,
            unblock_one-some t sig h st swaps is old (held sig (omega arith) is),
            unblocked-Unblocked t sig h st swaps old is,
            stays_held t sig h st swaps is held,
          )
      go false is = (false, st, refl, same-Unblocked t sig st is, λ j low. held j (omega arith))

  -- The second loop never aborts.
  pub unblock_from-Unblocked :
      (t : Sigset) (n sig : ℕ) (st : Signals K)
      → Swaps t
      → Holds t sig st.libc
      → sig + n ≤ length st.old_handlers
      → (received : List Bool) × (st' : Signals K) × (unblock_from c nsig t n sig st
          ≡ some (received, st'))
        × Unblocked t n sig st received st'
  unfolding unblock_from unblocked
  unblock_from-Unblocked t zero sig st swaps held fits = (
    [],
    st,
    refl,
    record {
      blocked_bits = λ j. ground arith;
      pending_bits = λ j. ground arith;
      received_bits = λ j. ground arith;
      reinstalled = λ j low high on. absurd (omega arith);
      kept = λ j low. refl;
      untouched = λ j off. refl;
      old_same = refl;
    },
  )
  unblock_from-Unblocked t (suc n) sig st swaps held fits =
      let (got, st₁, first, one, held₁) = unblock_step t sig st swaps held (omega arith) in
      let (received, st₂, same, rest) = unblock_from-Unblocked t n (suc sig) st₁ swaps held₁ (
        let fits₁ : suc sig + n ≤ length st₁.old_handlers = rw one.old_same (omega arith) in
        fits₁) in
      (
        got ∷ received,
        st₂,
        rw (first, same) refl,
        join-Unblocked t n sig st st₁ st₂ got received one rest,
      )
