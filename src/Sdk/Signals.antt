-- ===== src/Sdk/Signals.antt =====
-- wasm-build/sdk_port-wasi/sdk_port-wasi.c: signal sets and the mask. `sigset_t` is an
-- `unsigned char` (wasm-build/sdk_port.h): eight bits, the lowest first, and `1U << sig` stored in
-- one keeps no bit past the eighth. SIGABRT_COMPAT is not defined. `signal` and `raise` are
-- libc's, and NSIG is a constant of its headers, taken as at most 32, the width of the shifts.

pub mod Mask
pub mod Unblocks
pub mod Restores
use pglite_build.Prelude.{
  ℕ, zero, suc, ◌+◌, Bool, true, false, not, ◌&&◌, ◌||◌, Option, none, some, List, [], ◌∷◌, ltb, ℤ,
  pos, minus_one, set, get_elem?, if◌then◌else◌,
}
use pglite_build.Tools.{◌>>=◌}

abbrev pub Sigset : Type 0
Sigset = List Bool

-- Bit `i` of a value, as `(s >> i) & 1`.
abbrev pub bit : Sigset → ℕ → Bool
bit [] i = false
bit (x ∷ s) zero = x
bit (x ∷ s) (suc i) = bit s i

abbrev pub zip_bits : (Bool → Bool → Bool) → Sigset → Sigset → Sigset
zip_bits f [] t = []
zip_bits f (x ∷ s) [] = []
zip_bits f (x ∷ s) (y ∷ t) = f x y ∷ zip_bits f s t

-- `s & ~t`
abbrev pub without : Sigset → Sigset → Sigset
without = zip_bits (λ x y. x && not y)

-- `s | t`
abbrev pub union : Sigset → Sigset → Sigset
union = zip_bits (λ x y. x || y)

-- The bits from `i` on of the lowest `n` ones, in `width` bits.
abbrev pub ones : ℕ → ℕ → Sigset
ones n zero = []
ones zero (suc width) = false ∷ ones zero width
ones (suc n) (suc width) = true ∷ ones n width

unfoldable pub sigemptyset : Sigset
sigemptyset = ones 0 8

-- What is installed for a signal: the handler of this file, or one of the application.
pub data Handler : Type 0 where
  blocked_handler : Handler
  application : ℕ → Handler

-- `blocked_set`, the two arrays, and what libc keeps.
pub record Signals (K : Type 0) : Type 0 where
  pub blocked_set : Sigset
  pub pending_array : List Bool
  pub old_handlers : List (Option Handler)
  pub libc : K

-- `SIG_ERR` is `none`.
pub record Libc (K : Type 0) : Type 0 where
  pub signal : ℤ → Option Handler → K → Option Handler × K
  pub raise : ℕ → Signals K → Signals K

-- The operations of `sigprocmask`, and any other number.
pub data Operation : Type 0 where
  sig_block sig_unblock sig_setmask other : Operation

-- An int and the new set; -1 leaves the set alone and sets errno.
unfoldable pub sigfillset : ℕ → Sigset
sigfillset nsig = ones nsig 8

unfoldable pub sigaddset : ℕ → Sigset → ℤ → ℤ × Sigset
sigaddset nsig s (ℤ.negsuc i) = (minus_one, s)
sigaddset nsig s (ℤ.pos i) = if ltb i nsig then (pos 0, set s i true) else (minus_one, s)

unfoldable pub sigdelset : ℕ → Sigset → ℤ → ℤ × Sigset
sigdelset nsig s (ℤ.negsuc i) = (minus_one, s)
sigdelset nsig s (ℤ.pos i) = if ltb i nsig then (pos 0, set s i false) else (minus_one, s)

-- A stub.
unfoldable pub sigismember : Sigset → ℤ → ℤ
sigismember s sig = minus_one

abbrev pub is_sig_err : Option Handler → Bool
is_sig_err none = true
is_sig_err (some h) = false

abbrev pub is_blocked_handler : Option Handler → Bool
is_blocked_handler (some blocked_handler) = true
is_blocked_handler _ = false

abbrev pub new_blocked_set : Operation → Sigset → Sigset → Option Sigset
new_blocked_set sig_block blocked s = some (union blocked s)
new_blocked_set sig_setmask blocked s = some s
new_blocked_set sig_unblock blocked s = some (without blocked s)
new_blocked_set other blocked s = none

module _ {K : Type 0} (c : Libc K) (nsig : ℕ) where
  -- `blocked_handler` as it runs for a signal.
  unfoldable pub on_blocked : ℤ → Signals K → Signals K
  on_blocked (ℤ.negsuc i) st =
      let (old, k) = c.signal (ℤ.negsuc i) (some blocked_handler) st.libc in record st { libc = k }
  on_blocked (ℤ.pos i) st =
      let (old, k) = c.signal (pos i) (some blocked_handler) st.libc in
      let st' = record st { libc = k } in
      if ltb i nsig then record st' { pending_array = set st'.pending_array i true } else st'

  unfoldable pub block_one : ℕ → Signals K → Signals K
  block_one sig st =
      let (old, k) = c.signal (pos sig) (some blocked_handler) st.libc in
      record st {
        pending_array = set st.pending_array sig false;
        old_handlers = set st.old_handlers sig old;
        blocked_set = if is_sig_err old then st.blocked_set else set st.blocked_set sig true;
        libc = k;
      }

  -- The first loop, over the `n` signals from `sig` on.
  unfoldable pub block_from : Sigset → ℕ → ℕ → Signals K → Signals K
  unfolding block_one
  block_from to_block zero sig st = st
  block_from to_block (suc n) sig st =
      block_from to_block n (suc sig) (if bit to_block sig then block_one sig st else st)

  -- `none` is an abort.
  unfoldable pub unblock_one : ℕ → Signals K → Option (Bool × Signals K)
  unblock_one sig st = do
    h ← get_elem? st.old_handlers sig
    let (replaced, k) = c.signal (pos sig) h st.libc
    if is_blocked_handler replaced
        then some (
          bit st.pending_array sig,
          record st {
            blocked_set = set st.blocked_set sig false;
            pending_array = set st.pending_array sig false;
            libc = k;
          },
        )
        else none

  -- The second loop, with `received` from `sig` on.
  unfoldable pub unblock_from : Sigset → ℕ → ℕ → Signals K → Option (List Bool × Signals K)
  unfolding unblock_one
  unblock_from to_unblock zero sig st = some ([], st)
  unblock_from to_unblock (suc n) sig st = do
    (got, st') ← (if bit to_unblock sig then unblock_one sig st else some (false, st))
    (received, st'') ← unblock_from to_unblock n (suc sig) st'
    some (got ∷ received, st'')

  -- The third loop.
  unfoldable pub raise_from : List Bool → ℕ → Signals K → Signals K
  raise_from [] sig st = st
  raise_from (got ∷ received) sig st =
      raise_from received (suc sig) (if got then c.raise sig st else st)

  unfoldable pub change_mask : Sigset → Signals K → Option (Signals K)
  unfolding block_from unblock_from raise_from
  change_mask new st = do
    let to_unblock = without st.blocked_set new
    let to_block = without new st.blocked_set
    (received, st') ← unblock_from to_unblock nsig 0 (block_from to_block nsig 0 st)
    some (raise_from received 0 st')

  abbrev pub apply_mask : Option Sigset → Signals K → Option (ℤ × Signals K)
  apply_mask none st = some (minus_one, st)
  apply_mask (some new) st = do st' ← change_mask new st; some (pos 0, st')

  abbrev pub with_set : Operation → Option Sigset → Signals K → Option (ℤ × Signals K)
  with_set how none st = some (pos 0, st)
  with_set how (some s) st = apply_mask (new_blocked_set how st.blocked_set s) st

  -- The result, `*old_set`, and what is left.
  unfoldable pub sigprocmask :
      Operation → Option Sigset → Signals K → Option (ℤ × Sigset × Signals K)
  unfolding change_mask
  sigprocmask how s st = do (result, st') ← with_set how s st; some (result, st.blocked_set, st')
