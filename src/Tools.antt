-- ===== src/Tools.antt =====
-- pglite-REL_17_4_WASM/pgl_tools.h: the string helpers of the startup code, over a destination
-- buffer of given bytes. A store past the end of the buffer, which C leaves undefined, is `none`.
pub mod Concat
pub mod Prefix
mod Tests
use pglite_build.Prelude.{
  ℕ, zero, suc, ◌+◌, ◌-◌, min, Bool, true, false, ◌&&◌, Option, none, some, List, [], ◌∷◌, Bytes,
  ltb, ◌==◌, if◌then◌else◌, length, set, take,
}

abbrev pub strops_buf : ℕ
strops_buf = 1024

-- `memcpy(buf + at, src, length src)`
unfoldable pub copy_to : List ℕ → ℕ → Bytes → Option (List ℕ)
copy_to buf at [] = some buf
copy_to buf at (x ∷ xs) =
    let rest = copy_to (set buf at x) (at + 1) xs in if ltb at (length buf) then rest else none

infixl 5 ◌>>=◌
abbrev pub ◌>>=◌ {ℓ κ} : {A : Type ℓ} {B : Type κ} → Option A → (A → Option B) → Option B
none >>= f = none
some a >>= f = f a

-- `strnlen(s, n)`
abbrev pub strnlen : Bytes → ℕ → ℕ
strnlen s n = min (length s) n

unfoldable pub strconcat : List ℕ → Bytes → Bytes → Option (List ℕ)
strconcat p head tail = do
  let len = strnlen head strops_buf
  p₁ ← copy_to p 0 (take len head)
  let len' = strnlen tail (strops_buf - len)
  p₂ ← copy_to p₁ len (take len' tail)
  copy_to p₂ (len + len') (0 ∷ [])

-- What `strdup` reads of a buffer: the bytes before the first NUL.
unfoldable pub c_string : List ℕ → Bytes
c_string [] = []
c_string (x ∷ xs) = if x == 0 then [] else x ∷ c_string xs

-- `buf` is what the automatic array holds before the call.
unfoldable pub strcat_alloc : List ℕ → Bytes → Bytes → Option Bytes
unfolding strconcat c_string copy_to
strcat_alloc buf head tail = do filled ← strconcat buf head tail; some (c_string filled)

-- The directories that are asked of `mkdir`, newest first.
abbrev pub mkdirp : Bytes → List Bytes → List Bytes
mkdirp p made = p ∷ made

unfoldable pub mksub_dir : List ℕ → Bytes → Bytes → List Bytes → Option (List Bytes)
unfolding strconcat c_string copy_to
mksub_dir buf dir sub made = do filled ← strconcat buf dir sub; some (mkdirp (c_string filled) made)

-- `strncmp(a, b, n) == 0`, where `[]` stands for the terminating NUL.
unfoldable pub strncmp_eq : Bytes → Bytes → ℕ → Bool
strncmp_eq a b zero = true
strncmp_eq [] [] (suc n) = true
strncmp_eq [] (y ∷ b) (suc n) = false
strncmp_eq (x ∷ a) [] (suc n) = false
strncmp_eq (x ∷ a) (y ∷ b) (suc n) = (x == y) && strncmp_eq a b n

unfoldable pub startswith : Bytes → Bytes → Bool
unfolding strncmp_eq
startswith str prefix =
    if ltb (length str) (length prefix) then false else strncmp_eq str prefix (length prefix)
