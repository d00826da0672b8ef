-- ===== src/Embed/Block.antt =====
-- What the block of `copy_argv` holds: every string fits, and each pointer leads to its own.
use pglite_build.Prelude.{
  ℕ, ◌+◌, ◌-◌, ◌*◌, ◌≡◌, refl, sym, ap, ◌∙◌, Option, none, some, List, [], ◌∷◌, ◌++◌, Bytes, length,
  take, drop, take_all, drop-append, length-append, append_assoc, append-nil, arith,
}
use pglite_build.Tools.{c_string}
use pglite_build.Tools.Concat.{copy_to_fits, c_string-append, NulFree}
use pglite_build.Embed.{Argv, strings_length, copy_strings, copy_argv}

abbrev pub AllNulFree : List Bytes → Type 0
AllNulFree [] = Unit {0}
AllNulFree (s ∷ argv) = NulFree s × AllNulFree argv

-- The strings one after the other, each with its NUL.
abbrev joined : List Bytes → Bytes
joined [] = []
joined (s ∷ argv) = (s ++ 0 ∷ []) ++ joined argv

abbrev offsets : ℕ → ℕ → List Bytes → List (Option ℕ)
offsets base at [] = none ∷ []
offsets base at (s ∷ argv) = some (base + at) ∷ offsets base (at + (length s + 1)) argv

-- The strings that a reader of the pointers finds, up to NULL.
abbrev pub read_argv : ℕ → List (Option ℕ) → List ℕ → List Bytes
read_argv base [] bytes = []
read_argv base (none ∷ pointers) bytes = []
read_argv base (some p ∷ pointers) bytes =
    c_string (drop (p - base) bytes) ∷ read_argv base pointers bytes

copy_strings_lem :
    (base : ℕ) (bytes : List ℕ) (at : ℕ) (argv : List Bytes)
    → at + strings_length argv ≡ length bytes
    → copy_strings base bytes at argv
      ≡ some (record { pointers = offsets base at argv; bytes = take at bytes ++ joined argv })
unfolding copy_strings strings_length
copy_strings_lem base bytes at [] h =
    ap (λ t. some (record { pointers = none ∷ []; bytes = t }))
      (sym (append-nil (take at bytes) ∙ take_all at bytes (omega arith)))
copy_strings_lem base bytes at (s ∷ argv) h =
    let size : length (s ++ 0 ∷ []) ≡ length s + 1 = length-append s (0 ∷ []) in
    let (b, copied, taken, same) =
      copy_to_fits bytes at (s ++ 0 ∷ []) (take at bytes) (at + (length s + 1)) refl
        (omega (arith, size)) (omega arith) in
    rw (copied, copy_strings_lem base b (at + (length s + 1)) argv (omega (arith, same)), taken)
      (rw (append_assoc (take at bytes) (s ++ 0 ∷ []) (joined argv)) refl)

read_argv_lem :
    (base : ℕ) (front : Bytes) (n : ℕ) (argv : List Bytes)
    → n ≡ length front
    → AllNulFree argv
    → read_argv base (offsets base n argv) (front ++ joined argv) ≡ argv
read_argv_lem base front n [] e h = refl
read_argv_lem base front n (s ∷ argv) e h =
    let later =
      read_argv_lem base (front ++ (s ++ 0 ∷ [])) (n + (length s + 1)) argv
        (omega (arith, e, length-append front (s ++ 0 ∷ []), length-append s (0 ∷ []))) h.1 in
    rw (first, rw (append_assoc front (s ++ 0 ∷ []) rest) at later) refl
  where
    rest : Bytes
    rest = joined argv

    first : c_string (drop (base + n - base) (front ++ ((s ++ 0 ∷ []) ++ rest))) ≡ s
    first =
        let place : base + n - base ≡ length front = omega (arith, e) in
        rw (place, drop-append front ((s ++ 0 ∷ []) ++ rest), append_assoc s (0 ∷ []) rest)
          (c_string-append s rest h.0)

length-joined : (argv : List Bytes) → length (joined argv) ≡ strings_length argv
unfolding strings_length
length-joined [] = refl
length-joined (s ∷ argv) =
    omega (
      arith,
      length-append (s ++ 0 ∷ []) (joined argv),
      length-append s (0 ∷ []),
      length-joined argv,
    )

-- The arguments fit the block exactly, and whoever follows the pointers up to NULL reads them back.
pub copy_argv-read_argv :
    (pointer_size : ℕ) (uninit : ℕ → List ℕ) (argv : List Bytes)
    → ((n : ℕ) → length (uninit n) ≡ n)
    → AllNulFree argv
    → (a : Argv) × (copy_argv pointer_size uninit argv ≡ some a)
      × (read_argv ((length argv + 1) * pointer_size) a.pointers a.bytes ≡ argv)
      × (length a.bytes ≡ strings_length argv)
unfolding copy_argv
copy_argv-read_argv pointer_size uninit argv sized free =
    let base = (length argv + 1) * pointer_size in
    (
      record { pointers = offsets base 0 argv; bytes = joined argv },
      copy_strings_lem base (uninit (strings_length argv)) 0 argv
          (omega (arith, sized (strings_length argv))),
      read_argv_lem base [] 0 argv refl free,
      length-joined argv,
    )
