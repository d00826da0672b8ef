-- ===== src/Tools/Prefix.antt =====
-- `startswith` of pgl_tools.h decides the prefix relation.
use pglite_build.Prelude.{
  ◌≤◌, ◌≡◌, refl, ◌↔◌, true, [], ◌∷◌, ◌++◌, Bytes, length, length-append, arith,
}
use pglite_build.Tools.{strncmp_eq, startswith}

pub strncmp_eq-append :
    (prefix rest : Bytes) → strncmp_eq (prefix ++ rest) prefix (length prefix) ≡ true
unfolding strncmp_eq
strncmp_eq-append [] rest = refl
strncmp_eq-append (x ∷ prefix) rest = ground (arith, strncmp_eq-append prefix rest)

pub strncmp_eq-split :
    (str prefix : Bytes)
    → length prefix ≤ length str
    → strncmp_eq str prefix (length prefix) ≡ true
    → (rest : Bytes) × (str ≡ prefix ++ rest)
unfolding strncmp_eq
strncmp_eq-split str [] h e = (str, refl)
strncmp_eq-split [] (y ∷ prefix) h e = absurd (omega arith)
strncmp_eq-split (x ∷ str) (y ∷ prefix) h e =
    let (rest, found) = strncmp_eq-split str prefix (omega arith) (ground arith) in
    (rest, ground (arith, found))

-- `startswith` answers true exactly when the string is the prefix followed by some bytes.
startswith_iff :
    (str prefix : Bytes)
    → (startswith str prefix ≡ true) ↔ ((rest : Bytes) × (str ≡ prefix ++ rest))
unfolding startswith
startswith_iff str prefix = (forth, back)
  where
    forth : startswith str prefix ≡ true → (rest : Bytes) × (str ≡ prefix ++ rest)
    forth e = strncmp_eq-split str prefix (ground arith) (ground arith)

    back : (rest : Bytes) × (str ≡ prefix ++ rest) → startswith str prefix ≡ true
    back (rest, e) = rw e (ground (arith, length-append prefix rest, strncmp_eq-append prefix rest))
