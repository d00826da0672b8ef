-- ===== src/Shell/Word.antt =====
-- A shell reads the quoted argument back as one word.
use pglite_build.Prelude.{
  ℕ, ◌≡◌, refl, ap, sym, ◌∙◌, ◌↔◌, inl, inr, Bool, true, false, not, ◌&&◌, ◌||◌, Option, none, some,
  [], ◌∷◌, ◌++◌, Bytes, codes, ◌==◌, if◌then◌else◌, arith, append_assoc, append-nil, Bool-cases,
}
use pglite_build.Shell.{
  is_plain, all_plain, is_empty, is_newline, quoted_quote, quote_from, append_shell_string_no_error,
  append_shell_string,
}

-- Where a POSIX shell stands in a word.
pub data Mode : Type 0 where
  bare single double : Mode

-- What a byte does: it opens or closes a quote, or stands for itself. What would be an expansion, an
-- escape or the end of the word is `none`.
abbrev pub is_expansion : ℕ → Bool
is_expansion c = c == b'$' || c == b'`' || c == b'\\'

-- The bytes that mean something to a POSIX shell outside quotes: operators, expansions, quotes,
-- blanks, patterns, comments, the home directory, assignments and what single shells add.
abbrev specials : Bytes
specials = 9 ∷ 10 ∷ 13 ∷ codes " |&;<>()$`\\\"'*?[]#~=%!{}^"

abbrev is_one_of : Bytes → ℕ → Bool
is_one_of [] c = false
is_one_of (k ∷ ks) c = c == k || is_one_of ks c

-- The byte before what is read after it.
abbrev pub keep : ℕ → Option Bytes → Option Bytes
keep c none = none
keep c (some s) = some (c ∷ s)

unfoldable pub read_word : Mode → Bytes → Option Bytes
read_word bare [] = some []
read_word single [] = none
read_word double [] = none
read_word bare (c ∷ s) =
    let opens_single = read_word single s in
    let opens_double = read_word double s in
    let rest = keep c (read_word bare s) in
    if c == b'\''
    then opens_single
    else if c == b'"'
    then opens_double
    else if is_one_of specials c
    then none
    else rest
read_word single (c ∷ s) =
    let closed = read_word bare s in
    let rest = keep c (read_word single s) in if c == b'\'' then closed else rest
read_word double (c ∷ s) =
    let closed = read_word bare s in
    let rest = keep c (read_word double s) in
    if c == b'"' then closed else if is_expansion c then none else rest

abbrev pub has_newline : Bytes → Bool
has_newline [] = false
has_newline (c ∷ str) = is_newline c || has_newline str

-- What the loop appends.
abbrev inside : Bytes → Bytes
inside [] = []
inside (c ∷ str) =
    if is_newline c
    then inside str
    else if c == b'\''
    then quoted_quote ++ inside str
    else c ∷ inside str

quote_from_lem :
    (buf : Bytes) (good : Bool) (str : Bytes)
    → quote_from buf good str ≡ (buf ++ inside str, good && not (has_newline str))
unfolding quote_from
quote_from_lem buf good [] = ground (arith, append-nil buf)
quote_from_lem buf good (c ∷ str) = ground (
  arith,
  quote_from_lem buf false str,
  quote_from_lem (buf ++ quoted_quote) good str,
  quote_from_lem (buf ++ c ∷ []) good str,
  append_assoc buf quoted_quote (inside str),
  append_assoc buf (c ∷ []) (inside str),
)

all_plain-has_newline : (str : Bytes) → all_plain str ≡ true → has_newline str ≡ false
unfolding all_plain is_plain
all_plain-has_newline [] h = refl
all_plain-has_newline (c ∷ str) h = ground (arith, all_plain-has_newline str)

-- `strspn` accepts none of them.
none_plain : Bytes → Bool
none_plain [] = true
none_plain (k ∷ ks) = not (is_plain k) && none_plain ks

is_plain-is_one_of :
    (ks : Bytes) (c : ℕ) → none_plain ks ≡ true → is_plain c ≡ true → is_one_of ks c ≡ false
unfolding none_plain
is_plain-is_one_of [] c h plain = refl
is_plain-is_one_of (k ∷ ks) c h plain = elim (Bool-cases (c == k)) [
  | inl same ↦
      let is : c ≡ k = ground arith in
      let bad : is_plain k ≡ true = rw (← is) plain in absurd (ground arith)
  | inr other ↦
      let later : none_plain ks ≡ true = ground arith in
      rw other (is_plain-is_one_of ks c later plain)
]

third :
    {A : Type 0} (p q r : Bool) (x y z u : A)
    → p ≡ false
    → q ≡ false
    → r ≡ false
    → (if p then x else if q then y else if r then z else u) ≡ u
third p q r x y z u hp hq hr = rw (hp, hq, hr) refl

or_left : (p : Bool) → (p || false) ≡ false → p ≡ false
or_left p h = ground arith

-- So a shell takes such a byte as it is.
read_byte :
    (c : ℕ) (str : Bytes)
    → is_plain c ≡ true
    → read_word bare (c ∷ str) ≡ keep c (read_word bare str)
unfolding read_word none_plain is_plain
read_byte c str plain =
    third (c == b'\'') (c == b'"') (is_one_of specials c) _ _ none _
      (or_left (c == b'\'') (is_plain-is_one_of (b'\'' ∷ []) c refl plain))
      (or_left (c == b'"') (is_plain-is_one_of (b'"' ∷ []) c refl plain))
      (is_plain-is_one_of specials c refl plain)

read_plain : (str : Bytes) → all_plain str ≡ true → read_word bare str ≡ some str
unfolding all_plain read_word
read_plain [] h = refl
read_plain (c ∷ str) h =
    let plain : is_plain c ≡ true = ground arith in
    let later : all_plain str ≡ true = ground arith in
    read_byte c str plain ∙ ap (keep c) (read_plain str later)

read_inside :
    (str : Bytes) → has_newline str ≡ false → read_word single (inside str ++ b'\'' ∷ []) ≡ some str
unfolding read_word
read_inside [] h = refl
read_inside (c ∷ str) h = elim (Bool-cases (is_newline c)) [
  | inl line ↦ absurd (not_line line)
  | inr same_line ↦
      let later : has_newline str ≡ false = rw same_line at h in
      rw same_line (elim (Bool-cases (c == b'\'')) [
        | inl is_quote ↦
            let at_quote : c ≡ b'\'' = ground arith in
            rw is_quote (rw (read_inside str later) (ap (λ x. some (x ∷ str)) (sym at_quote)))
        | inr other ↦ rw (other, other) (rw (read_inside str later) refl)
      ])
]
  where
    not_line : ¬ (is_newline c ≡ true)
    not_line line = let impossible : true ≡ false = rw line at h in cc

-- An argument without newlines is appended as a word, which a POSIX shell reads back as the argument
-- itself, with nothing expanded.
pub append_shell_string-read_word :
    (buf str : Bytes)
    → has_newline str ≡ false
    → (word : Bytes) × (append_shell_string buf str ≡ some (buf ++ word))
      × (read_word bare word ≡ some str)
unfolding append_shell_string append_shell_string_no_error
append_shell_string-read_word buf str h = elim (Bool-cases (not (is_empty str) && all_plain str)) [
  | inl plain ↦ (str, rw plain refl, read_plain str (ground arith))
  | inr other ↦ (
    b'\'' ∷ inside str ++ b'\'' ∷ [],
    rw (other, quote_from_lem (buf ++ b'\'' ∷ []) true str, h)
        (ap some (
          append_assoc (buf ++ b'\'' ∷ []) (inside str) (b'\'' ∷ [])
          ∙ append_assoc buf (b'\'' ∷ []) (inside str ++ b'\'' ∷ []))),
    unfold read_word in read_inside str h,
  )
]

-- An argument is refused exactly when it holds a newline or a carriage return.
append_shell_string-none_iff :
    (buf str : Bytes) → (append_shell_string buf str ≡ none) ↔ (has_newline str ≡ true)
unfolding append_shell_string append_shell_string_no_error
append_shell_string-none_iff buf str =
    ground (arith, quote_from_lem (buf ++ b'\'' ∷ []) true str, all_plain-has_newline str)
