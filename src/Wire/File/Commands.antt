-- ===== src/Wire/File/Commands.antt =====
-- Where the command reader of `interactive_file` cuts its input, and that it comes to an end.
use pglite_build.Prelude.{
  ℕ, ◌<◌, ◌≡◌, ◌≢◌, refl, ap, sym, ◌∙◌, Bool, true, false, ◌&&◌, ◌==◌, inl, inr, Bool-cases, [],
  ◌∷◌, ◌++◌, Bytes, length, arith, append_assoc,
}
use pglite_build.Wire.File.{reverse_onto, ends_command, read_command}

abbrev pub NewlineFree : Bytes → Type 0
NewlineFree [] = Unit {0}
NewlineFree (x ∷ xs) = (x ≢ 10) × NewlineFree xs

reverse_onto-append :
    (xs ys zs : Bytes) → reverse_onto (reverse_onto xs ys) zs ≡ reverse_onto ys (xs ++ zs)
reverse_onto-append [] ys zs = refl
reverse_onto-append (x ∷ xs) ys zs = reverse_onto-append xs (x ∷ ys) zs

-- The reader takes a text with no newline as it is.
read_plain :
    (semi_newline : Bool) (buf text rest : Bytes)
    → NewlineFree text
    → read_command semi_newline buf (text ++ rest)
      ≡ read_command semi_newline (reverse_onto text buf) rest
unfolding read_command
read_plain semi_newline buf [] rest h = refl
read_plain true buf (x ∷ text) rest h = ground (arith, read_plain true (x ∷ buf) text rest h.1)
read_plain false [] (x ∷ text) rest h = ground (arith, read_plain false (x ∷ []) text rest h.1)
read_plain false (y ∷ buf) (x ∷ text) rest h =
    ground (arith, read_plain false (x ∷ y ∷ buf) text rest h.1)

read_end :
    (buf rest : Bytes)
    → read_command true (10 ∷ b';' ∷ buf) (10 ∷ rest)
      ≡ record { text = reverse_onto (10 ∷ b';' ∷ buf) []; at_eof = false; unread = rest }
unfolding read_command
read_end buf rest = refl

-- The buffer read forward, in two parts.
reverse_onto-split : (buf ys : Bytes) → reverse_onto buf ys ≡ reverse_onto buf [] ++ ys
reverse_onto-split [] ys = refl
reverse_onto-split (x ∷ buf) ys =
    reverse_onto-split buf (x ∷ ys)
    ∙ sym (append_assoc (reverse_onto buf []) (x ∷ []) ys)
    ∙ ap (λ zs. zs ++ ys) (sym (reverse_onto-split buf (x ∷ [])))

-- No semicolon and two newlines are in the text.
abbrev pub NoBreak : Bytes → Type 0
NoBreak text = (front back : Bytes) → text ≢ front ++ b';' ∷ 10 ∷ 10 ∷ back

ends_at :
    (x : ℕ) (buf : Bytes)
    → ((x == 10) && ends_command buf) ≡ true
    → (x ≡ 10) × (older : Bytes) × (buf ≡ 10 ∷ b';' ∷ older)
ends_at x [] e = absurd (ground arith)
ends_at x (y ∷ []) e = absurd (ground arith)
ends_at x (y ∷ z ∷ older) e =
    let one : x ≡ 10 = ground arith in
    let two : y ≡ 10 = ground arith in
    let three : z ≡ b';' = ground arith in (one, older, rw (two, three) refl)

read_until :
    (buf text rest : Bytes)
    → NoBreak (reverse_onto buf (text ++ b';' ∷ 10 ∷ []))
    → read_command true buf (text ++ b';' ∷ 10 ∷ 10 ∷ rest)
      ≡ record { text = reverse_onto buf (text ++ b';' ∷ 10 ∷ []); at_eof = false; unread = rest }
unfolding read_command
read_until buf [] rest h = rw (not_newline buf) refl
  where
    not_newline : (buf : Bytes) → ends_command (b';' ∷ buf) ≡ false
    not_newline [] = refl
    not_newline (x ∷ buf) = refl
read_until buf (x ∷ text) rest h = elim (Bool-cases ((x == 10) && ends_command buf)) [
  | inl ended ↦
      let (newline, older, is) = ends_at x buf ended in
      absurd (
        h (reverse_onto older []) (text ++ b';' ∷ 10 ∷ [])
          (rw (newline, is) (reverse_onto-split older (b';' ∷ 10 ∷ 10 ∷ text ++ b';' ∷ 10 ∷ []))))
  | inr goes_on ↦ rw goes_on (read_until (x ∷ buf) text rest h)
]

-- In -j mode, a command that is followed by a semicolon and two newlines, and in which with these no
-- other semicolon and two newlines come before, is read with its semicolon and the first newline,
-- newlines inside included, and the reader stops after the second.
pub read_command_semi :
    (text rest : Bytes)
    → NoBreak (text ++ b';' ∷ 10 ∷ [])
    → read_command true [] (text ++ b';' ∷ 10 ∷ 10 ∷ rest)
      ≡ record { text = text ++ b';' ∷ 10 ∷ []; at_eof = false; unread = rest }
read_command_semi text rest h = read_until [] text rest h

-- In plain mode, a line that is not empty and does not end in a backslash is one command, with its
-- newline.
read_command_line :
    (front : Bytes) (x : ℕ) (rest : Bytes)
    → NewlineFree front
    → x ≢ 10
    → x ≢ b'\\'
    → read_command false [] (front ++ x ∷ 10 ∷ rest)
      ≡ record { text = front ++ x ∷ 10 ∷ []; at_eof = false; unread = rest }
unfolding read_command
read_command_line front x rest h plain other =
    read_plain false [] front (x ∷ 10 ∷ rest) h ∙ last (reverse_onto front []) refl
  where
    ended :
        (buf : Bytes)
        → read_command false (x ∷ buf) (10 ∷ rest)
          ≡ record { text = reverse_onto (10 ∷ x ∷ buf) []; at_eof = false; unread = rest }
    ended buf = ground arith

    taken :
        (buf : Bytes)
        → read_command false buf (x ∷ 10 ∷ rest) ≡ read_command false (x ∷ buf) (10 ∷ rest)
    taken [] = ground arith
    taken (y ∷ buf) = ground arith

    last :
        (buf : Bytes)
        → reverse_onto front [] ≡ buf
        → read_command false buf (x ∷ 10 ∷ rest)
          ≡ record { text = front ++ x ∷ 10 ∷ []; at_eof = false; unread = rest }
    last buf e =
        taken buf
        ∙ ended buf
        ∙ ap (λ t. record { text = t; at_eof = false; unread = rest })
            (rw (← e) (reverse_onto-append front [] (x ∷ 10 ∷ [])))

-- In plain mode, a backslash at the end of a line joins it with the next line.
read_command_joins :
    (line rest : Bytes)
    → NewlineFree line
    → read_command false [] (line ++ b'\\' ∷ 10 ∷ rest) ≡ read_command false [] (line ++ rest)
unfolding read_command
read_command_joins line rest h =
    read_plain false [] line (b'\\' ∷ 10 ∷ rest) h
    ∙ joined (reverse_onto line [])
    ∙ sym (read_plain false [] line rest h)
  where
    joined :
        (buf : Bytes) → read_command false buf (b'\\' ∷ 10 ∷ rest) ≡ read_command false buf rest
    joined [] = refl
    joined (x ∷ buf) = refl

-- What is left after a command that the input has not ended is shorter.
pub read_command_shorter :
    (semi_newline : Bool) (buf stream : Bytes)
    → (read_command semi_newline buf stream).at_eof ≡ false
    → length (read_command semi_newline buf stream).unread < length stream
unfolding read_command
read_command_shorter semi_newline buf [] e = cc
read_command_shorter true buf (c ∷ cs) e = ground (arith, read_command_shorter true (c ∷ buf) cs)
read_command_shorter false [] (c ∷ cs) e = ground (arith, read_command_shorter false (c ∷ []) cs)
read_command_shorter false (x ∷ buf) (c ∷ cs) e =
    ground (arith, read_command_shorter false (c ∷ x ∷ buf) cs, read_command_shorter false buf cs)

pub read_command_eof :
    (semi_newline : Bool) (buf stream : Bytes)
    → (read_command semi_newline buf stream).at_eof ≡ true
    → (read_command semi_newline buf stream).unread ≡ []
unfolding read_command
read_command_eof semi_newline buf [] e = refl
read_command_eof true buf (c ∷ cs) e = ground (arith, read_command_eof true (c ∷ buf) cs)
read_command_eof false [] (c ∷ cs) e = ground (arith, read_command_eof false (c ∷ []) cs)
read_command_eof false (x ∷ buf) (c ∷ cs) e =
    ground (arith, read_command_eof false (c ∷ x ∷ buf) cs, read_command_eof false buf cs)

-- A command that is not the end of the input takes some of it.
pub read_command_consumes :
    (semi_newline : Bool) (stream : Bytes)
    → ((read_command semi_newline [] stream).at_eof
        && length (read_command semi_newline [] stream).text == 0)
      ≡ false
    → length (read_command semi_newline [] stream).unread < length stream
unfolding read_command
read_command_consumes semi_newline [] e = cc
read_command_consumes semi_newline (c ∷ cs) e =
    elim (Bool-cases (read_command semi_newline [] (c ∷ cs)).at_eof) [
      | inl last ↦ rw (read_command_eof semi_newline [] (c ∷ cs) last) (omega arith)
      | inr more ↦ read_command_shorter semi_newline [] (c ∷ cs) more
    ]
