-- ===== src/Tools/Concat.antt =====
-- What `strcat_alloc` of pgl_tools.h returns, and where it writes past its buffer.
use pglite_build.Prelude.{
  Bool, true, false, Option, ℕ, zero, suc, ◌+◌, ◌≤◌, ◌<◌, ◌≡◌, ◌≢◌, refl, ap, ◌∙◌, sym, inl, inr,
  none, some, List, [], ◌∷◌, ◌++◌, Bytes, length, length-set, take, take_all, drop, length-take,
  ltb→lt, ◌-◌, set, take-append-drop, append_assoc, append-nil, arith, Bool-cases, ltb, lt→ltb,
  if◌then◌else◌, min,
}
use pglite_build.Tools.{
  mkdirp, mksub_dir, ◌>>=◌, copy_to, strconcat, c_string, strcat_alloc, strops_buf,
}

-- No byte of the string is its terminator.
abbrev pub NulFree : Bytes → Type 0
NulFree [] = Unit {0}
NulFree (x ∷ xs) = (x ≢ 0) × NulFree xs

NulFree-append : (xs ys : Bytes) → NulFree xs → NulFree ys → NulFree (xs ++ ys)
NulFree-append [] ys h k = k
NulFree-append (x ∷ xs) ys h k = (h.0, NulFree-append xs ys h.1 k)

take-set :
    (buf : List ℕ) (i x : ℕ) {n : ℕ}
    → i < length buf
    → i + 1 ≡ n
    → take n (set buf i x) ≡ take i buf ++ x ∷ []
take-set [] i x h e = elim h [ ]
take-set (y ∷ buf) zero x {n = zero} h e = absurd (omega arith)
take-set (y ∷ buf) zero x {n = suc zero} h e = refl
take-set (y ∷ buf) zero x {n = suc (suc n)} h e = absurd (omega arith)
take-set (y ∷ buf) (suc i) x {n = zero} h e = absurd (omega arith)
take-set (y ∷ buf) (suc i) x {n = suc n} h e =
    ap (◌∷◌ y) (take-set buf i x (omega arith) (omega arith))

-- A copy that fits leaves what stood before it and is followed by what it copied.
pub copy_to_fits :
    (buf : List ℕ) (at : ℕ) (src : Bytes) (s : Bytes) (n : ℕ)
    → take at buf ≡ s
    → at + length src ≡ n
    → n ≤ length buf
    → (b : List ℕ) × (copy_to buf at src ≡ some b) × (take n b ≡ s ++ src) × (length b ≡ length buf)
unfolding copy_to
copy_to_fits buf at [] s n e m h =
    let same : at ≡ n = omega arith in (buf, refl, rw (← same) (e ∙ sym (append-nil s)), refl)
copy_to_fits buf at (x ∷ src) s n e m h =
    let grown = take-set buf at x {n = at + 1} (omega arith) refl ∙ ap (λ t. t ++ x ∷ []) e in
    let found =
      copy_to_fits (set buf at x) (at + 1) src (s ++ x ∷ []) n grown (omega arith)
        (omega (arith, length-set buf at x)) in
    (
      found.0,
      rw (lt→ltb at (length buf) (omega arith)) found.1,
      found.2 ∙ append_assoc s (x ∷ []) src,
      found.3 ∙ length-set buf at x,
    )

-- A copy that does not fit is a write out of bounds.
pub copy_to_overrun :
    (buf : List ℕ) (at : ℕ) (src : Bytes)
    → at ≤ length buf
    → length buf < at + length src
    → copy_to buf at src ≡ none
unfolding copy_to
copy_to_overrun buf at [] h k = absurd (omega arith)
copy_to_overrun buf at (x ∷ src) h k = elim (Bool-cases (ltb at (length buf))) [
  | inl inside ↦ rw inside (
      copy_to_overrun (set buf at x) (at + 1) src (ground (arith, length-set buf at x))
        (ground (arith, length-set buf at x)))
  | inr outside ↦ rw outside
]

pub c_string-append : (s : Bytes) (rest : List ℕ) → NulFree s → c_string (s ++ 0 ∷ rest) ≡ s
unfolding c_string
c_string-append [] rest h = refl
c_string-append (x ∷ s) rest h = ground (arith, c_string-append s rest h.1)

-- The three copies of `strconcat`, of lengths that leave room for the NUL, or just do not.
module _ (buf : List ℕ) (head tail : Bytes) (m n : ℕ) (hm : length head ≡ m)
    (hn : length tail ≡ n) where
  two_copies :
      m + n ≤ length buf
      → (p₁ p₂ : List ℕ) × (copy_to buf 0 head ≡ some p₁)
        × (copy_to p₁ m tail ≡ some p₂)
        × (take (m + n) p₂ ≡ head ++ tail)
        × (length p₂ ≡ length buf)
  two_copies h =
      let first = copy_to_fits buf 0 head [] m refl (omega arith) (omega arith) in
      let second =
        copy_to_fits first.0 m tail head (m + n) first.2 (omega arith) (omega (arith, first.3)) in
      (first.0, second.0, first.1, second.1, second.2, second.3 ∙ first.3)

  three_copies :
      m + n < length buf
      → (b : List ℕ) × ((do
        p₁ ← copy_to buf 0 head
        p₂ ← copy_to p₁ m tail
        copy_to p₂ (m + n) (0 ∷ []))
          ≡ some b)
        × (take (m + n + 1) b ≡ (head ++ tail) ++ 0 ∷ [])
  three_copies h =
      let (p₁, p₂, r₁, r₂, holds, same) = two_copies (omega arith) in
      let third =
        copy_to_fits p₂ (m + n) (0 ∷ []) (head ++ tail) (m + n + 1) holds (omega arith)
          (omega (arith, same)) in
      (third.0, rw (r₁, r₂) third.1, third.2)

  three_copies_overrun :
      m + n ≡ length buf
      → (do p₁ ← copy_to buf 0 head; p₂ ← copy_to p₁ m tail; copy_to p₂ (m + n) (0 ∷ [])) ≡ none
  three_copies_overrun h =
      let (p₁, p₂, r₁, r₂, holds, same) = two_copies (omega arith) in
      rw (r₁, r₂) (copy_to_overrun p₂ (m + n) (0 ∷ []) (omega (arith, same)) (omega (arith, same)))

c_string-take :
    (b : List ℕ) (n : ℕ) (s : Bytes) → NulFree s → take n b ≡ s ++ 0 ∷ [] → c_string b ≡ s
c_string-take b n s h e =
    rw (← take-append-drop n b) (rw e (rw append_assoc (c_string-append s (drop n b) h)))

-- On NUL-free strings `strcat_alloc` returns their concatenation if that and its NUL fit the
-- 1024 bytes of its buffer; if they do not, it stores the NUL one byte past the end.
pub strcat_alloc_lem :
    (buf : List ℕ) (head tail : Bytes)
    → length buf ≡ strops_buf
    → NulFree head
    → NulFree tail
    → strcat_alloc buf head tail
      ≡ (if ltb (length head + length tail) strops_buf then some (head ++ tail) else none)
unfolding strcat_alloc strconcat
strcat_alloc_lem buf head tail size hh ht =
    let m = min (length head) strops_buf in
    let n = min (length tail) (strops_buf - m) in
    let hm : length (take m head) ≡ m = omega (arith, length-take m head) in
    let hn : length (take n tail) ≡ n = omega (arith, length-take n tail) in
    elim (Bool-cases (ltb (length head + length tail) strops_buf)) [
      | inl fits ↦
          let lt : length head + length tail < strops_buf = ltb→lt _ _ fits in
          let whole = three_copies buf (take m head) (take n tail) m n hm hn (omega arith) in
          let both : take m head ++ take n tail ≡ head ++ tail =
            rw (take_all m head (omega arith), take_all n tail (omega arith)) in
          let read : c_string whole.0 ≡ head ++ tail =
            c_string-take whole.0 (m + n + 1) (head ++ tail) (NulFree-append head tail hh ht)
              (whole.2 ∙ ap (λ s. s ++ 0 ∷ []) both) in
          rw (fits, whole.1, read)
      | inr over ↦
          let ge : strops_buf ≤ length head + length tail = ground arith in
          rw (over, three_copies_overrun buf (take m head) (take n tail) m n hm hn (omega arith))
    ]

option_map_if :
    (t : Bool) (path : Bytes) (made : List Bytes)
    → (do p ← (if t then some path else none); some (mkdirp p made))
      ≡ (if t then some (mkdirp path made) else none)
option_map_if true path made = refl
option_map_if false path made = refl

two_steps :
    (x : Option (List ℕ)) (made : List Bytes)
    → (do filled ← x; some (mkdirp (c_string filled) made))
      ≡ (do p ← (do filled ← x; some (c_string filled)); some (mkdirp p made))
two_steps none made = refl
two_steps (some filled) made = refl

-- On NUL-free strings, `mksub_dir` makes the directory of that name if it fits the buffer, and
-- stores past its end if it does not.
mksub_dir_lem :
    (buf : List ℕ) (dir sub : Bytes) (made : List Bytes)
    → length buf ≡ strops_buf
    → NulFree dir
    → NulFree sub
    → mksub_dir buf dir sub made
      ≡ (if ltb (length dir + length sub) strops_buf then some (mkdirp (dir ++ sub) made) else none)
unfolding mksub_dir strcat_alloc
mksub_dir_lem buf dir sub made size hd hs =
    two_steps (strconcat buf dir sub) made
    ∙ ap (λ x. do p ← x; some (mkdirp p made)) (strcat_alloc_lem buf dir sub size hd hs)
    ∙ option_map_if (ltb (length dir + length sub) strops_buf) (dir ++ sub) made
