-- ===== src/Start/Settings.antt =====
-- Which variables an argument sets.
use pglite_build.Prelude.{
  ℕ, ◌+◌, ◌≤◌, ◌≡◌, refl, sym, ap, ◌∙◌, ◌↔◌, ◌⊎◌, inl, inr, Bool, true, false, List, [], ◌∷◌, ◌++◌,
  Bytes, ltb, ◌==◌, length, arith, if◌then◌else◌, append_assoc, append-nil,
}
use pglite_build.Start.Env.{Setting}
use pglite_build.Start.{settings_from}

abbrev pub In : Setting → List Setting → Type 0
In s [] = ⊥
In s (x ∷ xs) = (s ≡ x) ⊎ In s xs

-- The setting splits the argument at an equals sign whose place fits the key buffer.
abbrev pub Splits : Bytes → ℕ → Bytes → Setting → Type 0
Splits front sk cs s =
    (mid : Bytes) × (s.key ≡ front ++ mid) × (cs ≡ mid ++ b'=' ∷ s.value) × (sk + length mid ≤ 255)

later_In :
    (s x : Setting) (rest : List Setting) (past equals : Bool)
    → In s rest
    → In s (if past then rest else if equals then x ∷ rest else rest)
later_In s x rest true equals h = h
later_In s x rest false true h = inr h
later_In s x rest false false h = h

first_In :
    (s x : Setting) (rest : List Setting) (past equals : Bool)
    → In s (if past then rest else if equals then x ∷ rest else rest)
    → ((past ≡ false) × (equals ≡ true) × (s ≡ x)) ⊎ In s rest
first_In s x rest true equals h = inr h
first_In s x rest false true (inl e) = inl (refl, refl, e)
first_In s x rest false true (inr h) = inr h
first_In s x rest false false h = inr h

one_more :
    (front cs : Bytes) (c sk : ℕ) (s : Setting)
    → Splits (front ++ c ∷ []) (sk + 1) cs s
    → Splits front sk (c ∷ cs) s
one_more front cs c sk s (mid, key_is, rest_is, fits) =
    (c ∷ mid, key_is ∙ append_assoc front (c ∷ []) mid, ap (◌∷◌ c) rest_is, omega (arith, fits))

settings_from-Splits :
    (front : Bytes) (sk : ℕ) (cs : Bytes) (s : Setting)
    → In s (settings_from front sk cs)
    → Splits front sk cs s
unfolding settings_from
settings_from-Splits front sk [] s h = absurd h
settings_from-Splits front sk (c ∷ cs) s h =
    elim (first_In s _ (settings_from (front ++ c ∷ []) (sk + 1) cs) (ltb 255 sk) (c == b'=') h) [
      | inl (near, equals, is) ↦
          let place : sk ≤ 255 = ground (arith, near) in
          let sign : c ≡ b'=' = ground (arith, equals) in
          (
            [],
            ap (λ x. x.key) is ∙ sym (append-nil front),
            rw (sign, is) refl,
            omega (arith, place),
          )
      | inr later ↦
          one_more front cs c sk s (settings_from-Splits (front ++ c ∷ []) (sk + 1) cs s later)
    ]

Splits-settings_from :
    (front : Bytes) (sk : ℕ) (cs mid : Bytes) (s : Setting)
    → s.key ≡ front ++ mid
    → cs ≡ mid ++ b'=' ∷ s.value
    → sk + length mid ≤ 255
    → In s (settings_from front sk cs)
unfolding settings_from
Splits-settings_from front sk [] [] s k e h = absurd (nil-ne e)
  where
    nil-ne : ¬ ([] ≡ b'=' ∷ s.value)
    nil-ne e = cc
Splits-settings_from front sk [] (x ∷ mid) s k e h = absurd (nil-ne e)
  where
    nil-ne : ¬ ([] ≡ x ∷ mid ++ b'=' ∷ s.value)
    nil-ne e = cc
Splits-settings_from front sk (c ∷ cs) [] s k e h =
    let sign : c ≡ b'=' = cc in
    let value_is : cs ≡ s.value = cc in
    let key_is : s.key ≡ front = k ∙ append-nil front in
    let near : ltb 255 sk ≡ false = ground arith in rw (near, sign) (inl (same key_is value_is))
  where
    same : s.key ≡ front → cs ≡ s.value → s ≡ record { key = front; value = cs }
    same a b = rw (← a, b) refl
Splits-settings_from front sk (c ∷ cs) (x ∷ mid) s k e h =
    let first : c ≡ x = cc in
    let others : cs ≡ mid ++ b'=' ∷ s.value = cc in
    later_In s _ (settings_from (front ++ c ∷ []) (sk + 1) cs) (ltb 255 sk) (c == b'=') (
      Splits-settings_from (front ++ c ∷ []) (sk + 1) cs mid s
        (k ∙ ap (λ y. front ++ y ∷ mid) (sym first) ∙ sym (append_assoc front (c ∷ []) mid)) others
        (omega (arith, h)))

-- The second loop sets a variable from an argument exactly when the argument is its name, an equals
-- sign and its value, and the name has at most 255 bytes: one setting for each such equals sign.
pub settings_from_iff :
    (kv : Bytes) (s : Setting)
    → In s (settings_from [] 0 kv) ↔ ((kv ≡ s.key ++ b'=' ∷ s.value) × (length s.key ≤ 255))
settings_from_iff kv s = (forth, back)
  where
    forth : In s (settings_from [] 0 kv) → (kv ≡ s.key ++ b'=' ∷ s.value) × (length s.key ≤ 255)
    forth h =
        let (mid, key_is, kv_is, fits) = settings_from-Splits [] 0 kv s h in
        rw key_is (kv_is, omega (arith, fits))

    back : (kv ≡ s.key ++ b'=' ∷ s.value) × (length s.key ≤ 255) → In s (settings_from [] 0 kv)
    back (e, fits) = Splits-settings_from [] 0 kv (s.key) s refl e (omega (arith, fits))
