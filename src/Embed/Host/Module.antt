-- ===== src/Embed/Host/Module.antt =====
-- The Python module's `Begin` and `End` beside `main`.
use pglite_build.Prelude.{
  ◌-◌, ◌/◌, ℕ, zero, suc, ◌≡◌, refl, ap, sym, ◌∙◌, Bool, true, false, Option, none, some, Bytes,
  List, ◌==◌, if◌then◌else◌, inl, inr, ◌⊎◌,
}
use pglite_build.Tools.{◌>>=◌}
use pglite_build.Start.Main.{apply_rules}
use pglite_build.Embed.{copy_argv}
use pglite_build.Embed.Host.{
  Runtime, Embedded, embed_rules, pre_main, start_args, embed_main, do_main, free_instance,
  begin_module, end_module,
}

-- What `main` does with the status of `pre_main`.
abbrev finish : ℕ × Embedded → Option (ℕ × Embedded)
finish (status, s) =
    if status == 0
    then some (0, free_instance (do_main s))
    else some (1, record s { skip_main = true })

-- An instance was made, or nothing was.
abbrev Made : Embedded → ℕ × Embedded → Type 0
Made s (status, m) =
    (status ≡ 0) ⊎ ((status ≡ 1) × (m.instantiated ≡ s.instantiated) × (m.started ≡ s.started))

abbrev AllMade : Embedded → Option (ℕ × Embedded) → Type 0
AllMade s none = Unit {0}
AllMade s (some x) = Made s x

-- How `Begin` and `End` compare to `main`, which ends in `(status, s')`.
abbrev pub Compares : Embedded → ℕ → Embedded → Embedded → Type 0
Compares s status s' m =
    ((status ≡ 0) × (end_module m ≡ s'))
    ⊎ ((status ≡ 1)
        × (m.instantiated ≡ s.instantiated)
        × (s'.started ≡ s.started)
        × ((end_module m).started ≡ true))

compared :
    (s s' : Embedded) (status : ℕ) (x : Option (ℕ × Embedded))
    → AllMade s x
    → (x >>= finish) ≡ some (status, s')
    → (m : Embedded) × ((do (k, m) ← x; some m) ≡ some m) × Compares s status s' m
compared s s' status none h e = absurd cc
compared s s' status (some (zero, m)) h e = (m, refl, inl (cc, cc))
compared s s' status (some (suc n, m)) (inl z) e = absurd cc
compared s s' status (some (suc n, m)) (inr (one, made, ran)) e =
    let same : record m { skip_main = true } ≡ s' = cc in
    (m, refl, inr (cc, made, ap (λ x. x.started) (sym same) ∙ ran, refl))

AllMade-bind :
    {A : Type 0} (s : Embedded) (x : Option A) (f : A → Option (ℕ × Embedded))
    → ((a : A) → AllMade s (f a))
    → AllMade s (x >>= f)
AllMade-bind s none f h = tt
AllMade-bind s (some a) f h = h a

-- The two tests of `pre_main`.
branches :
    (s ready : Embedded) (t u : Bool)
    → ready.instantiated ≡ s.instantiated
    → ready.started ≡ s.started
    → AllMade s (
        if t
        then (if u then some (0, record ready { instantiated = true }) else some (1, ready))
        else some (1, ready))
branches s ready true true h k = inl refl
branches s ready true false h k = inr (refl, h, k)
branches s ready false u h k = inr (refl, h, k)

unskipped :
    {A : Type 0} (skip : Bool) (x y z : A) → skip ≡ false → (if skip then x else y) ≡ z → y ≡ z
unskipped true x y z h e = absurd cc
unskipped false x y z h e = e

module _ (r : Runtime) where
  pre_main-AllMade : (argv : List Bytes) (s : Embedded) → AllMade s (pre_main r argv s)
  unfolding pre_main
  pre_main-AllMade argv s = AllMade-bind s (copy_argv r.pointer_size r.uninit argv) _ λ copied.
      let argc = r.pointer_size / r.pointer_size - 1 in
      let env = apply_rules embed_rules s.env in
      branches s (record s { env = env; g_argv = some copied; g_argc = argc })
        (r.wasi_init argc copied env) r.wasi_file_descriptor_add refl refl

  -- If `main` is not skipped and exits with 0, `Begin` and then `End` leave the same state. If it exits
  -- with another status, it has started nothing, but they do start the program: `End` does not
  -- know that `Begin` made no instance.
  pub end_module-begin_module :
      (s s' : Embedded) (status : ℕ)
      → s.skip_main ≡ false
      → embed_main r s ≡ some (status, s')
      → (m : Embedded) × (begin_module r s ≡ some m) × Compares s status s' m
  unfolding embed_main begin_module
  end_module-begin_module s s' status fresh e =
      compared s s' status (pre_main r (start_args r) s) (pre_main-AllMade (start_args r) s)
        (unskipped s.skip_main _ _ _ fresh e)
