-- ===== src/Sdk/Dlfcn/Loads.antt =====
-- What `dlopen` of sdk_port-wasi-dlfcn.c makes of `dltab`.
use pglite_build.Prelude.{
  ℕ, zero, suc, ◌<◌, ◌≤◌, ◌≡◌, refl, Option, none, some, List, [], ◌∷◌, Bytes, codes, pos,
  if◌then◌else◌, arith,
}
use pglite_build.Sdk.Dict.{
  Dict, dict_new, dict_add, dict_find_index, find_from, blank, grow, put_entry,
}
use pglite_build.Sdk.Dlfcn.{
  Linker, ends_with, done, past_end, null_read, then_access, in_table, dlopen, known_from,
  known_or_load, load,
}

abbrev pub nulls : ℕ → List (Option Dict)
nulls zero = []
nulls (suc n) = none ∷ nulls n

-- At program start, `dltab` being an array of `n` null pointers.
abbrev pub fresh : ℕ → Linker
fresh n = record { dltab = nulls n; dltab_index = 0; pg_inits = 0 }

-- After the first `dlopen`, with `suc (suc n)` elements.
abbrev opened : ℕ → Bytes → Linker
opened n f = record {
  dltab =
      none
      ∷ some
          (record { len = 1; cap = 10; entry = some (record { key = f; value = pos 0 }) ∷ blank 9 })
      ∷ nulls n;
  dltab_index = 1;
  pg_inits = if ends_with (some f) (some (codes "/plpgsql.so")) then 1 else 0;
}

-- With `n` elements in `dltab`, the first `dlopen`, of any library, stores past the end if `n` is
-- less than 2; if `n` is at least 2 it answers 1, and a second one, of the same library or another,
-- reads the null pointer in `dltab[0]`.
pub dlopen-dlopen :
    (n : ℕ) (f g : Bytes)
    → (n < 2 → dlopen (fresh n) f ≡ past_end)
      × (2 ≤ n → (l : Linker) × (dlopen (fresh n) f ≡ done (1, l)) × (dlopen l g ≡ null_read))
unfolding dlopen known_from known_or_load load then_access in_table dict_add put_entry grow
    dict_find_index find_from dict_new
dlopen-dlopen zero f g = (λ low. refl, λ high. absurd (omega arith))
dlopen-dlopen (suc zero) f g = (λ low. refl, λ high. absurd (omega arith))
dlopen-dlopen (suc (suc n)) f g =
    (λ low. absurd (omega arith), λ high. (opened n f, ground arith, refl))
