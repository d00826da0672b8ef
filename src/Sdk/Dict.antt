-- ===== src/Sdk/Dict.antt =====
-- wasm-build/sdk_port-wasi/sdk_port-wasi-dlfcn.c: the table of names. `malloc`, `realloc` and
-- `strdup` are taken to succeed, and `cap` not to exceed an `int`; a slot that was not written yet
-- is `none`, and reading it, or a use of a slot past the allocation, makes the result `none`.
pub mod Finds
pub mod Adds
use pglite_build.Prelude.{
  ℕ, zero, suc, ◌+◌, ◌-◌, ◌*◌, not, Option, none, some, List, [], ◌∷◌, ◌++◌, Bytes, str_eq, ℤ, pos,
  minus_one, is_eof, to_ℕ, ltb, ◌==◌, length, set, take, if◌then◌else◌, get_elem?,
}
use pglite_build.Tools.{◌>>=◌}

pub record DictEntry : Type 0 where
  pub key : Bytes
  pub value : ℤ

abbrev pub Slot : Type 0
Slot = Option DictEntry

-- `entry` is as long as what is allocated.
pub record Dict : Type 0 where
  pub len : ℕ
  pub cap : ℕ
  pub entry : List Slot

abbrev pub blank : ℕ → List Slot
blank zero = []
blank (suc n) = none ∷ blank n

-- The loop of `dict_find_index` from `i` on, over the slots from there.
unfoldable pub find_from : Bytes → List Slot → ℕ → ℕ → Option ℤ
find_from key slots zero i = some minus_one
find_from key [] (suc n) i = none
find_from key (none ∷ slots) (suc n) i = none
find_from key (some e ∷ slots) (suc n) i =
    let rest = find_from key slots n (suc i) in if str_eq (e.key) key then some (pos i) else rest

unfoldable pub dict_find_index : Dict → Bytes → Option ℤ
dict_find_index d key = find_from key d.entry d.len 0

abbrev pub read_slot : List Slot → ℕ → Option DictEntry
read_slot slots i = do s ← get_elem? slots i; s

unfoldable pub dict_find : Dict → Bytes → ℤ → Option ℤ
dict_find d key def = do
  idx ← dict_find_index d key
  if is_eof idx then some def else (do e ← read_slot d.entry (to_ℕ idx); some (e.value))

-- `realloc(slots, n * sizeof(dict_entry_s))`
unfoldable pub resize : List Slot → ℕ → List Slot
resize slots n = take n slots ++ blank (n - length slots)

unfoldable pub grow : Dict → Dict
grow d =
    if d.len == d.cap then record d { cap = d.cap * 2; entry = resize d.entry (d.cap * 2) } else d

unfoldable pub put_entry : Dict → DictEntry → Option Dict
put_entry d e =
    if ltb d.len (length d.entry)
    then some (record d { entry = set d.entry d.len (some e); len = d.len + 1 })
    else none

unfoldable pub dict_add : Dict → Bytes → ℤ → Option Dict
unfolding dict_find_index
dict_add d key value = do
  idx ← dict_find_index d key
  if not (is_eof idx)
      then (do
        e ← read_slot d.entry (to_ℕ idx)
        some (record d { entry = set d.entry (to_ℕ idx) (some (record e { value = value })) }))
      else put_entry (grow d) (record { key = key; value = value })

unfoldable pub dict_new : Dict
dict_new = record { len = 0; cap = 10; entry = blank 10 }
