-- ===== src/Sdk/Dict/Adds.antt =====
-- `dict_add` of sdk_port-wasi-dlfcn.c refines the insertion into an association list: it stays
-- within the allocation, and doubles it when it is full.
use pglite_build.Prelude.{
  ℕ, zero, suc, ◌+◌, ◌-◌, ◌*◌, ◌≤◌, ◌<◌, ◌≡◌, refl, sym, ap, Bool, true, false, some, List, [], ◌∷◌,
  ◌++◌, Bytes, ℤ, ltb, lt→ltb, ◌==◌, length, set, take_all, length-append, if◌then◌else◌, arith,
  inl, inr, Bool-cases, ◌∙◌, str_eq,
}
use pglite_build.Sdk.Dict.{
  DictEntry, Dict, blank, resize, grow, put_entry, dict_add, dict_find, dict_new,
}
use pglite_build.Sdk.Dict.Finds.{
  slots_of, Represents, lookup, insert, lookup-insert, dict_search, dict_find_lem,
}

length-blank : (n : ℕ) → length (blank n) ≡ n
length-blank zero = refl
length-blank (suc n) = ap suc (length-blank n)

length-slots_of : (es : List DictEntry) (free : ℕ) → length (slots_of es free) ≡ length es + free
length-slots_of [] free = omega (arith, length-blank free)
length-slots_of (e ∷ es) free = omega (arith, length-slots_of es free)

slots_of-blank : (es : List DictEntry) (n : ℕ) → slots_of es 0 ++ blank n ≡ slots_of es n
slots_of-blank [] n = refl
slots_of-blank (e ∷ es) n = ap (◌∷◌ (some e)) (slots_of-blank es n)

set-slots_of :
    (es : List DictEntry) (free : ℕ) (e : DictEntry)
    → set (slots_of es (suc free)) (length es) (some e) ≡ slots_of (es ++ e ∷ []) free
set-slots_of [] free e = refl
set-slots_of (x ∷ es) free e = ap (◌∷◌ (some x)) (set-slots_of es free e)

resize-slots_of :
    (es : List DictEntry) (n : ℕ)
    → length es ≤ n
    → resize (slots_of es 0) n ≡ slots_of es (n - length es)
unfolding resize
resize-slots_of es n le = rw (take_all n (slots_of es 0) (omega (arith, length-slots_of es 0))) (
    slots_of-blank es (n - length (slots_of es 0))
    ∙ ap (λ m. slots_of es (n - m)) (omega (arith, length-slots_of es 0)))

-- After `grow` there is a free slot.
grow-Represents :
    (d : Dict) (es : List DictEntry) → Represents d es → (r : Represents (grow d) es) × (0 < r.free)
unfolding grow
grow-Represents d es r = elim (Bool-cases (d.len == d.cap)) [
  | inl full ↦
      let none_free : r.free ≡ 0 = ground (arith, r.len_is, r.cap_is) in
      rw full (
        record {
          free = d.cap * 2 - length es;
          entry_is =
              ap (λ s. resize s (d.cap * 2)) (r.entry_is ∙ ap (slots_of es) none_free)
              ∙ resize-slots_of es (d.cap * 2) (omega (arith, r.cap_is));
          len_is = r.len_is;
          cap_is = omega (arith, r.cap_is);
          cap_pos = omega (arith, r.cap_pos);
        },
        omega (arith, r.cap_is, r.cap_pos),
      )
  | inr room ↦ rw room (r, ground (arith, r.len_is, r.cap_is))
]

put_entry-Represents :
    (d : Dict) (es : List DictEntry) (e : DictEntry) (r : Represents d es)
    → 0 < r.free
    → (d' : Dict) × (put_entry d e ≡ some d') × Represents d' (es ++ e ∷ [])
unfolding put_entry
put_entry-Represents d es e r some_free =
    let fits : ltb d.len (length d.entry) ≡ true =
      lt→ltb _ _
        (omega (arith, r.len_is, some_free, ap length r.entry_is, length-slots_of es r.free)) in
    let longer : length (es ++ e ∷ []) ≡ length es + 1 = length-append es (e ∷ []) in
    (
      record d { entry = set d.entry d.len (some e); len = d.len + 1 },
      rw fits refl,
      record {
        free = r.free - 1;
        entry_is = stored (r.free - 1) (omega (arith, some_free));
        len_is = omega (arith, longer, r.len_is);
        cap_is = omega (arith, longer, r.cap_is, some_free);
        cap_pos = r.cap_pos;
      },
    )
  where
    stored : (n : ℕ) → r.free ≡ suc n → set d.entry d.len (some e) ≡ slots_of (es ++ e ∷ []) n
    stored n is = rw (r.len_is, r.entry_is, is) (set-slots_of es n e)

-- On a table that holds `es`, `dict_add` stays within the allocation, and the table then holds
-- `es` with the value at the key replaced, or the key and the value added at the end.
pub dict_add-Represents :
    (d : Dict) (es : List DictEntry) (key : Bytes) (value : ℤ)
    → Represents d es
    → (d' : Dict) × (dict_add d key value ≡ some d') × Represents d' (insert es key value)
unfolding dict_add
dict_add-Represents d es key value r = elim (dict_search d es key r) [
  | inl (at, (gone, added)) ↦
      let (room, some_free) = grow-Represents d es r in
      let (d', put, held) =
        put_entry-Represents (grow d) es (record { key = key; value = value }) room some_free in
      (d', rw at put, rw (added value) held)
  | inr (k, at, l) ↦ (
    record d { entry = set d.entry k (some (record (l.found) { value = value })) },
    rw (at, r.entry_is, l.read) refl,
    record {
      free = r.free;
      entry_is = rw r.entry_is (l.written value);
      len_is = r.len_is ∙ sym (l.same_length value);
      cap_is = omega (arith, r.cap_is, l.same_length value);
      cap_pos = r.cap_pos;
    },
  )
]

-- After `dict_add` on a table that holds entries, `dict_find` gives the new value at the key, and
-- what it gave before at every other key.
pub dict_find-dict_add :
    (d : Dict) (es : List DictEntry) (key key' : Bytes) (value def : ℤ)
    → Represents d es
    → (d' : Dict) × (dict_add d key value ≡ some d')
      × (dict_find d' key' def ≡ (if str_eq key key' then some value else dict_find d key' def))
dict_find-dict_add d es key key' value def r =
    let (d', is, held) = dict_add-Represents d es key value r in
    (
      d',
      is,
      dict_find_lem d' (insert es key value) key' def held
          ∙ ap some (lookup-insert es key key' value def)
          ∙ rw (dict_find_lem d es key' def r) (pushed (str_eq key key')),
    )
  where
    pushed :
        (b : Bool)
        → some (if b then value else lookup es key' def)
          ≡ (if b then some value else some (lookup es key' def))
    pushed true = refl
    pushed false = refl

-- A new table holds no entries.
pub dict_new-Represents : Represents dict_new []
unfolding dict_new
dict_new-Represents = record {
  free = 10;
  entry_is = refl;
  len_is = refl;
  cap_is = refl;
  cap_pos = omega arith;
}
