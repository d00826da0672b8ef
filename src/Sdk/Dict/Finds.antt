-- ===== src/Sdk/Dict/Finds.antt =====
-- The table of sdk_port-wasi-dlfcn.c refines an association list.
use pglite_build.Prelude.{
  ℕ, suc, ◌+◌, ◌<◌, ◌≡◌, refl, ap, Bool, true, false, Option, none, some, List, [], ◌∷◌, ◌++◌,
  Bytes, str_eq, str_eq_self, str_eq_sound, ℤ, pos, minus_one, length, set, if◌then◌else◌, arith,
  inl, inr, ◌⊎◌, Bool-cases, ◌∙◌,
}
use pglite_build.Sdk.Dict.{
  DictEntry, Slot, Dict, blank, find_from, dict_find_index, read_slot, dict_find,
}

-- The allocation with the entries first and `free` slots after them.
abbrev pub slots_of : List DictEntry → ℕ → List Slot
slots_of [] free = blank free
slots_of (e ∷ es) free = some e ∷ slots_of es free

-- The table holds the entries `es`, in order.
pub record Represents (d : Dict) (es : List DictEntry) : Type 0 where
  pub free : ℕ
  pub entry_is : d.entry ≡ slots_of es free
  pub len_is : d.len ≡ length es
  pub cap_is : d.cap ≡ length es + free
  pub cap_pos : 0 < d.cap

-- The value at a key of an association list.
abbrev pub lookup : List DictEntry → Bytes → ℤ → ℤ
lookup [] key def = def
lookup (e ∷ es) key def = if str_eq (e.key) key then e.value else lookup es key def

-- The list with the value at a key replaced, or the key added at the end.
abbrev pub insert : List DictEntry → Bytes → ℤ → List DictEntry
insert [] key value = record { key = key; value = value } ∷ []
insert (e ∷ es) key value =
    if str_eq (e.key) key then record e { value = value } ∷ es else e ∷ insert es key value

-- Where a key is first found, counted from `i`.
abbrev pub index_of : List DictEntry → Bytes → ℕ → Option ℕ
index_of [] key i = none
index_of (e ∷ es) key i = if str_eq (e.key) key then some i else index_of es key (suc i)

abbrev pub as_int : Option ℕ → ℤ
as_int none = minus_one
as_int (some i) = pos i

find_from-index_of :
    (key : Bytes) (es : List DictEntry) (free i : ℕ)
    → find_from key (slots_of es free) (length es) i ≡ some (as_int (index_of es key i))
unfolding find_from
find_from-index_of key [] free i = refl
find_from-index_of key (e ∷ es) free i = rw (find_from-index_of key es free (suc i)) (branches _)
  where
    branches :
        (b : Bool)
        → (if b then some (pos i) else some (as_int (index_of es key (suc i))))
          ≡ some (as_int (if b then some i else index_of es key (suc i)))
    branches true = refl
    branches false = refl

pub dict_find_index_lem :
    (d : Dict) (es : List DictEntry) (key : Bytes)
    → Represents d es
    → dict_find_index d key ≡ some (as_int (index_of es key 0))
unfolding dict_find_index
dict_find_index_lem d es key r = rw (r.entry_is, r.len_is) (find_from-index_of key es r.free 0)

-- What the search for `key` says of the entries, and of the slots that hold them.
abbrev pub Missing : List DictEntry → Bytes → Type 0
Missing es key =
    ((def : ℤ) → lookup es key def ≡ def)
    × ((v : ℤ) → insert es key v ≡ es ++ record { key = key; value = v } ∷ [])

pub record Located (es : List DictEntry) (free : ℕ) (key : Bytes) (k : ℕ) : Type 0 where
  pub found : DictEntry
  pub read : read_slot (slots_of es free) k ≡ some found
  pub value_is : (def : ℤ) → lookup es key def ≡ found.value
  pub written :
      (v : ℤ)
      → set (slots_of es free) k (some (record found { value = v }))
        ≡ slots_of (insert es key v) free
  pub same_length : (v : ℤ) → length (insert es key v) ≡ length es

pub search_lem :
    (es : List DictEntry) (free : ℕ) (key : Bytes) (i : ℕ)
    → ((index_of es key i ≡ none) × Missing es key)
      ⊎ ((k : ℕ) × (index_of es key i ≡ some (i + k)) × Located es free key k)
search_lem [] free key i = inl (refl, ((λ def. refl), (λ v. refl)))
search_lem (e ∷ es) free key i = elim (Bool-cases (str_eq (e.key) key)) [
  | inl same ↦ inr (
    0,
    (rw same (ap some (omega arith))),
    record {
      found = e;
      read = refl;
      value_is = λ def. rw same refl;
      written = λ v. rw same refl;
      same_length = λ v. rw same refl;
    },
  )
  | inr differ ↦ elim (search_lem es free key (suc i)) [
    | inl (none_is, (gone, added)) ↦ inl (
      (rw differ none_is),
      ((λ def. rw differ (gone def)), (λ v. rw differ (ap (◌∷◌ e) (added v)))),
    )
    | inr (k, at, l) ↦ inr (
      suc k,
      (rw differ (rw at (ap some (omega arith)))),
      record {
        found = l.found;
        read = l.read;
        value_is = λ def. rw differ (l.value_is def);
        written = λ v. rw differ (ap (◌∷◌ (some e)) (l.written v));
        same_length = λ v. rw differ (ap suc (l.same_length v));
      },
    )
  ]
]

-- What `dict_find_index` finds.
pub dict_search :
    (d : Dict) (es : List DictEntry) (key : Bytes) (r : Represents d es)
    → ((dict_find_index d key ≡ some minus_one) × Missing es key)
      ⊎ ((k : ℕ) × (dict_find_index d key ≡ some (pos k)) × Located es (r.free) key k)
dict_search d es key r = elim (search_lem es (r.free) key 0) [
  | inl (none_is, gone) ↦
      inl (dict_find_index_lem d es key r ∙ ap (λ i. some (as_int i)) none_is, gone)
  | inr (k, at, l) ↦
      let found : index_of es key 0 ≡ some k = at ∙ ap some (omega arith) in
      inr (k, dict_find_index_lem d es key r ∙ ap (λ i. some (as_int i)) found, l)
]

-- On a table that holds `es`, `dict_find` is the lookup in `es`.
pub dict_find_lem :
    (d : Dict) (es : List DictEntry) (key : Bytes) (def : ℤ)
    → Represents d es
    → dict_find d key def ≡ some (lookup es key def)
unfolding dict_find
dict_find_lem d es key def r = elim (dict_search d es key r) [
  | inl (at, gone) ↦ rw (at, gone.0 def) refl
  | inr (k, at, l) ↦ rw (at, r.entry_is, l.read, l.value_is def) refl
]

pub lookup-insert :
    (es : List DictEntry) (key key' : Bytes) (v def : ℤ)
    → lookup (insert es key v) key' def ≡ (if str_eq key key' then v else lookup es key' def)
lookup-insert [] key key' v def = refl
lookup-insert (e ∷ es) key key' v def = elim (Bool-cases (str_eq (e.key) key)) [
  | inl same ↦ rw same (rw (str_eq_sound (e.key) key same) (merged (str_eq key key')))
  | inr differ ↦ rw differ (rw (lookup-insert es key key' v def) (ordered differ))
]
  where
    merged :
        (b : Bool)
        → (if b then v else lookup es key' def)
          ≡ (if b then v else (if b then e.value else lookup es key' def))
    merged true = refl
    merged false = refl

    ordered :
        str_eq (e.key) key ≡ false
        → (if str_eq (e.key) key'
            then e.value
            else (if str_eq key key' then v else lookup es key' def))
          ≡ (if str_eq key key'
              then v
              else (if str_eq (e.key) key' then e.value else lookup es key' def))
    ordered differ = elim (Bool-cases (str_eq key key')) [
      | inl same ↦ rw (← str_eq_sound key key' same) (rw (str_eq_self key, differ) refl)
      | inr other ↦ rw other refl
    ]
