-- ===== src/Plans/Dump.antt =====
-- src/plan/mutate/UtilPlan.cpp: the text that the dump of a graph prints. The classes, the indexes and
-- the records of a map are in the order in which the store lists them; `to_string` is the library's.
pub mod Dumped
use gqlite.Prelude.{
  ℕ, Bool, true, false, not, ◌||◌, Option, none, some, List, [], ◌∷◌, ◌++◌, if◌then◌else◌, length,
  drop,
}
use gqlite.Prelude.Eq.{bytes_beq, bytes_eq}
use gqlite.Prelude.Maps.{lookup}
use gqlite.Prelude.Options.{◌>>=◌}
use gqlite.Word.{read_u64}
use gqlite.Split.{Bytes, pop_back}
use gqlite.Normalize.{find}
use gqlite.Storage.Tables.{Name, Class, KeyType, Schema, names, get_indexes}
use gqlite.Storage.Session.{map_basic}

-- `pop_back`, which is undefined on an empty text.
unfoldable pub pop_last : Bytes → Option Bytes
unfolding pop_back
pop_last [] = none
pop_last (c ∷ s) = some (pop_back (c ∷ s))

abbrev pub is_found : Option ℕ → Bool
is_found none = false
is_found (some i) = true

-- The basic map, and names with a colon, are not shown.
unfoldable pub is_shown : Name → Bool
unfolding find
is_shown name = not (bytes_beq name map_basic || is_found (find (58 ∷ []) name))

-- The part of an index behind the prefix, in quotes and with a comma.
unfoldable pub index_texts : Bytes → List Name → Bytes
unfolding find
index_texts prefix [] = []
index_texts prefix (i ∷ is) =
    let rest = index_texts prefix is in
    let text = 39 ∷ (drop (length prefix) i ++ (39 ∷ 44 ∷ rest)) in
    if is_found (find prefix i) then text else rest

-- `, index: [` and `]` around the indexes, if there are any.
unfoldable pub index_part : Name → List Name → Bytes
unfolding index_texts pop_last
index_part name indexes = elim (pop_last (index_texts (name ++ 58 ∷ []) indexes)) [
  | none ↦ []
  | some s ↦ 44 ∷ 32 ∷ 105 ∷ 110 ∷ 100 ∷ 101 ∷ 120 ∷ 58 ∷ 32 ∷ 91 ∷ (s ++ 93 ∷ [])
]

-- `['from', 'name', 'to'],` for a relation, and `{name: []` with the indexes and `},` for a class.
unfoldable pub class_text : List (Name × (Name × Name)) → List Name → Name → Bytes
unfolding index_part
class_text edges indexes name = elim (lookup name edges) [
  | some (from, to) ↦
      91
      ∷ 39
      ∷ (from ++ (39 ∷ 44 ∷ 32 ∷ 39 ∷ (name ++ (39 ∷ 44 ∷ 32 ∷ 39 ∷ (to ++ (39 ∷ 93 ∷ 44 ∷ []))))))
  | none ↦ 123 ∷ (name ++ (58 ∷ 32 ∷ 91 ∷ 93 ∷ (index_part name indexes ++ (125 ∷ 44 ∷ []))))
]

unfoldable pub groups_text : List (Name × (Name × Name)) → List Name → List Name → Bytes
unfolding is_shown class_text
groups_text edges indexes [] = []
groups_text edges indexes (name ∷ rest) =
    let later = groups_text edges indexes rest in
    if is_shown name then class_text edges indexes name ++ later else later

-- `{create: 'graph', group: [groups]};` and a new line.
abbrev pub create_line : Name → Bytes → Bytes
create_line graph groups =
    123
    ∷ 99
    ∷ 114
    ∷ 101
    ∷ 97
    ∷ 116
    ∷ 101
    ∷ 58
    ∷ 32
    ∷ 39
    ∷ (graph
        ++ (39
            ∷ 44
            ∷ 32
            ∷ 103
            ∷ 114
            ∷ 111
            ∷ 117
            ∷ 112
            ∷ 58
            ∷ 32
            ∷ 91
            ∷ (groups ++ (93 ∷ 125 ∷ 59 ∷ 10 ∷ []))))

unfoldable pub create_text : Schema → Name → Option Bytes
unfolding groups_text pop_last names get_indexes
create_text c graph = elim (pop_last (groups_text c.edges (get_indexes c) (names c.classes))) [
  | none ↦ none
  | some groups ↦ some (create_line graph groups)
]

-- Classes with other keys are left out.
abbrev pub is_read : KeyType → Bool
is_read KeyType.byte = true
is_read KeyType.integer = true
is_read _ = false

-- `{upset: 'name', vertex: [key` and, for a record that is not null, a comma and its text.
abbrev pub upset_line : Name → Bytes → Bytes → Bytes
upset_line name key rest =
    123
    ∷ 117
    ∷ 112
    ∷ 115
    ∷ 101
    ∷ 116
    ∷ 58
    ∷ 32
    ∷ 39
    ∷ (name
        ++ (39
            ∷ 44
            ∷ 32
            ∷ 118
            ∷ 101
            ∷ 114
            ∷ 116
            ∷ 101
            ∷ 120
            ∷ 58
            ∷ 32
            ∷ 91
            ∷ (key ++ (rest ++ (93 ∷ 125 ∷ 59 ∷ 10 ∷ [])))))

module _ (to_string : ℕ → Bytes) (normalize : Bytes → Option Bytes) where
  -- A number reads eight bytes of the key.
  unfoldable pub key_text : KeyType → Bytes → Option Bytes
  unfolding read_u64
  key_text KeyType.byte key = some (39 ∷ (key ++ 39 ∷ []))
  key_text KeyType.integer key = elim (read_u64 key) [ none ↦ none | some n ↦ some (to_string n) ]
  key_text _ key = none

  unfoldable pub record_text : Name → KeyType → Bytes × Bytes → Option Bytes
  unfolding key_text
  record_text name type (key, value) = do
    k ← key_text type key
    rest ←
        if bytes_beq value (110 ∷ 117 ∷ 108 ∷ 108 ∷ [])
        then some []
        else (elim (normalize value) [ none ↦ none | some text ↦ some (44 ∷ 32 ∷ text) ])
    some (upset_line name k rest)

  unfoldable pub records_text : Name → KeyType → List (Bytes × Bytes) → Option Bytes
  unfolding record_text
  records_text name type [] = some []
  records_text name type (r ∷ rs) = do
    text ← record_text name type r
    rest ← records_text name type rs
    some (text ++ rest)

  -- A class with no key type is a null that does not convert.
  unfoldable pub class_records : (Name → List (Bytes × Bytes)) → Name → Class → Option Bytes
  unfolding records_text is_shown
  class_records records name c =
      if is_shown name
      then (elim (c.key_type) [
        | none ↦ none
        | some type ↦ (if is_read type then records_text name type (records name) else some [])
      ])
      else some []

  unfoldable pub upset_text : (Name → List (Bytes × Bytes)) → List (Name × Class) → Option Bytes
  unfolding class_records
  upset_text records [] = some []
  upset_text records ((name, c) ∷ rest) = do
    text ← class_records records name c
    later ← upset_text records rest
    some (text ++ later)

  unfoldable pub dump : (Name → List (Bytes × Bytes)) → Schema → Name → Option Bytes
  unfolding create_text upset_text
  dump records c graph = do
    head ← create_text c graph
    rest ← upset_text records c.classes
    some (head ++ rest)
