-- ===== src/Tests/Creations.antt =====
-- The creation of a graph, and its dump, at concrete inputs.
use gqlite.Prelude.{◌≢◌, All, map, ◌≡◌, refl, false, Option, none, some, List, [], ◌∷◌}
use gqlite.Prelude.Eq.{bytes_eq, nat_eq}
use gqlite.Prelude.Maps.{lookup, insert}
use gqlite.Storage.Tables.{Schema, KeyType, IndexType, null_schema, null_class, names, get_indexes}
use gqlite.Normalize.{change_quotes, is_prefix, find, replace_from, replace_all, normalize}
use gqlite.Plans.Dump.{
  is_shown, index_texts, create_line, create_text, key_text, upset_line, record_text,
}
use gqlite.Plans.Dump.Dumped.{join, own_indexes, IsApart, shown, group_text, create_text_lem}
use gqlite.Storage.Memory.{Disk, memory, held, get_cell, create_cells}
use gqlite.Storage.{Storage}
use gqlite.Storage.Session.{map_basic, Dictionary, Files, load_schema}
use gqlite.Plans.Create.{Group, create, close_before}
use gqlite.Plans.Create.Created.{IsWidened, create_lem}

-- A file is a disk, and every text of a schema reads as the schema with no classes.
abbrev files : Files memory
files = record {
  File = Disk;
  start_write = λ f. f;
  commit = λ t. t;
  to_cbor = λ c. 1 ∷ [];
  from_cbor = λ b. some null_schema;
}

abbrev new_file : Disk
new_file = record { maps = []; cells = [] }

abbrev blank : Storage memory
blank = record {
  schema = null_schema;
  handles = [];
  txn = new_file;
  groups_name = [];
  groups_map = [];
}

abbrev no_dictionary : Dictionary
no_dictionary = record { id_to_key = []; key_to_id = [] }

-- A class "A" with an index on "x", and edges "E" from "A" to "A".
abbrev two_groups : List Group
two_groups =
    record { name = 65 ∷ []; properties = none; indexes = some ((120 ∷ []) ∷ []); relation = none }
    ∷ record {
      name = 69 ∷ [];
      properties = none;
      indexes = none;
      relation = some (65 ∷ [], 65 ∷ []);
    }
    ∷ []

abbrev related : Schema
related = record null_schema { edges = (69 ∷ [], (65 ∷ [], 65 ∷ [])) ∷ [] }

create_lem_example :
    (old : Option Disk) × (s' : Storage memory) × (d' : Dictionary) × (create files false blank
        no_dictionary new_file
        (103 ∷ [])
        two_groups
      ≡ some (old, (s', d')))
    × IsWidened related s'.schema
        (map_basic ∷ (65 ∷ []) ∷ (69 ∷ []) ∷ [])
        ((65 ∷ 58 ∷ 120 ∷ []) ∷ [])
unfolding close_before load_schema insert held get_cell create_cells lookup
create_lem_example =
    create_lem files false blank no_dictionary new_file (103 ∷ []) two_groups related refl

-- The class "A" with an index on "x", and a relation "E".
abbrev dumped : Schema
dumped = record null_schema {
  classes = (map_basic, null_class) ∷ (65 ∷ [], null_class) ∷ (69 ∷ [], null_class) ∷ [];
  indexes = (65 ∷ 58 ∷ 120 ∷ [], IndexType.uninitialize) ∷ [];
  edges = (69 ∷ [], (65 ∷ [], 65 ∷ [])) ∷ [];
}

dumped-IsApart : All (λ name. All (IsApart name) (get_indexes dumped)) (names dumped.classes)
unfolding names get_indexes find is_prefix
dumped-IsApart = ((refl, tt), ((refl, tt), ((refl, tt), tt)))

two_shown : shown (names dumped.classes) ≢ []
unfolding names is_shown find is_prefix
two_shown h = cc (h)

create_text_lem_example :
    create_text dumped (103 ∷ [])
    ≡ some (
        create_line (103 ∷ []) (
          join (map (group_text dumped.edges (get_indexes dumped)) (shown (names dumped.classes)))))
create_text_lem_example = create_text_lem dumped (103 ∷ []) dumped-IsApart two_shown

-- {A: [], index: ['x']},['A', 'E', 'A']
two_dumped :
    join (map (group_text dumped.edges (get_indexes dumped)) (shown (names dumped.classes)))
    ≡ 123 ∷ 65 ∷ 58 ∷ 32 ∷ 91 ∷ 93 ∷ 44 ∷ 32 ∷ 105 ∷ 110 ∷ 100 ∷ 101 ∷ 120 ∷ 58 ∷ 32 ∷ 91 ∷ 39 ∷ 120
      ∷ 39 ∷ 93 ∷ 125 ∷ 44 ∷ 91 ∷ 39 ∷ 65 ∷ 39 ∷ 44 ∷ 32 ∷ 39 ∷ 69 ∷ 39 ∷ 44 ∷ 32 ∷ 39 ∷ 65 ∷ 39
      ∷ 93 ∷ []
unfolding join group_text own_indexes get_indexes names is_shown find is_prefix lookup
two_dumped = refl

-- The class "A" shows an index of the class "BA" as ":x".
other_class_index :
    index_texts (65 ∷ 58 ∷ []) ((66 ∷ 65 ∷ 58 ∷ 120 ∷ []) ∷ []) ≡ 39 ∷ 58 ∷ 120 ∷ 39 ∷ 44 ∷ []
unfolding index_texts find is_prefix
other_class_index = refl

-- A text key "k" with the value {"a":1}.
record_dumped :
    record_text
      (λ n. [])
      (normalize (λ s. s) (λ s. s))
      (65 ∷ [])
      KeyType.byte
      (107 ∷ [], 123 ∷ 34 ∷ 97 ∷ 34 ∷ 58 ∷ 49 ∷ 125 ∷ [])
    ≡ some (
        upset_line
          (65 ∷ [])
          (39 ∷ 107 ∷ 39 ∷ [])
          (44 ∷ 32 ∷ 123 ∷ 39 ∷ 97 ∷ 39 ∷ 58 ∷ 49 ∷ 125 ∷ []))
unfolding record_text key_text normalize change_quotes replace_all replace_from find is_prefix
record_dumped = refl
