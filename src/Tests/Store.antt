-- ===== src/Tests/Store.antt =====
-- The storage engine at concrete inputs, over the store in memory: the class "M" and the index "I".
use gqlite.Prelude.{ℕ, ◌≡◌, refl, true, ◌&&◌, none, some, List, [], ◌∷◌, if◌then◌else◌, arith}
use gqlite.Prelude.Eq.{bytes_beq, bytes_eq, nat_eq}
use gqlite.Prelude.Maps.{lookup, insert, contains}
use gqlite.Storage.Tables.{
  Name, Schema, null_schema, KeyType, IndexType, is_map_exist, is_index_exist, class_at, set_class,
  try_init_key_type, update_index_type,
}
use gqlite.Storage.Backend.{is_some}
use gqlite.Storage.Memory.{
  Disk, memory, held, memory-IsLawful, index_of, name_at, cells_of, put_cell, erase_cell,
  create_cells,
}
use gqlite.Storage.{
  success, fail, datum_not_exist, code_of, Storage, get_or_create_handle, note_key, put_record,
  write, write_u64, read, del, del_record,
}
use gqlite.Storage.View.{IsConsistent, is_success}
use gqlite.Storage.Records.{exists, content-write}
use gqlite.Storage.Deleted.{read-del}
use gqlite.Storage.Groups.{GroupsAgree, add_maps, add_maps-GroupsAgree}

abbrev class_m : Name
class_m = 77 ∷ []

no_group : (n : Name) → lookup {V = ℕ} n [] ≡ none
unfolding lookup
no_group n = refl

no_name : (i : ℕ) → lookup {V = Name} i [] ≡ none
unfolding lookup
no_name i = refl

abbrev index_i : Name
index_i = 73 ∷ []

abbrev one_class : Schema
one_class = record null_schema {
  graph = some (103 ∷ []);
  classes = (class_m, record { key_type = some KeyType.byte; val_type = [] }) ∷ [];
  indexes = (index_i, IndexType.number) ∷ [];
}

abbrev empty_disk : Disk
empty_disk = record { maps = []; cells = [] }

abbrev start : Storage memory
start = record {
  schema = one_class;
  handles = [];
  txn = empty_disk;
  groups_name = [];
  groups_map = [];
}

start-IsConsistent : IsConsistent start
unfolding lookup
start-IsConsistent = record { is_handle = λ n h e ne. ground (arith, e) }

there : exists start.schema class_m ≡ true
unfolding is_map_exist is_index_exist contains lookup
there = refl

there_index : exists start.schema index_i ≡ true
unfolding is_map_exist is_index_exist contains lookup
there_index = refl

abbrev key_a : List ℕ
key_a = 97 ∷ []

written : (write start class_m key_a (120 ∷ 121 ∷ [])).0 ≡ success
unfolding write note_key put_record get_or_create_handle create_cells index_of put_cell name_at
    cells_of insert lookup is_map_exist contains try_init_key_type class_at set_class
written = refl

content-write_example : held (write start class_m key_a (120 ∷ [])).1.txn class_m key_a ≡ (
    if is_success (write start class_m key_a (120 ∷ [])).0
      && (bytes_beq class_m class_m && bytes_beq key_a key_a)
    then some (120 ∷ [])
    else held start.txn class_m key_a)
content-write_example =
    content-write memory held memory-IsLawful start class_m key_a (120 ∷ []) class_m key_a
      start-IsConsistent

abbrev seven : List ℕ
seven = 7 ∷ []

written_u64 : (write_u64 start index_i 5 seven).0 ≡ success
unfolding write_u64 note_key put_record get_or_create_handle create_cells index_of put_cell name_at
    cells_of insert lookup is_map_exist contains update_index_type
written_u64 = refl

-- A deletion of a record that is not there.
deleted : (del start class_m key_a).0 ≡ some fail
unfolding del del_record get_or_create_handle create_cells index_of erase_cell name_at cells_of
    insert lookup is_map_exist is_index_exist contains
deleted = refl

read-del_example :
    (fail ≡ code_of (is_some (held start.txn class_m key_a)))
    × ((read (del start class_m key_a).1 class_m key_a []).0 ≡ some (datum_not_exist, []))
    × ((m j : List ℕ)
        → held (del start class_m key_a).1.txn m j
          ≡ (if bytes_beq class_m m && bytes_beq key_a j then none else held start.txn m j))
read-del_example =
    read-del memory held memory-IsLawful start class_m key_a [] fail start-IsConsistent there
      deleted

add_maps-GroupsAgree_example :
    GroupsAgree (add_maps start ((class_m, KeyType.byte) ∷ (index_i, KeyType.integer) ∷ []))
add_maps-GroupsAgree_example =
    add_maps-GroupsAgree start ((class_m, KeyType.byte) ∷ (index_i, KeyType.integer) ∷ [])
      (omega arith)
      (record {
        forth = λ n i e. ground (arith, no_group n, e);
        back = λ n i e. ground (arith, no_name i, e);
        given = λ n i e. ground (arith, no_name i, e);
      })
