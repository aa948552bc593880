-- ===== src/Tests/Upserts.antt =====
-- Upserts at concrete inputs, into the store of the scans.
use gqlite.Prelude.{ℕ, ◌/◌, ◌≡◌, refl, Option, some, List, [], ◌∷◌, ◌++◌, length, take}
use gqlite.Prelude.Eq.{bytes_eq, nat_eq}
use gqlite.Prelude.Maps.{lookup, insert, contains}
use gqlite.Word.{le_bytes}
use gqlite.Sorted.{add_unique}
use gqlite.EdgeId.{Key, num}
use gqlite.Storage.Tables.{Name, Schema, IndexType, is_map_exist, is_index_exist, update_index_type}
use gqlite.Storage.Memory.{
  memory, held, memory-IsLawful, index_of, name_at, cells_of, put_cell, get_cell, create_cells,
}
use gqlite.Storage.{
  Code, success, datum_not_exist, Storage, get_or_create_handle, note_key, put_record, get_record,
  write, read,
}
use gqlite.Storage.Attributes.{write_json_u64}
use gqlite.Plans.Upset.{to_words, words, buffer, upset_index_u64}
use gqlite.Plans.Upset.Entries.{upset_index_u64_lem}
use gqlite.Tests.Scans.{index_i, classes, key_a, start, start-IsConsistent, lists}

-- All values have the attribute of the index, whose entries are left as they are.
abbrev leave : Storage memory → Name → List ℕ → Key → Option Code × Storage memory
leave s index value key = (some success, s)

abbrev index_of_class : Name
index_of_class = index_i ++ 58 ∷ 120 ∷ []

abbrev after_write : Storage memory
after_write = (write_json_u64 lists start index_i 5 (120 ∷ [])).1

abbrev after_second : Storage memory
after_second = (write_json_u64 lists after_write index_i 6 (121 ∷ [])).1

abbrev two_vertexes : List (Key × List ℕ)
two_vertexes = (num 5, 120 ∷ []) ∷ (num 6, 121 ∷ []) ∷ []

abbrev after_read : Storage memory
after_read = (read start index_i key_a []).1

abbrev after_entry : Storage memory
after_entry = (write after_read index_i key_a (9 ∷ [])).1

entry_read : read start index_i key_a [] ≡ (some (datum_not_exist, []), after_read)
unfolding read get_record get_or_create_handle create_cells index_of get_cell name_at held cells_of
    insert lookup is_map_exist is_index_exist contains
entry_read = refl

entry_written :
    (let ids = (add_unique (to_words []) 9).0 in
      write after_read index_i key_a (take (length ids) (buffer ids)) ≡ (success, after_entry))
unfolding add_unique to_words words buffer le_bytes read get_record write note_key put_record
    get_or_create_handle create_cells index_of put_cell get_cell name_at held cells_of insert lookup
    is_map_exist is_index_exist contains update_index_type
entry_written = refl

abbrev with_type : Schema
with_type = record classes { indexes = (index_i, IndexType.word) ∷ [] }

entry_typed :
    update_index_type after_entry.schema index_i IndexType.number ≡ some (IndexType.word, with_type)
unfolding read get_record write note_key put_record get_or_create_handle create_cells index_of
    put_cell get_cell name_at held cells_of insert lookup is_map_exist is_index_exist contains
    update_index_type
entry_typed = refl

upset_index_u64_lem_example :
    (upset_index_u64 start index_i IndexType.number key_a 9
      ≡ some (record after_entry { schema = with_type }))
    × ((w : List ℕ) × (held after_entry.txn index_i key_a ≡ some w)
        × (length (to_words w) ≡ length (add_unique (to_words []) 9).0 / 8))
upset_index_u64_lem_example =
    upset_index_u64_lem memory held memory-IsLawful start after_read after_entry with_type index_i
      IndexType.number IndexType.word key_a [] datum_not_exist 9 start-IsConsistent entry_read
      entry_written entry_typed
