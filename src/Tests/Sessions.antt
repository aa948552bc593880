-- ===== src/Tests/Sessions.antt =====
-- Sessions of the storage engine at concrete inputs.
use gqlite.Prelude.{
  ℕ, zero, suc, ◌%◌, ◌≡◌, ◌≢◌, refl, Bool, true, false, ◌&&◌, none, some, List, [], ◌∷◌,
  if◌then◌else◌, length, arith,
}
use gqlite.Prelude.Eq.{bytes_beq, bytes_beq_iff, bytes_eq, nat_eq}
use gqlite.Prelude.Maps.{lookup, insert, contains}
use gqlite.Prelude.Options.{◌>>=◌}
use gqlite.Word.{of_le_bytes}
use gqlite.EdgeId.{to_edge_id}
use gqlite.Storage.Tables.{Name, Schema, null_schema, AttributeKind, KeyType, is_open, class_at}
use gqlite.Storage.Tables.Keys.{HasKeyType}
use gqlite.Storage.Backend.{ordinal}
use gqlite.Storage.Memory.{
  Disk, memory, held, memory-IsLawful, index_of, name_at, cells_of, put_cell, create_cells,
  all_cells,
}
use gqlite.Storage.{Storage, get_or_create_handle, add_map, get_group_id, get_group_name}
use gqlite.Storage.View.{IsConsistent}
use gqlite.Storage.Groups.{add_map_full}
use gqlite.Storage.Attributes.{Json, number_integer}
use gqlite.Storage.Attributes.Numbered.{IsNumbered}
use gqlite.Storage.Calls.{Call, write_json_call, add_map_call, run, run-HasKeyType, run-IsNumbered}
use gqlite.Storage.Session.{
  db_schema, schema_basic, map_basic, Dictionary, Files, IsFaithful, open_file, close_file,
}
use gqlite.Storage.Session.Reopened.{schema_map, open_file-close_file}
use gqlite.Storage.EdgeScan.{is_match, is_match_from, is_match_to, del_edges_u64}
use gqlite.Storage.EdgeScan.Erased.{Answers, del_edges_u64_lem}
use gqlite.Word.{read_u64}

abbrev class_m : Name
class_m = 77 ∷ []

abbrev one_class : Schema
one_class = record null_schema {
  graph = some (103 ∷ []);
  classes = (class_m, record { key_type = some KeyType.byte; val_type = [] }) ∷ [];
}

-- Edges are kept in the class "M", here one from 1 to 2.
abbrev edge_key : List ℕ
edge_key = 65 ∷ 16 ∷ 1 ∷ 0 ∷ 0 ∷ 0 ∷ 0 ∷ 0 ∷ 0 ∷ 0 ∷ 2 ∷ 0 ∷ 0 ∷ 0 ∷ 0 ∷ 0 ∷ 0 ∷ 0 ∷ []

abbrev one_edge : Disk
one_edge = record { maps = class_m ∷ []; cells = (class_m, (edge_key, 120 ∷ []) ∷ []) ∷ [] }

abbrev start : Storage memory
start = record {
  schema = one_class;
  handles = [];
  txn = one_edge;
  groups_name = [];
  groups_map = [];
}

start-IsConsistent : IsConsistent start
unfolding lookup
start-IsConsistent = record { is_handle = λ n h e ne. ground (arith, e) }

-- JSON values that are numbers, each with the attribute "x".
abbrev numbers : Json
numbers = record {
  Value = ℕ;
  type_of = λ v. number_integer;
  type_name = λ v. none;
  pairs = λ v. some ((120 ∷ [], v) ∷ []);
  is_empty = λ v. false;
  dump = λ v. some (v ∷ []);
}

abbrev calls : List (Call numbers)
calls = add_map_call (78 ∷ []) KeyType.integer ∷ write_json_call class_m (97 ∷ []) 3 ∷ []

byte_set : KeyType.byte ≢ KeyType.uninitialize
byte_set e = cc (e)

has_byte : HasKeyType one_class class_m KeyType.byte
unfolding class_at lookup
has_byte = refl

run-HasKeyType_example : HasKeyType (run numbers start calls).schema class_m KeyType.byte
run-HasKeyType_example = run-HasKeyType numbers start calls class_m KeyType.byte byte_set has_byte

no_attribute : (m : Name) → (class_at one_class m).val_type ≡ []
unfolding class_at lookup
no_attribute m = ground arith

no_attributes : (m : Name) → IsNumbered (class_at one_class m).val_type
no_attributes m = rw (no_attribute m) (record { from_zero = tt; one_byte = omega arith })

run-IsNumbered_example :
    ((m : Name) → IsNumbered (class_at (run numbers start calls).schema m).val_type)
    × ((m attr : Name) (entry : AttributeKind × ℕ)
        → lookup attr (class_at one_class m).val_type ≡ some entry
        → lookup attr (class_at (run numbers start calls).schema m).val_type ≡ some entry)
run-IsNumbered_example = run-IsNumbered numbers start calls no_attributes

-- 256 groups, as `addMap` numbers them.
abbrev names_to : ℕ → List (ℕ × Name)
names_to zero = []
names_to (suc n) = ((suc n) % 256, suc n ∷ []) ∷ names_to n

abbrev ids_to : ℕ → List (Name × ℕ)
ids_to zero = []
ids_to (suc n) = (suc n ∷ [], (suc n) % 256) ∷ ids_to n

abbrev full : Storage memory
full = record start { groups_name = names_to 256; groups_map = ids_to 256 }

full_length : length full.groups_name ≡ 256
full_length = refl

not_yet : contains (300 ∷ []) full.groups_map ≡ false
unfolding contains lookup
not_yet = refl

first_group : get_group_id full (1 ∷ []) ≡ some 1
unfolding get_group_id lookup
first_group = refl

add_map_full_example :
    (get_group_name (add_map full (300 ∷ []) KeyType.byte) 1 ≡ some (300 ∷ []))
    × (get_group_id (add_map full (300 ∷ []) KeyType.byte) (300 ∷ []) ≡ some 1)
    × (get_group_id (add_map full (300 ∷ []) KeyType.byte) (1 ∷ []) ≡ some 1)
add_map_full_example =
    add_map_full full (300 ∷ []) (1 ∷ []) KeyType.byte full_length not_yet first_group

-- The file is the store; the text of the one schema that is saved is the byte 1.
abbrev files : Files memory
files = record {
  File = Disk;
  start_write = λ f. f;
  commit = λ t. t;
  to_cbor = λ c. 1 ∷ [];
  from_cbor = λ b. some one_class;
}

files-IsFaithful : IsFaithful files held one_class
files-IsFaithful = record {
  start_write-commit = λ t n k. refl;
  from_cbor-to_cbor = refl;
  to_cbor_some = λ e. cc (e);
}

no_dict : Dictionary
no_dict = record { id_to_key = []; key_to_id = [] }

opened : is_open one_class ≡ true
unfolding is_open
opened = refl

schema_handle : (schema_map memory one_edge).0 ≢ 0
unfolding create_cells index_of
schema_handle e = cc (e)

saved_schema :
    (put_cell (schema_map memory one_edge).1 (schema_map memory one_edge).0 schema_basic (1 ∷ [])).0
    ≡ true
unfolding create_cells index_of put_cell name_at cells_of insert lookup
saved_schema = refl

opened-IsHandle : (schema_map memory (close_file files start no_dict).0).0 ≢ 0
unfolding create_cells index_of close_file put_cell name_at cells_of insert lookup is_open
opened-IsHandle e = cc (e)

open_file-close_file_example :
    (r : Storage memory × Dictionary) × (open_file files start no_dict
        (close_file files start no_dict).0
        (104 ∷ [])
        1
      ≡ some r)
    × ((m : Name) → m ≢ map_basic → class_at r.0.schema m ≡ class_at one_class m)
    × (r.0.schema.indexes ≡ [])
    × (r.0.schema.edges ≡ [])
    × ((n k : List ℕ)
        → held r.0.txn n k ≡ (
            if bytes_beq db_schema n && bytes_beq schema_basic k
            then some (1 ∷ [])
            else held one_edge n k))
open_file-close_file_example =
    open_file-close_file memory files held memory-IsLawful start start no_dict no_dict (104 ∷ []) 1
      files-IsFaithful opened schema_handle saved_schema opened-IsHandle

edge_handle : (get_or_create_handle start class_m ordinal).0 ≢ 0
unfolding get_or_create_handle lookup index_of
edge_handle e = cc (e)

-- The answer of the test for the number 2.
abbrev ends_in_2 : List ℕ → Bool
ends_in_2 k = elim (to_edge_id k >>= is_match 2) [ none ↦ false | some b ↦ b ]

edge_pairs :
    all_cells
      (get_or_create_handle start class_m ordinal).1.txn
      (get_or_create_handle start class_m ordinal).0
    ≡ (edge_key, 120 ∷ []) ∷ []
unfolding get_or_create_handle lookup index_of all_cells name_at cells_of
edge_pairs = refl

edge_matches : (to_edge_id edge_key >>= is_match 2) ≡ some true
unfolding to_edge_id is_match is_match_from is_match_to read_u64 of_le_bytes
edge_matches = refl

edge_decided : (to_edge_id edge_key >>= is_match 2) ≡ some (ends_in_2 edge_key)
edge_decided = ground (arith, edge_matches)

only_key : (k : List ℕ) → contains {V = List ℕ} k ((edge_key, 120 ∷ []) ∷ []) ≡ true → edge_key ≡ k
unfolding contains lookup
only_key k h = ground (arith, bytes_beq_iff edge_key k)

edge-Answers : Answers (is_match 2) ends_in_2 (
    all_cells
      (get_or_create_handle start class_m ordinal).1.txn
      (get_or_create_handle start class_m ordinal).0)
edge-Answers = rw edge_pairs (λ k h. rw⁻¹ (only_key k h) edge_decided)

del_edges_u64_lem_example :
    (s' : Storage memory) × (del_edges_u64 start class_m 2 true ≡ some s')
    × ((m j : List ℕ)
        → held s'.txn m j
          ≡ (if bytes_beq class_m m && ends_in_2 j then none else held one_edge m j))
del_edges_u64_lem_example =
    del_edges_u64_lem memory held memory-IsLawful start class_m 2 true ends_in_2 start-IsConsistent
      edge_handle edge-Answers
