-- ===== src/Tests/Scans.antt =====
-- Scans and removals at concrete inputs: the class "M" with the record "a" of the value 120.
use gqlite.Prelude.{
  ℕ, ◌≡◌, ◌≢◌, refl, Bool, true, false, ◌&&◌, Option, none, some, List, [], ◌∷◌, ◌==◌,
  if◌then◌else◌, length, All, arith,
}
use gqlite.Prelude.Eq.{bytes_beq, bytes_eq, nat_eq}
use gqlite.Prelude.Maps.{lookup, contains}
use gqlite.EdgeId.{str}
use gqlite.Storage.Tables.{
  Name, Schema, null_schema, KeyType, IndexType, is_map_exist, is_index_exist, class_at,
  get_relations, get_relations_from,
}
use gqlite.Storage.Backend.{usual}
use gqlite.Storage.Memory.{
  Disk, memory, held, memory-IsLawful, index_of, name_at, cells_of, all_cells,
}
use gqlite.Storage.{Storage, get_or_create_handle}
use gqlite.Storage.View.{IsConsistent}
use gqlite.Storage.Records.{exists}
use gqlite.Storage.Deleted.{IsReady}
use gqlite.Storage.Attributes.{Json, number_integer}
use gqlite.Scan.{
  Attribute, real, text, reals, on_attribute, QueryCondition, Rows, holds, attribute_of,
  predict_vertex, get_key, EntityEdge, simple_scan, query_type, scan_record, scan_group,
}
use gqlite.Scan.Answers.{IsObject, answers}
use gqlite.Scan.Vertices.{all_true, head_true, predict_vertex_lem}
use gqlite.Scan.Collected.{fold_rows, keys_of, meets, selected, IsFitting, scan_group_lem}
use gqlite.Plans.Remove.{collect_key, execute_remove, removed}
use gqlite.Plans.Remove.Removed.{HasNoNul, is_among}
use gqlite.Plans.Remove.Executed.{execute_remove_lem}

abbrev class_m : Name
class_m = 77 ∷ []

abbrev pub index_i : Name
index_i = 73 ∷ []

abbrev pub classes : Schema
classes = record null_schema {
  graph = some (103 ∷ []);
  classes = (class_m, record { key_type = some KeyType.byte; val_type = [] }) ∷ [];
  indexes = (index_i, IndexType.uninitialize) ∷ [];
}

abbrev pub key_a : List ℕ
key_a = 97 ∷ []

abbrev one_record : Disk
one_record = record { maps = class_m ∷ []; cells = (class_m, (key_a, 120 ∷ []) ∷ []) ∷ [] }

abbrev pub start : Storage memory
start = record {
  schema = classes;
  handles = [];
  txn = one_record;
  groups_name = [];
  groups_map = [];
}

pub start-IsConsistent : IsConsistent start
unfolding lookup
start-IsConsistent = record { is_handle = λ n h e ne. ground (arith, e) }

-- A row is a list of bytes; each of its attributes is the number of its bytes.
abbrev pub lists : Json
lists = record {
  Value = List ℕ;
  type_of = λ v. number_integer;
  type_name = λ v. none;
  pairs = λ v. some [];
  is_empty = λ v. false;
  dump = λ v. some v;
}

abbrev list_rows : Rows lists ℕ
list_rows = record {
  parse = λ b. some b;
  member = λ v a. v;
  touched = λ v a. v;
  to_real = λ v. length v;
  to_text = λ v. v;
  to_reals = λ v. v;
}

list_rows-IsObject : IsObject list_rows
list_rows-IsObject = record { member-touched = λ v a b. refl }

abbrev is_real : ℕ → Attribute ℕ → Option Bool
is_real n (real m) = some (n == m)
is_real n (text s) = none
is_real n (reals l) = none

-- `And`: the attribute "x" is 1. `Or`: it is 2, or it is 1.
abbrev asked : QueryCondition ℕ
asked = record {
  and_pattern = record {
    attrs = some ((120 ∷ []) ∷ []);
    node_predicates = on_attribute (is_real 1) ∷ [];
    edges = [];
  };
  or_pattern = record {
    attrs = some ((120 ∷ []) ∷ (120 ∷ []) ∷ []);
    node_predicates = on_attribute (is_real 2) ∷ on_attribute (is_real 1) ∷ [];
    edges = [];
  };
}

and_answers :
    answers list_rows
      (str key_a)
      (120 ∷ [])
      asked.and_pattern.node_predicates
      asked.and_pattern.attrs
    ≡ some (true ∷ [])
unfolding answers attribute_of
and_answers = refl

or_answers :
    answers list_rows (str key_a) (120 ∷ []) asked.or_pattern.node_predicates asked.or_pattern.attrs
    ≡ some (false ∷ true ∷ [])
unfolding answers attribute_of
or_answers = refl

-- The second predicate of `Or` holds, and the row is not taken.
predict_vertex_lem_example :
    (predict_vertex list_rows asked (str key_a) (120 ∷ [])).0
    ≡ holds (all_true (true ∷ []) && head_true (false ∷ true ∷ []))
predict_vertex_lem_example =
    predict_vertex_lem list_rows (str key_a) (120 ∷ []) list_rows-IsObject asked (true ∷ [])
      (false ∷ true ∷ []) and_answers or_answers

abbrev only_and : QueryCondition ℕ
only_and = record asked { or_pattern = record { attrs = none; node_predicates = []; edges = [] } }

abbrev number_of : List ℕ → ℕ
number_of s = 0

abbrev two_records : List (List ℕ × List ℕ)
two_records = (key_a, 120 ∷ []) ∷ (98 ∷ [], []) ∷ []

two_records-IsFitting : All (IsFitting list_rows only_and KeyType.byte) two_records
unfolding meets get_key answers attribute_of
two_records-IsFitting = ((true, refl), ((false, refl), tt))

only_and-simple : query_type (some only_and) ≡ simple_scan
unfolding query_type
only_and-simple = refl

-- The first of the two records is taken.
two_records-selected : selected list_rows only_and KeyType.byte two_records ≡ key_a ∷ []
unfolding selected meets get_key answers attribute_of
two_records-selected = refl

scan_group_lem_example :
    (rows : List (List ℕ × List ℕ)) × ((s : List (List ℕ))
      → scan_group list_rows number_of collect_key (some only_and) KeyType.byte two_records s
        ≡ some (fold_rows collect_key s rows))
    × (keys_of rows ≡ selected list_rows only_and KeyType.byte two_records)
scan_group_lem_example =
    scan_group_lem list_rows only_and KeyType.byte number_of list_rows-IsObject refl only_and-simple
      collect_key two_records two_records-IsFitting

-- A condition with a path hands on no row.
abbrev any_edge : EntityEdge
any_edge = record { start_label = []; end_label = []; direction = true }

abbrev path_asked : QueryCondition ℕ
path_asked = record only_and {
  and_pattern = record (only_and.and_pattern) { edges = any_edge ∷ any_edge ∷ [] };
}

path_scans_nothing :
    scan_group list_rows number_of collect_key (some path_asked) KeyType.byte two_records []
    ≡ some []
unfolding scan_group scan_record query_type
path_scans_nothing = refl

no_relations : get_relations classes class_m ≡ []
unfolding get_relations get_relations_from
no_relations = refl

is_class : is_map_exist classes class_m ≡ true
unfolding is_map_exist contains lookup
is_class = refl

has_bytes : (class_at classes class_m).key_type ≡ some KeyType.byte
unfolding class_at lookup
has_bytes = refl

start_exists : exists classes class_m ≡ true
unfolding is_map_exist is_index_exist contains lookup
start_exists = refl

start_handle : (get_or_create_handle start class_m usual).0 ≢ 0
unfolding get_or_create_handle lookup index_of
start_handle e = cc (e)

start-IsReady : IsReady memory held memory-IsLawful start class_m usual
start-IsReady = record {
  consistent = start-IsConsistent;
  there = start_exists;
  handle = start_handle;
}

start_pairs :
    all_cells
      (get_or_create_handle start class_m usual).1.txn
      (get_or_create_handle start class_m usual).0
    ≡ (key_a, 120 ∷ []) ∷ []
unfolding get_or_create_handle lookup index_of all_cells name_at cells_of
start_pairs = refl

start-IsFitting : All (IsFitting list_rows only_and KeyType.byte) (
    all_cells
      (get_or_create_handle start class_m usual).1.txn
      (get_or_create_handle start class_m usual).0)
start-IsFitting = rw start_pairs (two_records-IsFitting.0, tt)

start-selected :
    selected list_rows only_and KeyType.byte (
      all_cells
        (get_or_create_handle start class_m usual).1.txn
        (get_or_create_handle start class_m usual).0)
    ≡ key_a ∷ []
start-selected = rw start_pairs (unfold selected meets get_key answers attribute_of in refl)

found_keys : All HasNoNul (
    selected list_rows only_and KeyType.byte (
      all_cells
        (get_or_create_handle start class_m usual).1.txn
        (get_or_create_handle start class_m usual).0))
found_keys = rw start-selected ((omega arith, tt), tt)

execute_remove_lem_example :
    (s' : Storage memory) × (execute_remove list_rows number_of
        (some only_and)
        class_m
        ((7, class_m) ∷ [])
        start
      ≡ some (removed, s'))
    × ((m j : List ℕ)
        → held s'.txn m j ≡ (
            if bytes_beq class_m m
              && is_among j (
                  selected list_rows only_and KeyType.byte (
                    all_cells
                      (get_or_create_handle start class_m usual).1.txn
                      (get_or_create_handle start class_m usual).0))
            then none
            else held one_record m j))
execute_remove_lem_example =
    execute_remove_lem list_rows number_of memory held memory-IsLawful list_rows-IsObject only_and 7
      class_m start only_and-simple is_class has_bytes no_relations start-IsReady start-IsFitting
      found_keys
