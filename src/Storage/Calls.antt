-- ===== src/Storage/Calls.antt =====
-- src/StorageEngine/StorageEngine.cpp: the calls of `GStorageEngine` in any order, and what they keep.
use gqlite.Prelude.{
  Bool, Option, none, if◌then◌else◌, Option-cases, inl, inr, ℕ, ◌%◌, ◌≡◌, ◌≢◌, refl, some, List, [],
  ◌∷◌, length, arith,
}
use gqlite.Prelude.Eq.{bytes_beq_iff, bytes_eq}
use gqlite.Prelude.Maps.{lookup, contains, lookup-insert}
use gqlite.Word.{le_bytes}
use gqlite.Storage.Tables.{
  Name, Schema, Class, AttributeKind, KeyType, class_at, add_class, add_index, IndexType,
  try_init_key_type, update_index_type, is_uninitialize,
}
use gqlite.Storage.Tables.Keys.{
  class_at-set_class, HasKeyType, add_class-HasKeyType, add_index-class_at,
  try_init_key_type-HasKeyType,
}
use gqlite.Storage.Backend.{Kv, KeyMode, usual, ordinal}
use gqlite.Storage.{
  Storage, write, write_u64, read, read_u64, get_record, get_or_create_handle, del, del_u64,
  del_record, add_map,
}
use gqlite.EdgeId.{EdgeId}
use gqlite.Storage.EdgeScan.{
  is_match, is_match_str, erase_matching, scan_edges, del_edges, del_edges_u64,
}
use gqlite.Storage.View.{schema-get_or_create_handle}
use gqlite.Storage.Attributes.{Json, write_json, write_json_u64}
use gqlite.Storage.Attributes.Numbered.{IsNumbered, added-IsNumbered}
use gqlite.Storage.Attributes.Kept.{
  IsKept, Holds, val_type-note_key, note_key-HasKeyType, write-Holds, write_u64-Holds,
  write_json-Holds, write_json_u64-Holds,
}

pub data Call (J : Json) : Type 0 where
  add_map_call : Name → KeyType → Call J
  add_index_call : Name → Call J
  try_init_key_type_call : Name → KeyType → Call J
  update_index_type_call : Name → IndexType → Call J
  write_call : Name → List ℕ → List ℕ → Call J
  write_u64_call : Name → ℕ → List ℕ → Call J
  write_json_call : Name → List ℕ → J.Value → Call J
  write_json_u64_call : Name → ℕ → J.Value → Call J
  read_call : Name → List ℕ → Call J
  read_u64_call : Name → ℕ → Call J
  del_call : Name → List ℕ → Call J
  del_u64_call : Name → ℕ → Call J
  del_edges_call : Name → List ℕ → Bool → Call J
  del_edges_u64_call : Name → ℕ → Bool → Call J

abbrev updated_schema : Schema → Option (IndexType × Schema) → Schema
updated_schema c none = c
updated_schema c (some (t, c')) = c'

abbrev or_before : {K : Kv} → Storage K → Option (Storage K) → Storage K
or_before s none = s
or_before s (some s') = s'

module _ (J : Json) {K : Kv} where
  -- The state that a call leaves, whether it returns or throws; where a deletion of edges throws, the
  -- state of before, whose schema it is.
  unfoldable pub after : Storage K → Call J → Storage K
  after s (add_map_call n type) = add_map s n type
  after s (add_index_call n) = record s { schema = add_index s.schema n }
  after s (try_init_key_type_call n type) = record s { schema = try_init_key_type s.schema n type }
  after s (update_index_type_call n type) = record s {
    schema = updated_schema s.schema (update_index_type s.schema n type);
  }
  after s (write_call n k v) = (write s n k v).1
  after s (write_u64_call n k v) = (write_u64 s n k v).1
  after s (write_json_call n k v) = (write_json J s n k v).1
  after s (write_json_u64_call n k v) = (write_json_u64 J s n k v).1
  after s (read_call n k) = (read s n k []).1
  after s (read_u64_call n k) = (read_u64 s n k []).1
  after s (del_call n k) = (del s n k).1
  after s (del_u64_call n k) = (del_u64 s n k).1
  after s (del_edges_call n k from) = or_before s (del_edges s n k from)
  after s (del_edges_u64_call n k from) = or_before s (del_edges_u64 s n k from)

  unfoldable pub run : Storage K → List (Call J) → Storage K
  unfolding after
  run s [] = s
  run s (call ∷ calls) = run (after s call) calls

module _ {K : Kv} (s : Storage K) (n : Name) (mode : KeyMode) where
  schema-get_record : (k v : List ℕ) → (get_record s n mode k v).1.schema ≡ s.schema
  unfolding get_record
  schema-get_record k v = ground (arith, schema-get_or_create_handle s n mode)

  schema-del_record : (k : List ℕ) → (del_record s n mode k).1.schema ≡ s.schema
  unfolding del_record
  schema-del_record k = ground (arith, schema-get_or_create_handle s n mode)

schema-scan_edges :
    {K : Kv} (s : Storage K) (n : Name) (test : EdgeId → Option Bool)
    → (or_before s (scan_edges s n test)).schema ≡ s.schema
unfolding scan_edges
schema-scan_edges {K} s n test =
    let h = (get_or_create_handle s n ordinal).0 in
    let s' = (get_or_create_handle s n ordinal).1 in
    elim (Option-cases (erase_matching K test s'.txn h (K.pairs s'.txn h))) [
      | inl e ↦ ground (arith, e)
      | inr (t, e) ↦ ground (arith, e, schema-get_or_create_handle s n ordinal)
    ]

class_at-updated_schema :
    (c : Schema) (n m : Name) (type : IndexType)
    → class_at (updated_schema c (update_index_type c n type)) m ≡ class_at c m
unfolding update_index_type class_at
class_at-updated_schema c n m type = elim (Option-cases (lookup n c.indexes)) [
  | inl e ↦ ground (arith, e)
  | inr (old, e) ↦ ground (arith, e)
]

schema-add_map :
    {K : Kv} (s : Storage K) (n : Name) (type : KeyType)
    → (add_map s n type).schema ≡ add_class s.schema n type
unfolding add_map
schema-add_map s n type = ground arith

module _ (J : Json) (P : Name → Class → Type 0) (kept : IsKept J P) {K : Kv} where
  after-Holds : (s : Storage K) (call : Call J) → Holds J P kept s → Holds J P kept (after J s call)
  unfolding after read read_u64 del del_u64 del_edges del_edges_u64
  after-Holds s (add_map_call n type) h m =
      rw (schema-add_map s n type) (kept.by_class s.schema n m type (h m))
  after-Holds s (add_index_call n) h m = rw (add_index-class_at s.schema n m) (h m)
  after-Holds s (try_init_key_type_call n type) h m = kept.by_type s.schema n m type (h m)
  after-Holds s (update_index_type_call n type) h m =
      rw (class_at-updated_schema s.schema n m type) (h m)
  after-Holds s (write_call n k v) h m = write-Holds J P kept s n k v h m
  after-Holds s (write_u64_call n k v) h m = write_u64-Holds J P kept s n k v h m
  after-Holds s (write_json_call n k v) h m = write_json-Holds J P kept s n k v h m
  after-Holds s (write_json_u64_call n k v) h m = write_json_u64-Holds J P kept s n k v h m
  after-Holds s (read_call n k) h m = rw (schema-get_record s n usual k []) (h m)
  after-Holds s (read_u64_call n k) h m = rw (schema-get_record s n ordinal (le_bytes 8 k) []) (h m)
  after-Holds s (del_call n k) h m = rw (schema-del_record s n usual k) (h m)
  after-Holds s (del_u64_call n k) h m = rw (schema-del_record s n ordinal (le_bytes 8 k)) (h m)
  after-Holds s (del_edges_call n k from) h m =
      rw (schema-scan_edges s n (is_match_str k from)) (h m)
  after-Holds s (del_edges_u64_call n k from) h m = rw (schema-scan_edges s n (is_match k)) (h m)

  pub run-Holds :
      (s : Storage K) (calls : List (Call J)) → Holds J P kept s → Holds J P kept (run J s calls)
  unfolding run
  run-Holds s [] h = h
  run-Holds s (call ∷ calls) h = run-Holds (after J s call) calls (after-Holds s call h)

-- The two facts about one class that its other changes keep.
key_type-IsKept :
    (J : Json) (n : Name) (t : KeyType)
    → t ≢ KeyType.uninitialize
    → IsKept J (λ m x. n ≡ m → x.key_type ≡ some t)
key_type-IsKept J n t ne = record {
  by_key = λ c i m key index h e. note_key-HasKeyType c i m key t index ne (h e);
  by_attribute = λ m x i kind new room h e. h e;
  by_class = λ c i m type h e. add_class-HasKeyType c i m type t (h e);
  by_type = λ c i m type h e. try_init_key_type-HasKeyType c i m type t ne (h e);
}

val_type-add_class :
    (c : Schema) (n m : Name) (type : KeyType)
    → (class_at (add_class c n type) m).val_type ≡ (class_at c m).val_type
unfolding add_class
val_type-add_class c n m type = ground (
  arith,
  class_at-set_class c n m (record (class_at c n) { key_type = some type }),
  bytes_beq_iff n m,
)

val_type-try_init_key_type :
    (c : Schema) (n m : Name) (type : KeyType)
    → (class_at (try_init_key_type c n type) m).val_type ≡ (class_at c m).val_type
unfolding try_init_key_type
val_type-try_init_key_type c n m type =
    let x =
      if is_uninitialize (class_at c n).key_type
      then record (class_at c n) { key_type = some type }
      else class_at c n in
    ground (arith, class_at-set_class c n m x, bytes_beq_iff n m)

numbers-IsKept : (J : Json) → IsKept J (λ m x. IsNumbered x.val_type)
numbers-IsKept J = record {
  by_key = λ c i m key index h. rw (val_type-note_key c i m key index) h;
  by_attribute = λ m x i kind new room h. added-IsNumbered x.val_type i kind new room h;
  by_class = λ c i m type h. rw (val_type-add_class c i m type) h;
  by_type = λ c i m type h. rw (val_type-try_init_key_type c i m type) h;
}

entry-IsKept :
    (J : Json) (n attr : Name) (entry : AttributeKind × ℕ)
    → IsKept J (λ m x. n ≡ m → lookup attr x.val_type ≡ some entry)
unfolding contains
entry-IsKept J n attr entry = record {
  by_key = λ c i m key index h e. rw (val_type-note_key c i m key index) (h e);
  by_attribute = λ m x i kind new room h e. ground (
    arith,
    h e,
    lookup-insert i attr (kind, length x.val_type % 256) x.val_type,
    bytes_beq_iff i attr,
  );
  by_class = λ c i m type h e. rw (val_type-add_class c i m type) (h e);
  by_type = λ c i m type h e. rw (val_type-try_init_key_type c i m type) (h e);
}

-- Whatever calls of `addMap`, `addIndex`, `tryInitKeyType`, `updateIndexType`, `write`, `read` and
-- `del` are made of the store, which stays open: a key type of a class that is set is not changed
-- again.
pub run-HasKeyType :
    (J : Json) {K : Kv} (s : Storage K) (calls : List (Call J)) (n : Name) (t : KeyType)
    → t ≢ KeyType.uninitialize
    → HasKeyType s.schema n t
    → HasKeyType (run J s calls).schema n t
run-HasKeyType J s calls n t ne h =
    run-Holds J (λ m x. n ≡ m → x.key_type ≡ some t) (key_type-IsKept J n t ne) s calls
      (λ m e. rw⁻¹ e h) n refl

-- Whatever calls of `addMap`, `addIndex`, `tryInitKeyType`, `updateIndexType`, `write`, `read` and
-- `del` are made of the store, which stays open: the attributes of every class have the numbers from 0
-- on in the order in which they were noted, each of one byte, and an attribute keeps its number and
-- its kind, if the numbers were so before.
pub run-IsNumbered :
    (J : Json) {K : Kv} (s : Storage K) (calls : List (Call J))
    → ((m : Name) → IsNumbered (class_at s.schema m).val_type)
    → ((m : Name) → IsNumbered (class_at (run J s calls).schema m).val_type)
      × ((m attr : Name) (entry : AttributeKind × ℕ)
          → lookup attr (class_at s.schema m).val_type ≡ some entry
          → lookup attr (class_at (run J s calls).schema m).val_type ≡ some entry)
run-IsNumbered J s calls h = (
  run-Holds J (λ m x. IsNumbered x.val_type) (numbers-IsKept J) s calls h,
  λ n attr entry q.
      run-Holds J (λ m x. n ≡ m → lookup attr x.val_type ≡ some entry) (entry-IsKept J n attr entry)
        s calls (λ m e. rw⁻¹ e q) n refl,
)
