-- ===== src/Plans/Upset.antt =====
-- src/plan/mutate/UpsetPlan.cpp: the writes of an upsert, and the index entries of numbers and texts.
-- `none` stands for an exception or a failed assertion of the store.
pub mod Stops
pub mod Entries
use gqlite.Prelude.{
  ℕ, zero, suc, ◌+◌, ◌*◌, ◌/◌, ◌≡◌, Bool, true, false, Option, none, some, List, [], ◌∷◌, ◌++◌,
  ◌==◌, ltb, if◌then◌else◌, length, take, drop,
}
use gqlite.Prelude.Options.{◌>>=◌}
use gqlite.Word.{le_bytes, of_le_bytes}
use gqlite.Sorted.{add_unique}
use gqlite.EdgeId.{Key, str, num, EdgeId, to_string}
use gqlite.Storage.Tables.{
  Name, KeyType, IndexType, try_init_key_type, update_index_type, get_key_type,
}
use gqlite.Storage.Backend.{Kv}
use gqlite.Storage.{Code, success, fail, datum_not_exist, Storage, write, write_u64, read}
use gqlite.Storage.Attributes.{Json, write_json, write_json_u64}

-- The `data.size() / sizeof(uint64_t)` numbers in a buffer.
unfoldable pub words : ℕ → List ℕ → List ℕ
unfolding of_le_bytes
words zero bytes = []
words (suc n) bytes = of_le_bytes (take 8 bytes) ∷ words n (drop 8 bytes)

unfoldable pub to_words : List ℕ → List ℕ
unfolding words
to_words bytes = words (length bytes / 8) bytes

-- The buffer of a vector of numbers.
unfoldable pub buffer : List ℕ → List ℕ
unfolding le_bytes
buffer [] = []
buffer (n ∷ ns) = le_bytes 8 n ++ buffer ns

module _ {K : Kv} where
  -- The four `upsetIndex` read the entry of a value, add an id, and write the entry. With numbers as
  -- ids, `v.size()` bytes are written.
  unfoldable pub upset_index_u64 : Storage K → Name → IndexType → List ℕ → ℕ → Option (Storage K)
  unfolding read write to_words buffer add_unique update_index_type
  upset_index_u64 s index type value id =
      let (r, s1) = read s index value [] in
      elim r [
        | none ↦ none
        | some (code, bytes) ↦
            let v = (add_unique (to_words bytes) id).0 in
            let s2 = (write s1 index value (take (length v) (buffer v))).1 in
            elim (update_index_type s2.schema index type) [
              | none ↦ none
              | some (got, schema) ↦ some (record s2 { schema = schema })
            ]
      ]

  -- The loop of `upsetEdge`, behind `tryInitKeyType`.
  unfoldable pub write_edges : Storage K → Name → List (EdgeId × List ℕ) → Storage K
  unfolding write to_string
  write_edges s class [] = s
  write_edges s class ((id, bytes) ∷ edges) =
      write_edges (write s class (to_string id) bytes).1 class edges

  unfoldable pub upset_edge : Storage K → Name → List (EdgeId × List ℕ) → Code × Storage K
  unfolding write_edges try_init_key_type
  upset_edge s class edges = (
    success,
    write_edges (record s { schema = try_init_key_type s.schema class KeyType.edge }) class edges,
  )

abbrev pub is_integer : KeyType → Bool
is_integer KeyType.integer = true
is_integer _ = false

abbrev pub is_byte : KeyType → Bool
is_byte KeyType.byte = true
is_byte _ = false

-- `attribute` is `item.count(k)` and `item[k]` of the JSON library. `upset_value` stands for the writes
-- that follow from the type of the value, which end in one of the four `upsetIndex` or in an HNSW index;
-- `none` is an exception.
module _ (J : Json) {K : Kv} (attribute : J.Value → Name → Option J.Value)
    (upset_value : Storage K → Name → J.Value → Key → Option Code × Storage K) where
  -- The loop of `upsetIndex` over all indexes of the store. `index.substr` throws where the name of the
  -- index is shorter than that of the class and a colon.
  unfoldable pub upset_index :
      Storage K → Name → List Name → J.Value → Key → Option Code × Storage K
  upset_index s class [] item id = (some success, s)
  upset_index s class (index ∷ indexes) item id =
      let skipped = upset_index s class indexes item id in
      if ltb (length index) (length class + 1)
      then (none, s)
      else (elim (attribute item (drop (length class + 1) index)) [
        | none ↦ skipped
        | some value ↦
            let (r, s') = upset_value s index value id in
            let rest = upset_index s' class indexes item id in
            elim r [ none ↦ (none, s') | some _ ↦ rest ]
      ])

  -- One vertex, for a class whose keys have the type `type`, with the indexes of the store.
  unfoldable pub upset_one :
      List Name → Storage K → Name → KeyType → Key → J.Value → Option Code × Storage K
  unfolding write_json write_json_u64 upset_index
  upset_one indexes s class type (str k) value =
      let (r, s') = write_json J s class k value in
      if is_integer type then (some fail, s) else (elim r [
        | none ↦ (none, s')
        | some success ↦ upset_index s' class indexes value (str k)
        | some _ ↦ (some fail, s')
      ])
  upset_one indexes s class type (num k) value =
      let (r, s') = write_json_u64 J s class k value in
      if is_byte type then (some fail, s) else (elim r [
        | none ↦ (none, s')
        | some success ↦ elim indexes [
          | [] ↦ (some fail, s')
          | i ∷ is ↦ upset_index s' class (i ∷ is) value (num k)
        ]
        | some _ ↦ (some fail, s')
      ])

  -- The loop over the vertices, up to the first that does not succeed.
  unfoldable pub upset_all :
      List Name → Storage K → Name → KeyType → List (Key × J.Value) → Option Code × Storage K
  unfolding upset_one
  upset_all indexes s class type [] = (some success, s)
  upset_all indexes s class type ((key, value) ∷ vertexes) =
      let (r, s') = upset_one indexes s class type key value in
      elim r [
        | some success ↦ upset_all indexes s' class type vertexes
        | some code ↦ (some code, s')
        | none ↦ (none, s')
      ]

  -- The code before `upsetVertex` returns it as a `bool`.
  unfoldable pub upset_vertex :
      List Name → Storage K → Name → List (Key × J.Value) → Option Code × Storage K
  unfolding upset_all get_key_type
  upset_vertex indexes s class vertexes = elim (get_key_type s.schema class) [
    | none ↦ (none, s)
    | some type ↦ upset_all indexes s class type vertexes
  ]
