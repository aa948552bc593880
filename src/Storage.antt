-- ===== src/Storage.antt =====
-- src/StorageEngine/StorageEngine.cpp: `GStorageEngine`, its maps, records and groups. The state is
-- that of one thread: one write transaction and one table of map handles. The key-value store is a
-- parameter (Storage/Backend), as are the JSON values. A result `none` stands for an exception or a failed
-- assertion; the state that it leaves stands beside it.
pub mod Tables
pub mod Backend
pub mod View
pub mod Records
pub mod Deleted
pub mod EdgeScan
pub mod Session
pub mod Calls
pub mod Attributes
pub mod Groups
pub mod Memory
use gqlite.Prelude.{
  ℕ, zero, suc, ◌+◌, ◌%◌, ◌≡◌, Bool, true, false, ◌&&◌, ◌||◌, Option, none, some, List, [], ◌∷◌,
  ◌==◌, ltb, if◌then◌else◌, length,
}
use gqlite.Prelude.Eq.{bytes_beq, bytes_eq, nat_eq}
use gqlite.Prelude.Maps.{lookup, insert, contains}
use gqlite.Word.{le_bytes}
use gqlite.Storage.Tables.{
  Name, KeyType, IndexType, Schema, null_schema, is_map_exist, is_index_exist, try_init_key_type,
  update_index_type, add_class,
}
use gqlite.Storage.Backend.{Kv, KeyMode, usual, ordinal}

pub data Code : Type 0 where
  success fail datum_not_exist : Code

pub record Storage (K : Kv) : Type 0 where
  pub schema : Schema
  pub handles : List (Name × ℕ)
  pub txn : K.State
  pub groups_name : List (ℕ × Name)
  pub groups_map : List (Name × ℕ)

-- The types of the map's keys, by the first write.
unfoldable pub note_key : Schema → Name → KeyType → IndexType → Schema
note_key c prop key index =
    if is_map_exist c prop
    then try_init_key_type c prop key
    else (elim (update_index_type c prop index) [ none ↦ c | some (_, c') ↦ c' ])

abbrev pub code_of : Bool → Code
code_of true = success
code_of false = fail

abbrev pub fetched : Option (Option (List ℕ)) → List ℕ → Option (Code × List ℕ)
fetched none value = none
fetched (some none) value = some (datum_not_exist, value)
fetched (some (some [])) value = some (datum_not_exist, value)
fetched (some (some (b ∷ bs))) value = some (success, b ∷ bs)

abbrev pub erased : Option Bool → Option Code
erased none = none
erased (some b) = some (code_of b)

module _ {K : Kv} where
  -- A handle that could not be created is cached as null.
  unfoldable pub get_or_create_handle : Storage K → Name → KeyMode → ℕ × Storage K
  get_or_create_handle s prop mode = elim (lookup prop s.handles) [
    | some h ↦ (h, s)
    | none ↦
        let h = K.open_map s.txn prop in
        let (h', t) = K.create_map s.txn prop mode in
        if h == 0
        then (h', record s { handles = insert prop h' s.handles; txn = t })
        else (h, record s { handles = insert prop h s.handles })
  ]

  -- What the two `write` of bytes share: the key as the store sees it.
  unfoldable pub put_record : Storage K → Name → KeyMode → List ℕ → List ℕ → Code × Storage K
  unfolding get_or_create_handle
  put_record s prop mode key value =
      let (h, s') = get_or_create_handle s prop mode in
      let (ok, t) = K.put s'.txn h key value in (code_of ok, record s' { txn = t })

  unfoldable pub write : Storage K → Name → List ℕ → List ℕ → Code × Storage K
  unfolding note_key put_record
  write s prop key value =
      put_record (record s { schema = note_key s.schema prop KeyType.byte IndexType.word }) prop
        usual key value

  unfoldable pub write_u64 : Storage K → Name → ℕ → List ℕ → Code × Storage K
  unfolding note_key put_record
  write_u64 s prop key value =
      put_record (record s { schema = note_key s.schema prop KeyType.integer IndexType.number })
        prop ordinal (le_bytes 8 key) value

  -- What the two `read` share; `value` is the caller's variable. An empty slice is no datum.
  unfoldable pub get_record :
      Storage K → Name → KeyMode → List ℕ → List ℕ → Option (Code × List ℕ) × Storage K
  unfolding get_or_create_handle is_map_exist is_index_exist
  get_record s prop mode key value =
      let (h, s') = get_or_create_handle s prop mode in
      if is_map_exist s.schema prop || is_index_exist s.schema prop
      then (fetched (K.get s'.txn h key) value, s')
      else (none, s)

  unfoldable pub read : Storage K → Name → List ℕ → List ℕ → Option (Code × List ℕ) × Storage K
  unfolding get_record
  read s prop key value = get_record s prop usual key value

  unfoldable pub read_u64 : Storage K → Name → ℕ → List ℕ → Option (Code × List ℕ) × Storage K
  unfolding get_record
  read_u64 s prop key value = get_record s prop ordinal (le_bytes 8 key) value

  unfoldable pub del_record : Storage K → Name → KeyMode → List ℕ → Option Code × Storage K
  unfolding get_or_create_handle is_map_exist is_index_exist
  del_record s prop mode key =
      let (h, s') = get_or_create_handle s prop mode in
      let (found, t) = K.erase s'.txn h key in
      if is_map_exist s.schema prop || is_index_exist s.schema prop
      then (erased found, record s' { txn = t })
      else (none, s)

  unfoldable pub del : Storage K → Name → List ℕ → Option Code × Storage K
  unfolding del_record
  del s prop key = del_record s prop usual key

  unfoldable pub del_u64 : Storage K → Name → ℕ → Option Code × Storage K
  unfolding del_record
  del_u64 s prop key = del_record s prop ordinal (le_bytes 8 key)

  -- `group_t` is one byte.
  unfoldable pub add_map : Storage K → Name → KeyType → Storage K
  unfolding add_class
  add_map s prop type =
      let c = add_class s.schema prop type in
      let id = (length s.groups_name + 1) % 256 in
      if contains prop s.groups_map then record s { schema = c } else record s {
        schema = c;
        groups_map = insert prop id s.groups_map;
        groups_name = insert id prop s.groups_name;
      }

  unfoldable pub get_group_name : Storage K → ℕ → Option Name
  get_group_name s gid = lookup gid s.groups_name

  unfoldable pub get_group_id : Storage K → Name → Option ℕ
  get_group_id s name = lookup name s.groups_map
