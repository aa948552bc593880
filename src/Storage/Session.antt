-- ===== src/Storage/Session.antt =====
-- src/StorageEngine/StorageEngine.cpp: `open`, `close` and the schema that they load and save, with the
-- file, its transactions and the CBOR text of a schema as parameters. A write transaction is open.
pub mod Reopened
use gqlite.Prelude.{
  ℕ, zero, suc, ◌+◌, ◌≡◌, ◌≢◌, refl, ap, ◌∙◌, Bool, true, false, ◌&&◌, ◌||◌, Option, none, some,
  List, [], ◌∷◌, ◌==◌, ltb, if◌then◌else◌, arith, Option-cases, Bool-cases, inl, inr,
}
use gqlite.Prelude.Eq.{bytes_beq, bytes_beq_iff, bytes_eq, nat_eq}
use gqlite.Prelude.Maps.{lookup, insert}
use gqlite.Storage.Tables.{Name, Schema, KeyType, is_open, class_at}
use gqlite.Storage.Backend.{Kv, usual, IsLawful}
use gqlite.Storage.{Storage, add_map}

-- `DB_SCHEMA`, `SCHEMA_BASIC`, `MAP_BASIC` and `GQL_VERSION`.
abbrev pub db_schema : Name
db_schema = 103 ∷ 113 ∷ 108 ∷ 95 ∷ 115 ∷ 99 ∷ 104 ∷ 101 ∷ 109 ∷ 97 ∷ []

abbrev pub schema_basic : Name
schema_basic = 98 ∷ 97 ∷ 115 ∷ 105 ∷ 99 ∷ []

abbrev pub map_basic : Name
map_basic = 95 ∷ 95 ∷ 98 ∷ 97 ∷ 115 ∷ 105 ∷ 99 ∷ []

abbrev pub gql_version : Name
gql_version = 48 ∷ 46 ∷ 48 ∷ 46 ∷ 49 ∷ []

-- `_id2key` and `_key2id`.
pub record Dictionary : Type 0 where
  pub id_to_key : List (ℕ × Name)
  pub key_to_id : List (Name × ℕ)

unfoldable pub inverted : List (ℕ × Name) → List (Name × ℕ) → List (Name × ℕ)
inverted [] key2id = key2id
inverted ((id, key) ∷ rest) key2id = inverted rest (insert key id key2id)

-- The level that is stored, or the one that is asked for, if it is one.
unfoldable pub level_of : Schema → ℕ → ℕ
level_of s compress = elim s.level [
  | none ↦ if ltb 3 compress || compress == 0 then 1 else compress
  | some level ↦ level
]

unfoldable pub init_dict : Schema → Dictionary → ℕ → Schema × Dictionary
unfolding inverted level_of
init_dict s d compress =
    let level = level_of s compress in
    let s' = record s {
      level = some level;
      version = elim s.version [ none ↦ some gql_version | some v ↦ some v ];
    } in
    if level == 1 || (level == 2 || level == 3)
    then (elim s.dict [
      | [] ↦ (s', d)
      | item ∷ rest ↦
          (s', record { id_to_key = item ∷ rest; key_to_id = inverted (item ∷ rest) d.key_to_id })
    ])
    else (s', d)

unfoldable pub release_dict : Schema → Dictionary → Schema
release_dict s d = elim d.id_to_key [ [] ↦ s | item ∷ rest ↦ record s { dict = item ∷ rest } ]

-- The file of a graph, `start_write` and `commit`, and the text of a schema.
pub record Files (K : Kv) : Type 1 where
  pub File : Type 0
  pub start_write : File → K.State
  pub commit : K.State → File
  pub to_cbor : Schema → List ℕ
  -- `none` if it throws
  pub from_cbor : List ℕ → Option Schema

-- A commit keeps what the maps hold, and the text of the schema `c` reads back as `c`.
pub record IsFaithful {K : Kv} (F : Files K) (content : K.State → List ℕ → List ℕ → Option (List ℕ))
    (c : Schema) : Type 0 where
  pub start_write-commit :
      (t : K.State) (n k : List ℕ) → content (F.start_write (F.commit t)) n k ≡ content t n k
  pub from_cbor-to_cbor : F.from_cbor (F.to_cbor c) ≡ some c
  pub to_cbor_some : F.to_cbor c ≢ []

module _ {K : Kv} (F : Files K) where
  -- The schema that a file holds; the old one where it holds none. `none` is an exception.
  unfoldable pub load_schema : Schema → Option (Option (List ℕ)) → Option Schema
  load_schema old none = none
  load_schema old (some none) = some old
  load_schema old (some (some [])) = some old
  load_schema old (some (some (b ∷ bs))) = F.from_cbor (b ∷ bs)

  unfoldable pub open_file :
      Storage K → Dictionary → F.File → Name → ℕ → Option (Storage K × Dictionary)
  unfolding load_schema init_dict add_map
  open_file s d file filename compress =
      let (h, t) = K.create_map (F.start_write file) db_schema usual in
      elim (load_schema s.schema (K.get t h schema_basic)) [
        | none ↦ none
        | some c ↦
            let s' =
              add_map (record s { schema = record c { graph = some filename }; txn = t }) map_basic
                KeyType.uninitialize in
            let (c', d') = init_dict s'.schema d compress in some (record s' { schema = c' }, d')
      ]

  -- The schema is saved and committed, and then the dictionary goes into the schema. The map handles
  -- stay in their table.
  unfoldable pub close_file : Storage K → Dictionary → F.File × Schema
  unfolding is_open release_dict
  close_file s d =
      let (h, t) = K.create_map s.txn db_schema usual in
      let (ok, t') = K.put t h schema_basic (F.to_cbor s.schema) in
      (F.commit (if is_open s.schema then t' else s.txn), release_dict s.schema d)
