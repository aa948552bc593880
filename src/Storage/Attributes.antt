-- ===== src/Storage/Attributes.antt =====
-- src/StorageEngine/StorageEngine.cpp: writes of JSON records, which note the attributes of a class and
-- their types. The JSON values are a parameter, `Json`.
pub mod Numbered
pub mod Kept
use gqlite.Prelude.{
  ℕ, zero, suc, ◌+◌, ◌%◌, ◌≤◌, ◌<◌, ◌≡◌, ◌≢◌, refl, Bool, true, false, Option, none, some, List, [],
  ◌∷◌, ◌==◌, ltb, if◌then◌else◌, length,
}
use gqlite.Prelude.Eq.{bytes_beq, bytes_beq_iff, bytes_eq}
use gqlite.Prelude.Maps.{lookup, insert, contains}
use gqlite.Storage.Tables.{
  Name, Schema, Attributes, AttributeKind, to_kind, KeyType, IndexType, class_at, set_class,
}
use gqlite.Storage.Backend.{Kv}
use gqlite.Storage.{Code, success, Storage, note_key, write, write_u64}

-- `nlohmann::json::value_t`.
pub data ValueType : Type 0 where
  null object array string boolean number_integer number_unsigned number_float binary discarded :
      ValueType

-- The JSON values, with the calls that the code makes of them.
pub record Json : Type 1 where
  pub Value : Type 0
  pub type_of : Value → ValueType
  -- `value[OBJECT_TYPE_NAME]` as a number, if `value.count(OBJECT_TYPE_NAME)`
  pub type_name : Value → Option ℕ
  -- `itr.key()` and `itr.value()` from `begin` to `end`; `none` if `itr.key()` throws
  pub pairs : Value → Option (List (Name × Value))
  pub is_empty : Value → Bool
  -- `none` if `dump` throws
  pub dump : Value → Option (List ℕ)

-- The kind that is noted for a value; `none` for the types that the `switch` skips.
unfoldable pub kind_of : ValueType → Option ℕ → Option AttributeKind
unfolding to_kind
kind_of object (some n) = some (to_kind n)
kind_of object none = some AttributeKind.string
kind_of array o = some AttributeKind.string
kind_of string o = some AttributeKind.string
kind_of number_integer o = some AttributeKind.integer
kind_of number_unsigned o = some AttributeKind.integer
kind_of number_float o = some AttributeKind.number
kind_of binary o = some AttributeKind.binary
kind_of null o = none
kind_of boolean o = none
kind_of discarded o = none

module _ (J : Json) where
  -- `none` is the exception; `uint8_t index = attributes.size()`.
  unfoldable pub try_init_attribute_type : Attributes → Name → J.Value → Option Attributes
  unfolding kind_of
  try_init_attribute_type attributes attr value =
      if contains attr attributes
      then some attributes
      else if ltb 255 (length attributes)
      then none
      else (elim (kind_of (J.type_of value) (J.type_name value)) [
        | none ↦ some attributes
        | some kind ↦ some (insert attr (kind, length attributes % 256) attributes)
      ])

  -- The loop of the write under a string key: whether it ended without an exception.
  unfoldable pub init_attributes : Attributes → List (Name × J.Value) → Bool × Attributes
  unfolding try_init_attribute_type
  init_attributes attributes [] = (true, attributes)
  init_attributes attributes ((attr, value) ∷ rest) =
      elim (try_init_attribute_type attributes attr value) [
        | none ↦ (false, attributes)
        | some attributes' ↦ init_attributes attributes' rest
      ]

  -- The loop of the write under a number, which dumps each value first.
  unfoldable pub init_attributes_u64 : Attributes → List (Name × J.Value) → Bool × Attributes
  unfolding try_init_attribute_type
  init_attributes_u64 attributes [] = (true, attributes)
  init_attributes_u64 attributes ((attr, value) ∷ rest) = elim (J.dump value) [
    | none ↦ (false, attributes)
    | some sv ↦ elim (try_init_attribute_type attributes attr value) [
      | none ↦ (false, attributes)
      | some attributes' ↦ init_attributes_u64 attributes' rest
    ]
  ]

  module _ {K : Kv} where
    -- What the loop leaves in `_schema[SCHEMA_CLASS][mapname][SCHEMA_CLASS_VALUE]`.
    unfoldable pub note_attributes :
        (Attributes → List (Name × J.Value) → Bool × Attributes)
        → Storage K
        → Name
        → J.Value
        → Bool × Storage K
    unfolding class_at set_class
    note_attributes loop s mapname value =
        let c = class_at s.schema mapname in
        elim (J.pairs value) [
          | none ↦ (false, record s { schema = set_class s.schema mapname c })
          | some items ↦
              let (ok, attributes) = loop c.val_type items in
              (
                ok,
                record s {
                  schema = set_class s.schema mapname (record c { val_type = attributes });
                },
              )
        ]

    abbrev some_code : Code × Storage K → Option Code × Storage K
    some_code (c, s) = (some c, s)

    -- `none` is an exception.
    unfoldable pub write_json : Storage K → Name → List ℕ → J.Value → Option Code × Storage K
    unfolding note_key note_attributes init_attributes write
    write_json s mapname key value =
        let s0 = record s { schema = note_key s.schema mapname KeyType.byte IndexType.word } in
        let (ok, s') = note_attributes init_attributes s0 mapname value in
        if ok
        then (elim (J.dump value) [
          | none ↦ (none, s')
          | some bytes ↦ some_code (write s' mapname key bytes)
        ])
        else (none, s')

    unfoldable pub write_json_u64 : Storage K → Name → ℕ → J.Value → Option Code × Storage K
    unfolding note_key note_attributes init_attributes_u64 write_u64
    write_json_u64 s mapname key value =
        let s0 = record s { schema = note_key s.schema mapname KeyType.integer IndexType.number } in
        let (ok, s') = note_attributes init_attributes_u64 s0 mapname value in
        if ok
        then (if J.is_empty value then (some success, s') else (elim (J.dump value) [
          | none ↦ (none, s')
          | some bytes ↦ some_code (write_u64 s' mapname key bytes)
        ]))
        else (none, s')
