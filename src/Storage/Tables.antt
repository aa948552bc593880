-- ===== src/Storage/Tables.antt =====
-- include/StorageEngine.h and src/StorageEngine/StorageEngine.cpp: the schema of a graph and the
-- operations on it. The source keeps it as one JSON object; the model has a field for each key that
-- the source writes, and `none` or `[]` for a key that is absent or null. A look-up by `[]` that
-- creates an absent key is written out. `none` as a result stands for a failed assertion or an
-- exception.
pub mod Keys
use gqlite.Prelude.{
  ℕ, zero, suc, ◌≡◌, Bool, true, false, ◌&&◌, ◌||◌, Option, none, some, List, [], ◌∷◌, ◌==◌, leb,
  ltb, if◌then◌else◌, length,
}
use gqlite.Prelude.Eq.{bytes_beq, bytes_eq, nat_eq}
use gqlite.Prelude.Maps.{lookup, insert, contains}

abbrev pub Name : Type 0
Name = List ℕ

pub data KeyType : Type 0 where
  uninitialize integer byte edge : KeyType

pub data IndexType : Type 0 where
  uninitialize word number vector : IndexType

-- `other n` is a number that a JSON value was cast from and that the enumeration does not name.
pub data AttributeKind : Type 0 where
  number integer string binary datetime vector : AttributeKind
  other : ℕ → AttributeKind

-- `(AttributeKind)value[OBJECT_TYPE_NAME]`.
unfoldable pub to_kind : ℕ → AttributeKind
to_kind zero = AttributeKind.number
to_kind (suc zero) = AttributeKind.integer
to_kind (suc (suc zero)) = AttributeKind.string
to_kind (suc (suc (suc zero))) = AttributeKind.binary
to_kind (suc (suc (suc (suc zero)))) = AttributeKind.datetime
to_kind (suc (suc (suc (suc (suc zero))))) = AttributeKind.vector
to_kind (suc (suc (suc (suc (suc (suc n)))))) = other (suc (suc (suc (suc (suc (suc n))))))

abbrev pub Attributes : Type 0
Attributes = List (Name × (AttributeKind × ℕ))

-- The object at `cls` and a name: `key_type` and `val_type`.
pub record Class : Type 0 where
  pub key_type : Option KeyType
  pub val_type : Attributes

-- `level`, `dict` and `version` stand at `__global`.
pub record Schema : Type 0 where
  pub graph : Option Name
  pub classes : List (Name × Class)
  pub indexes : List (Name × IndexType)
  pub edges : List (Name × (Name × Name))
  pub level : Option ℕ
  pub dict : List (ℕ × Name)
  pub version : Option Name

abbrev pub null_schema : Schema
null_schema = record {
  graph = none;
  classes = [];
  indexes = [];
  edges = [];
  level = none;
  dict = [];
  version = none;
}

abbrev pub null_class : Class
null_class = record { key_type = none; val_type = [] }

unfoldable pub is_open : Schema → Bool
is_open s = elim s.graph [ none ↦ false | some _ ↦ true ]

unfoldable pub is_map_exist : Schema → Name → Bool
unfolding contains
is_map_exist s prop = contains prop s.classes

unfoldable pub is_index_exist : Schema → Name → Bool
unfolding contains
is_index_exist s name = contains name s.indexes

-- `_schema[SCHEMA_CLASS][prop]` where it is not constant.
unfoldable pub class_at : Schema → Name → Class
class_at s prop = elim (lookup prop s.classes) [ none ↦ null_class | some c ↦ c ]

unfoldable pub set_class : Schema → Name → Class → Schema
set_class s prop c = record s { classes = insert prop c s.classes }

abbrev pub is_uninitialize : Option KeyType → Bool
is_uninitialize (some KeyType.uninitialize) = true
is_uninitialize _ = false

-- A class with no key type has null there, which differs from `Uninitialize`.
unfoldable pub try_init_key_type : Schema → Name → KeyType → Schema
unfolding class_at set_class
try_init_key_type s prop type =
    let c = class_at s prop in
    set_class s prop (if is_uninitialize c.key_type then record c { key_type = some type } else c)

-- The part of `addMap` that writes the schema.
unfoldable pub add_class : Schema → Name → KeyType → Schema
unfolding is_map_exist class_at set_class
add_class s prop type =
    if is_map_exist s prop
    then s
    else set_class s prop (record (class_at s prop) { key_type = some type })

unfoldable pub add_index : Schema → Name → Schema
unfolding is_index_exist
add_index s name =
    if is_index_exist s name
    then s
    else record s { indexes = insert name IndexType.uninitialize s.indexes }

abbrev pub is_fresh : IndexType → Bool
is_fresh IndexType.uninitialize = true
is_fresh _ = false

unfoldable pub update_index_type : Schema → Name → IndexType → Option (IndexType × Schema)
update_index_type s name type = elim (lookup name s.indexes) [
  | none ↦ none
  | some old ↦
      some (
        if is_fresh old
        then (type, record s { indexes = insert name type s.indexes })
        else (old, s))
]

unfoldable pub get_index_type : Schema → Name → Option IndexType
get_index_type s name = lookup name s.indexes

unfoldable pub get_relations_from : Name → List (Name × (Name × Name)) → List (Name × (Name × Name))
get_relations_from prop [] = []
get_relations_from prop ((key, (from, to)) ∷ rest) =
    let relations = get_relations_from prop rest in
    if bytes_beq from prop || bytes_beq to prop then (key, (from, to)) ∷ relations else relations

unfoldable pub get_relations : Schema → Name → List (Name × (Name × Name))
unfolding get_relations_from
get_relations s prop = get_relations_from prop s.edges

-- An absent class is `Uninitialize`; a class with no key type is a null that does not convert.
unfoldable pub get_key_type : Schema → Name → Option KeyType
get_key_type s m = elim (lookup m s.classes) [
  | none ↦ some KeyType.uninitialize
  | some c ↦ c.key_type
]

unfoldable pub names {ℓ} : {A : Type ℓ} → List (Name × A) → List Name
names [] = []
names ((n, _) ∷ rest) = n ∷ names rest

unfoldable pub get_indexes : Schema → List Name
unfolding names
get_indexes s = names s.indexes
