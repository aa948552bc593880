-- ===== src/Storage/Tables/Keys.antt =====
-- include/StorageEngine.h and src/StorageEngine/StorageEngine.cpp: which maps and indexes the schema
-- has, and the types of their keys, under the operations on the schema.
use gqlite.Prelude.{◌≡◌, ◌≢◌, refl, false, ◌||◌, some, if◌then◌else◌, arith}
use gqlite.Prelude.Eq.{bytes_beq, bytes_beq_iff, bytes_eq}
use gqlite.Prelude.Maps.{contains, lookup-insert, contains-insert}
use gqlite.Storage.Tables.{
  Name, Schema, Class, null_class, KeyType, IndexType, is_map_exist, is_index_exist,
  is_uninitialize, is_fresh, class_at, set_class, try_init_key_type, add_class, add_index,
  update_index_type,
}

pub class_at-set_class :
    (c : Schema) (n m : Name) (x : Class)
    → class_at (set_class c n x) m ≡ (if bytes_beq n m then x else class_at c m)
unfolding class_at set_class
class_at-set_class c n m x = ground (arith, lookup-insert n m x c.classes)

pub is_map_exist-set_class :
    (c : Schema) (n m : Name) (x : Class)
    → is_map_exist (set_class c n x) m ≡ (bytes_beq n m || is_map_exist c m)
unfolding is_map_exist set_class
is_map_exist-set_class c n m x = contains-insert n m x c.classes

pub is_index_exist-set_class :
    (c : Schema) (n m : Name) (x : Class) → is_index_exist (set_class c n x) m ≡ is_index_exist c m
unfolding is_index_exist set_class
is_index_exist-set_class c n m x = refl

-- A class that is not there has no key type.
pub class_at_missing :
    (c : Schema) (n : Name) → is_map_exist c n ≡ false → class_at c n ≡ null_class
unfolding is_map_exist class_at contains
class_at_missing c n h = ground arith

-- The class `n` has keys of the type `t`.
abbrev pub HasKeyType : Schema → Name → KeyType → Type 0
HasKeyType c n t = (class_at c n).key_type ≡ some t

is_uninitialize_other : (t : KeyType) → t ≢ KeyType.uninitialize → is_uninitialize (some t) ≡ false
is_uninitialize_other KeyType.uninitialize h = absurd (h refl)
is_uninitialize_other KeyType.integer h = refl
is_uninitialize_other KeyType.byte h = refl
is_uninitialize_other KeyType.edge h = refl

pub try_init_key_type-HasKeyType :
    (c : Schema) (m n : Name) (new t : KeyType)
    → t ≢ KeyType.uninitialize
    → HasKeyType c n t
    → HasKeyType (try_init_key_type c m new) n t
unfolding try_init_key_type
try_init_key_type-HasKeyType c m n new t ne h = ground (
  arith,
  class_at-set_class c m n (
      if is_uninitialize (class_at c m).key_type
      then record (class_at c m) { key_type = some new }
      else class_at c m),
  bytes_beq_iff m n,
  is_uninitialize_other t ne,
)

pub add_class-HasKeyType :
    (c : Schema) (m n : Name) (new t : KeyType)
    → HasKeyType c n t
    → HasKeyType (add_class c m new) n t
unfolding add_class
add_class-HasKeyType c m n new t h = ground (
  arith,
  class_at-set_class c m n (record (class_at c m) { key_type = some new }),
  bytes_beq_iff m n,
  class_at_missing c n,
)

pub add_index-class_at : (c : Schema) (m n : Name) → class_at (add_index c m) n ≡ class_at c n
unfolding add_index class_at
add_index-class_at c m n = ground arith

-- The new schema of `updateIndexType`, which differs in the index table only.
pub is_map_exist-update :
    (c c' : Schema) (m n : Name) (new t : IndexType)
    → update_index_type c m new ≡ some (t, c')
    → (is_map_exist c' n ≡ is_map_exist c n)
      × (class_at c' n ≡ class_at c n)
      × (is_index_exist c' n ≡ is_index_exist c n)
unfolding update_index_type is_map_exist is_index_exist class_at contains
is_map_exist-update c c' m n new t h =
    (ground arith, ground arith, ground (arith, lookup-insert m n new c.indexes, bytes_beq_iff m n))

is_fresh_other : (t : IndexType) → t ≢ IndexType.uninitialize → is_fresh t ≡ false
is_fresh_other IndexType.uninitialize h = absurd (h refl)
is_fresh_other IndexType.word h = refl
is_fresh_other IndexType.number h = refl
is_fresh_other IndexType.vector h = refl

-- After an update of an index's type with a type that is not `Uninitialize`, every later update of it
-- answers the same type and changes nothing.
pub update_index_type_twice :
    (c c' : Schema) (n : Name) (t u got : IndexType)
    → t ≢ IndexType.uninitialize
    → update_index_type c n t ≡ some (got, c')
    → update_index_type c' n u ≡ some (got, c')
unfolding update_index_type
update_index_type_twice c c' n t u got ne h =
    ground (arith, lookup-insert n n t c.indexes, bytes_beq_iff n n, is_fresh_other t ne)
