-- ===== src/Storage/Attributes/Kept.antt =====
-- src/StorageEngine/StorageEngine.cpp: what writes of JSON records keep of the schema.
use gqlite.Prelude.{
  ℕ, ◌%◌, ◌≤◌, ◌≡◌, ◌≢◌, Bool, false, some, List, if◌then◌else◌, length, arith, Option-cases,
  Bool-cases, inl, inr,
}
use gqlite.Prelude.Eq.{bytes_beq, bytes_beq_iff, bytes_eq}
use gqlite.Prelude.Maps.{insert, contains}
use gqlite.Word.{le_bytes}
use gqlite.Storage.Tables.{
  Name, Schema, Class, Attributes, AttributeKind, KeyType, IndexType, class_at, set_class,
  is_map_exist, add_class, try_init_key_type, update_index_type, is_uninitialize,
}
use gqlite.Storage.Tables.Keys.{
  class_at-set_class, is_map_exist-update, HasKeyType, try_init_key_type-HasKeyType,
}
use gqlite.Storage.Backend.{Kv, usual, ordinal}
use gqlite.Storage.{Storage, note_key, write, write_u64}
use gqlite.Storage.View.{schema-put_record}
use gqlite.Storage.Attributes.{
  Json, init_attributes, init_attributes_u64, note_attributes, write_json, write_json_u64,
}
use gqlite.Storage.Attributes.Numbered.{loop_keeps, loop_u64_keeps}

-- Noting the type of a key leaves the attributes of all classes.
pub val_type-note_key :
    (c : Schema) (n m : Name) (key : KeyType) (index : IndexType)
    → (class_at (note_key c n key index) m).val_type ≡ (class_at c m).val_type
unfolding note_key try_init_key_type
val_type-note_key c n m key index = elim (Bool-cases (is_map_exist c n)) [
  | inl e ↦
      let x =
        if is_uninitialize (class_at c n).key_type
        then record (class_at c n) { key_type = some key }
        else class_at c n in
      ground (arith, e, class_at-set_class c n m x, bytes_beq_iff n m)
  | inr e ↦ elim (Option-cases (update_index_type c n index)) [
    | inl q ↦ ground (arith, e, q)
    | inr ((t, c'), q) ↦ ground (arith, e, q, (is_map_exist-update c c' n m index t q).1)
  ]
]

-- It leaves the key types that are set.
pub note_key-HasKeyType :
    (c : Schema) (n m : Name) (key t : KeyType) (index : IndexType)
    → t ≢ KeyType.uninitialize
    → HasKeyType c m t
    → HasKeyType (note_key c n key index) m t
unfolding note_key
note_key-HasKeyType c n m key t index ne h = elim (Bool-cases (is_map_exist c n)) [
  | inl e ↦ ground (arith, e, try_init_key_type-HasKeyType c n m key t ne h)
  | inr e ↦ elim (Option-cases (update_index_type c n index)) [
    | inl q ↦ ground (arith, e, q)
    | inr ((t', c'), q) ↦ ground (arith, e, q, (is_map_exist-update c c' n m index t' q).1)
  ]
]

-- A property of classes that the code's own changes of a class keep.
pub record IsKept (J : Json) (P : Name → Class → Type 0) : Type 1 where
  pub by_key :
      (c : Schema) (n m : Name) (key : KeyType) (index : IndexType)
      → P m (class_at c m)
      → P m (class_at (note_key c n key index) m)
  pub by_attribute :
      (m : Name) (x : Class) (n : Name) (kind : AttributeKind)
      → contains n x.val_type ≡ false
      → length x.val_type ≤ 255
      → P m x
      → P m (record x { val_type = insert n (kind, length x.val_type % 256) x.val_type })
  pub by_class :
      (c : Schema) (n m : Name) (type : KeyType)
      → P m (class_at c m)
      → P m (class_at (add_class c n type) m)
  pub by_type :
      (c : Schema) (n m : Name) (type : KeyType)
      → P m (class_at c m)
      → P m (class_at (try_init_key_type c n type) m)

module _ (J : Json) (P : Name → Class → Type 0) (kept : IsKept J P) where
  attribute :
      (n : Name) (x : Class) (a : Attributes) (attr : Name) (kind : AttributeKind)
      → contains attr a ≡ false
      → length a ≤ 255
      → P n (record x { val_type = a })
      → P n (record x { val_type = insert attr (kind, length a % 256) a })
  attribute n x a attr kind new room p =
      kept.by_attribute n (record x { val_type = a }) attr kind new room p

module _ (J : Json) (P : Name → Class → Type 0) (kept : IsKept J P) {K : Kv} where
  abbrev pub Holds : Storage K → Type 0
  Holds s = (m : Name) → P m (class_at s.schema m)

  pub write-Holds : (s : Storage K) (n : Name) (k v : List ℕ) → Holds s → Holds (write s n k v).1
  unfolding write
  write-Holds s n k v h m =
      rw
        (schema-put_record (record s { schema = note_key s.schema n KeyType.byte IndexType.word }) n
          usual k v)
        (kept.by_key s.schema n m KeyType.byte IndexType.word (h m))

  pub write_u64-Holds :
      (s : Storage K) (n : Name) (k : ℕ) (v : List ℕ) → Holds s → Holds (write_u64 s n k v).1
  unfolding write_u64
  write_u64-Holds s n k v h m =
      rw
        (schema-put_record
          (record s { schema = note_key s.schema n KeyType.integer IndexType.number }) n ordinal
          (le_bytes 8 k) v)
        (kept.by_key s.schema n m KeyType.integer IndexType.number (h m))

  -- The class of the record that is written, after its attributes were noted.
  set_class-Holds :
      (s : Storage K) (n : Name) (x : Class)
      → Holds s
      → P n x
      → Holds (record s { schema = set_class s.schema n x })
  set_class-Holds s n x h p m = elim (Bool-cases (bytes_beq n m)) [
    | inl e ↦
        let q : n ≡ m = (bytes_beq_iff n m).0 e in
        rw (class_at-set_class s.schema n m x) (rw e (rw⁻¹ q p))
    | inr e ↦ rw (class_at-set_class s.schema n m x) (rw e (h m))
  ]

  note_attributes-Holds :
      (loop : Attributes → List (Name × J.Value) → Bool × Attributes)
      → ((n : Name) (x : Class) (items : List (Name × J.Value))
          → P n x
          → P n (record x { val_type = (loop x.val_type items).1 }))
      → (s : Storage K) (n : Name) (v : J.Value) → Holds s
      → Holds (note_attributes J loop s n v).1
  unfolding note_attributes
  note_attributes-Holds loop step s n v h = elim (Option-cases (J.pairs v)) [
    | inl e ↦ rw (e, note_attributes) (set_class-Holds s n (class_at s.schema n) h (h n))
    | inr (items, e) ↦
        rw (e, note_attributes)
          (set_class-Holds s n
            (record (class_at s.schema n) {
              val_type = (loop (class_at s.schema n).val_type items).1;
            })
            h (step n (class_at s.schema n) items (h n)))
  ]

  pub write_json-Holds :
      (s : Storage K) (n : Name) (k : List ℕ) (v : J.Value)
      → Holds s
      → Holds (write_json J s n k v).1
  unfolding write_json
  write_json-Holds s n k v h =
      let s0 = record s { schema = note_key s.schema n KeyType.byte IndexType.word } in
      let r = note_attributes J (init_attributes J) s0 n v in
      let p : Holds r.1 =
        note_attributes-Holds (init_attributes J)
          (λ m x items q.
            loop_keeps J (λ a. P m (record x { val_type = a })) (attribute J P kept m x) x.val_type
              items q)
          s0 n v (λ m. kept.by_key s.schema n m KeyType.byte IndexType.word (h m)) in
      elim (Bool-cases r.0) [
        | inr e ↦ rw (e, write_json) p
        | inl e ↦ elim (Option-cases (J.dump v)) [
          | inl d ↦ rw (e, d, write_json) p
          | inr (bytes, d) ↦ rw (e, d, write_json) (write-Holds r.1 n k bytes p)
        ]
      ]

  pub write_json_u64-Holds :
      (s : Storage K) (n : Name) (k : ℕ) (v : J.Value)
      → Holds s
      → Holds (write_json_u64 J s n k v).1
  unfolding write_json_u64
  write_json_u64-Holds s n k v h =
      let s0 = record s { schema = note_key s.schema n KeyType.integer IndexType.number } in
      let r = note_attributes J (init_attributes_u64 J) s0 n v in
      let p : Holds r.1 =
        note_attributes-Holds (init_attributes_u64 J)
          (λ m x items q.
            loop_u64_keeps J (λ a. P m (record x { val_type = a })) (attribute J P kept m x)
              x.val_type items q)
          s0 n v (λ m. kept.by_key s.schema n m KeyType.integer IndexType.number (h m)) in
      elim (Bool-cases r.0) [
        | inr e ↦ rw (e, write_json_u64) p
        | inl e ↦ elim (Bool-cases (J.is_empty v)) [
          | inl q ↦ rw (e, q, write_json_u64) p
          | inr q ↦ elim (Option-cases (J.dump v)) [
            | inl d ↦ rw (e, q, d, write_json_u64) p
            | inr (bytes, d) ↦ rw (e, q, d, write_json_u64) (write_u64-Holds r.1 n k bytes p)
          ]
        ]
      ]
