-- ===== src/Storage/Session/Reopened.antt =====
-- src/StorageEngine/StorageEngine.cpp: a file that was closed and is opened again.
use gqlite.Prelude.{
  ℕ, ◌≡◌, ◌≢◌, refl, ap, ◌∙◌, true, ◌&&◌, Option, some, List, [], ◌∷◌, if◌then◌else◌, arith,
}
use gqlite.Prelude.Eq.{bytes_beq, bytes_beq_iff, bytes_eq, nat_eq}
use gqlite.Storage.Tables.{Name, Schema, KeyType, is_open, class_at, set_class, add_class}
use gqlite.Storage.Tables.Keys.{class_at-set_class}
use gqlite.Storage.Backend.{Kv, usual, IsLawful}
use gqlite.Storage.{Storage, add_map}
use gqlite.Storage.Session.{
  db_schema, schema_basic, map_basic, Dictionary, init_dict, Files, IsFaithful, load_schema,
  open_file, close_file,
}

-- What `initDict` and `addMap` leave of the schema.
record IsSame (c c' : Schema) : Type 0 where
  pub same_classes : (m : Name) → m ≢ map_basic → class_at c' m ≡ class_at c m
  pub same_indexes : c'.indexes ≡ c.indexes
  pub same_edges : c'.edges ≡ c.edges

init_dict-IsSame :
    (c : Schema) (d : Dictionary) (compress : ℕ) → IsSame c (init_dict c d compress).0
unfolding init_dict class_at
init_dict-IsSame c d compress = record {
  same_classes = λ m ne. ground arith;
  same_indexes = ground arith;
  same_edges = ground arith;
}

add_map-IsSame :
    {K : Kv} (s : Storage K) (type : KeyType) → IsSame s.schema (add_map s map_basic type).schema
unfolding add_map add_class set_class
add_map-IsSame s type = record {
  same_classes = λ m ne. ground (
    arith,
    class_at-set_class s.schema map_basic m
        (record (class_at s.schema map_basic) { key_type = some type }),
    bytes_beq_iff map_basic m,
  );
  same_indexes = ground arith;
  same_edges = ground arith;
}

txn-add_map : {K : Kv} (s : Storage K) (n : Name) (type : KeyType) → (add_map s n type).txn ≡ s.txn
unfolding add_map
txn-add_map s n type = ground arith

load_schema_saved :
    {K : Kv} (F : Files K) (old c : Schema) (b : List ℕ)
    → b ≢ []
    → F.from_cbor b ≡ some c
    → load_schema F old (some (some b)) ≡ some c
unfolding load_schema
load_schema_saved F old c [] ne e = absurd (ne refl)
load_schema_saved F old c (b ∷ bs) ne e = e

-- The handle and the transaction in which `close` saves the schema, and `open` loads it.
abbrev pub schema_map : (K : Kv) → K.State → ℕ × K.State
schema_map K t = K.create_map t db_schema usual

module _ (K : Kv) (F : Files K) (content : K.State → List ℕ → List ℕ → Option (List ℕ))
    (laws : IsLawful K content) where
  open_schema : (t : K.State) → K.open_map (schema_map K t).1 db_schema ≡ (schema_map K t).0
  open_schema t =
      ground
        (arith, laws.create_open t db_schema usual db_schema, bytes_beq_iff db_schema db_schema)

  -- What the file holds after `close`.
  saved :
      (s : Storage K) (d : Dictionary) (n k : List ℕ)
      → IsFaithful F content s.schema
      → is_open s.schema ≡ true
      → (schema_map K s.txn).0 ≢ 0
      → (K.put (schema_map K s.txn).1 (schema_map K s.txn).0 schema_basic (F.to_cbor s.schema)).0
        ≡ true
      → content (F.start_write (close_file F s d).0) n k ≡ (
          if bytes_beq db_schema n && bytes_beq schema_basic k
          then some (F.to_cbor s.schema)
          else content s.txn n k)
  unfolding close_file
  saved s d n k faithful o ne ok =
      let r = schema_map K s.txn in
      let v = F.to_cbor s.schema in
      let t = (K.put r.1 r.0 schema_basic v).1 in
      ground (
        arith,
        o,
        faithful.start_write-commit t n k,
        laws.put_content r.1 r.0 db_schema schema_basic v n k (open_schema s.txn) ne,
        laws.create_content s.txn db_schema usual n k,
      )

  -- A file that was closed with a schema and is opened again, on a lawful store whose commits keep the
  -- maps and with a schema that is read back from its text, opens, and has the classes but `__basic`,
  -- the indexes, the relations and the records of before, and the schema's text as the schema's
  -- record; the schema's map is taken to open and the writing of the schema to succeed.
  pub open_file-close_file :
      (s s0 : Storage K) (d d0 : Dictionary) (name : Name) (compress : ℕ)
      → IsFaithful F content s.schema
      → is_open s.schema ≡ true
      → (schema_map K s.txn).0 ≢ 0
      → (K.put (schema_map K s.txn).1 (schema_map K s.txn).0 schema_basic (F.to_cbor s.schema)).0
        ≡ true
      → (schema_map K (F.start_write (close_file F s d).0)).0 ≢ 0
      → (r : Storage K × Dictionary) × (open_file F s0 d0 (close_file F s d).0 name compress
          ≡ some r)
        × ((m : Name) → m ≢ map_basic → class_at r.0.schema m ≡ class_at s.schema m)
        × (r.0.schema.indexes ≡ s.schema.indexes)
        × (r.0.schema.edges ≡ s.schema.edges)
        × ((n k : List ℕ)
            → content r.0.txn n k ≡ (
                if bytes_beq db_schema n && bytes_beq schema_basic k
                then some (F.to_cbor s.schema)
                else content s.txn n k))
  unfolding open_file class_at
  open_file-close_file s s0 d d0 name compress faithful o ne ok ne' =
      let t0 = F.start_write (close_file F s d).0 in
      let v = F.to_cbor s.schema in
      let r = schema_map K t0 in
      let held : (n k : List ℕ)
          → content r.1 n k ≡ (
              if bytes_beq db_schema n && bytes_beq schema_basic k
              then some v
              else content s.txn n k) =
        λ n k. laws.create_content t0 db_schema usual n k ∙ saved s d n k faithful o ne ok in
      let g : K.get r.1 r.0 schema_basic ≡ some (some v) =
        laws.get_lem r.1 r.0 db_schema schema_basic (open_schema t0) ne'
        ∙ ap some (held db_schema schema_basic) in
      let l : load_schema F s0.schema (K.get r.1 r.0 schema_basic) ≡ some s.schema = rw g (
        load_schema_saved F s0.schema s.schema v faithful.to_cbor_some
          faithful.from_cbor-to_cbor) in
      let s1 : Storage K = record s0 {
        schema = record s.schema { graph = some name };
        txn = r.1;
      } in
      let s2 = add_map s1 map_basic KeyType.uninitialize in
      let i = init_dict s2.schema d0 compress in
      let p = add_map-IsSame s1 KeyType.uninitialize in
      let q = init_dict-IsSame s2.schema d0 compress in
      (
        (record s2 { schema = i.0 }, i.1),
        rw (l, open_file) refl,
        λ m h. q.same_classes m h ∙ (p.same_classes m h ∙ refl),
        q.same_indexes ∙ p.same_indexes,
        q.same_edges ∙ p.same_edges,
        λ n k. ap (λ t. content t n k) (txn-add_map s1 map_basic KeyType.uninitialize) ∙ held n k,
      )
