-- ===== src/Storage/Records.antt =====
-- src/StorageEngine/StorageEngine.cpp: `write`, `read` and `del` of a record, one after the other.
use gqlite.Prelude.{
  ℕ, ◌≡◌, ◌≢◌, refl, ap, ◌∙◌, Bool, true, ◌&&◌, ◌||◌, Option, some, List, [], ◌∷◌, if◌then◌else◌,
  arith, Option-cases, Bool-cases, inl, inr,
}
use gqlite.Prelude.Eq.{bytes_beq, bytes_beq_iff, bytes_eq}
use gqlite.Prelude.Maps.{lookup}
use gqlite.Word.{le_bytes}
use gqlite.Storage.Tables.{
  Name, Schema, is_uninitialize, KeyType, IndexType, is_map_exist, is_index_exist,
  try_init_key_type, update_index_type, class_at,
}
use gqlite.Storage.Tables.Keys.{
  is_map_exist-set_class, is_index_exist-set_class, is_map_exist-update,
}
use gqlite.Storage.Backend.{Kv, KeyMode, usual, ordinal, IsLawful}
use gqlite.Storage.{
  success, datum_not_exist, fetched, Storage, get_or_create_handle, note_key, put_record,
  get_record, write, write_u64, read, read_u64,
}
use gqlite.Storage.View.{
  IsConsistent, get_or_create_handle-IsHandle, get_at, content-put_record, put_record-IsConsistent,
  schema-put_record, is_success,
}

-- The assertion of `read` and `del`.
abbrev pub exists : Schema → Name → Bool
exists c n = is_map_exist c n || is_index_exist c n

exists-try_init_key_type :
    (c : Schema) (n m : Name) (key : KeyType)
    → exists c m ≡ true
    → exists (try_init_key_type c n key) m ≡ true
unfolding try_init_key_type
exists-try_init_key_type c n m key h =
    let x =
      if is_uninitialize (class_at c n).key_type
      then record (class_at c n) { key_type = some key }
      else class_at c n in
    ground (arith, is_map_exist-set_class c n m x, is_index_exist-set_class c n m x)

pub exists-note_key :
    (c : Schema) (n m : Name) (key : KeyType) (index : IndexType)
    → exists c m ≡ true
    → exists (note_key c n key index) m ≡ true
unfolding note_key
exists-note_key c n m key index h = elim (Bool-cases (is_map_exist c n)) [
  | inl e ↦ rw (e, note_key) (exists-try_init_key_type c n m key h)
  | inr e ↦ elim (Option-cases (update_index_type c n index)) [
    | inl q ↦ rw (e, note_key) (rw (q, note_key) h)
    | inr ((t, c'), q) ↦ let p = is_map_exist-update c c' n m index t q in ground (arith, p.0, p.2)
  ]
]

fetched_full : (v value : List ℕ) → v ≢ [] → fetched (some (some v)) value ≡ some (success, v)
fetched_full [] value h = absurd (h refl)
fetched_full (b ∷ bs) value h = refl

module _ (K : Kv) (content : K.State → Name → List ℕ → Option (List ℕ))
    (laws : IsLawful K content) where
  pub cached :
      (s : Storage K) (n : Name) (mode : KeyMode) (h : ℕ)
      → lookup n s.handles ≡ some h
      → get_or_create_handle s n mode ≡ (h, s)
  unfolding get_or_create_handle
  cached s n mode h e = rw (e, get_or_create_handle) refl

  -- A write that succeeded leaves a handle that is not null in the table.
  written_handle :
      (s : Storage K) (n : Name) (mode mode' : KeyMode) (k v : List ℕ)
      → IsConsistent s
      → (put_record s n mode k v).0 ≡ success
      → get_or_create_handle (put_record s n mode k v).1 n mode'
          ≡ ((get_or_create_handle s n mode).0, (put_record s n mode k v).1)
        × (get_or_create_handle s n mode).0 ≢ 0
  unfolding put_record
  written_handle s n mode mode' k v ok h =
      let r = get_or_create_handle s n mode in
      let p = get_or_create_handle-IsHandle K content laws s n mode ok in
      (
        cached (put_record s n mode k v).1 n mode' r.0 p.handle_cached,
        λ e. ground (arith, e, laws.put_null r.1.txn k v),
      )

  -- The answer of a read is what the map holds; it leaves all maps as they are.
  pub get_record_lem :
      (s : Storage K) (n : Name) (mode : KeyMode) (k value : List ℕ)
      → IsConsistent s
      → exists s.schema n ≡ true
      → (get_or_create_handle s n mode).0 ≢ 0
      → (get_record s n mode k value).0 ≡ fetched (some (content s.txn n k)) value
  unfolding get_record
  get_record_lem s n mode k value ok e ne =
      let r = get_or_create_handle s n mode in
      let p = get_or_create_handle-IsHandle K content laws s n mode ok in
      rw (e, get_record) (rw (get_at K content laws s n r k p ne) refl)

  pub content-get_record :
      (s : Storage K) (n : Name) (mode : KeyMode) (k value m j : List ℕ)
      → IsConsistent s
      → content (get_record s n mode k value).1.txn m j ≡ content s.txn m j
  unfolding get_record
  content-get_record s n mode k value m j ok =
      let p = get_or_create_handle-IsHandle K content laws s n mode ok in
      ground (arith, p.handle_content m j)

  pub get_record-IsConsistent :
      (s : Storage K) (n : Name) (mode : KeyMode) (k value : List ℕ)
      → IsConsistent s
      → IsConsistent (get_record s n mode k value).1
  unfolding get_record
  get_record-IsConsistent s n mode k value ok =
      let p = get_or_create_handle-IsHandle K content laws s n mode ok in
      elim (Bool-cases (exists s.schema n)) [
        | inl e ↦ rw (e, get_record) p.handle_consistent
        | inr e ↦ rw (e, get_record) ok
      ]

  -- Reading a record back after a write that succeeded: it answers what the map holds.
  get_record_after :
      (s : Storage K) (n : Name) (mode mode' : KeyMode) (k v value : List ℕ)
      → IsConsistent s
      → exists s.schema n ≡ true
      → (put_record s n mode k v).0 ≡ success
      → (get_record (put_record s n mode k v).1 n mode' k value).0 ≡ fetched (some (some v)) value
  get_record_after s n mode mode' k v value ok e h =
      let s' = (put_record s n mode k v).1 in
      let ok' = put_record-IsConsistent K content laws s n mode k v ok in
      let p = written_handle s n mode mode' k v ok h in
      let e' : exists s'.schema n ≡ true = rw (schema-put_record s n mode k v) e in
      let ne : (get_or_create_handle s' n mode').0 ≢ 0 = rw (p.0) (p.1) in
      let c : content s'.txn n k ≡ some v = ground (
        arith,
        content-put_record K content laws s n mode k v n k ok,
        bytes_beq_iff n n,
        bytes_beq_iff k k,
      ) in
      get_record_lem s' n mode' k value ok' e' ne
      ∙ ap (λ (o : Option (List ℕ)). fetched (some o) value) c

  -- A record with some bytes that was written under a text, in a map or an index that exists in a
  -- lawful store, is read back.
  pub read-write :
      (s : Storage K) (n : Name) (k : List ℕ) (b : ℕ) (bs value : List ℕ)
      → IsConsistent s
      → exists s.schema n ≡ true
      → (write s n k (b ∷ bs)).0 ≡ success
      → (read (write s n k (b ∷ bs)).1 n k value).0 ≡ some (success, b ∷ bs)
  unfolding read write
  read-write s n k b bs value ok e h =
      get_record_after (record s { schema = note_key s.schema n KeyType.byte IndexType.word }) n
        usual usual k (b ∷ bs) value (record { is_handle = ok.is_handle })
        (exists-note_key s.schema n n KeyType.byte IndexType.word e) h

  -- What was written under a number, in a map or an index that exists in a lawful store, is read back
  -- if it has some bytes; a record with no bytes reads as missing.
  pub read_u64-write_u64 :
      (s : Storage K) (n : Name) (k : ℕ) (v value : List ℕ)
      → IsConsistent s
      → exists s.schema n ≡ true
      → (write_u64 s n k v).0 ≡ success
      → (v ≢ [] → (read_u64 (write_u64 s n k v).1 n k value).0 ≡ some (success, v))
        × (v ≡ [] → (read_u64 (write_u64 s n k v).1 n k value).0 ≡ some (datum_not_exist, value))
  unfolding read_u64 write_u64
  read_u64-write_u64 s n k v value ok e h =
      let p =
        get_record_after
          (record s { schema = note_key s.schema n KeyType.integer IndexType.number }) n ordinal
          ordinal (le_bytes 8 k) v value (record { is_handle = ok.is_handle })
          (exists-note_key s.schema n n KeyType.integer IndexType.number e) h in
      (
        λ ne. p ∙ fetched_full v value ne,
        λ q. p ∙ ap (λ (l : List ℕ). fetched (some (some l)) value) q,
      )

  -- A write that succeeds sets the record under its map and key, and a write that fails sets none;
  -- every other record is as before. The store is lawful and the table of handles consistent with it.
  pub content-write :
      (s : Storage K) (n : Name) (k v m j : List ℕ)
      → IsConsistent s
      → content (write s n k v).1.txn m j ≡ (
          if is_success (write s n k v).0 && (bytes_beq n m && bytes_beq k j)
          then some v
          else content s.txn m j)
  unfolding write
  content-write s n k v m j ok =
      content-put_record K content laws
        (record s { schema = note_key s.schema n KeyType.byte IndexType.word }) n usual k v m j
        (record { is_handle = ok.is_handle })
