-- ===== src/Storage/View.antt =====
-- src/StorageEngine/StorageEngine.cpp: what reads, writes and deletions of records do to the contents
-- of the maps.
use gqlite.Prelude.{
  ℕ, zero, suc, ◌≡◌, ◌≢◌, refl, ◌∙◌, Bool, true, false, ◌&&◌, Option, none, some, List, ◌==◌,
  if◌then◌else◌, arith, Option-cases, inl, inr,
}
use gqlite.Prelude.Eq.{bytes_beq, bytes_beq_iff, bytes_eq}
use gqlite.Prelude.Maps.{lookup, insert, lookup-insert, lookup-insert_self}
use gqlite.Storage.Tables.{Name}
use gqlite.Storage.Backend.{Kv, KeyMode, IsLawful, is_some}
use gqlite.Storage.{Code, success, code_of, Storage, get_or_create_handle, put_record}

abbrev pub is_success : Code → Bool
is_success success = true
is_success _ = false

is_success-code_of : (b : Bool) → is_success (code_of b) ≡ b
is_success-code_of true = refl
is_success-code_of false = refl

-- Every handle in the table is null or the open handle of its map.
pub record IsConsistent {K : Kv} (s : Storage K) : Type 0 where
  pub is_handle : (n : Name) (h : ℕ) → lookup n s.handles ≡ some h → h ≢ 0 → K.open_map s.txn n ≡ h

module _ {K : Kv} (s : Storage K) (n : Name) (mode : KeyMode) where
  pub schema-get_or_create_handle : (get_or_create_handle s n mode).1.schema ≡ s.schema
  unfolding get_or_create_handle
  schema-get_or_create_handle = ground arith

  pub schema-put_record : (k v : List ℕ) → (put_record s n mode k v).1.schema ≡ s.schema
  unfolding put_record
  schema-put_record k v = schema-get_or_create_handle

module _ (K : Kv) (content : K.State → Name → List ℕ → Option (List ℕ))
    (laws : IsLawful K content) where
  -- What looking up a handle gives: the null handle or the open handle, over the same contents.
  pub record IsHandle (s : Storage K) (n : Name) (r : ℕ × Storage K) : Type 0 where
    pub handle_open : r.0 ≢ 0 → K.open_map r.1.txn n ≡ r.0
    pub handle_content : (m j : List ℕ) → content r.1.txn m j ≡ content s.txn m j
    pub handle_consistent : IsConsistent r.1
    pub handle_cached : lookup n r.1.handles ≡ some r.0
    pub handle_schema : r.1.schema ≡ s.schema

  cached-IsHandle :
      (s : Storage K) (n : Name) (h : ℕ)
      → IsConsistent s
      → lookup n s.handles ≡ some h
      → IsHandle s n (h, s)
  cached-IsHandle s n h ok e = record {
    handle_open = λ ne. ok.is_handle n h e ne;
    handle_content = λ m j. refl;
    handle_consistent = ok;
    handle_cached = e;
    handle_schema = refl;
  }

  opened-IsHandle :
      (s : Storage K) (n : Name)
      → IsConsistent s
      → IsHandle s n
          (K.open_map s.txn n, record s { handles = insert n (K.open_map s.txn n) s.handles })
  opened-IsHandle s n ok = record {
    handle_open = λ ne. refl;
    handle_content = λ m j. refl;
    handle_consistent = record {
      is_handle = λ m h e ne. ground (
        arith,
        lookup-insert n m (K.open_map s.txn n) s.handles,
        bytes_beq_iff n m,
        ok.is_handle m h,
      );
    };
    handle_cached = lookup-insert_self n (K.open_map s.txn n) s.handles;
    handle_schema = refl;
  }

  created-IsHandle :
      (s : Storage K) (n : Name) (mode : KeyMode)
      → IsConsistent s
      → IsHandle s n (
        (K.create_map s.txn n mode).0,
        record s {
          handles = insert n (K.create_map s.txn n mode).0 s.handles;
          txn = (K.create_map s.txn n mode).1;
        },
      )
  created-IsHandle s n mode ok = record {
    handle_open = λ ne. ground (arith, laws.create_open s.txn n mode n, bytes_beq_iff n n);
    handle_content = λ m j. laws.create_content s.txn n mode m j;
    handle_consistent = record {
      is_handle = λ m h e ne. ground (
        arith,
        lookup-insert n m (K.create_map s.txn n mode).0 s.handles,
        bytes_beq_iff n m,
        ok.is_handle m h,
        laws.create_open s.txn n mode m,
      );
    };
    handle_cached = lookup-insert_self n (K.create_map s.txn n mode).0 s.handles;
    handle_schema = refl;
  }

  pub get_or_create_handle-IsHandle :
      (s : Storage K) (n : Name) (mode : KeyMode)
      → IsConsistent s
      → IsHandle s n (get_or_create_handle s n mode)
  unfolding get_or_create_handle
  get_or_create_handle-IsHandle s n mode ok = elim (Option-cases (lookup n s.handles)) [
    | inl e ↦
        rw (e, get_or_create_handle)
          (elim (K.open_map s.txn n == 0)
            as (λ b. IsHandle s n (
              if b
              then (
                (K.create_map s.txn n mode).0,
                record s {
                  handles = insert n (K.create_map s.txn n mode).0 s.handles;
                  txn = (K.create_map s.txn n mode).1;
                },
              )
              else (
                K.open_map s.txn n,
                record s { handles = insert n (K.open_map s.txn n) s.handles },
              ))) [ true ↦ created-IsHandle s n mode ok | false ↦ opened-IsHandle s n ok ])
    | inr (h, e) ↦ rw (e, get_or_create_handle) (cached-IsHandle s n h ok e)
  ]

  -- The store's operations through a handle, whatever the handle.
  put_at :
      (s : Storage K) (n : Name) (r : ℕ × Storage K) (k v m j : List ℕ)
      → IsHandle s n r
      → content (K.put r.1.txn r.0 k v).1 m j ≡ (
          if (K.put r.1.txn r.0 k v).0 && (bytes_beq n m && bytes_beq k j)
          then some v
          else content s.txn m j)
  put_at s n (zero, r) k v m j ok = rw (laws.put_null r.txn k v) (ok.handle_content m j)
  put_at s n (suc h, r) k v m j ok =
      rw⁻¹ (ok.handle_content m j)
        (laws.put_content r.txn (suc h) n k v m j (ok.handle_open (omega arith)) (omega arith))

  pub get_at :
      (s : Storage K) (n : Name) (r : ℕ × Storage K) (k : List ℕ)
      → IsHandle s n r
      → r.0 ≢ 0
      → K.get r.1.txn r.0 k ≡ some (content s.txn n k)
  get_at s n (h, r) k ok ne =
      rw⁻¹ (ok.handle_content n k) (laws.get_lem r.txn h n k (ok.handle_open ne) ne)

  pub erase_at :
      (s : Storage K) (n : Name) (r : ℕ × Storage K) (k m j : List ℕ)
      → IsHandle s n r
      → r.0 ≢ 0
      → content (K.erase r.1.txn r.0 k).1 m j
        ≡ (if bytes_beq n m && bytes_beq k j then none else content s.txn m j)
  erase_at s n (h, r) k m j ok ne =
      rw⁻¹ (ok.handle_content m j) (laws.erase_content r.txn h n k m j (ok.handle_open ne) ne)

  pub erased_at :
      (s : Storage K) (n : Name) (r : ℕ × Storage K) (k : List ℕ)
      → IsHandle s n r
      → r.0 ≢ 0
      → (K.erase r.1.txn r.0 k).0 ≡ some (is_some (content s.txn n k))
  erased_at s n (h, r) k ok ne =
      rw⁻¹ (ok.handle_content n k) (laws.erase_lem r.txn h n k (ok.handle_open ne) ne)

  -- What a write leaves: the new record if it succeeded, and every other record.
  pub content-put_record :
      (s : Storage K) (n : Name) (mode : KeyMode) (k v m j : List ℕ)
      → IsConsistent s
      → content (put_record s n mode k v).1.txn m j ≡ (
          if is_success (put_record s n mode k v).0 && (bytes_beq n m && bytes_beq k j)
          then some v
          else content s.txn m j)
  unfolding put_record
  content-put_record s n mode k v m j ok =
      let r = get_or_create_handle s n mode in
      ground (
        arith,
        put_at s n r k v m j (get_or_create_handle-IsHandle s n mode ok),
        is_success-code_of (K.put r.1.txn r.0 k v).0,
      )

  pub put_record-IsConsistent :
      (s : Storage K) (n : Name) (mode : KeyMode) (k v : List ℕ)
      → IsConsistent s
      → IsConsistent (put_record s n mode k v).1
  unfolding put_record
  put_record-IsConsistent s n mode k v ok =
      let r = get_or_create_handle s n mode in
      let ok' = get_or_create_handle-IsHandle s n mode ok in
      record {
        is_handle =
            λ m h e ne. laws.put_open r.1.txn r.0 k v m ∙ ok'.handle_consistent.is_handle m h e ne;
      }
