-- ===== src/Storage/Deleted.antt =====
-- src/StorageEngine/StorageEngine.cpp: `del` of a record.
use gqlite.Prelude.{
  ℕ, ◌≡◌, ◌≢◌, refl, ap, ◌∙◌, true, ◌&&◌, Option, none, some, List, if◌then◌else◌, arith,
}
use gqlite.Prelude.Eq.{bytes_beq, bytes_beq_iff, bytes_eq}
use gqlite.Storage.Tables.{Name}
use gqlite.Storage.Backend.{Kv, KeyMode, usual, IsLawful, is_some}
use gqlite.Storage.{
  Code, datum_not_exist, code_of, fetched, erased, Storage, get_or_create_handle, get_record,
  del_record, read, del,
}
use gqlite.Storage.View.{IsConsistent, get_or_create_handle-IsHandle, erase_at, erased_at}
use gqlite.Storage.Records.{exists, cached, get_record_lem}

module _ (K : Kv) (content : K.State → Name → List ℕ → Option (List ℕ))
    (laws : IsLawful K content) where
  module _ (s : Storage K) (n : Name) (mode : KeyMode) (k : List ℕ) (ok : IsConsistent s)
      (e : exists s.schema n ≡ true) where
    opened : del_record s n mode k ≡ (
      erased (K.erase (get_or_create_handle s n mode).1.txn (get_or_create_handle s n mode).0 k).0,
      record ((get_or_create_handle s n mode).1) {
        txn = (K.erase (get_or_create_handle s n mode).1.txn (get_or_create_handle s n mode).0 k).1;
      },
    )
    unfolding del_record
    opened = rw (e, del_record) refl

    content-del_record :
        (m j : List ℕ)
        → (get_or_create_handle s n mode).0 ≢ 0
        → content (del_record s n mode k).1.txn m j
          ≡ (if bytes_beq n m && bytes_beq k j then none else content s.txn m j)
    content-del_record m j ne = rw opened (
        erase_at K content laws s n (get_or_create_handle s n mode) k m j
          (get_or_create_handle-IsHandle K content laws s n mode ok) ne)

    del_record_code :
        (get_or_create_handle s n mode).0 ≢ 0
        → (del_record s n mode k).0 ≡ some (code_of (is_some (content s.txn n k)))
    del_record_code ne = rw opened (
        ap erased (
          erased_at K content laws s n (get_or_create_handle s n mode) k
            (get_or_create_handle-IsHandle K content laws s n mode ok) ne))

    del_record-IsConsistent : IsConsistent (del_record s n mode k).1
    del_record-IsConsistent =
        let r = get_or_create_handle s n mode in
        let p = get_or_create_handle-IsHandle K content laws s n mode ok in
        rw opened (record {
          is_handle =
              λ m h q ne. laws.erase_open r.1.txn r.0 k m ∙ p.handle_consistent.is_handle m h q ne;
        })

    get_record-del_record :
        (mode' : KeyMode) (value : List ℕ)
        → (get_or_create_handle s n mode).0 ≢ 0
        → (get_record (del_record s n mode k).1 n mode' k value).0 ≡ some (datum_not_exist, value)
    get_record-del_record mode' value ne =
        let s' = (del_record s n mode k).1 in
        let p = get_or_create_handle-IsHandle K content laws s n mode ok in
        let q : exists s'.schema n ≡ true = rw opened (rw (p.handle_schema) e) in
        let f : get_or_create_handle s' n mode' ≡ ((get_or_create_handle s n mode).0, s') =
          cached K content laws s' n mode' (get_or_create_handle s n mode).0
            (rw opened p.handle_cached) in
        let ne' : (get_or_create_handle s' n mode').0 ≢ 0 = rw f ne in
        let c : content s'.txn n k ≡ none =
          ground (arith, content-del_record n k ne, bytes_beq_iff n n, bytes_beq_iff k k) in
        get_record_lem K content laws s' n mode' k value del_record-IsConsistent q ne'
        ∙ ap (λ (o : Option (List ℕ)). fetched (some o) value) c

  not_null :
      (s : Storage K) (n : Name) (mode : KeyMode) (k : List ℕ) (c : Code)
      → exists s.schema n ≡ true
      → (del_record s n mode k).0 ≡ some c
      → (get_or_create_handle s n mode).0 ≢ 0
  unfolding del_record
  not_null s n mode k c e h q =
      ground (arith, laws.erase_null (get_or_create_handle s n mode).1.txn k)

  -- After a deletion that did not throw, from a map or an index that exists in a lawful store: the
  -- code tells whether the record was there, a read finds no record, and every other record is as
  -- before.
  pub read-del :
      (s : Storage K) (n : Name) (k value : List ℕ) (c : Code)
      → IsConsistent s
      → exists s.schema n ≡ true
      → (del s n k).0 ≡ some c
      → (c ≡ code_of (is_some (content s.txn n k)))
        × ((read (del s n k).1 n k value).0 ≡ some (datum_not_exist, value))
        × ((m j : List ℕ)
            → content (del s n k).1.txn m j
              ≡ (if bytes_beq n m && bytes_beq k j then none else content s.txn m j))
  unfolding read del
  read-del s n k value c ok e h =
      let ne = not_null s n usual k c e h in
      (
        cc (h, del_record_code s n usual k ok e ne),
        get_record-del_record s n usual k ok e usual value ne,
        λ m j. content-del_record s n usual k ok e m j ne,
      )

  -- The map exists and has a handle that is not null.
  pub record IsReady (s : Storage K) (n : Name) (mode : KeyMode) : Type 0 where
    pub consistent : IsConsistent s
    pub there : exists s.schema n ≡ true
    pub handle : (get_or_create_handle s n mode).0 ≢ 0

  -- A deletion from such a map does not throw, and leaves it so.
  pub record IsDeleted (s : Storage K) (n : Name) (mode : KeyMode) (k : List ℕ)
      (r : Option Code × Storage K) : Type 0 where
    pub code : r.0 ≡ some (code_of (is_some (content s.txn n k)))
    pub ready : IsReady r.1 n mode
    pub same_schema : r.1.schema ≡ s.schema
    pub contents :
        (m j : List ℕ)
        → content r.1.txn m j ≡ (if bytes_beq n m && bytes_beq k j then none else content s.txn m j)

  pub del_record-IsDeleted :
      (s : Storage K) (n : Name) (mode : KeyMode) (k : List ℕ)
      → IsReady s n mode
      → IsDeleted s n mode k (del_record s n mode k)
  del_record-IsDeleted s n mode k ok =
      let e = ok.there in
      let p = get_or_create_handle-IsHandle K content laws s n mode ok.consistent in
      let s' = (del_record s n mode k).1 in
      let q : s'.schema ≡ s.schema = rw (opened s n mode k ok.consistent e) p.handle_schema in
      let f : get_or_create_handle s' n mode ≡ ((get_or_create_handle s n mode).0, s') =
        cached K content laws s' n mode (get_or_create_handle s n mode).0
          (rw (opened s n mode k ok.consistent e) p.handle_cached) in
      record {
        code = del_record_code s n mode k ok.consistent e ok.handle;
        ready = record {
          consistent = del_record-IsConsistent s n mode k ok.consistent e;
          there = rw q e;
          handle = rw f ok.handle;
        };
        same_schema = q;
        contents = λ m j. content-del_record s n mode k ok.consistent e m j ok.handle;
      }
