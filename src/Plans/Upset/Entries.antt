-- ===== src/Plans/Upset/Entries.antt =====
-- src/plan/mutate/UpsetPlan.cpp: the index entries of numbers as ids.
use gqlite.Prelude.{
  ℕ, zero, suc, ◌*◌, ◌/◌, ◌≤◌, ◌≡◌, refl, ap, ◌∙◌, Option, some, List, [], ◌∷◌, length,
  length-append, take, drop, arith,
}
use gqlite.Prelude.Eq.{bytes_beq_iff, bytes_eq}
use gqlite.Word.{le_bytes, length-le_bytes}
use gqlite.Sorted.{add_unique}
use gqlite.Storage.Tables.{Name, IndexType, Schema, update_index_type}
use gqlite.Storage.Backend.{Kv, usual, IsLawful}
use gqlite.Storage.{Code, success, Storage, write, read}
use gqlite.Storage.View.{IsConsistent}
use gqlite.Storage.Records.{content-write, get_record-IsConsistent}
use gqlite.Plans.Upset.{words, to_words, buffer, upset_index_u64}

length-words : (n : ℕ) (bytes : List ℕ) → length (words n bytes) ≡ n
unfolding words
length-words zero bytes = refl
length-words (suc n) bytes = ap suc (length-words n (drop 8 bytes))

length-buffer : (ids : List ℕ) → length (buffer ids) ≡ 8 * length ids
unfolding buffer
length-buffer [] = omega arith
length-buffer (n ∷ ns) =
    omega (arith, length-append (le_bytes 8 n) (buffer ns), length-le_bytes 8 n, length-buffer ns)

length-take : (n : ℕ) (l : List ℕ) → n ≤ length l → length (take n l) ≡ n
length-take zero l h = refl
length-take (suc n) [] h = omega (arith, h)
length-take (suc n) (x ∷ l) h = ap suc (length-take n l (omega (arith, h)))

-- The bytes that are written for a list of ids hold an eighth of them.
pub length-to_words :
    (ids : List ℕ) → length (to_words (take (length ids) (buffer ids))) ≡ length ids / 8
unfolding to_words
length-to_words ids =
    let e = length-take (length ids) (buffer ids) (omega (arith, length-buffer ids)) in
    let q =
      length-words (length (take (length ids) (buffer ids)) / 8) (take (length ids) (buffer ids)) in
    q ∙ ap (λ (n : ℕ). n / 8) e

module _ (K : Kv) (content : K.State → Name → List ℕ → Option (List ℕ))
    (laws : IsLawful K content) where
  read-IsConsistent :
      (s : Storage K) (n : Name) (k value : List ℕ)
      → IsConsistent s
      → IsConsistent (read s n k value).1
  unfolding read
  read-IsConsistent s n k value ok = get_record-IsConsistent K content laws s n usual k value ok

  steps :
      (s s1 s2 : Storage K) (c : Schema) (index : Name) (type got : IndexType)
      (value bytes : List ℕ) (code : Code) (id : ℕ)
      → read s index value [] ≡ (some (code, bytes), s1)
      → (let ids = (add_unique (to_words bytes) id).0 in
          write s1 index value (take (length ids) (buffer ids)) ≡ (success, s2))
      → update_index_type s2.schema index type ≡ some (got, c)
      → upset_index_u64 s index type value id ≡ some (record s2 { schema = c })
  unfolding upset_index_u64
  steps s s1 s2 c index type got value bytes code id r w u = ground (arith, r, w, u)

  -- Where the entry of an index is read, its write succeeds and the type of the index is noted: of the
  -- ids that the entry should hold, it holds as many whole numbers as an eighth of them.
  pub upset_index_u64_lem :
      (s s1 s2 : Storage K) (c : Schema) (index : Name) (type got : IndexType)
      (value bytes : List ℕ) (code : Code) (id : ℕ)
      → IsConsistent s
      → read s index value [] ≡ (some (code, bytes), s1)
      → (let ids = (add_unique (to_words bytes) id).0 in
          write s1 index value (take (length ids) (buffer ids)) ≡ (success, s2))
      → update_index_type s2.schema index type ≡ some (got, c)
      → (upset_index_u64 s index type value id ≡ some (record s2 { schema = c }))
        × ((w : List ℕ) × (content s2.txn index value ≡ some w)
            × (length (to_words w) ≡ length (add_unique (to_words bytes) id).0 / 8))
  upset_index_u64_lem s s1 s2 c index type got value bytes code id ok r w u =
      let ids = (add_unique (to_words bytes) id).0 in
      let v = take (length ids) (buffer ids) in
      let ok1 : IsConsistent s1 = let q = read-IsConsistent s index value [] ok in rw r at q in
      let e = content-write K content laws s1 index value v index value ok1 in
      (
        steps s s1 s2 c index type got value bytes code id r w u,
        (
          v,
          ground (arith, e, w, bytes_beq_iff index index, bytes_beq_iff value value),
          length-to_words ids,
        ),
      )
