-- ===== src/Plans/Remove/Removed.antt =====
-- src/plan/mutate/RemovePlan.cpp: what a removal leaves of a class with keys of bytes.
use gqlite.Prelude.{
  ℕ, ◌≡◌, ◌≢◌, refl, Bool, false, ◌&&◌, ◌||◌, Option, none, some, List, [], ◌∷◌, ◌++◌,
  if◌then◌else◌, All, arith,
}
use gqlite.Prelude.Eq.{bytes_beq, bytes_eq}
use gqlite.Storage.Tables.{Name, KeyType, get_relations, get_key_type}
use gqlite.Storage.Backend.{Kv, usual, IsLawful}
use gqlite.Storage.{Storage, del, del_record}
use gqlite.Storage.Deleted.{IsReady, del_record-IsDeleted}
use gqlite.Storage.EdgeScan.{c_string}
use gqlite.Plans.Remove.{remove_edges_of, remove_key, remove_keys, remove_all, removed}

abbrev pub HasNoNul : List ℕ → Type 0
HasNoNul = All (λ c. c ≢ 0)

c_string-nul : (s : List ℕ) → HasNoNul s → c_string (s ++ 0 ∷ []) ≡ some s
unfolding c_string
c_string-nul [] h = refl
c_string-nul (c ∷ cs) (ne, h) = ground (arith, c_string-nul cs h)

abbrev pub is_among : List ℕ → List (List ℕ) → Bool
is_among j [] = false
is_among j (k ∷ ks) = bytes_beq k j || is_among j ks

module _ (K : Kv) (content : K.State → Name → List ℕ → Option (List ℕ)) (laws : IsLawful K content)
    (group : Name) where
  -- A key of a class without relations: its record goes, the others stay.
  remove_key_lem :
      (s : Storage K) (key : List ℕ)
      → HasNoNul key
      → get_relations s.schema group ≡ []
      → IsReady K content laws s group usual
      → (s' : Storage K) × (remove_key group KeyType.byte s key ≡ some s')
        × IsReady K content laws s' group usual
        × (s'.schema ≡ s.schema)
        × ((m j : List ℕ)
            → content s'.txn m j
              ≡ (if bytes_beq group m && bytes_beq key j then none else content s.txn m j))
  unfolding remove_key remove_edges_of del
  remove_key_lem s key nul rel ok =
      let d = del_record-IsDeleted K content laws s group usual key ok in
      let s' = (del_record s group usual key).1 in
      let rel' : get_relations s'.schema group ≡ [] = rw d.same_schema rel in
      (s', ground (arith, c_string-nul key nul, d.code, rel'), d.ready, d.same_schema, d.contents)

  -- What is left after the keys of a list were removed.
  pub record IsRemoved (s : Storage K) (keys : List (List ℕ)) (s' : Storage K) : Type 0 where
    pub still_ready : IsReady K content laws s' group usual
    pub left_over :
        (m j : List ℕ)
        → content s'.txn m j
          ≡ (if bytes_beq group m && is_among j keys then none else content s.txn m j)

  remove_keys_lem :
      (keys : List (List ℕ)) (s : Storage K)
      → All HasNoNul keys
      → get_relations s.schema group ≡ []
      → IsReady K content laws s group usual
      → (s' : Storage K) × (remove_keys group KeyType.byte s keys ≡ some s') × IsRemoved s keys s'
  unfolding remove_keys
  remove_keys_lem [] s nul rel ok =
      (s, refl, record { still_ready = ok; left_over = λ m j. ground arith })
  remove_keys_lem (key ∷ keys) s (nk, nul) rel ok =
      let (s1, e, ok1, same, c) = remove_key_lem s key nk rel ok in
      let rel1 : get_relations s1.schema group ≡ [] = rw same rel in
      let (s', e', r) = remove_keys_lem keys s1 nul rel1 ok1 in
      (
        s',
        rw (e, remove_keys) e',
        record {
          still_ready = r.still_ready;
          left_over = λ m j. ground (arith, r.left_over m j, c m j);
        },
      )

  -- A class with keys of bytes.
  pub remove_all_lem :
      (s : Storage K) (keys : List (List ℕ))
      → All HasNoNul keys
      → get_relations s.schema group ≡ []
      → get_key_type s.schema group ≡ some KeyType.byte
      → IsReady K content laws s group usual
      → (s' : Storage K) × (remove_all group s keys ≡ some (removed, s')) × IsRemoved s keys s'
  unfolding remove_all
  remove_all_lem s [] nul rel type ok =
      (s, refl, record { still_ready = ok; left_over = λ m j. ground arith })
  remove_all_lem s (key ∷ keys) nul rel type ok =
      let (s', e, r) = remove_keys_lem (key ∷ keys) s nul rel ok in
      (s', rw (type, remove_all) (rw (e, remove_all) refl), r)
