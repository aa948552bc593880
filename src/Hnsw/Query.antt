-- ===== src/Hnsw/Query.antt =====
-- src/operand/query/HNSW.cpp: `knnSearch`, and `query` and `get`, which append to the caller's lists.
use gqlite.Prelude.{
  ℕ, zero, suc, ◌≤◌, ◌≡◌, true, Option, none, some, List, [], ◌∷◌, ◌++◌, length, All, map,
}
use gqlite.Prelude.Eq.{nat_eq}
use gqlite.Sorted.{member}
use gqlite.Hnsw.{Detail, Metric}
use gqlite.Hnsw.Insert.{Index, ids_of, id2vector, search}
use gqlite.Hnsw.Insert.Searched.{search_lem}
use gqlite.Hnsw.Insert.Sound.{IsReady, Lists}

-- The highest layer from `level` down that holds a record, and the value of its first record; `records`
-- are those of a layer's map, each a node and its neighbours.
unfoldable pub first_record : (ℕ → List (ℕ × List ℕ)) → ℕ → Option (ℕ × List ℕ)
first_record records zero = elim (records 0) [ [] ↦ none | (k, ns) ∷ _ ↦ some (0, ns) ]
first_record records (suc level) = elim (records (suc level)) [
  | [] ↦ first_record records level
  | (k, ns) ∷ _ ↦ some (suc level, ns)
]

abbrev front : {D : Type 0} → ℕ → List (Detail D) → ℕ
front nearest [] = nearest
front nearest ((n, _) ∷ ds) = n

module _ {D : Type 0} (M : Metric D) (zero_d : D) (disk : ℕ → ℕ → List ℕ) (m ef fuel : ℕ)
    (ix : Index D) (vec : List D) (top_k : ℕ) where
  -- The loop over the layers above layer 0.
  unfoldable pub descend : ℕ → ℕ → ℕ
  unfolding search
  descend zero nearest = nearest
  descend (suc level) nearest =
      descend level
        (front nearest (search M zero_d disk m ef fuel ix vec nearest top_k (suc level)))

  unfoldable pub knn_from : Option (ℕ × List ℕ) → List ℕ
  unfolding descend ids_of
  knn_from none = []
  knn_from (some (level, [])) = []
  knn_from (some (level, n ∷ ns)) =
      ids_of (search M zero_d disk m ef fuel ix vec (descend level n) top_k 0)

  unfoldable pub knn_search : (ℕ → List (ℕ × List ℕ)) → List ℕ
  unfolding knn_from first_record
  knn_search records = knn_from (first_record records 3)

  unfoldable pub query : (ℕ → List (ℕ × List ℕ)) → List ℕ → List ℕ
  unfolding knn_search
  query records ids = ids ++ knn_search records

unfoldable pub get : {D : Type 0} → Index D → List ℕ → List (List D) → List (List D)
unfolding id2vector
get ix ids vecs = vecs ++ map (id2vector ix.vectors) ids

module _ {D : Type 0} (M : Metric D) (zero_d : D) (disk : ℕ → ℕ → List ℕ) (m ef : ℕ)
    (nodes : List ℕ) (ix : Index D) (P : Option D → Type 0) (ok : IsReady P ix)
    (same : Lists nodes ix) (vec : List D) (top_k : ℕ) where
  abbrev rounds : ℕ
  rounds = suc (suc (length nodes))

  front-IsNode :
      (nearest : ℕ) (ds : List (Detail D))
      → member nearest nodes ≡ true
      → All (λ n. member n nodes ≡ true) (ids_of ds)
      → member (front nearest ds) nodes ≡ true
  unfolding ids_of
  front-IsNode nearest [] h a = h
  front-IsNode nearest ((n, _) ∷ ds) h a = a.0

  descend-IsNode :
      (level nearest : ℕ)
      → member nearest nodes ≡ true
      → member (descend M zero_d disk m ef rounds ix vec top_k level nearest) nodes ≡ true
  unfolding descend
  descend-IsNode zero nearest h = h
  descend-IsNode (suc level) nearest h =
      let ds = search M zero_d disk m ef rounds ix vec nearest top_k (suc level) in
      let found =
        search_lem M zero_d disk m ef nodes ix ok.well_formed same vec nearest top_k (suc level)
          h in
      descend-IsNode level (front nearest ds) (front-IsNode nearest ds h found.0)

  -- In a well-formed network, the search for the nearest vectors from a first record whose first
  -- neighbour is a node finds nodes only, and at most as many as there are.
  pub knn_search_lem :
      (records : ℕ → List (ℕ × List ℕ)) (level n : ℕ) (ns : List ℕ)
      → first_record records 3 ≡ some (level, n ∷ ns)
      → member n nodes ≡ true
      → let found = knn_search M zero_d disk m ef rounds ix vec top_k records in
        All (λ a. member a nodes ≡ true) found × (length found ≤ length nodes)
  unfolding knn_search
  knn_search_lem records level n ns e h = rw e (
      search_lem M zero_d disk m ef nodes ix ok.well_formed same vec
        (descend M zero_d disk m ef rounds ix vec top_k level n) top_k 0 (descend-IsNode level n h))
