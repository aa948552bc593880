-- ===== src/Tests/Index.antt =====
-- The nearest neighbour index at concrete inputs.
use gqlite.Prelude.{
  ℕ, ◌+◌, ◌-◌, ◌<◌, ◌≡◌, refl, true, false, not, ◌&&◌, ◌||◌, some, List, [], ◌∷◌, ◌==◌, ltb, leb,
  length, All, arith,
}
use gqlite.Sorted.{member, add_unique}
use gqlite.Graph.{layer_of}
use gqlite.Hnsw.{
  Detail, Metric, put_near, rbegin, drop_last, add_detail, erase_detail, trim, look, look_all,
  rounds, query_layer, entry_from, entry, cache_node, add_disk, next_layer, read_layers,
}
use gqlite.Hnsw.Layers.{add_disk-IsNested, IsNested}
use gqlite.Hnsw.Reach.{Reaches, query_layer-Reaches}

abbrev first_of : List ℕ → ℕ
first_of [] = 0
first_of (x ∷ xs) = x

abbrev line_metric : Metric ℕ
line_metric = record {
  distance2 = λ a b. (first_of a - first_of b) + (first_of b - first_of a);
  less = ltb;
  below = leb;
  before = λ a b. ltb a.1.0 b.1.0;
  same = λ a b. a.1.0 == b.1.0;
}

abbrev line : ℕ → List ℕ
line n = n ∷ []

-- Each node is the neighbour of the next one and of the one before.
abbrev line_neighbors : ℕ → List ℕ
line_neighbors n = (n - 1) ∷ (n + 1) ∷ []

-- From 0, the search for 3 walks to 3 and ends, and finds the two nearest nodes.
walk_to_three :
    query_layer line_metric line line_neighbors (3 ∷ []) 2 20 0
    ≡ ((3, (0, 3 ∷ [])) ∷ (2, (1, 2 ∷ [])) ∷ [], true)
unfolding query_layer rounds look_all look trim put_near rbegin drop_last add_detail erase_detail
    add_unique member
walk_to_three = refl

query_layer-Reaches_example :
    All
      (λ (d : Detail ℕ). Reaches line_neighbors 0 d.0)
      (query_layer line_metric line line_neighbors (3 ∷ []) 2 20 0).0
query_layer-Reaches_example = query_layer-Reaches line_metric line line_neighbors (3 ∷ []) 2 20 0

abbrev stored_layers : List (List ℕ)
stored_layers = (4 ∷ 7 ∷ []) ∷ [] ∷ (9 ∷ []) ∷ []

abbrev plus : ℕ → ℕ → ℕ
plus a b = a + b

read_layers_sum : read_layers plus 4 stored_layers 0 ≡ some 20
unfolding read_layers next_layer
read_layers_sum = refl

abbrev two_layers : List (List ℕ)
two_layers = (2 ∷ 5 ∷ []) ∷ (5 ∷ []) ∷ [] ∷ []

two_layers-IsNested : IsNested two_layers
unfolding member
two_layers-IsNested = (λ id h. ground (arith, h), (λ id h. ground (arith, h), tt))

add_disk-IsNested_example :
    IsNested (add_disk false two_layers 3 1).0
    × ((i n : ℕ)
        → i < length two_layers
        → member n (layer_of (add_disk false two_layers 3 1).0 i)
          ≡ ((not false && (leb i 1 && 3 == n)) || member n (layer_of two_layers i)))
add_disk-IsNested_example = add_disk-IsNested false two_layers 1 3 two_layers-IsNested

two_layers_added : (add_disk false two_layers 3 1).0 ≡ (2 ∷ 3 ∷ 5 ∷ []) ∷ (3 ∷ 5 ∷ []) ∷ [] ∷ []
unfolding add_disk cache_node add_unique
two_layers_added = refl

entry-two_layers : entry two_layers ≡ some (1, 5)
unfolding entry entry_from
entry-two_layers = refl
