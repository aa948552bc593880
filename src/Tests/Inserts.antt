-- ===== src/Tests/Inserts.antt =====
-- Insertions into the nearest neighbour index, and its search, at concrete inputs.
use gqlite.Prelude.{
  none, Option, ℕ, zero, suc, ◌+◌, ◌-◌, ◌≤◌, ◌≡◌, refl, true, false, some, List, [], ◌∷◌, ◌==◌, ltb,
  leb, length, All, arith,
}
use gqlite.Prelude.Eq.{nat_eq}
use gqlite.Prelude.Maps.{lookup, insert, contains}
use gqlite.Sorted.{member, add_unique}
use gqlite.Graph.{edges_of, edge_info, Node, Graph, layer_of, node_size, neighbors, collect}
use gqlite.Network.{add_node, add_edge, insert_edge, link, reverse_edge}
use gqlite.IdSource.Generator
use gqlite.IdSource.Generator.{Generator}
use gqlite.Hnsw.{Metric, cache_node, query_layer, farthest, clip}
use gqlite.Hnsw.Ends.{query_layer-ends}
use gqlite.Hnsw.Insert.{Index, join, id2vector, is_filled, add}
use gqlite.Hnsw.Insert.Sound.{IsReady, Lists}
use gqlite.Hnsw.Insert.Clipped.{HasDistance}
use gqlite.Hnsw.Insert.Added.{IsAdded, add_lem}
use gqlite.Hnsw.Load.{
  Record, is_visited, init_nodes, load_edge, load_record, init_edges, init_net, load_cache,
  new_index,
}
use gqlite.Hnsw.Load.Edges.{IsNull, is_key}
use gqlite.Hnsw.Load.Loaded.{IsClosed, IsLoaded, init_net_lem}
use gqlite.Hnsw.Load.Started.{init_net-new_index}
use gqlite.Network.WellFormed.{IsWellFormed}
use gqlite.Hnsw.Save.{save_level, save_levels, save}
use gqlite.Hnsw.Save.Saved.{IsWritten, HasEdge, save_lem}
use gqlite.Hnsw.Query.{first_record, knn_search, knn_search_lem}

abbrev first_of : List ℕ → ℕ
first_of [] = 0
first_of (x ∷ xs) = x

abbrev line_metric : Metric ℕ
line_metric = record {
  distance2 = λ a b. (first_of a - first_of b) + (first_of b - first_of a);
  less = ltb;
  below = leb;
  before = λ a b. ltb a.1.0 b.1.0;
  same = λ a b. a.1.0 == b.1.0;
}

abbrev line : ℕ → List ℕ
line n = n ∷ []

-- The nodes 0, 1, 2 and 3 in a ring.
abbrev ring : ℕ → List ℕ
ring zero = 1 ∷ 3 ∷ []
ring (suc zero) = 2 ∷ 0 ∷ []
ring (suc (suc zero)) = 3 ∷ 1 ∷ []
ring _ = 0 ∷ 2 ∷ []

abbrev four_nodes : List ℕ
four_nodes = 0 ∷ 1 ∷ 2 ∷ 3 ∷ []

ring_closed :
    (m n : ℕ) → member m four_nodes ≡ true → member n (ring m) ≡ true → member n four_nodes ≡ true
unfolding member
ring_closed zero n h k = ground (arith, k)
ring_closed (suc zero) n h k = ground (arith, k)
ring_closed (suc (suc zero)) n h k = ground (arith, k)
ring_closed (suc (suc (suc m))) n h k = ground (arith, h, k)

in_four : member 0 four_nodes ≡ true
unfolding member
in_four = refl

query_layer-ends_example :
    (((query_layer line_metric line ring (3 ∷ []) 2 6 0).1 ≡ true)
      × (length (query_layer line_metric line ring (3 ∷ []) 2 6 0).0 ≤ 4))
query_layer-ends_example =
    query_layer-ends line_metric line ring (3 ∷ []) 2 0 four_nodes in_four ring_closed

abbrev empty_index : Index ℕ
empty_index = record {
  network = record { nodes = []; edges = [] };
  ids = record { cur = 0; reused = [] };
  cache = (1 ∷ 2 ∷ []) ∷ [] ∷ [] ∷ [] ∷ [];
  vectors = (1, 10 ∷ []) ∷ (2, 20 ∷ []) ∷ [];
  updated = false;
}

-- Two nodes in the lowest layer, each the neighbour of the other.
abbrev two_records : List Record
two_records = (0, (1, 2 ∷ [])) ∷ (0, (2, 1 ∷ [])) ∷ []

abbrev no_disk : ℕ → ℕ → List ℕ
no_disk layer node = []

two_records-IsClosed : IsClosed two_records two_records
two_records-IsClosed = (omega arith, refl, (refl, tt), (omega arith, refl, (refl, tt), tt))

cached_keys :
    (l n : ℕ) → member n (layer_of empty_index.cache l) ≡ true → is_key n two_records ≡ true
unfolding member
cached_keys zero n h = ground (arith, h)
cached_keys (suc zero) n h = ground (arith, h)
cached_keys (suc (suc zero)) n h = ground (arith, h)
cached_keys (suc (suc (suc zero))) n h = ground (arith, h)
cached_keys (suc (suc (suc (suc l)))) n h = ground (arith, h)

abbrev two_vectors : List (ℕ × List ℕ)
two_vectors = (1, 10 ∷ []) ∷ (2, 20 ∷ []) ∷ []

new_index-two_records : new_index two_records two_vectors ≡ empty_index
unfolding new_index load_cache cache_node add_unique
new_index-two_records = refl

five_unread : is_filled (id2vector two_vectors 5) ≡ false
unfolding id2vector lookup
five_unread = refl

init_net-new_index_example :
    (ix' : Index ℕ) × (init_net 8 (new_index two_records two_vectors) two_records ≡ some ix')
    × IsLoaded (new_index two_records two_vectors) ix' two_records
init_net-new_index_example =
    init_net-new_index 8 two_vectors two_records two_records-IsClosed (omega arith)

abbrev plain_node : Node (Option ℕ)
plain_node = record {
  edges = (1 ∷ []) ∷ [] ∷ [] ∷ [] ∷ [];
  attrs = [];
  info = none;
  status = record { visit = false; hold = false; del = false; layer = 0; updated = false };
}

abbrev two_nodes : Graph (Option ℕ)
two_nodes = record {
  nodes = (1, plain_node) ∷ (2, plain_node) ∷ [];
  edges =
      (
        1,
        record {
          first = 2;
          second = 1;
          attrs = [];
          info = none;
          status = record { updated = false; hold = false; del = false; direction = 0; layer = 0 };
        },
      )
      ∷ [];
}

abbrev loaded_index : Index ℕ
loaded_index = record empty_index { network = two_nodes; ids = record { cur = 2; reused = [] } }

-- One edge joins the two nodes: its id is 1, and the id 2 was taken for the next one.
init_net-two_records : init_net 8 empty_index two_records ≡ some loaded_index
unfolding init_net init_nodes init_edges load_record load_edge is_visited join add_node add_edge
    Generator.generate contains lookup insert neighbors collect insert_edge link add_unique member
    reverse_edge
init_net-two_records = refl

loaded_index-IsReady : IsReady IsNull loaded_index
loaded_index-IsReady =
    let (ix, p, l) =
      init_net_lem 8 empty_index two_records refl refl two_records-IsClosed cached_keys
        (omega arith) in
    let same : loaded_index ≡ ix = cc (init_net-two_records, p) in rw same l.ready

-- Two nodes without edges, with the cache and the vectors of before.
abbrev alone_records : List Record
alone_records = (0, (1, [])) ∷ (0, (2, [])) ∷ []

abbrev alone_node : Node (Option ℕ)
alone_node = record plain_node { edges = [] ∷ [] ∷ [] ∷ [] ∷ [] }

abbrev alone_index : Index ℕ
alone_index = record empty_index {
  network = record { nodes = (1, alone_node) ∷ (2, alone_node) ∷ []; edges = [] };
  ids = record { cur = 1; reused = [] };
}

init_net-alone_records : init_net 8 empty_index alone_records ≡ some alone_index
unfolding init_net init_nodes init_edges load_record add_node Generator.generate lookup insert
init_net-alone_records = refl

alone_index-IsReady : IsReady HasDistance alone_index
unfolding lookup
alone_index-IsReady =
    let (ix, p, l) =
      init_net_lem 8 empty_index alone_records refl refl
        (omega arith, refl, tt, (omega arith, refl, tt, tt)) cached_alone (omega arith) in
    let same : alone_index ≡ ix = cc (init_net-alone_records, p) in
    let ready : IsReady IsNull alone_index = rw same l.ready in
    record {
      well_formed = ready.well_formed;
      live = λ a e h. absurd (cc (h));
      free = ready.free;
      unused = ready.unused;
      cached = ready.cached;
    }
  where
    cached_alone :
        (l n : ℕ) → member n (layer_of empty_index.cache l) ≡ true → is_key n alone_records ≡ true
    cached_alone l n h = cached_keys l n h

five_is_new : is_filled (id2vector alone_index.vectors 5) ≡ false
unfolding id2vector lookup
five_is_new = refl

add_lem_example :
    (ix' : Index ℕ) × (add line_metric 0 no_disk 3 4 8 alone_index 5 (18 ∷ []) 1 ≡ some ix')
    × IsAdded line_metric 0 no_disk 3 4 8 alone_index ix' 5 (18 ∷ [])
add_lem_example =
    add_lem line_metric 0 no_disk 3 4 8 alone_index 5 1 (18 ∷ []) alone_index-IsReady (omega arith)
      (omega arith) (omega arith) five_is_new

-- With two links at most, clipping the node 1 converts the null payload of its loaded edge, and throws.
clip-two_nodes : clip {D = ℕ} ltb 0 two_nodes 1 0 1 ≡ none
unfolding clip farthest edges_of edge_info lookup
clip-two_nodes = refl

abbrev layer_records : ℕ → List (ℕ × List ℕ)
layer_records zero = (1, 2 ∷ []) ∷ (2, 1 ∷ []) ∷ []
layer_records (suc level) = []

two_ids-Lists : Lists (1 ∷ 2 ∷ []) loaded_index
unfolding contains lookup member
two_ids-Lists n = ground arith

knn_search_lem_example :
    let found = knn_search line_metric 0 no_disk 3 4 4 loaded_index (18 ∷ []) 2 layer_records in
    All (λ a. member a (1 ∷ 2 ∷ []) ≡ true) found × (length found ≤ 2)
unfolding first_record member
knn_search_lem_example =
    knn_search_lem line_metric 0 no_disk 3 4 (1 ∷ 2 ∷ []) loaded_index IsNull loaded_index-IsReady
      two_ids-Lists (18 ∷ []) 2 layer_records 0 2 [] refl refl

-- The search for 18 finds 2 first, whose vector is 20, and then 1.
knn_search-two_nodes :
    knn_search line_metric 0 no_disk 3 4 4 loaded_index (18 ∷ []) 2 layer_records ≡ 2 ∷ 1 ∷ []
unfolding knn_search query_layer lookup node_size neighbors collect member
knn_search-two_nodes = refl

abbrev updated_index : Index ℕ
updated_index = record loaded_index { updated = true }

updated_index-IsWellFormed : IsWellFormed updated_index.network
updated_index-IsWellFormed = loaded_index-IsReady.well_formed

two_cached : member 2 (layer_of updated_index.cache 0) ≡ true
unfolding member
two_cached = refl

save_lem_example :
    (IsWritten updated_index 0 2 1 → HasEdge updated_index 0 2 1)
    × (HasEdge updated_index 0 2 1 → IsWritten updated_index 0 2 1)
save_lem_example = save_lem updated_index updated_index-IsWellFormed refl 0 2 two_cached 1

-- What is saved is what was loaded.
save-updated_index : save updated_index ≡ two_records
unfolding save save_levels save_level neighbors collect lookup member add_unique
save-updated_index = refl
