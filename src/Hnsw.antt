-- ===== src/Hnsw.antt =====
-- src/operand/query/HNSW.cpp and include/operand/query/HNSW.h: the nearest neighbour index. `double` is
-- a parameter, with the distance of src/base/math/Distance.cpp, and so are the comparisons of
-- `node_detail` that `addUniqueDataAndSort` and `eraseSortedData` are compiled with.
pub mod Layers
pub mod Reach
pub mod Ends
pub mod Insert
pub mod Load
pub mod Query
pub mod Save
use gqlite.Prelude.{
  ℕ, zero, suc, ◌+◌, ◌-◌, ◌*◌, ◌/◌, ◌≡◌, Bool, true, false, not, ◌&&◌, ◌||◌, Option, none, some,
  List, [], ◌∷◌, ◌++◌, ◌==◌, ltb, leb, if◌then◌else◌, length,
}
use gqlite.Prelude.Eq.{nat_eq}
use gqlite.Prelude.Options.{◌>>=◌}
use gqlite.Sorted.{add_unique, member}
use gqlite.Graph.{Graph, max_layer_size, edges_of, edge_info}
use gqlite.Network.{no_edge, delete_edge}

-- `node_detail`: a node, its distance, and its vector.
abbrev pub Detail : Type 0 → Type 0
Detail D = ℕ × (D × List D)

pub record Metric (D : Type 0) : Type 0 where
  pub distance2 : List D → List D → D
  pub less : D → D → Bool
  -- `near < far + DBL_EPSILON`
  pub below : D → D → Bool
  pub before : Detail D → Detail D → Bool
  pub same : Detail D → Detail D → Bool

-- `std::map<double, node_t>`: ascending, an equal key keeps its place and takes the new node.
unfoldable pub put_near : {D : Type 0} → Metric D → D → ℕ → List (D × ℕ) → List (D × ℕ)
put_near M d n [] = (d, n) ∷ []
put_near M d n ((e, m) ∷ rest) =
    let behind = put_near M d n rest in
    if M.less e d
    then (e, m) ∷ behind
    else if M.less d e
    then (d, n) ∷ (e, m) ∷ rest
    else (e, n) ∷ rest

unfoldable pub rbegin : {D : Type 0} → D → ℕ → List (D × ℕ) → D × ℕ
rbegin d n [] = (d, n)
rbegin d n ((e, m) ∷ rest) = rbegin e m rest

unfoldable pub drop_last : {D : Type 0} → List (D × ℕ) → List (D × ℕ)
drop_last [] = []
drop_last (x ∷ []) = []
drop_last (x ∷ y ∷ rest) = x ∷ drop_last (y ∷ rest)

unfoldable pub add_detail : {D : Type 0} → Metric D → List (Detail D) → Detail D → List (Detail D)
add_detail M [] d = d ∷ []
add_detail M (x ∷ xs) d =
    let rest = add_detail M xs d in
    if M.before x d then x ∷ rest else if M.same x d then x ∷ xs else d ∷ x ∷ xs

unfoldable pub erase_detail : {D : Type 0} → Metric D → List (Detail D) → Detail D → List (Detail D)
erase_detail M [] d = []
erase_detail M (x ∷ xs) d =
    let rest = erase_detail M xs d in
    if M.before x d then x ∷ rest else if M.same x d then xs else x ∷ xs

-- The locals of `queryLayer`.
pub record Search (D : Type 0) : Type 0 where
  pub visited : List ℕ
  pub candidates : List (D × ℕ)
  pub nearest : List (D × ℕ)
  pub elements : List (Detail D)

-- `vector` is `id2vector`, and `neighborhood` the set of neighbours in the layer.
module _ {D : Type 0} (M : Metric D) (vector : ℕ → List D) (neighborhood : ℕ → List ℕ) (q : List D)
    (top_k : ℕ) where
  -- `W.erase(std::prev(W.end()))` and the element of its node.
  unfoldable pub trim : Search D → Search D
  unfolding rbegin drop_last erase_detail
  trim s = elim s.nearest [
    | [] ↦ s
    | (d, n) ∷ rest ↦
        let (e, m) = rbegin d n rest in
        if ltb top_k (length s.nearest)
        then record s {
          nearest = drop_last s.nearest;
          elements = erase_detail M s.elements (m, (e, []));
        }
        else s
  ]

  -- One neighbour; `far` is the distance of the farthest node when the round began.
  unfoldable pub look : D → Search D → ℕ → Search D
  unfolding trim put_near add_detail
  look far s n =
      let seen = record s { visited = (add_unique s.visited n).0 } in
      let near = M.distance2 (vector n) q in
      let taken = trim (record seen {
        candidates = put_near M near n s.candidates;
        nearest = put_near M near n s.nearest;
        elements = add_detail M s.elements (n, (near, vector n));
      }) in
      if member n s.visited
      then s
      else if M.below near far || ltb (length s.nearest) top_k
      then taken
      else seen

  unfoldable pub look_all : D → Search D → List ℕ → Search D
  unfolding look
  look_all far s [] = s
  look_all far s (n ∷ ns) = look_all far (look far s n) ns

  -- The rounds: up to `fuel` of them, and whether the search came to its end.
  unfoldable pub rounds : ℕ → Search D → Search D × Bool
  unfolding look_all rbegin
  rounds zero s = (s, false)
  rounds (suc fuel) s = elim s.candidates [
    | [] ↦ (s, true)
    | (d, elm) ∷ rest ↦ elim s.nearest [
      | [] ↦ (s, true)
      | (e, n) ∷ others ↦
          let far = M.distance2 q (vector (rbegin e n others).1) in
          let next =
            rounds fuel (
              look_all far (record s { candidates = rest })
                (add_unique (neighborhood elm) elm).0) in
          if M.less far (M.distance2 (vector elm) q)
          then (record s { candidates = rest }, true)
          else next
    ]
  ]

  unfoldable pub query_layer : ℕ → ℕ → List (Detail D) × Bool
  unfolding rounds
  query_layer fuel ep =
      let d = M.distance2 q (vector ep) in
      let (s, ended) = rounds fuel (record {
        visited = [];
        candidates = (d, ep) ∷ [];
        nearest = (d, ep) ∷ [];
        elements = [];
      }) in
      (s.elements, ended)

-- `_cache`: the nodes of each layer, in ascending order, from layer 0 on.
unfoldable pub entry_from : List (List ℕ) → ℕ → Option (ℕ × ℕ)
entry_from [] level = none
entry_from (nodes ∷ layers) level =
    let above = entry_from layers (level + 1) in
    elim above [ some e ↦ some e | none ↦ elim nodes [ [] ↦ none | n ∷ ns ↦ some (level, n) ] ]

-- The top layer that has a node, and its first node; `none` is the level -1 with `no_node`.
unfoldable pub entry : List (List ℕ) → Option (ℕ × ℕ)
unfolding entry_from
entry cache = entry_from cache 0

-- The loop of `addDisk` over the layers 0 to `level`.
unfoldable pub cache_node : List (List ℕ) → ℕ → ℕ → List (List ℕ)
cache_node [] level id = []
cache_node (nodes ∷ layers) zero id = (add_unique nodes id).0 ∷ layers
cache_node (nodes ∷ layers) (suc level) id = (add_unique nodes id).0 ∷ cache_node layers level id

-- `stored` is whether the property map holds the node; the result tells whether it was added.
unfoldable pub add_disk : Bool → List (List ℕ) → ℕ → ℕ → List (List ℕ) × Bool
unfolding cache_node
add_disk stored cache id level =
    if stored then (cache, false) else (cache_node cache level id, true)

-- The loop of `clipEdgeThenKeepNeighborSize`: the last edge whose distance is not below those before.
unfoldable pub farthest :
    {D : Type 0} → (D → D → Bool) → (ℕ → Option D) → D → ℕ → List ℕ → Option (D × ℕ)
farthest less info f eid [] = some (f, eid)
farthest less info f eid (id ∷ ids) = elim (info id) [
  | none ↦ none
  | some d ↦ farthest less info (if less d f then f else d) (if less d f then eid else id) ids
]

-- The conversion of an edge's JSON payload to a number, where `none` in the graph is a null payload: it
-- throws for null, and `edge_info` for an edge that is missing.
abbrev pub distance_of : {D : Type 0} → Option (Option D) → Option D
distance_of none = none
distance_of (some d) = d

-- `none` is an exception. `zero_d` is 0.0.
unfoldable pub clip :
    {D : Type 0} → (D → D → Bool) → D → Graph (Option D) → ℕ → ℕ → ℕ → Option (Graph (Option D))
unfolding farthest delete_edge edges_of edge_info
clip less zero_d g node level max_neighbor = do
  ids ← edges_of g node level
  found ←
      (if leb max_neighbor (length ids)
        then farthest less (λ id. distance_of (edge_info g id)) zero_d no_edge ids
        else some (zero_d, no_edge))
  some (if found.1 == no_edge then g else delete_edge none g found.1 false)

-- `readEachLayer`: the cursor's records, and the layers below.
unfoldable pub next_layer : {A : Type 0} → List (List A) → Option (A × (List A × List (List A)))
next_layer [] = none
next_layer ([] ∷ layers) = next_layer layers
next_layer ((x ∷ xs) ∷ layers) = some (x, (xs, layers))

unfoldable pub read_layers : {A S : Type 0} → (S → A → S) → ℕ → List (List A) → S → Option S
unfolding next_layer
read_layers f zero layers s = none
read_layers f (suc fuel) layers s = elim (next_layer layers) [
  | none ↦ some s
  | some (x, (xs, rest)) ↦ read_layers f fuel (xs ∷ rest) (f s x)
]
