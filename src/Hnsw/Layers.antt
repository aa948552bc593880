-- ===== src/Hnsw/Layers.antt =====
-- src/operand/query/HNSW.cpp: the layers of the index, in the cache and on disk.
use gqlite.Prelude.{
  ℕ, zero, suc, ◌+◌, ◌<◌, ◌≡◌, refl, ap, Bool, true, false, ◌||◌, none, some, List, [], ◌∷◌, ◌++◌,
  ◌==◌, leb, not, ◌&&◌, ◌⊎◌, length, arith, Option-cases, inl, inr,
}
use gqlite.Sorted.{member, member-add_unique}
use gqlite.Graph.{layer_of}
use gqlite.Hnsw.{entry_from, entry, cache_node, add_disk, next_layer, read_layers}

abbrev pub joined : {A : Type 0} → List (List A) → List A
joined [] = []
joined (xs ∷ layers) = xs ++ joined layers

abbrev pub foldl : {A S : Type 0} → (S → A → S) → S → List A → S
foldl f s [] = s
foldl f s (x ∷ xs) = foldl f (f s x) xs

-- The next record is the first of all the layers together.
next_layer-joined :
    {A : Type 0} (layers : List (List A))
    → ((next_layer layers ≡ none) × (joined layers ≡ []))
      ⊎ ((x : A) × (xs : List A) × (rest : List (List A)) × (next_layer layers
            ≡ some (x, (xs, rest)))
          × (joined layers ≡ x ∷ joined (xs ∷ rest)))
unfolding next_layer
next_layer-joined [] = inl (refl, refl)
next_layer-joined ([] ∷ layers) = next_layer-joined layers
next_layer-joined ((x ∷ xs) ∷ layers) = inr (x, xs, layers, refl, refl)

read_layers_fuel :
    {A S : Type 0} (f : S → A → S) (fuel : ℕ) (layers : List (List A)) (s : S)
    → length (joined layers) < fuel
    → read_layers f fuel layers s ≡ some (foldl f s (joined layers))
unfolding read_layers
read_layers_fuel f zero layers s h = elim h [ ]
read_layers_fuel f (suc fuel) layers s h = elim (next_layer-joined layers) [
  | inl (e, q) ↦ rw (e, read_layers) (rw q refl)
  | inr (x, xs, rest, e, q) ↦
      rw (e, read_layers)
        (rw q (read_layers_fuel f fuel (xs ∷ rest) (f s x) (omega (arith, h, ap length q))))
]

-- The walk over the layers on disk ends, after one step more than there are records, and visits every
-- record once, layer after layer and in the order of each layer.
pub read_layers_lem :
    {A S : Type 0} (f : S → A → S) (layers : List (List A)) (s : S)
    → read_layers f (suc (length (joined layers))) layers s ≡ some (foldl f s (joined layers))
read_layers_lem f layers s =
    read_layers_fuel f (suc (length (joined layers))) layers s (omega arith)

-- A node of a layer is in all layers below.
abbrev pub IsNested : List (List ℕ) → Type 0
IsNested [] = Unit
IsNested (a ∷ []) = Unit
IsNested (a ∷ b ∷ layers) =
    ((id : ℕ) → member id b ≡ true → member id a ≡ true) × IsNested (b ∷ layers)

cache_node-IsNested :
    (cache : List (List ℕ)) (level id : ℕ) → IsNested cache → IsNested (cache_node cache level id)
unfolding cache_node
cache_node-IsNested [] level id h = tt
cache_node-IsNested (a ∷ []) zero id h = tt
cache_node-IsNested (a ∷ []) (suc level) id h = tt
cache_node-IsNested (a ∷ b ∷ layers) zero id (h, hs) =
    (λ n m. ground (arith, h n m, member-add_unique a id n), hs)
cache_node-IsNested (a ∷ b ∷ layers) (suc zero) id (h, hs) = (
  λ n m. ground (arith, h n, m, member-add_unique a id n, member-add_unique b id n),
  cache_node-IsNested (b ∷ layers) zero id hs,
)
cache_node-IsNested (a ∷ b ∷ layers) (suc (suc level)) id (h, hs) = (
  λ n m. ground (arith, h n, m, member-add_unique a id n, member-add_unique b id n),
  cache_node-IsNested (b ∷ layers) (suc level) id hs,
)

-- The node is in the layers up to its level, and in no other layer that did not have it.
pub layer_of-cache_node :
    (cache : List (List ℕ)) (level id i n : ℕ)
    → i < length cache
    → member n (layer_of (cache_node cache level id) i)
      ≡ ((leb i level && id == n) || member n (layer_of cache i))
unfolding cache_node
layer_of-cache_node [] level id i n h = elim h [ ]
layer_of-cache_node (a ∷ cache) zero id zero n h = member-add_unique a id n
layer_of-cache_node (a ∷ cache) (suc level) id zero n h = ground (arith, member-add_unique a id n)
layer_of-cache_node (a ∷ cache) zero id (suc i) n h = ground arith
layer_of-cache_node (a ∷ cache) (suc level) id (suc i) n h =
    ground (arith, layer_of-cache_node cache level id i n (omega (arith, h)))

-- Adding a node to the disk keeps the layers of the cache nested: a node that is new comes into the
-- layers up to its level and no other layer changes; a node that is stored changes nothing.
pub add_disk-IsNested :
    (stored : Bool) (cache : List (List ℕ)) (level id : ℕ)
    → IsNested cache
    → IsNested (add_disk stored cache id level).0
      × ((i n : ℕ)
          → i < length cache
          → member n (layer_of (add_disk stored cache id level).0 i)
            ≡ ((not stored && (leb i level && id == n)) || member n (layer_of cache i)))
unfolding add_disk
add_disk-IsNested true cache level id h = (h, λ i n lt. refl)
add_disk-IsNested false cache level id h =
    (cache_node-IsNested cache level id h, λ i n lt. layer_of-cache_node cache level id i n lt)

nothing_from :
    (layers : List (List ℕ)) (k : ℕ) → entry_from layers k ≡ none → (j : ℕ) → layer_of layers j ≡ []
unfolding entry_from
nothing_from [] k h j = refl
nothing_from ([] ∷ layers) k h zero = refl
nothing_from ((a ∷ more) ∷ layers) k h zero = ground (arith, h)
nothing_from (a ∷ layers) k h (suc j) = nothing_from layers (k + 1) (ground (arith, h)) j

-- What `entry` answers, from the layer `k` on.
record IsEntry (layers : List (List ℕ)) (k l n : ℕ) : Type 0 where
  pub place : ℕ
  pub others : List ℕ
  pub level : l ≡ k + place
  pub first : layer_of layers place ≡ n ∷ others
  pub empty_above : (j : ℕ) → place < j → layer_of layers j ≡ []

deeper :
    (a : List ℕ) (layers : List (List ℕ)) (k l n : ℕ)
    → IsEntry layers (k + 1) l n
    → IsEntry (a ∷ layers) k l n
deeper a layers k l n p = record {
  place = suc p.place;
  others = p.others;
  level = omega (arith, p.level);
  first = p.first;
  empty_above = λ j. shifted j;
}
  where
    shifted : (j : ℕ) → suc p.place < j → layer_of (a ∷ layers) j ≡ []
    shifted zero h = elim h [ ]
    shifted (suc j) h = p.empty_above j (omega (arith, h))

entry_here :
    (a : List ℕ) (layers : List (List ℕ)) (k l n : ℕ)
    → entry_from layers (k + 1) ≡ none
    → entry_from (a ∷ layers) k ≡ some (l, n)
    → IsEntry (a ∷ layers) k l n
unfolding entry_from
entry_here [] layers k l n e h = absurd (ground (arith, e, h))
entry_here (m ∷ others) layers k l n e h = record {
  place = 0;
  others = others;
  level = ground (arith, e, h);
  first = ground (arith, e, h);
  empty_above = λ j. shifted j;
}
  where
    shifted : (j : ℕ) → 0 < j → layer_of ((m ∷ others) ∷ layers) j ≡ []
    shifted zero lt = elim lt [ ]
    shifted (suc j) lt = nothing_from layers (k + 1) e j

entry_from_some :
    (layers : List (List ℕ)) (k l n : ℕ) → entry_from layers k ≡ some (l, n) → IsEntry layers k l n
unfolding entry_from
entry_from_some [] k l n h = absurd (cc)
entry_from_some (a ∷ layers) k l n h = elim (Option-cases (entry_from layers (k + 1))) [
  | inr ((l', n'), e) ↦
      deeper a layers k l n (entry_from_some layers (k + 1) l n (ground (arith, e, h)))
  | inl e ↦ entry_here a layers k l n e h
]

-- The entry point is the first node of the highest layer that has one; there is none only if all
-- layers are empty.
pub entry_lem :
    (cache : List (List ℕ))
    → ((l n : ℕ)
        → entry cache ≡ some (l, n)
        → (rest : List ℕ) × (layer_of cache l ≡ n ∷ rest)
          × ((j : ℕ) → l < j → layer_of cache j ≡ []))
      × (entry cache ≡ none → (j : ℕ) → layer_of cache j ≡ [])
unfolding entry
entry_lem cache = (
  λ l n h.
      let p = entry_from_some cache 0 l n h in
      let e : l ≡ p.place = omega (arith, p.level) in
      (p.others, rw e (p.first), λ j lt. p.empty_above j (omega (arith, e, lt))),
  λ h j. nothing_from cache 0 h j,
)
