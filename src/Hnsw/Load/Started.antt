-- ===== src/Hnsw/Load/Started.antt =====
-- src/operand/query/HNSW.cpp: the constructor's cache, and the network of an index that was just
-- constructed.
use gqlite.Prelude.{
  ℕ, zero, suc, ◌+◌, ◌^◌, ◌<◌, ◌≡◌, refl, ◌∙◌, true, false, ◌||◌, some, List, [], ◌∷◌, arith,
  length,
}
use gqlite.Prelude.Eq.{nat_eq}
use gqlite.Graph.{layer_of}
use gqlite.Sorted.{member}
use gqlite.Hnsw.Insert.{Index}
use gqlite.Hnsw.{cache_node}
use gqlite.Hnsw.Insert.Added.{length-cache_node, cached_after}
use gqlite.Hnsw.Load.{Record, init_net, load_cache, new_index}
use gqlite.Hnsw.Load.Edges.{links, is_key}
use gqlite.Hnsw.Load.Loaded.{IsClosed, IsLoaded, init_net_lem}

no_member : (l n : ℕ) → member n (layer_of ([] ∷ [] ∷ [] ∷ [] ∷ []) l) ≡ false
unfolding member
no_member zero n = refl
no_member (suc zero) n = refl
no_member (suc (suc zero)) n = refl
no_member (suc (suc (suc zero))) n = refl
no_member (suc (suc (suc (suc l)))) n = refl

length-load_cache :
    (records : List Record) (cache : List (List ℕ))
    → length (load_cache cache records) ≡ length cache
unfolding load_cache
length-load_cache [] cache = refl
length-load_cache ((level, (k, ns)) ∷ rest) cache =
    length-load_cache rest (cache_node cache level k) ∙ length-cache_node cache level k

-- The nodes of the cache that was loaded are keys of the records.
load_cache-is_key :
    (records : List Record) (cache : List (List ℕ)) (l n : ℕ)
    → member n (layer_of (load_cache cache records) l) ≡ true
    → (member n (layer_of cache l) || is_key n records) ≡ true
unfolding load_cache
load_cache-is_key [] cache l n h = ground (arith, h)
load_cache-is_key ((level, (k, ns)) ∷ rest) cache l n h =
    ground (
      arith,
      load_cache-is_key rest (cache_node cache level k) l n h,
      cached_after cache level k l n,
    )

module _ {D : Type 0} where
  -- Building the network of an index that was constructed on an empty one, over a store whose records
  -- have levels below 4 and name only nodes that are keys of records, succeeds where the edge ids do
  -- not run out: the network is well-formed with no edge marked, its nodes are the keys, the nodes of
  -- the cache are among them, and every edge has a null payload.
  pub init_net-new_index :
      (max_memory : ℕ) (vectors : List (ℕ × List D)) (records : List Record)
      → IsClosed records records
      → 1 + links records < 2 ^ 64
      → (ix' : Index D) × (init_net max_memory (new_index records vectors) records ≡ some ix')
        × IsLoaded (new_index records vectors) ix' records
  unfolding new_index member
  init_net-new_index max_memory vectors records closed room =
      init_net_lem max_memory (new_index records vectors) records refl refl closed
        (λ l n h.
          ground (arith, load_cache-is_key records ([] ∷ [] ∷ [] ∷ [] ∷ []) l n h, no_member l n))
        (omega (arith, room))
