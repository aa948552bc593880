-- ===== src/Hnsw/Save/Saved.antt =====
-- src/operand/query/HNSW.cpp: the edges that `save` writes.
use gqlite.Prelude.{
  ℕ, zero, suc, ◌+◌, ◌<◌, ◌≡◌, refl, ap, ◌∙◌, sym, Bool, true, false, ◌&&◌, ◌⊎◌, Option, none, some,
  List, [], ◌∷◌, ◌++◌, ◌==◌, if◌then◌else◌, arith,
}
use gqlite.Prelude.Eq.{nat_eq}
use gqlite.Prelude.Maps.{lookup}
use gqlite.Sorted.{member}
use gqlite.Graph.{Graph, Edge, neighbors, far_end, layer_of}
use gqlite.Network.WellFormed.{IsWellFormed}
use gqlite.Network.Neighbors.{neighbors_sound, neighbors_complete}
use gqlite.Hnsw.Insert.{Index}
use gqlite.Hnsw.Load.{Record}
use gqlite.Hnsw.Save.{save_level, save_levels, save}

-- The value of a node in a layer's map.
abbrev pub value_at : ℕ → ℕ → List Record → Option (List ℕ)
value_at l k [] = none
value_at l k ((level, (id, ns)) ∷ rest) =
    if level == l && id == k then some ns else value_at l k rest

abbrev or_else : {A : Type 0} → Option A → Option A → Option A
or_else none b = b
or_else (some a) b = some a

value_at-append :
    (l k : ℕ) (a b : List Record)
    → value_at l k (a ++ b) ≡ or_else (value_at l k a) (value_at l k b)
value_at-append l k [] b = refl
value_at-append l k ((level, (id, ns)) ∷ a) b = ground (arith, value_at-append l k a b)

module _ {D : Type 0} (g : Graph (Option D)) (l k : ℕ) where
  -- What is written for the node, if it is among those of the layer.
  abbrev written : Bool → Option (List ℕ)
  written cached = if cached && (neighbors g k [] l).1 then some (neighbors g k [] l).0 else none

  value_at-save_level :
      (level : ℕ) (ids : List ℕ)
      → value_at l k (save_level g level ids) ≡ written (level == l && member k ids)
  unfolding save_level member
  value_at-save_level level [] = ground arith
  value_at-save_level level (id ∷ ids) = ground (arith, value_at-save_level level ids)

  value_at-later :
      (layers : List (List ℕ)) (level : ℕ)
      → l < level
      → value_at l k (save_levels g level layers) ≡ none
  unfolding save_levels
  value_at-later [] level h = refl
  value_at-later (ids ∷ layers) level h = ground (
    arith,
    h,
    value_at-append l k (save_level g level ids) (save_levels g (suc level) layers),
    value_at-save_level level ids,
    value_at-later layers (suc level) (omega (arith, h)),
  )

  value_at-save_levels :
      (layers : List (List ℕ)) (level i : ℕ)
      → l ≡ level + i
      → value_at l k (save_levels g level layers) ≡ written (member k (layer_of layers i))
  unfolding save_levels member
  value_at-save_levels [] level i e = ground arith
  value_at-save_levels (ids ∷ layers) level zero e = ground (
    arith,
    e,
    value_at-append l k (save_level g level ids) (save_levels g (suc level) layers),
    value_at-save_level level ids,
    value_at-later layers (suc level) (omega (arith, e)),
  )
  value_at-save_levels (ids ∷ layers) level (suc i) e = ground (
    arith,
    e,
    value_at-append l k (save_level g level ids) (save_levels g (suc level) layers),
    value_at-save_level level ids,
    value_at-save_levels layers (suc level) i (omega (arith, e)),
  )

module _ {D : Type 0} (ix : Index D) (l k : ℕ) where
  -- `a` is among the nodes that are written for `k`.
  abbrev pub IsWritten : ℕ → Type 0
  IsWritten a = (ns : List ℕ) × (value_at l k (save ix) ≡ some ns) × (member a ns ≡ true)

  -- `a` is at the far end of a live edge of `k` in the layer.
  abbrev pub HasEdge : ℕ → Type 0
  HasEdge a =
      (edge : ℕ) × (e : Edge (Option D)) × (lookup edge ix.network.edges ≡ some e)
      × (e.status.del ≡ false)
      × ((e.first ≡ k) ⊎ (e.second ≡ k))
      × (e.status.layer ≡ l)
      × (far_end k e ≡ a)

module _ {D : Type 0} (ix : Index D) (w : IsWellFormed ix.network) (updated : ix.updated ≡ true)
    (l k : ℕ) (cached : member k (layer_of ix.cache l) ≡ true) where
  value_at-save : value_at l k (save ix) ≡ written ix.network l k true
  unfolding save
  value_at-save =
      rw (updated, save)
        (value_at-save_levels ix.network l k ix.cache 0 l (omega arith)
          ∙ ap (written ix.network l k) cached)

  -- In an updated index with a well-formed network, the nodes that are saved for a node of a cached
  -- layer are the far ends of its live edges in that layer, no more and no fewer.
  pub save_lem :
      (a : ℕ) → (IsWritten ix l k a → HasEdge ix l k a) × (HasEdge ix l k a → IsWritten ix l k a)
  save_lem a = (
    (λ (h : IsWritten ix l k a).
        neighbors_sound ix.network w k l a (ground (arith, h.1, value_at-save))
          (ground (arith, h.2, h.1, value_at-save))),
    λ (h : HasEdge ix l k a).
        let (p, q) = neighbors_complete ix.network w k l h.0 h.1 h.2 h.3 h.5 h.4 in
        (
          (neighbors ix.network k [] l).0,
          ground (arith, value_at-save, p),
          ap (λ n. member n (neighbors ix.network k [] l).0) (sym h.6) ∙ q,
        ),
  )
