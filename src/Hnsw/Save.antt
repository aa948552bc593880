-- ===== src/Hnsw/Save.antt =====
-- src/operand/query/HNSW.cpp: `save`, as the list of its writes, and `erase`.
pub mod Saved
use gqlite.Prelude.{
  ℕ, zero, suc, Bool, true, false, Option, none, some, List, [], ◌∷◌, ◌++◌, ◌==◌, if◌then◌else◌,
}
use gqlite.Graph.{Graph, node_size, neighbors}
use gqlite.Hnsw.Insert.{Index}
use gqlite.Hnsw.Load.{Record, init_net}

module _ {D : Type 0} where
  -- The loop over the nodes of a layer.
  unfoldable pub save_level : Graph (Option D) → ℕ → List ℕ → List Record
  unfolding neighbors
  save_level g level [] = []
  save_level g level (id ∷ ids) =
      let (ns, found) = neighbors g id [] level in
      let rest = save_level g level ids in if found then (level, (id, ns)) ∷ rest else rest

  -- The layers from `level` on.
  unfoldable pub save_levels : Graph (Option D) → ℕ → List (List ℕ) → List Record
  unfolding save_level
  save_levels g level [] = []
  save_levels g level (ids ∷ layers) = save_level g level ids ++ save_levels g (suc level) layers

  unfoldable pub save : Index D → List Record
  unfolding save_levels
  save ix = if ix.updated then save_levels ix.network 0 ix.cache else []

  -- `erase` removes nothing.
  unfoldable pub erase : ℕ → List Record → Index D → ℕ → Option (Index D)
  unfolding init_net node_size
  erase max_memory records ix sid =
      if node_size ix.network == 0
      then (elim (init_net max_memory ix records) [
        | none ↦ none
        | some ix' ↦ some (record ix' { updated = true })
      ])
      else some (record ix { updated = true })
