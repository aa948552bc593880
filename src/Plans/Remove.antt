-- ===== src/Plans/Remove.antt =====
-- src/plan/mutate/RemovePlan.cpp: the removal of the rows that a scan collects, with the edges of the
-- removed vertices. `none` stands for an exception or a failed assertion.
pub mod Removed
pub mod Executed
use gqlite.Prelude.{
  ℕ, zero, suc, ◌+◌, ◌≡◌, Bool, true, false, Option, none, some, List, [], ◌∷◌, ◌++◌, ◌==◌,
  if◌then◌else◌,
}
use gqlite.Prelude.Options.{◌>>=◌}
use gqlite.Word.{read_u64}
use gqlite.EdgeId.{to_edge_id}
use gqlite.Storage.Tables.{Name, KeyType, get_relations, get_key_type}
use gqlite.Storage.Backend.{Kv}
use gqlite.Storage.{Code, success, fail, datum_not_exist, Storage, del, del_u64}
use gqlite.Storage.EdgeScan.{c_string, del_edges, del_edges_u64}
use gqlite.Storage.Attributes.{Json}
use gqlite.Scan.{Rows, QueryCondition, Event, row, mismatch}
use gqlite.Scan.Execute.{PlanInfo, execute_scan}

pub data RemoveCode : Type 0 where
  removed remove_unknow_type : RemoveCode

-- The processor of the scan: it collects the keys.
unfoldable pub collect_key : {V : Type 0} → List (List ℕ) → Event V → List (List ℕ)
collect_key keys (row key value) = keys ++ key ∷ []
collect_key keys (mismatch value) = keys

module _ {K : Kv} where
  -- `RemoveEdges`: for each relation of the group, the edges of the removed vertex. The flag is always set.
  unfoldable pub remove_edges_of :
      (Storage K → Name → Option (Storage K))
      → Storage K
      → List (Name × (Name × Name))
      → Option (Storage K)
  remove_edges_of delete s [] = some s
  remove_edges_of delete s ((relation, _) ∷ rest) = elim (delete s relation) [
    | none ↦ none
    | some s' ↦ remove_edges_of delete s' rest
  ]

  -- One key of a class with keys of the type; a class with no type of keys ends the plan.
  unfoldable pub remove_key : Name → KeyType → Storage K → List ℕ → Option (Storage K)
  unfolding remove_edges_of c_string del del_u64 del_edges del_edges_u64 get_relations
  remove_key group KeyType.integer s key = elim (read_u64 key) [
    | none ↦ none
    | some k ↦
        let (code, s') = del_u64 s group k in
        elim code [
          | none ↦ none
          | some success ↦
              remove_edges_of (λ t name. del_edges_u64 t name k true) s'
                (get_relations s'.schema group)
          | some _ ↦ some s'
        ]
  ]
  remove_key group KeyType.byte s key = elim (c_string (key ++ 0 ∷ [])) [
    | none ↦ none
    | some k ↦
        let (code, s') = del s group k in
        elim code [
          | none ↦ none
          | some success ↦
              remove_edges_of (λ t name. del_edges t name k true) s' (get_relations s'.schema group)
          | some _ ↦ some s'
        ]
  ]
  remove_key group KeyType.edge s key =
      let (code, s') = del s group key in
      elim (to_edge_id key) [
        | none ↦ none
        | some eid ↦ (elim code [ none ↦ none | some _ ↦ some s' ])
      ]
  remove_key group KeyType.uninitialize s key = some s

  unfoldable pub remove_keys : Name → KeyType → Storage K → List (List ℕ) → Option (Storage K)
  unfolding remove_key
  remove_keys group type s [] = some s
  remove_keys group type s (key ∷ keys) = elim (remove_key group type s key) [
    | none ↦ none
    | some s' ↦ remove_keys group type s' keys
  ]

  unfoldable pub remove_all : Name → Storage K → List (List ℕ) → Option (RemoveCode × Storage K)
  unfolding remove_keys get_key_type
  remove_all group s [] = some (removed, s)
  remove_all group s (key ∷ keys) = elim (get_key_type s.schema group) [
    | none ↦ none
    | some KeyType.uninitialize ↦ some (remove_unknow_type, s)
    | some type ↦ elim (remove_keys group type s (key ∷ keys)) [
      | none ↦ none
      | some s' ↦ some (removed, s')
    ]
  ]

module _ {J : Json} {D : Type 0} (R : Rows J D) (strtoull : List ℕ → ℕ) {K : Kv} where
  unfoldable pub execute_remove :
      Option (QueryCondition D) → Name → List PlanInfo → Storage K → Option (RemoveCode × Storage K)
  unfolding collect_key execute_scan remove_all
  execute_remove w group plans s = do
    (keys, s') ← execute_scan R strtoull collect_key w s plans []
    remove_all group s' keys
