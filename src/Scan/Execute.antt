-- ===== src/Scan/Execute.antt =====
-- src/plan/query/ScanPlan.cpp: `evaluate`, the order of the query's groups, and the scan of the store.
-- `estimate` of the store is a parameter. `none` stands for an exception or undefined behaviour.
use gqlite.Prelude.{ℕ, Option, none, some, List, [], ◌∷◌, ◌++◌, leb, if◌then◌else◌, map}
use gqlite.Prelude.Eq.{bytes_eq}
use gqlite.Prelude.Options.{◌>>=◌}
use gqlite.Storage.Tables.{
  Name, Schema, KeyType, is_map_exist, is_index_exist, class_at, get_key_type,
}
use gqlite.Storage.Backend.{Kv, KeyMode, usual, ordinal}
use gqlite.Storage.{Storage, get_or_create_handle}
use gqlite.Storage.Attributes.{Json}
use gqlite.Scan.{Rows, QueryCondition, Event, scan_group}

-- `PlanInfo`; its cost is the estimate as a `float`, which keeps the order of the estimates.
abbrev pub PlanInfo : Type 0
PlanInfo = ℕ × Name

-- A name with no estimate is left out.
unfoldable pub evaluate : (Name → Option ℕ) → List Name → List PlanInfo
evaluate estimate [] = []
evaluate estimate (g ∷ gs) =
    let rest = evaluate estimate gs in
    elim (estimate g) [ none ↦ rest | some cost ↦ (cost, g) ∷ rest ]

-- `std::sort` by the cost, plans of the same cost in their order.
unfoldable pub insert_plan : PlanInfo → List PlanInfo → List PlanInfo
insert_plan p [] = p ∷ []
insert_plan (c, g) ((d, h) ∷ ps) =
    let rest = insert_plan (c, g) ps in if leb c d then (c, g) ∷ (d, h) ∷ ps else (d, h) ∷ rest

unfoldable pub sort_plans : List PlanInfo → List PlanInfo
unfolding insert_plan
sort_plans [] = []
sort_plans (p ∷ ps) = insert_plan p (sort_plans ps)

-- The names that `prepare` plans for: the attributes of the pattern's node behind the group, then the
-- groups of the query.
unfoldable pub planned : Name → Option (List Name) → List Name → List Name
planned group none groups = groups
planned group (some attrs) groups = map (λ a. group ++ 58 ∷ a) attrs ++ groups

unfoldable pub prepare_plans :
    (Name → Option ℕ) → Name → Option (List Name) → List Name → List PlanInfo
unfolding evaluate sort_plans planned
prepare_plans estimate group attrs groups =
    sort_plans (evaluate estimate (planned group attrs groups))

-- `scan()` over the indexes drops all plans but the last, for the plans of `And`, with none of `Or`; its
-- loop over the index's records has no effect. It opens an index cursor on the first, which
-- fails for a name that is no index.
unfoldable pub last_plan : PlanInfo → List PlanInfo → Name
last_plan (c, g) [] = g
last_plan p (q ∷ qs) = last_plan q qs

unfoldable pub scan_indexes : Schema → List PlanInfo → Option Name
unfolding last_plan
scan_indexes s [] = none
scan_indexes s ((c, g) ∷ []) = some g
scan_indexes s ((c, g) ∷ q ∷ qs) = if is_index_exist s g then some (last_plan q qs) else none

abbrev pub mode_of : KeyType → KeyMode
mode_of KeyType.integer = ordinal
mode_of _ = usual

module _ {K : Kv} where
  -- `getMapCursor`, up to the handle that the cursor is opened on.
  unfoldable pub get_map_cursor : Storage K → Name → Option (ℕ × Storage K)
  unfolding get_or_create_handle is_map_exist class_at
  get_map_cursor s prop =
      if is_map_exist s.schema prop
      then (elim (class_at s.schema prop).key_type [
        | none ↦ none
        | some type ↦ some (get_or_create_handle s prop (mode_of type))
      ])
      else none

module _ {J : Json} {D : Type 0} (R : Rows J D) (strtoull : List ℕ → ℕ) {K : Kv} {S : Type 0}
    (processor : S → Event J.Value → S) where
  -- `execute`: with no plans it returns at once.
  unfoldable pub execute_scan :
      Option (QueryCondition D) → Storage K → List PlanInfo → S → Option (S × Storage K)
  unfolding scan_indexes get_map_cursor get_key_type scan_group
  execute_scan w s [] state = some (state, s)
  execute_scan w s (p ∷ ps) state = do
    group ← scan_indexes s.schema (p ∷ ps)
    (h, s') ← get_map_cursor s group
    type ← get_key_type s'.schema group
    state' ← scan_group R strtoull processor w type (K.pairs s'.txn h) state
    some (state', s')
