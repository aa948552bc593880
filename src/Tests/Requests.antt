-- ===== src/Tests/Requests.antt =====
-- The plans of a request at concrete inputs: a query that cannot be prepared.
use gqlite.Prelude.{ℕ, ◌+◌, ◌≡◌, refl, false, some, List, [], ◌∷◌, map}
use gqlite.Prelude.Int.{pos, negsuc}
use gqlite.Engine.{
  Plans, PlanOps, PlanKind, Statement, create, query, query_plan, sentinel, add, plan_of, exec_ast,
  ecode_success,
}
use gqlite.Engine.PlanList.{Represents, sentinel-Represents, add-Represents}
use gqlite.Engine.Order.{visited, run_all, exec_ast-run_all}

abbrev one_plan : Plans ℕ
one_plan = add sentinel 3 false

one_plan-Represents : Represents one_plan (3 ∷ [])
one_plan-Represents = add-Represents sentinel [] 3 false sentinel-Represents

abbrev two_plans : Plans ℕ
two_plans = add one_plan 7 false

two_plans-Represents : Represents two_plans (3 ∷ 7 ∷ [])
two_plans-Represents = add-Represents one_plan (3 ∷ []) 7 false one_plan-Represents

abbrev by_kind : PlanOps (PlanKind × ℕ) ℕ
by_kind = record {
  prepare = (λ p s. (elim p.0 [ query_plan ↦ negsuc 4 | _ ↦ ecode_success ], s));
  execute = λ p s. (ecode_success, s + p.1);
}

abbrev request : List (Statement ℕ)
request = query 5 ∷ []

-- The traversal ends with a query.
abbrev longer : List (Statement ℕ)
longer = create 3 ∷ query 5 ∷ create 8 ∷ []

longer_visited : visited longer ≡ create 3 ∷ query 5 ∷ []
unfolding visited
longer_visited = refl

exec_ast-run_all_example :
    exec_ast by_kind (pos 0) (some request) 0
    ≡ some (run_all by_kind (map plan_of (visited request)) ecode_success 0)
exec_ast-run_all_example = exec_ast-run_all by_kind 0 request 0
