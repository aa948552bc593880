-- ===== src/Engine.antt =====
-- src/VirtualEngine.cpp and include/VirtualEngine.h: the plans of a request. `PlanList` is a circular
-- list on the heap: its nodes are numbered in the order of their allocation, 0 is the sentinel that
-- the visitor makes, and a pointer is a number. The statements of a syntax tree are a list in their
-- order, of one statement where src/gql.y makes the tree; the traversal (`accept`,
-- src/base/lang/ASTNode.cpp) ends where `apply` answers `Return`. What a plan does is a parameter.
pub mod PlanList
pub mod Order
use gqlite.Prelude.{
  ℕ, zero, suc, ◌+◌, Bool, true, false, Option, none, some, List, [], ◌∷◌, ◌==◌, if◌then◌else◌,
}
use gqlite.Prelude.Int.{ℤ, pos, negsuc}

pub record PlanNode (P : Type 0) : Type 0 where
  pub plan : Option P
  pub threadable : Bool
  pub next : ℕ
  pub parent : ℕ

-- `allocated` is the number of nodes made so far.
pub record Plans (P : Type 0) : Type 0 where
  pub nodes : ℕ → PlanNode P
  pub allocated : ℕ

pub data PlanKind : Type 0 where
  upset_plan util_plan query_plan remove_plan : PlanKind

pub data VisitFlow : Type 0 where
  skip_current stop children : VisitFlow

-- The statements that the visitor turns into plans.
pub data Statement (S : Type 0) : Type 0 where
  upset create drop query dump remove : S → Statement S

abbrev pub ecode_success : ℤ
ecode_success = pos 0

unfoldable pub is_success : ℤ → Bool
is_success (pos n) = n == 0
is_success (negsuc n) = false

module _ {P : Type 0} where
  abbrev pub write : (ℕ → PlanNode P) → ℕ → PlanNode P → ℕ → PlanNode P
  write nodes i n j = if j == i then n else nodes j

  -- The visitor's constructor.
  abbrev pub sentinel : Plans P
  sentinel = record {
    nodes = (λ i. record { plan = none; threadable = false; next = 0; parent = 0 });
    allocated = 1;
  }

  -- `PlanVisitor::add`, its writes in their order.
  unfoldable pub add : Plans P → P → Bool → Plans P
  add l plan threadable =
      let new = l.allocated in
      let last = (l.nodes 0).parent in
      let linked = write l.nodes last (record (l.nodes last) { next = new }) in
      let closed = write linked 0 (record (linked 0) { parent = new }) in
      record {
        nodes =
            write closed new
              (record { plan = some plan; threadable = threadable; next = 0; parent = last });
        allocated = l.allocated + 1;
      }

-- What a plan does to the state of the engine, and the code it returns.
pub record PlanOps (P S : Type 0) : Type 0 where
  pub prepare : P → S → ℤ × S
  pub execute : P → S → ℤ × S

module _ {P S : Type 0} (ops : PlanOps P S) where
  -- One plan: it is executed if it could be prepared.
  unfoldable pub run_plan : P → S → ℤ × S
  unfolding is_success
  run_plan plan s =
      let (ret, s') = ops.prepare plan s in
      if is_success ret then ops.execute plan s' else (ret, s')

  -- The loop of `executePlans`, on fuel, from the node `cur`, with the code so far. `none` where the
  -- fuel ran out, or where a node has no plan.
  unfoldable pub execute_from : ℕ → Plans P → ℕ → ℤ → S → Option (ℤ × S)
  unfolding run_plan
  execute_from zero l cur ret s = none
  execute_from (suc fuel) l zero ret s = some (ret, s)
  execute_from (suc fuel) l (suc cur) ret s = elim (l.nodes (suc cur)).plan [
    | none ↦ none
    | some plan ↦
        let (code, s') = run_plan plan s in
        let rest = execute_from fuel l (l.nodes (suc cur)).next code s' in
        if is_success code then rest else some (code, s')
  ]

  -- `executePlans`: as much fuel as there are nodes.
  unfoldable pub execute_plans : Plans P → S → Option (ℤ × S)
  unfolding execute_from
  execute_plans l s = execute_from l.allocated l (l.nodes 0).next ecode_success s

-- The loop of `cleanPlans`, on fuel: the nodes that are deleted, in their order.
unfoldable pub clean_from : {P : Type 0} → ℕ → Plans P → ℕ → List ℕ
clean_from zero l cur = []
clean_from (suc fuel) l zero = 0 ∷ []
clean_from (suc fuel) l (suc cur) = suc cur ∷ clean_from fuel l (l.nodes (suc cur)).parent

unfoldable pub clean_plans : {P : Type 0} → Plans P → List ℕ
unfolding clean_from
clean_plans l = clean_from l.allocated l (l.nodes 0).parent

module _ {S : Type 0} where
  unfoldable pub plan_of : Statement S → PlanKind × S
  plan_of (upset s) = (upset_plan, s)
  plan_of (create s) = (util_plan, s)
  plan_of (drop s) = (util_plan, s)
  plan_of (query s) = (query_plan, s)
  plan_of (dump s) = (util_plan, s)
  plan_of (remove s) = (remove_plan, s)

  unfoldable pub flow_of : Statement S → VisitFlow
  flow_of (upset s) = children
  flow_of (create s) = children
  flow_of _ = stop

  -- `PlanVisitor::apply` of a statement.
  unfoldable pub apply : Statement S → Plans (PlanKind × S) → Plans (PlanKind × S) × VisitFlow
  unfolding add plan_of flow_of
  apply st l = (add l (plan_of st) false, flow_of st)

  -- `makePlans`: the statements of the tree in their order, until `apply` answers that the traversal is
  -- over.
  unfoldable pub make_plans : List (Statement S) → Plans (PlanKind × S) → Plans (PlanKind × S)
  unfolding apply
  make_plans [] l = l
  make_plans (st ∷ sts) l =
      let (l', flow) = apply st l in
      let rest = make_plans sts l' in elim flow [ children ↦ rest | _ ↦ l' ]

-- `execAST`: `none` for a null tree, and the error code of the parser.
unfoldable pub exec_ast :
    {S T : Type 0} → PlanOps (PlanKind × S) T → ℤ → Option (List (Statement S)) → T → Option (ℤ × T)
unfolding make_plans execute_plans
exec_ast ops (negsuc n) ast s = some (negsuc n, s)
exec_ast ops (pos n) none s = some (ecode_success, s)
exec_ast ops (pos n) (some sts) s = execute_plans ops (make_plans sts sentinel) s
