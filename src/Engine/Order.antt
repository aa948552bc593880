-- ===== src/Engine/Order.antt =====
-- src/VirtualEngine.cpp: the order in which the plans of a request run, and the nodes are freed.
use gqlite.Prelude.{
  ℕ, zero, suc, ◌≤◌, ◌≡◌, refl, sym, ap, ◌∙◌, false, some, List, [], ◌∷◌, ◌++◌, append_assoc,
  append-nil, map, if◌then◌else◌, length, length-append, get_elem?-append_at, arith,
}
use gqlite.Prelude.Int.{ℤ, pos}
use gqlite.Engine.{
  Plans, PlanOps, PlanKind, Statement, upset, create, drop, query, dump, remove, flow_of, sentinel,
  add, run_plan, is_success, ecode_success, execute_from, execute_plans, clean_from, clean_plans,
  plan_of, apply, make_plans, exec_ast,
}
use gqlite.Engine.PlanList.{Represents, sentinel-Represents, add-Represents}

module _ {P S : Type 0} (ops : PlanOps P S) where
  -- The plans in their order, up to the first one that fails.
  unfoldable pub run_all : List P → ℤ → S → ℤ × S
  run_all [] ret s = (ret, s)
  run_all (p ∷ ps) ret s =
      let (code, s') = run_plan ops p s in
      let rest = run_all ps code s' in if is_success code then rest else (code, s')

  -- The pointer to the node of the first plan of a rest.
  abbrev first_of : ℕ → List P → ℕ
  first_of i [] = zero
  first_of i (p ∷ ps) = suc i

  next_of :
      (l : Plans P) (front rest : List P) (i : ℕ)
      → i ≡ length front
      → Represents l (front ++ rest)
      → (l.nodes i).next ≡ first_of i rest
  next_of l front [] i h r = ground (arith, r.next i, length-append front [])
  next_of l front (p ∷ ps) i h r = ground (arith, r.next i, length-append front (p ∷ ps))

  plan_at :
      (l : Plans P) (front rest : List P) (p : P)
      → Represents l (front ++ p ∷ rest)
      → (l.nodes (suc (length front))).plan ≡ some p
  plan_at l front rest p r =
      r.plans (length front) (omega (arith, length-append front (p ∷ rest)))
      ∙ get_elem?-append_at front rest p

  execute_rest :
      (l : Plans P) (front rest : List P) (ret : ℤ) (s : S)
      → Represents l (front ++ rest)
      → execute_from ops (suc (length rest)) l (first_of (length front) rest) ret s
        ≡ some (run_all rest ret s)
  unfolding execute_from run_all
  execute_rest l front [] ret s r = refl
  execute_rest l front (p ∷ ps) ret s r =
      let n = suc (length front) in
      let longer : length (front ++ p ∷ []) ≡ n = omega (arith, length-append front (p ∷ [])) in
      let r' : Represents l ((front ++ p ∷ []) ++ ps) = rw (append_assoc front (p ∷ []) ps) r in
      let next = next_of l (front ++ p ∷ []) ps n (sym longer) r' in
      let later =
        execute_rest l (front ++ p ∷ []) ps (run_plan ops p s).0 (run_plan ops p s).1 r' in
      rw (plan_at l front ps p r, execute_from) (rw next (ground (arith, later, longer)))

  -- A list that represents plans runs them in their order, up to the first one whose preparation or
  -- execution fails, and returns its code; the fuel is enough.
  pub execute_plans-run_all :
      (l : Plans P) (ps : List P) (s : S)
      → Represents l ps
      → execute_plans ops l s ≡ some (run_all ps ecode_success s)
  unfolding execute_plans
  execute_plans-run_all l ps s r =
      let size : l.allocated ≡ suc (length ps) = omega (arith, r.allocated) in
      ap (λ (fuel : ℕ). execute_from ops fuel l (l.nodes 0).next ecode_success s) size
      ∙ ap (λ (cur : ℕ). execute_from ops (suc (length ps)) l cur ecode_success s)
          (next_of l [] ps 0 refl r)
      ∙ execute_rest l [] ps ecode_success s r

unfoldable pub countdown : ℕ → List ℕ
countdown zero = 0 ∷ []
countdown (suc n) = suc n ∷ countdown n

clean_from-countdown :
    {P : Type 0} (l : Plans P) (ps : List P) (n : ℕ)
    → n ≤ length ps
    → Represents l ps
    → clean_from (suc n) l n ≡ countdown n
unfolding clean_from countdown
clean_from-countdown l ps zero h r = refl
clean_from-countdown l ps (suc n) h r =
    rw (r.parent n (omega arith))
      (ap (λ (xs : List ℕ). suc n ∷ xs) (clean_from-countdown l ps n (omega arith) r))

-- Cleaning a list of plans frees each of its nodes once, the last one first and the sentinel at the
-- end.
pub clean_plans-countdown :
    {P : Type 0} (l : Plans P) (ps : List P)
    → Represents l ps
    → clean_plans l ≡ countdown (length ps)
unfolding clean_plans
clean_plans-countdown l ps r =
    let size : l.allocated ≡ suc (length ps) = omega (arith, r.allocated) in
    ap (λ (fuel : ℕ). clean_from fuel l (l.nodes 0).parent) size
    ∙ ap (λ (cur : ℕ). clean_from (suc (length ps)) l cur) r.last
    ∙ clean_from-countdown l ps (length ps) (omega arith) r

module _ {S : Type 0} where
  -- The statements up to the first drop, query, dump or remove, which is the last one.
  unfoldable pub visited : List (Statement S) → List (Statement S)
  visited [] = []
  visited (upset s ∷ sts) = upset s ∷ visited sts
  visited (create s ∷ sts) = create s ∷ visited sts
  visited (st ∷ sts) = st ∷ []

  make_plans-Represents :
      (sts : List (Statement S)) (l : Plans (PlanKind × S)) (ps : List (PlanKind × S))
      → Represents l ps
      → Represents (make_plans sts l) (ps ++ map plan_of (visited sts))
  unfolding make_plans apply visited flow_of
  make_plans-Represents [] l ps r = rw (append-nil ps) r
  make_plans-Represents (upset s ∷ sts) l ps r =
      rw⁻¹ (append_assoc ps (plan_of (upset s) ∷ []) (map plan_of (visited sts))) (
        make_plans-Represents sts (add l (plan_of (upset s)) false) (ps ++ plan_of (upset s) ∷ [])
          (add-Represents l ps (plan_of (upset s)) false r))
  make_plans-Represents (create s ∷ sts) l ps r =
      rw⁻¹ (append_assoc ps (plan_of (create s) ∷ []) (map plan_of (visited sts))) (
        make_plans-Represents sts (add l (plan_of (create s)) false) (ps ++ plan_of (create s) ∷ [])
          (add-Represents l ps (plan_of (create s)) false r))
  make_plans-Represents (drop s ∷ sts) l ps r = add-Represents l ps (plan_of (drop s)) false r
  make_plans-Represents (query s ∷ sts) l ps r = add-Represents l ps (plan_of (query s)) false r
  make_plans-Represents (dump s ∷ sts) l ps r = add-Represents l ps (plan_of (dump s)) false r
  make_plans-Represents (remove s ∷ sts) l ps r = add-Represents l ps (plan_of (remove s)) false r

  -- A parsed request makes a plan for each statement that the visitor meets, which are those up to the
  -- first drop, query, dump or remove, and runs these plans in their order, up to the first plan whose
  -- preparation or execution fails, and returns its code.
  pub exec_ast-run_all :
      {T : Type 0} (ops : PlanOps (PlanKind × S) T) (n : ℕ) (sts : List (Statement S)) (s : T)
      → exec_ast ops (pos n) (some sts) s
        ≡ some (run_all ops (map plan_of (visited sts)) ecode_success s)
  unfolding exec_ast
  exec_ast-run_all ops n sts s =
      execute_plans-run_all ops (make_plans sts sentinel) (map plan_of (visited sts)) s
        (make_plans-Represents sts sentinel [] sentinel-Represents)
