-- ===== src/Scan.antt =====
-- src/plan/query/ScanPlan.cpp and include/Graph/GRAD.h: the condition of a query, and the rows of a group
-- that meet it. `double` and the JSON values are parameters, and `strtoull` of the C library. The code
-- that a condition was compiled to is run for nothing (its result is not used), and left out.
pub mod Vertices
pub mod Answers
pub mod Collected
pub mod Execute
use gqlite.Prelude.{
  ℕ, zero, suc, ◌+◌, ◌≡◌, Bool, true, false, not, ◌&&◌, ◌||◌, Option, none, some, List, [], ◌∷◌,
  ◌==◌, if◌then◌else◌,
}
use gqlite.Prelude.Eq.{bytes_beq}
use gqlite.Word.{read_u64}
use gqlite.EdgeId.{Key, str, num, EdgeId, to_edge_id, get_from_to}
use gqlite.Storage.Tables.{Name, KeyType, AttributeKind, to_kind}
use gqlite.Storage.Attributes.{
  Json, ValueType, object, string, number_integer, number_unsigned, number_float,
}

-- The alternatives of `attribute_t` that a row's value is read as.
pub data Attribute (D : Type 0) : Type 0 where
  text : List ℕ → Attribute D
  real : D → Attribute D
  reals : List D → Attribute D

-- `predicate_t`. `none` is the exception `variant_bad_cast` of a comparison.
pub data Predicate (D : Type 0) : Type 0 where
  on_key : (Key → Bool) → Predicate D
  on_attribute : (Attribute D → Option Bool) → Predicate D

-- `EntityEdge` with the labels of its two nodes.
pub record EntityEdge : Type 0 where
  pub start_label : List ℕ
  pub end_label : List ℕ
  pub direction : Bool

-- `attrs` are those of the first node, `none` if there is no node.
pub record GraphPattern (D : Type 0) : Type 0 where
  pub attrs : Option (List Name)
  pub node_predicates : List (Predicate D)
  pub edges : List EntityEdge

-- `_patterns[And]` and `_patterns[Or]`.
pub record QueryCondition (D : Type 0) : Type 0 where
  pub and_pattern : GraphPattern D
  pub or_pattern : GraphPattern D

-- The JSON library's conversions.
pub record Rows (J : Json) (D : Type 0) : Type 0 where
  pub parse : List ℕ → Option J.Value
  -- `row[attr]` of an object: the value, and the row, which holds a null there if it held nothing
  pub member : J.Value → Name → J.Value
  pub touched : J.Value → Name → J.Value
  pub to_real : J.Value → D
  pub to_text : J.Value → List ℕ
  pub to_reals : J.Value → List D

-- `fault` is undefined behaviour or a failed assertion.
pub data Verdict : Type 0 where
  holds : Bool → Verdict
  bad_cast fault : Verdict

abbrev pub verdict_of : Option Bool → Verdict
verdict_of none = bad_cast
verdict_of (some b) = holds b

abbrev pub value_name : Name
value_name = 118 ∷ 97 ∷ 108 ∷ 117 ∷ 101 ∷ []

module _ {J : Json} {D : Type 0} (R : Rows J D) where
  -- What a value of a row is read as; no predicate holds of the others.
  unfoldable pub attribute_of : J.Value → Option (Attribute D)
  unfolding to_kind
  attribute_of v = elim (J.type_of v) [
    | number_float ↦ some (real (R.to_real v))
    | number_integer ↦ some (real (R.to_real v))
    | number_unsigned ↦ some (real (R.to_real v))
    | string ↦ some (text (R.to_text v))
    | object ↦ elim (J.type_name v) [
      | none ↦ none
      | some n ↦ elim (to_kind n) [
        | AttributeKind.datetime ↦ some (real (R.to_real (R.member v value_name)))
        | AttributeKind.vector ↦ some (reals (R.to_reals (R.member v value_name)))
        | _ ↦ none
      ]
    ]
    | _ ↦ none
  ]

  unfoldable pub predict : (Attribute D → Option Bool) → J.Value → Verdict
  unfolding attribute_of
  predict op v = elim (attribute_of v) [ none ↦ holds false | some a ↦ verdict_of (op a) ]

  -- One predicate, with the row and what is left of the attributes; reading past their end is a fault.
  abbrev pub Cursor : Type 0
  Cursor = J.Value × Option (List Name)

  unfoldable pub visit : Predicate D → Key → Cursor → Verdict × Cursor
  unfolding predict
  visit (on_key op) key (row, attrs) = (holds (op key), (row, attrs))
  visit (on_attribute op) key (row, some (a ∷ rest)) =
      (predict op (R.member row a), (R.touched row a, some rest))
  visit (on_attribute op) key (row, _) = (fault, (row, none))

  -- The loop over the predicates of one index: `stop_at` is the result at which it breaks.
  unfoldable pub visit_all : Bool → List (Predicate D) → Key → Bool → Cursor → Verdict × Cursor
  unfolding visit
  visit_all stop_at [] key result at = (holds result, at)
  visit_all stop_at (p ∷ ps) key result at =
      let (v, next) = visit p key at in
      elim v [
        | holds b ↦
            let go_on = visit_all stop_at ps key (result && b) next in
            let ends = ((result && b) && stop_at) || (not (result && b) && not stop_at) in
            if ends then (holds (result && b), next) else go_on
        | bad_cast ↦ (bad_cast, next)
        | fault ↦ (fault, next)
      ]

  abbrev pub begin_at : Option (List Name) → Cursor → Cursor
  begin_at none at = at
  begin_at (some a) (row, _) = (row, some a)

  unfoldable pub predict_vertex : QueryCondition D → Key → J.Value → Verdict × J.Value
  unfolding visit_all
  predict_vertex w key row =
      let (v, at) =
        visit_all false w.and_pattern.node_predicates key true (row, w.and_pattern.attrs) in
      elim v [
        | holds b ↦
            let (v', at') =
              visit_all true w.or_pattern.node_predicates key b (begin_at w.or_pattern.attrs at) in
            (v', at'.0)
        | bad_cast ↦ (bad_cast, at.0)
        | fault ↦ (fault, at.0)
      ]

-- The tests of `predictEdge`, on a label and the key at that end.
unfoldable pub match_node : (List ℕ → ℕ) → List ℕ → Key → Bool
match_node strtoull [] k = true
match_node strtoull (c ∷ label) (str []) = true
match_node strtoull (c ∷ label) (str (d ∷ s)) = bytes_beq (c ∷ label) (d ∷ s)
match_node strtoull (c ∷ label) (num n) = strtoull (c ∷ label) == n

unfoldable pub match_edge : (List ℕ → ℕ) → EntityEdge → Bool → Key → Key → Bool
unfolding match_node
match_edge strtoull edge direction from to =
    let straight =
      match_node strtoull edge.start_label from && match_node strtoull edge.end_label to in
    let swapped =
      match_node strtoull edge.end_label from && match_node strtoull edge.start_label to in
    if direction then straight else straight || swapped

-- The first pattern edge with the direction of the id decides.
unfoldable pub match_edges : (List ℕ → ℕ) → List EntityEdge → Bool → Key → Key → Option Bool
unfolding match_edge
match_edges strtoull [] direction from to = none
match_edges strtoull (edge ∷ edges) direction from to =
    let rest = match_edges strtoull edges direction from to in
    if (direction && edge.direction) || (not direction && not edge.direction)
    then some (match_edge strtoull edge direction from to)
    else rest

abbrev pub first_of : Option Bool → Option Bool → Bool
first_of none none = false
first_of none (some b) = b
first_of (some b) o = b

unfoldable pub predict_edge : {D : Type 0} → (List ℕ → ℕ) → QueryCondition D → List ℕ → Verdict
unfolding match_edges
predict_edge strtoull w key = elim (to_edge_id key) [
  | none ↦ fault
  | some eid ↦ elim (get_from_to eid) [
    | none ↦ fault
    | some (from, to) ↦ holds (
        first_of (match_edges strtoull w.and_pattern.edges eid.direction from to)
          (match_edges strtoull w.or_pattern.edges eid.direction from to))
  ]
]

-- `getKey`; a key of another type is the empty variant, which no visitor takes.
unfoldable pub get_key : KeyType → List ℕ → Option Key
get_key KeyType.integer k = elim (read_u64 k) [ none ↦ none | some n ↦ some (num n) ]
get_key KeyType.byte k = some (str k)
get_key KeyType.edge k = some (str k)
get_key KeyType.uninitialize k = none

pub data QueryType : Type 0 where
  simple_scan nn_search match inference : QueryType

abbrev pub is_path : List EntityEdge → Bool
is_path (_ ∷ _ ∷ _) = true
is_path _ = false

-- The type of the query, as `parseConditions` sets it: a pattern with more than one edge is a match.
unfoldable pub query_type : {D : Type 0} → Option (QueryCondition D) → QueryType
query_type none = simple_scan
query_type (some w) =
    if is_path w.and_pattern.edges || is_path w.or_pattern.edges
    then QueryType.match
    else simple_scan

-- What the processor is called with: the key, and the row or the failed comparison.
pub data Event (V : Type 0) : Type 0 where
  row : List ℕ → V → Event V
  mismatch : V → Event V

module _ {J : Json} {D : Type 0} (R : Rows J D) (strtoull : List ℕ → ℕ) where
  -- `predict` of a key and a row; `none` is no condition, `_scanAll`.
  unfoldable pub predict_row :
      Option (QueryCondition D) → KeyType → List ℕ → J.Value → Verdict × J.Value
  unfolding predict_vertex predict_edge get_key
  predict_row none type key jsn = (holds true, jsn)
  predict_row (some w) KeyType.edge key jsn = (predict_edge strtoull w key, jsn)
  predict_row (some w) type key jsn = elim (get_key type key) [
    | none ↦ (fault, jsn)
    | some k ↦ predict_vertex R w k jsn
  ]

  module _ {S : Type 0} (processor : S → Event J.Value → S) where
    abbrev pub emit : S → List ℕ → Verdict × J.Value → Option S
    emit s key (holds true, jsn) = some (processor s (row key jsn))
    emit s key (holds false, jsn) = some s
    emit s key (bad_cast, jsn) = some (processor s (mismatch jsn))
    emit s key (fault, jsn) = none

    -- One record under the type of the query: only a simple scan reads it. A value that does not parse
    -- ends the scan by an exception.
    unfoldable pub scan_record :
        Option (QueryCondition D) → KeyType → S → List ℕ × List ℕ → Option S
    unfolding predict_row query_type
    scan_record w type s (key, value) = elim (query_type w) [
      | simple_scan ↦ elim (R.parse value) [
        | none ↦ none
        | some jsn ↦ emit s key (predict_row w type key jsn)
      ]
      | _ ↦ some s
    ]

    -- The records of one group, as the cursor visits them.
    unfoldable pub scan_group :
        Option (QueryCondition D) → KeyType → List (List ℕ × List ℕ) → S → Option S
    unfolding scan_record
    scan_group w type [] s = some s
    scan_group w type (r ∷ rest) s = elim (scan_record w type s r) [
      | none ↦ none
      | some s' ↦ scan_group w type rest s'
    ]
