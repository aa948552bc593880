-- ===== src/Scan/Collected.antt =====
-- src/plan/query/ScanPlan.cpp: the rows that a scan of one group hands to its processor.
use gqlite.Prelude.{
  ℕ, ◌≡◌, refl, ap, ◌∙◌, Bool, true, false, ◌&&◌, Option, none, some, List, [], ◌∷◌, All,
  if◌then◌else◌, arith, Option-cases, inl, inr,
}
use gqlite.Prelude.Options.{◌>>=◌}
use gqlite.EdgeId.{Key}
use gqlite.Storage.Tables.{KeyType}
use gqlite.Storage.Attributes.{Json}
use gqlite.Scan.{
  Rows, QueryCondition, simple_scan, query_type, Verdict, holds, Event, row, get_key,
  predict_vertex, predict_row, emit, scan_record, scan_group,
}
use gqlite.Scan.Answers.{IsObject, answers}
use gqlite.Scan.Vertices.{all_true, head_true, predict_vertex_lem}

-- The processor on rows, one after the other.
unfoldable pub fold_rows : {V S : Type 0} → (S → Event V → S) → S → List (List ℕ × V) → S
fold_rows processor s [] = s
fold_rows processor s ((key, value) ∷ rows) = fold_rows processor (processor s (row key value)) rows

unfoldable pub keys_of : {V : Type 0} → List (List ℕ × V) → List (List ℕ)
keys_of [] = []
keys_of ((key, value) ∷ rows) = key ∷ keys_of rows

abbrev pub is_vertex_type : KeyType → Bool
is_vertex_type KeyType.integer = true
is_vertex_type KeyType.byte = true
is_vertex_type _ = false

predict_row-predict_vertex :
    {J : Json} {D : Type 0} (R : Rows J D) (w : QueryCondition D) (strtoull : List ℕ → ℕ)
    (type : KeyType) (key : List ℕ) (k : Key) (parsed : J.Value)
    → is_vertex_type type ≡ true
    → get_key type key ≡ some k
    → predict_row R strtoull (some w) type key parsed ≡ predict_vertex R w k parsed
unfolding predict_row get_key
predict_row-predict_vertex R w strtoull KeyType.integer key k parsed v e = ground (arith, e)
predict_row-predict_vertex R w strtoull KeyType.byte key k parsed v e = ground (arith, e)
predict_row-predict_vertex R w strtoull KeyType.edge key k parsed v e = absurd (cc)
predict_row-predict_vertex R w strtoull KeyType.uninitialize key k parsed v e = absurd (cc)

module _ {J : Json} {D : Type 0} (R : Rows J D) (w : QueryCondition D) (type : KeyType) where
  -- Whether a record meets the condition, by the answers of its row; `none` if the value does not parse,
  -- the key does not fit the type, or a predicate does not fit the row.
  unfoldable pub meets : List ℕ × List ℕ → Option Bool
  unfolding answers get_key
  meets (key, value) = do
    parsed ← R.parse value
    k ← get_key type key
    ands ← answers R k parsed w.and_pattern.node_predicates w.and_pattern.attrs
    ors ← answers R k parsed w.or_pattern.node_predicates w.or_pattern.attrs
    some (all_true ands && head_true ors)

  abbrev pub is_met : Option Bool → Bool
  is_met none = false
  is_met (some b) = b

  -- The keys of the records that meet the condition.
  unfoldable pub selected : List (List ℕ × List ℕ) → List (List ℕ)
  unfolding meets
  selected [] = []
  selected (r ∷ rest) =
      let others = selected rest in if is_met (meets r) then r.0 ∷ others else others

  abbrev pub IsFitting : List ℕ × List ℕ → Type 0
  IsFitting r = (b : Bool) × (meets r ≡ some b)

  module _ (strtoull : List ℕ → ℕ) where
    -- The parts of a record that fits.
    record Parts (key value : List ℕ) (b : Bool) : Type 0 where
      pub parsed : J.Value
      pub parses : R.parse value ≡ some parsed
      pub k : Key
      pub reads : get_key type key ≡ some k
      pub decides : (IsObject R) → (predict_vertex R w k parsed).0 ≡ holds b

    meets-Parts : (key value : List ℕ) (b : Bool) → meets (key, value) ≡ some b → Parts key value b
    unfolding meets
    meets-Parts key value b h = elim (Option-cases (R.parse value)) [
      | inl e ↦ absurd (ground (arith, h, e))
      | inr (parsed, e) ↦ elim (Option-cases (get_key type key)) [
        | inl f ↦ absurd (ground (arith, h, e, f))
        | inr (k, f) ↦
            elim (Option-cases
              (answers R k parsed w.and_pattern.node_predicates w.and_pattern.attrs)) [
                | inl a ↦ absurd (ground (arith, h, e, f, a))
                | inr (ands, a) ↦
                    elim (Option-cases
                      (answers R k parsed w.or_pattern.node_predicates w.or_pattern.attrs)) [
                        | inl o ↦ absurd (ground (arith, h, e, f, a, o))
                        | inr (ors, o) ↦ record {
                          parsed = parsed;
                          parses = e;
                          k = k;
                          reads = f;
                          decides = λ lib.
                              predict_vertex_lem R k parsed lib w ands ors a o
                              ∙ ground (arith, h, e, f, a, o);
                        }
                      ]
              ]
      ]
    ]

    module _ (lib : IsObject R) (vertex : is_vertex_type type ≡ true)
        (simple : query_type (some w) ≡ simple_scan) {S : Type 0}
        (processor : S → Event J.Value → S) where
      -- What one record gives: its row if it meets the condition.
      record IsScanned (r : List ℕ × List ℕ) (b : Bool) : Type 0 where
        pub jsn : J.Value
        pub step :
            (s : S)
            → scan_record R strtoull processor (some w) type s r
              ≡ some (if b then processor s (row r.0 jsn) else s)

      emit-holds :
          (s : S) (key : List ℕ) (v : Verdict) (jsn : J.Value) (b : Bool)
          → v ≡ holds b
          → emit R strtoull processor s key (v, jsn)
            ≡ some (if b then processor s (row key jsn) else s)
      emit-holds s key v jsn true e = rw e refl
      emit-holds s key v jsn false e = rw e refl

      scan_record-IsScanned : (r : List ℕ × List ℕ) (b : Bool) → meets r ≡ some b → IsScanned r b
      unfolding scan_record
      scan_record-IsScanned (key, value) b h =
          let p = meets-Parts key value b h in
          let decided = predict_vertex R w p.k p.parsed in
          record {
            jsn = decided.1;
            step = λ s.
                rw (simple, scan_record)
                  (rw p.parses (
                    ap (emit R strtoull processor s key)
                      (predict_row-predict_vertex R w strtoull type key p.k p.parsed vertex p.reads)
                    ∙ emit-holds s key decided.0 decided.1 b (p.decides lib)));
          }

      -- A scan of a group for a condition with at most one pattern edge, in a class whose keys are
      -- numbers or bytes, and whose records parse and fit the comparisons: the rows that are handed to
      -- the processor have the keys of the records that meet the condition (all predicates of `And`
      -- hold and the first one of `Or`), each once and in the order of the cursor, and no other row is
      -- handed on.
      pub scan_group_lem :
          (pairs : List (List ℕ × List ℕ))
          → All IsFitting pairs
          → (rows : List (List ℕ × J.Value)) × ((s : S)
              → scan_group R strtoull processor (some w) type pairs s
                ≡ some (fold_rows processor s rows))
            × (keys_of rows ≡ selected pairs)
      unfolding scan_group fold_rows keys_of selected
      scan_group_lem [] h = ([], (λ s. refl), refl)
      scan_group_lem (r ∷ rest) ((true, m), h) =
          let (rows, f, q) = scan_group_lem rest h in
          let one = scan_record-IsScanned r true m in
          (
            (r.0, one.jsn) ∷ rows,
            (λ s. rw (one.step s, scan_group) (f (processor s (row r.0 one.jsn)))),
            rw m (ap (λ (k : List (List ℕ)). r.0 ∷ k) q),
          )
      scan_group_lem (r ∷ rest) ((false, m), h) =
          let (rows, f, q) = scan_group_lem rest h in
          (rows, (λ s. rw ((scan_record-IsScanned r false m).step s, scan_group) (f s)), rw m q)
