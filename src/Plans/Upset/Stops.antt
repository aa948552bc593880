-- ===== src/Plans/Upset/Stops.antt =====
-- src/plan/mutate/UpsetPlan.cpp: `upsetVertex` on several vertices.
use gqlite.Prelude.{ℕ, ◌≡◌, Option, some, List, [], ◌∷◌}
use gqlite.EdgeId.{Key, num}
use gqlite.Storage.Tables.{Name}
use gqlite.Storage.Backend.{Kv}
use gqlite.Storage.{Code, success, Storage}
use gqlite.Storage.Attributes.{Json, write_json_u64}
use gqlite.Plans.Upset.{upset_index}

module _ (J : Json) {K : Kv} (attribute : J.Value → Name → Option J.Value)
    (upset_value : Storage K → Name → J.Value → Key → Option Code × Storage K) where
  -- The writes of vertices with numbers as keys, and of their entries in the indexes, all succeed.
  pub data AllWritten (indexes : List Name) (class : Name)
      : Storage K → List (Key × J.Value) → Storage K → Type 0 where
    none_left : (s : Storage K) → AllWritten indexes class s [] s
    one_more :
        (s s' s'' end : Storage K) (k : ℕ) (value : J.Value) (rest : List (Key × J.Value))
        → write_json_u64 J s class k value ≡ (some success, s')
        → upset_index J attribute upset_value s' class indexes value (num k) ≡ (some success, s'')
        → AllWritten indexes class s'' rest end
        → AllWritten indexes class s ((num k, value) ∷ rest) end
