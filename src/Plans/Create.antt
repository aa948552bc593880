-- ===== src/Plans/Create.antt =====
-- src/plan/mutate/UtilPlan.cpp: the plan that creates a graph. The groups of the statement are
-- parameters, with their names and texts read.
pub mod Created
use gqlite.Prelude.{
  ℕ, Bool, true, false, Option, none, some, List, [], ◌∷◌, ◌++◌, map, if◌then◌else◌,
}
use gqlite.Prelude.Eq.{bytes_eq}
use gqlite.Prelude.Maps.{insert}
use gqlite.Storage.Tables.{Name, Schema, KeyType, add_index}
use gqlite.Storage.Backend.{Kv}
use gqlite.Storage.{Storage, add_map}
use gqlite.Storage.Session.{Dictionary, Files, open_file, close_file}

-- A group of the statement; an edge group has the classes that it joins. A list that is missing is `none`.
pub record Group : Type 0 where
  pub name : Name
  pub properties : Option (List Name)
  pub indexes : Option (List Name)
  pub relation : Option (Name × Name)

-- The members `_vParams1` to `_vParams3`.
pub record CreatePlan : Type 0 where
  pub maps : List Name
  pub properties : List (List Name)
  pub indexes : List Name

abbrev pub blank_plan : CreatePlan
blank_plan = record { maps = []; properties = []; indexes = [] }

-- The name, a colon and the text.
abbrev pub index_name : Name → Name → Name
index_name name text = name ++ (58 ∷ text)

abbrev pub listed : {A : Type 0} → Option A → List A
listed none = []
listed (some a) = a ∷ []

abbrev pub or_none : {A : Type 0} → Option (List A) → List A
or_none none = []
or_none (some xs) = xs

abbrev pub note_relation : Schema → Group → Schema
note_relation c g = elim (g.relation) [
  | none ↦ c
  | some r ↦ record c { edges = insert (g.name) r c.edges }
]

-- The constructor: the relations go into the schema of the store as it is now.
unfoldable pub make_plan : Schema → CreatePlan → List Group → CreatePlan × Schema
make_plan c plan [] = (plan, c)
make_plan c plan (g ∷ gs) =
    make_plan (note_relation c g)
      (record {
        maps = plan.maps ++ (g.name ∷ []);
        properties = plan.properties ++ listed (g.properties);
        indexes = plan.indexes ++ map (index_name g.name) (or_none g.indexes);
      })
      gs

unfoldable pub add_maps : {K : Kv} → Storage K → List Name → Storage K
unfolding add_map
add_maps s [] = s
add_maps s (n ∷ ns) = add_maps (add_map s n KeyType.uninitialize) ns

unfoldable pub add_indexes : Schema → List Name → Schema
unfolding add_index
add_indexes c [] = c
add_indexes c (n ∷ ns) = add_indexes (add_index c n) ns

module _ {K : Kv} (F : Files K) where
  -- `open` of another file closes the one that is open: its file, where there was one, stands beside
  -- the result.
  unfoldable pub close_before : Bool → Storage K → Dictionary → Option F.File × Storage K
  unfolding close_file
  close_before was_open s d =
      let (old, c) = close_file F s d in
      if was_open then (some old, record s { schema = c }) else (none, s)

  -- The case `Creation`, for the file that the name stands for; `none` is an exception.
  unfoldable pub execute_creation :
      Bool
      → Storage K
      → Dictionary
      → F.File
      → Name
      → CreatePlan
      → Option (Option F.File × (Storage K × Dictionary))
  unfolding close_before open_file add_maps add_indexes
  execute_creation was_open s d file filename plan =
      let (old, s0) = close_before was_open s d in
      elim (open_file F s0 d file filename 1) [
        | none ↦ none
        | some (s1, d1) ↦
            let s2 = add_maps s1 plan.maps in
            some (old, (record s2 { schema = add_indexes s2.schema plan.indexes }, d1))
      ]

  -- The statement: the constructor of the plan and its execution.
  unfoldable pub create :
      Bool
      → Storage K
      → Dictionary
      → F.File
      → Name
      → List Group
      → Option (Option F.File × (Storage K × Dictionary))
  unfolding make_plan execute_creation
  create was_open s d file filename groups =
      let (plan, c) = make_plan s.schema blank_plan groups in
      execute_creation was_open (record s { schema = c }) d file filename plan
