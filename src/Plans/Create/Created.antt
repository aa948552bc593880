-- ===== src/Plans/Create/Created.antt =====
-- src/plan/mutate/UtilPlan.cpp: the schema that the creation of a graph leaves.
use gqlite.Prelude.{
  ℕ, ◌≡◌, refl, ◌∙◌, Bool, true, false, ◌||◌, Option, some, List, [], ◌∷◌, ◌++◌, append_assoc,
  append-nil, map, arith,
}
use gqlite.Prelude.Eq.{bytes_beq, bytes_beq_iff, bytes_eq}
use gqlite.Prelude.Maps.{contains-insert}
use gqlite.Storage.Tables.{
  Name, Schema, KeyType, IndexType, is_map_exist, is_index_exist, class_at, set_class, add_class,
  add_index,
}
use gqlite.Storage.Tables.Keys.{class_at-set_class, is_map_exist-set_class}
use gqlite.Storage.Backend.{Kv, usual}
use gqlite.Storage.{Storage, add_map}
use gqlite.Storage.Session.{
  db_schema, schema_basic, map_basic, Dictionary, Files, init_dict, load_schema, open_file,
}
use gqlite.Plans.Create.{
  Group, CreatePlan, blank_plan, index_name, or_none, note_relation, make_plan, add_maps,
  add_indexes, close_before, execute_creation, create, listed,
}

abbrev pub is_in : Name → List Name → Bool
is_in m [] = false
is_in m (n ∷ ns) = bytes_beq n m || is_in m ns

-- The schema `c'` has the classes of `c` as they were, and those of `maps`; its indexes are those of `c` and
-- of `indexes`; and its relations are those of `c`.
pub record IsWidened (c c' : Schema) (maps indexes : List Name) : Type 0 where
  pub maps_there : (m : Name) → is_map_exist c' m ≡ (is_map_exist c m || is_in m maps)
  pub indexes_there : (m : Name) → is_index_exist c' m ≡ (is_index_exist c m || is_in m indexes)
  pub same_classes : (m : Name) → is_map_exist c m ≡ true → class_at c' m ≡ class_at c m
  pub same_edges : c'.edges ≡ c.edges

IsWidened-add_map :
    {K : Kv} (s : Storage K) (n : Name)
    → IsWidened s.schema (add_map s n KeyType.uninitialize).schema (n ∷ []) []
unfolding add_map add_class is_index_exist set_class
IsWidened-add_map s n =
    let x = record (class_at s.schema n) { key_type = some KeyType.uninitialize } in
    record {
      maps_there = λ m. ground (arith, is_map_exist-set_class s.schema n m x, bytes_beq_iff n m);
      indexes_there = λ m. ground arith;
      same_classes = λ m h. ground (arith, h, class_at-set_class s.schema n m x, bytes_beq_iff n m);
      same_edges = ground arith;
    }

IsWidened-add_index : (c : Schema) (n : Name) → IsWidened c (add_index c n) [] (n ∷ [])
unfolding add_index is_map_exist is_index_exist class_at
IsWidened-add_index c n = record {
  maps_there = λ m. ground arith;
  indexes_there = λ m.
      ground (arith, contains-insert n m (IndexType.uninitialize) c.indexes, bytes_beq_iff n m);
  same_classes = λ m h. ground arith;
  same_edges = ground arith;
}

is_in-append : (m : Name) (a b : List Name) → is_in m (a ++ b) ≡ (is_in m a || is_in m b)
is_in-append m [] b = refl
is_in-append m (n ∷ a) b = ground (arith, is_in-append m a b)

IsWidened-trans :
    (a b c : Schema) (maps maps' indexes indexes' : List Name)
    → IsWidened a b maps indexes
    → IsWidened b c maps' indexes'
    → IsWidened a c (maps ++ maps') (indexes ++ indexes')
IsWidened-trans a b c maps maps' indexes indexes' v w = record {
  maps_there = λ m. ground (arith, v.maps_there m, w.maps_there m, is_in-append m maps maps');
  indexes_there =
      λ m. ground (arith, v.indexes_there m, w.indexes_there m, is_in-append m indexes indexes');
  same_classes = λ m h. w.same_classes m (ground (arith, h, v.maps_there m)) ∙ v.same_classes m h;
  same_edges = w.same_edges ∙ v.same_edges;
}

IsWidened-same : (c : Schema) → IsWidened c c [] []
IsWidened-same c = record {
  maps_there = λ m. ground arith;
  indexes_there = λ m. ground arith;
  same_classes = λ m h. refl;
  same_edges = refl;
}

IsWidened-add_maps :
    {K : Kv} (ns : List Name) (s : Storage K) → IsWidened s.schema (add_maps s ns).schema ns []
unfolding add_maps
IsWidened-add_maps [] s = IsWidened-same s.schema
IsWidened-add_maps (n ∷ ns) s =
    let s' = add_map s n KeyType.uninitialize in
    IsWidened-trans s.schema s'.schema (add_maps s' ns).schema (n ∷ []) ns [] []
      (IsWidened-add_map s n) (IsWidened-add_maps ns s')

IsWidened-add_indexes : (ns : List Name) (c : Schema) → IsWidened c (add_indexes c ns) [] ns
unfolding add_indexes
IsWidened-add_indexes [] c = IsWidened-same c
IsWidened-add_indexes (n ∷ ns) c =
    IsWidened-trans c (add_index c n) (add_indexes (add_index c n) ns) [] [] (n ∷ []) ns
      (IsWidened-add_index c n) (IsWidened-add_indexes ns (add_index c n))

IsWidened-init_dict :
    (c : Schema) (d : Dictionary) (compress : ℕ) → IsWidened c (init_dict c d compress).0 [] []
unfolding init_dict is_map_exist is_index_exist class_at
IsWidened-init_dict c d compress = record {
  maps_there = λ m. ground arith;
  indexes_there = λ m. ground arith;
  same_classes = λ m h. ground arith;
  same_edges = ground arith;
}

IsWidened-graph :
    (c : Schema) (filename : Name) → IsWidened c (record c { graph = some filename }) [] []
unfolding is_map_exist is_index_exist class_at
IsWidened-graph c filename = record {
  maps_there = λ m. ground arith;
  indexes_there = λ m. ground arith;
  same_classes = λ m h. refl;
  same_edges = refl;
}

-- What the plan of a list of groups holds.
abbrev pub names_of : List Group → List Name
names_of [] = []
names_of (g ∷ gs) = g.name ∷ names_of gs

abbrev pub index_names_of : List Group → List Name
index_names_of [] = []
index_names_of (g ∷ gs) = map (index_name g.name) (or_none g.indexes) ++ index_names_of gs

abbrev pub relate : Schema → List Group → Schema
relate c [] = c
relate c (g ∷ gs) = relate (note_relation c g) gs

abbrev properties_of : List Group → List (List Name)
properties_of [] = []
properties_of (g ∷ gs) = listed g.properties ++ properties_of gs

-- The plan of the groups, behind what it holds before.
abbrev plan_of : CreatePlan → List Group → CreatePlan
plan_of plan gs = record {
  maps = plan.maps ++ names_of gs;
  properties = plan.properties ++ properties_of gs;
  indexes = plan.indexes ++ index_names_of gs;
}

make_plan_lem :
    (gs : List Group) (c : Schema) (plan : CreatePlan)
    → make_plan c plan gs ≡ (plan_of plan gs, relate c gs)
unfolding make_plan
make_plan_lem [] c plan =
    ground (arith, append-nil plan.maps, append-nil plan.indexes, append-nil plan.properties)
make_plan_lem (g ∷ gs) c plan =
    let texts = map (index_name g.name) (or_none g.indexes) in
    let plan' : CreatePlan = record {
      maps = plan.maps ++ (g.name ∷ []);
      properties = plan.properties ++ listed g.properties;
      indexes = plan.indexes ++ texts;
    } in
    ground (
      arith,
      make_plan_lem gs (note_relation c g) plan',
      append_assoc plan.maps (g.name ∷ []) (names_of gs),
      append_assoc plan.properties (listed g.properties) (properties_of gs),
      append_assoc plan.indexes texts (index_names_of gs),
    )

module _ {K : Kv} (F : Files K) where
  -- What `open` reads of the schema, in a store with the schema `c`.
  abbrev pub stored : Schema → F.File → Option Schema
  stored c file =
      let (h, t) = K.create_map (F.start_write file) db_schema usual in
      load_schema F c (K.get t h schema_basic)

  open_file_lem :
      (s : Storage K) (d : Dictionary) (file : F.File) (filename : Name) (compress : ℕ) (c : Schema)
      → stored s.schema file ≡ some c
      → (r : Storage K × Dictionary) × (open_file F s d file filename compress ≡ some r)
        × IsWidened c r.0.schema (map_basic ∷ []) []
  unfolding open_file
  open_file_lem s d file filename compress c e =
      let (h, t) = K.create_map (F.start_write file) db_schema usual in
      let s0 = record s { schema = record c { graph = some filename }; txn = t } in
      let s1 = add_map s0 map_basic KeyType.uninitialize in
      let (c', d') = init_dict s1.schema d compress in
      (
        (record s1 { schema = c' }, d'),
        rw (e, open_file) refl,
        IsWidened-trans c s0.schema c' [] (map_basic ∷ []) [] [] (IsWidened-graph c filename) (
            IsWidened-trans s0.schema s1.schema c' (map_basic ∷ []) [] [] []
              (IsWidened-add_map s0 map_basic) (IsWidened-init_dict s1.schema d compress)),
      )

  -- The schema that the constructor leaves, and what is left of it where a graph was open.
  abbrev pub schema_before : Bool → Storage K → Dictionary → List Group → Schema
  schema_before was_open s d gs =
      (close_before F was_open (record s { schema = relate s.schema gs }) d).1.schema

  executed :
      (was_open : Bool) (s : Storage K) (d : Dictionary) (file : F.File) (filename : Name)
      (plan : CreatePlan) (c : Schema)
      → stored (close_before F was_open s d).1.schema file ≡ some c
      → (s' : Storage K) × (d' : Dictionary) × (execute_creation F was_open s d file filename plan
          ≡ some ((close_before F was_open s d).0, (s', d')))
        × IsWidened c s'.schema (map_basic ∷ plan.maps) plan.indexes
  unfolding execute_creation
  executed was_open s d file filename plan c e =
      let ((s1, d1), p, w) = open_file_lem (close_before F was_open s d).1 d file filename 1 c e in
      let s2 = add_maps s1 plan.maps in
      let s' = record s2 { schema = add_indexes s2.schema plan.indexes } in
      let wide : IsWidened c s'.schema (map_basic ∷ (plan.maps ++ [])) plan.indexes =
        IsWidened-trans c s2.schema s'.schema (map_basic ∷ plan.maps) [] [] plan.indexes
          (IsWidened-trans c s1.schema s2.schema (map_basic ∷ []) plan.maps [] [] w
            (IsWidened-add_maps plan.maps s1))
          (IsWidened-add_indexes plan.indexes s2.schema) in
      let wide' = rw (append-nil plan.maps) at wide in
      (s', d1, rw (p, execute_creation) refl, wide')

  -- Where the schema can be read, the creation of a graph succeeds. Its classes are those of the
  -- schema that `open` reads, which are unchanged, the basic map and the groups of the statement; its
  -- indexes are those of that schema and of the groups; its relations are those of that schema, which
  -- is the one in the file, or that of the store with the relations of the statement where the file
  -- holds none.
  pub create_lem :
      (was_open : Bool) (s : Storage K) (d : Dictionary) (file : F.File) (filename : Name)
      (gs : List Group) (c : Schema)
      → stored (schema_before was_open s d gs) file ≡ some c
      → (old : Option F.File) × (s' : Storage K) × (d' : Dictionary) × (create F was_open s d file
            filename gs
          ≡ some (old, (s', d')))
        × IsWidened c s'.schema (map_basic ∷ names_of gs) (index_names_of gs)
  unfolding create
  create_lem was_open s d file filename gs c e =
      let (s', d', p, w) =
        executed was_open (record s { schema = relate s.schema gs }) d file filename
          (plan_of blank_plan gs) c e in
      (
        (close_before F was_open (record s { schema = relate s.schema gs }) d).0,
        s',
        d',
        rw (make_plan_lem gs s.schema blank_plan, create) p,
        w,
      )
