-- ===== src/Lib.antt =====
-- A verification library of GQLite, an embedded graph database (C++). A request is parsed into a
-- syntax tree; the engine turns its statements into plans and runs them; plans use the store, an
-- in-memory layered graph (the virtual network), and a small script language that is compiled to byte
-- code for a stack machine; coroutines of a schedule run beside them. The store keeps a schema and
-- the records of classes and indexes in a key-value file; a scan hands its records to a removal or a
-- query, an upsert writes them, and a nearest neighbour index keeps vectors on the virtual network.
--
-- Files, and the code they model:
--   Engine          src/VirtualEngine.cpp: the circular list of plans (`PlanVisitor::add`), `makePlans`,
--                   `executePlans`, `cleanPlans`, `execAST`. The traversal of the tree is the list of its
--                   statements, up to the first at which the visitor answers `Return`. Engine/PlanList and Engine/Order have the
--                   theorems on the list and on the order of execution.
--   Graph, Network  include/base/parallel/GraphModel.h and src/VirtualNetwork.cpp: the maps of nodes and
--                   edges, `addNode`, `addEdge`, `deleteEdge`, `deleteNode`, `neighbors`, `getEdgeID`.
--                   Network/WellFormed states the invariant, the other children prove what keeps it.
--   Gvm             src/base/gvm: Gvm/Value the operators of Value.cpp, Gvm/Chunk the byte code,
--                   Gvm/Compiler the local variables and scopes, Gvm/Expr the code of expressions
--                   (src/base/lang/visitor/VariantVisitor.cpp), Gvm/Machine and Gvm/Run the machine
--                   (GVM.cpp: `call`, `callValue`, `run`, `interpret`).
--   EdgeId, Word    src/gutil.cpp: the bits of an edge id, its stored key, and its parts.
--   IdSource        src/gutil.cpp `snowflake2` and `hash64`, include/base/IDGenerator.h.
--   Sorted, Split   include/gutil.h and src/gutil.cpp: sorted sequences, and splitting of texts.
--   Normalize       src/gutil.cpp: `replace_all` and `normalize`, which turns the quotes of a JSON text.
--   Schedule        src/schedule/DefaultSchedule.cpp and src/base/system/Coroutine.cpp.
--   Base64, Datetime, GeoHash   src/Type: Binary.cpp, Datetime.cpp and Hash.cpp.
--   Storage         src/StorageEngine/StorageEngine.cpp: `write`, `read`, `del`, `addMap` and the handles
--                   of maps. Storage/Tables is the schema, Storage/Attributes the attributes of JSON
--                   values, Storage/Session opening and closing, Storage/EdgeScan the deletion of edges.
--                   Storage/Backend says what is relied on of libmdbx, Storage/Memory is a store that does
--                   so, Storage/View and the others have the theorems; Storage/Calls has sequences of calls.
--   Scan            src/plan/query/ScanPlan.cpp: `predict`, `predictVertex`, `predictEdge`, and the loop over
--                   a group; Scan/Execute `prepare` and `scan`. It reads the pairs of Storage.
--   Plans           src/plan/mutate: Plans/Upset the writes of UpsetPlan.cpp, Plans/Remove RemovePlan.cpp,
--                   which collects keys by Scan/Execute and deletes them by Storage, and Plans/Create the
--                   creation of a graph (UtilPlan.cpp), which opens a file by Storage/Session; Plans/Dump is
--                   the text of its dump, which normalizes records by Normalize.
--   Hnsw            src/operand/query/HNSW.cpp: `queryLayer`, `entry`, `addDisk`, `readEachLayer` and
--                   `clipEdgeThenKeepNeighborSize`; Hnsw/Insert `add` and `addNode2Edge`, which add nodes and
--                   edges to a Network, Hnsw/Load the constructor's cache and `initNet`, Hnsw/Query
--                   `knnSearch`, Hnsw/Save `save` and `erase`. An edge of `initNet` has a null payload, which
--                   `clipEdgeThenKeepNeighborSize` throws on.
--   Prelude         shared names, lists over the native numbers, maps as association lists.
--   Tests           the theorems at concrete inputs.
--
-- State is passed explicitly: a C++ object is a record, a method a function from the old record to the
-- new one. A `std::map` is an association list (Prelude/Maps), a C array a list with its reads checked,
-- or a function where every index is in range. Machine integers keep their wrap-around where the code
-- can reach it. Undefined behaviour is a value of its own: `none`, `fault` or `overrun`. An exception is
-- an error value.
--
-- Fuel: `Schedule.first_free` has 256 rounds, one for each `uint8_t`; `Schedule.run` and `Gvm.Run.run`
-- take theirs as an argument, since a script may run for ever; `Engine.execute_plans` has as much as
-- the list has nodes, one round for each plan and one for the end. `Hnsw.rounds` takes its fuel as an
-- argument, and `Hnsw.Insert.add` gives it one round for each node and two more; `Hnsw.read_layers` has
-- one round for each record and one for the end; `Normalize.replace_all` has one round for each
-- character and one for the end.
--
-- Parameters: `double` (a type with the operations used) with the distance of vectors and the order
-- of `node_detail`, the JSON library (types, items and texts of values), the text of a schema,
-- `strtoull`, `std::to_string`, the regular expressions of `normalize`, the level that `getLayer` draws, native
-- functions, heap addresses of function objects, what `upsetIndex` writes for the value of one index, the switch of stacks,
-- the clock. Of libmdbx (Storage/Backend): opening, creating, putting, getting, erasing and
-- listing, where a map that was created stays open, and a put or an erasure changes its record
-- only.
--
-- Not modelled: the inside of libmdbx and its cursors while a map is changed, the range read, the
-- estimates of the store, the native lists of edges, the visitors that build plans, pausing of
-- scans, the drawing of levels in the index, the drop of a graph, the parser and
-- printing, the copies of other projects' libraries.
pub mod Prelude
pub mod Sorted
pub mod Word
pub mod EdgeId
pub mod Split
pub mod Normalize
pub mod Graph
pub mod Network
pub mod Gvm
pub mod Tests
pub mod Base64
pub mod Engine
pub mod Schedule
pub mod GeoHash
pub mod IdSource
pub mod Datetime
pub mod Storage
pub mod Scan
pub mod Plans
pub mod Hnsw
