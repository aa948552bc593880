-- ===== src/Plans/Remove/Executed.antt =====
-- src/plan/mutate/RemovePlan.cpp: a removal with its scan.
use gqlite.Prelude.{
  ℕ, ◌≡◌, refl, sym, ap, ◌∙◌, true, ◌&&◌, Option, none, some, List, [], ◌∷◌, ◌++◌, if◌then◌else◌,
  All, append-nil, append_assoc, arith,
}
use gqlite.Prelude.Eq.{bytes_beq, bytes_eq}
use gqlite.Prelude.Maps.{contains}
use gqlite.Storage.Tables.{
  Name, Schema, KeyType, get_relations, get_key_type, is_map_exist, class_at,
}
use gqlite.Storage.Backend.{Kv, usual, IsLawful}
use gqlite.Storage.{Storage, get_or_create_handle}
use gqlite.Storage.View.{schema-get_or_create_handle, get_or_create_handle-IsHandle}
use gqlite.Storage.Records.{cached}
use gqlite.Storage.Deleted.{IsReady}
use gqlite.Storage.Attributes.{Json}
use gqlite.Scan.{Rows, QueryCondition, Event, simple_scan, query_type, scan_group}
use gqlite.Scan.Collected.{fold_rows, keys_of, IsFitting, selected, scan_group_lem}
use gqlite.Scan.Answers.{IsObject}
use gqlite.Scan.Execute.{PlanInfo, scan_indexes, get_map_cursor, execute_scan}
use gqlite.Plans.Remove.{collect_key, remove_all, execute_remove, removed}
use gqlite.Plans.Remove.Removed.{HasNoNul, is_among, remove_all_lem}

fold-collect_key :
    {V : Type 0} (rows : List (List ℕ × V)) (keys : List (List ℕ))
    → fold_rows collect_key keys rows ≡ keys ++ keys_of rows
unfolding fold_rows collect_key keys_of
fold-collect_key [] keys = sym (append-nil keys)
fold-collect_key ((key, value) ∷ rows) keys =
    fold-collect_key rows (keys ++ key ∷ []) ∙ append_assoc keys (key ∷ []) (keys_of rows)

get_key_type-class_at :
    (c : Schema) (n : Name) → is_map_exist c n ≡ true → get_key_type c n ≡ (class_at c n).key_type
unfolding get_key_type is_map_exist class_at contains
get_key_type-class_at c n h = ground arith

get_map_cursor-byte :
    {K : Kv} (s : Storage K) (n : Name)
    → is_map_exist s.schema n ≡ true
    → (class_at s.schema n).key_type ≡ some KeyType.byte
    → get_map_cursor s n ≡ some (get_or_create_handle s n usual)
unfolding get_map_cursor
get_map_cursor-byte s n h t = rw (h, get_map_cursor) (rw (t, get_map_cursor) refl)

-- A scan of one class, from its cursor, its type and what the scan of the group gives.
execute_scan_lem :
    {J : Json} {D : Type 0} (R : Rows J D) (strtoull : List ℕ → ℕ) {K : Kv} {S : Type 0}
    (processor : S → Event J.Value → S) (w : Option (QueryCondition D)) (s s' : Storage K)
    (cost h : ℕ) (n : Name) (type : KeyType) (a b : S)
    → get_map_cursor s n ≡ some (h, s')
    → get_key_type s'.schema n ≡ some type
    → scan_group R strtoull processor w type (K.pairs s'.txn h) a ≡ some b
    → execute_scan R strtoull processor w s ((cost, n) ∷ []) a ≡ some (b, s')
unfolding execute_scan scan_indexes
execute_scan_lem R strtoull {K} processor w s s' cost h n type a b e f g =
    rw (e, execute_scan) (rw (f, execute_scan) (rw (g, execute_scan) refl))

execute_remove_step :
    {J : Json} {D : Type 0} (R : Rows J D) (strtoull : List ℕ → ℕ) {K : Kv}
    (w : Option (QueryCondition D)) (group : Name) (plans : List PlanInfo) (s s1 s' : Storage K)
    (keys : List (List ℕ))
    → execute_scan R strtoull collect_key w s plans [] ≡ some (keys, s1)
    → remove_all group s1 keys ≡ some (removed, s')
    → execute_remove R strtoull w group plans s ≡ some (removed, s')
unfolding execute_remove
execute_remove_step R strtoull w group plans s s1 s' keys e f = rw (e, execute_remove) f

module _ {J : Json} {D : Type 0} (R : Rows J D) (strtoull : List ℕ → ℕ) (K : Kv)
    (content : K.State → Name → List ℕ → Option (List ℕ)) (laws : IsLawful K content) where
  -- A removal by a condition with at most one pattern edge, from a class whose keys are bytes, without
  -- relations, in a lawful store that is ready, where the records parse, the comparisons fit and no
  -- key that is found holds a zero byte: the records that meet the condition are gone, and all others
  -- are as before.
  pub execute_remove_lem :
      (lib : IsObject R) (w : QueryCondition D) (cost : ℕ) (group : Name) (s : Storage K)
      → query_type (some w) ≡ simple_scan
      → is_map_exist s.schema group ≡ true
      → (class_at s.schema group).key_type ≡ some KeyType.byte
      → get_relations s.schema group ≡ []
      → IsReady K content laws s group usual
      → let (h, s1) = get_or_create_handle s group usual in
        let pairs = K.pairs s1.txn h in
        All (IsFitting R w KeyType.byte) pairs
        → All HasNoNul (
            selected R w KeyType.byte (
              K.pairs
                (get_or_create_handle s group usual).1.txn
                (get_or_create_handle s group usual).0))
        → (s' : Storage K) × (execute_remove R strtoull (some w) group ((cost, group) ∷ []) s
            ≡ some (removed, s'))
          × ((m j : List ℕ)
              → content s'.txn m j ≡ (
                  if bytes_beq group m
                    && is_among j (
                        selected R w KeyType.byte (
                          K.pairs
                            (get_or_create_handle s group usual).1.txn
                            (get_or_create_handle s group usual).0))
                  then none
                  else content s.txn m j))
  execute_remove_lem lib w cost group s simple there type rel ok fits nul =
      let (h, s1) = get_or_create_handle s group usual in
      let p = get_or_create_handle-IsHandle K content laws s group usual ok.consistent in
      let same : s1.schema ≡ s.schema = schema-get_or_create_handle s group usual in
      let f : get_or_create_handle s1 group usual ≡ (h, s1) =
        cached K content laws s1 group usual h p.handle_cached in
      let ok1 : IsReady K content laws s1 group usual = record {
        consistent = p.handle_consistent;
        there = rw same ok.there;
        handle = rw f ok.handle;
      } in
      let type1 : get_key_type s1.schema group ≡ some KeyType.byte =
        rw same (get_key_type-class_at s.schema group there ∙ type) in
      let found = selected R w KeyType.byte (K.pairs s1.txn h) in
      let (rows, scanned, kept) =
        scan_group_lem R w KeyType.byte strtoull lib refl simple collect_key (K.pairs s1.txn h)
          fits in
      let keys : scan_group R strtoull collect_key (some w) KeyType.byte (K.pairs s1.txn h) []
          ≡ some found =
        scanned [] ∙ ap some (fold-collect_key rows [] ∙ kept) in
      let (s', e, r) = remove_all_lem K content laws group s1 found nul (rw same rel) type1 ok1 in
      (
        s',
        execute_remove_step R strtoull (some w) group ((cost, group) ∷ []) s s1 s' found
            (execute_scan_lem R strtoull collect_key (some w) s s1 cost h group KeyType.byte []
              found (get_map_cursor-byte s group there type) type1 keys)
            e,
        λ m j. ground (arith, r.left_over m j, p.handle_content m j),
      )
