-- ===== src/Storage/EdgeScan.antt =====
-- src/StorageEngine/StorageEngine.cpp: `del` of the edges of a vertex, by a scan of the map of edges.
-- `none` stands for an exception, a failed assertion, or a read behind a buffer.
pub mod Erased
use gqlite.Prelude.{
  ℕ, zero, suc, ◌+◌, ◌≤◌, ◌≡◌, ◌≢◌, refl, ap, ◌∙◌, Bool, true, false, ◌&&◌, ◌||◌, not, Option, none,
  some, List, [], ◌∷◌, ◌==◌, leb, if◌then◌else◌, arith, length, drop, Option-cases, Bool-cases, inl,
  inr,
}
use gqlite.Prelude.Eq.{bytes_beq, bytes_beq_iff, bytes_eq}
use gqlite.Prelude.Maps.{lookup, contains}
use gqlite.Prelude.Options.{◌>>=◌}
use gqlite.Word.{read_u64}
use gqlite.EdgeId.{EdgeId, to_edge_id}
use gqlite.Storage.Tables.{Name}
use gqlite.Storage.Backend.{Kv, ordinal, IsLawful, is_some}
use gqlite.Storage.{Storage, get_or_create_handle}
use gqlite.Storage.View.{IsConsistent, IsHandle, get_or_create_handle-IsHandle}

-- The two tests of the scan for a number. Neither looks at its flag.
unfoldable pub is_match_from : EdgeId → ℕ → Option Bool
is_match_from edge key =
    if edge.from_len == 8 then (read_u64 edge.value >>= λ n. some (n == key)) else some false

unfoldable pub is_match_to : EdgeId → ℕ → Option Bool
is_match_to edge key =
    if edge.len == edge.from_len + 8
    then (read_u64 (drop edge.from_len edge.value) >>= λ n. some (n == key))
    else some false

-- `||`, with its second operand only where the first is false.
abbrev pub or_else : Option Bool → Option Bool → Option Bool
or_else none q = none
or_else (some true) q = some true
or_else (some false) q = q

unfoldable pub is_match : ℕ → EdgeId → Option Bool
unfolding is_match_from is_match_to
is_match key edge = or_else (is_match_from edge key) (is_match_to edge key)

-- The C string in a buffer: its bytes in front of the first NUL.
unfoldable pub c_string : List ℕ → Option (List ℕ)
c_string [] = none
c_string (c ∷ cs) = if c == 0 then some [] else (c_string cs >>= λ s. some (c ∷ s))

-- The two tests of the scan for a string: `key == edge._value` compares with a C string.
unfoldable pub is_match_from_str : Bool → EdgeId → List ℕ → Option Bool
unfolding c_string
is_match_from_str from edge key =
    if from && edge.from_len == length key
    then (c_string edge.value >>= λ s. some (bytes_beq key s))
    else some false

unfoldable pub is_match_to_str : Bool → EdgeId → List ℕ → Option Bool
unfolding c_string
is_match_to_str to edge key =
    if to && edge.len == edge.from_len + length key
    then (c_string (drop edge.from_len edge.value) >>= λ s. some (bytes_beq key s))
    else some false

unfoldable pub is_match_str : List ℕ → Bool → EdgeId → Option Bool
unfolding is_match_from_str is_match_to_str
is_match_str key from edge =
    or_else (is_match_from_str from edge key) (is_match_to_str (not from) edge key)

-- The loop over the cursor.
unfoldable pub erase_matching :
    (K : Kv) → (EdgeId → Option Bool) → K.State → ℕ → List (List ℕ × List ℕ) → Option K.State
erase_matching K test t h [] = some t
erase_matching K test t h ((k, _) ∷ rest) = elim (to_edge_id k >>= test) [
  | none ↦ none
  | some false ↦ erase_matching K test t h rest
  | some true ↦ elim (K.erase t h k).0 [
    | none ↦ none
    | some _ ↦ erase_matching K test (K.erase t h k).1 h rest
  ]
]

module _ {K : Kv} where
  unfoldable pub scan_edges : Storage K → Name → (EdgeId → Option Bool) → Option (Storage K)
  unfolding get_or_create_handle erase_matching
  scan_edges s mapname test =
      let (h, s') = get_or_create_handle s mapname ordinal in
      elim (erase_matching K test s'.txn h (K.pairs s'.txn h)) [
        | none ↦ none
        | some t ↦ some (record s' { txn = t })
      ]

  unfoldable pub del_edges_u64 : Storage K → Name → ℕ → Bool → Option (Storage K)
  unfolding scan_edges is_match
  del_edges_u64 s mapname key from = scan_edges s mapname (is_match key)

  unfoldable pub del_edges : Storage K → Name → List ℕ → Bool → Option (Storage K)
  unfolding scan_edges is_match_str
  del_edges s mapname key from = scan_edges s mapname (is_match_str key from)
