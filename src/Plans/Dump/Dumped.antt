-- ===== src/Plans/Dump/Dumped.antt =====
-- src/plan/mutate/UtilPlan.cpp: what the dump prints.
use gqlite.Prelude.{
  ℕ, ◌≡◌, ◌≢◌, refl, ap, ◌∙◌, sym, none, some, List, [], ◌∷◌, ◌++◌, append_assoc, append-nil,
  if◌then◌else◌, length, drop, All, map, arith, inl, inr, Option-cases,
}
use gqlite.Prelude.Eq.{bytes_eq}
use gqlite.Prelude.Maps.{lookup}
use gqlite.Split.{Bytes, pop_back}
use gqlite.Normalize.{is_prefix, find}
use gqlite.Storage.Tables.{Name, Schema, names, get_indexes}
use gqlite.Plans.Dump.{
  pop_last, is_found, is_shown, index_texts, index_part, class_text, groups_text, create_line,
  create_text,
}

-- The texts with commas between them.
unfoldable pub join : List Bytes → Bytes
join [] = []
join (p ∷ []) = p
join (p ∷ q ∷ ps) = p ++ (44 ∷ join (q ∷ ps))

-- The texts with a comma behind each.
abbrev ended : List Bytes → Bytes
ended [] = []
ended (p ∷ ps) = p ++ (44 ∷ ended ps)

pop_back-append : (a s : Bytes) (c : ℕ) → pop_back (a ++ (c ∷ s)) ≡ a ++ pop_back (c ∷ s)
unfolding pop_back
pop_back-append [] s c = refl
pop_back-append (x ∷ []) s c = refl
pop_back-append (x ∷ y ∷ a) s c = ap (λ (t : Bytes). x ∷ t) (pop_back-append (y ∷ a) s c)

pop_last-append : (a s : Bytes) (c : ℕ) → pop_last (a ++ (c ∷ s)) ≡ some (a ++ pop_back (c ∷ s))
unfolding pop_last
pop_last-append [] s c = refl
pop_last-append (x ∷ a) s c = ap some (pop_back-append (x ∷ a) s c)

pop_back-ended : (p : Bytes) (ps : List Bytes) → pop_back (ended (p ∷ ps)) ≡ join (p ∷ ps)
unfolding join pop_back
pop_back-ended p [] = pop_back-append p [] 44 ∙ append-nil p
pop_back-ended p (q ∷ ps) =
    pop_back-append p (ended (q ∷ ps)) 44
    ∙ ap (λ (t : Bytes). p ++ t)
        (pop_back-append (44 ∷ q) (ended ps) 44
          ∙ ap (λ (t : Bytes). 44 ∷ t)
              (sym (pop_back-append q (ended ps) 44) ∙ pop_back-ended q ps))

pop_last-ended : (p : Bytes) (ps : List Bytes) → pop_last (ended (p ∷ ps)) ≡ some (join (p ∷ ps))
pop_last-ended p ps =
    pop_last-append p (ended ps) 44
    ∙ ap some (sym (pop_back-append p (ended ps) 44) ∙ pop_back-ended p ps)

-- The indexes that begin with the prefix, without it and in quotes.
unfoldable pub own_indexes : Bytes → List Name → List Bytes
unfolding is_prefix
own_indexes prefix [] = []
own_indexes prefix (i ∷ is) =
    let rest = own_indexes prefix is in
    if is_prefix prefix i then (39 ∷ (drop (length prefix) i ++ 39 ∷ [])) ∷ rest else rest

-- The indexes in brackets, where there are some.
abbrev pub index_list : List Bytes → Bytes
index_list [] = []
index_list (t ∷ ts) =
    44 ∷ 32 ∷ 105 ∷ 110 ∷ 100 ∷ 101 ∷ 120 ∷ 58 ∷ 32 ∷ 91 ∷ (join (t ∷ ts) ++ 93 ∷ [])

-- A prefix that is found in an index is found at its beginning.
abbrev pub IsApart : Name → Name → Type 0
IsApart name i = is_found (find (name ++ 58 ∷ []) i) ≡ is_prefix (name ++ 58 ∷ []) i

index_texts-ended :
    (name : Name) (is : List Name)
    → All (IsApart name) is
    → index_texts (name ++ 58 ∷ []) is ≡ ended (own_indexes (name ++ 58 ∷ []) is)
unfolding index_texts own_indexes
index_texts-ended name [] h = refl
index_texts-ended name (i ∷ is) (h, hs) = ground (
  arith,
  h,
  index_texts-ended name is hs,
  append_assoc (drop (length (name ++ 58 ∷ [])) i) (39 ∷ [])
      (44 ∷ ended (own_indexes (name ++ 58 ∷ []) is)),
)

index_part-own_indexes :
    (name : Name) (is : List Name)
    → All (IsApart name) is
    → index_part name is ≡ index_list (own_indexes (name ++ 58 ∷ []) is)
unfolding index_part pop_last
index_part-own_indexes name is h =
    rw (index_texts-ended name is h, index_part) (listed (own_indexes (name ++ 58 ∷ []) is))
  where
    listed :
        (ts : List Bytes)
        → (elim (pop_last (ended ts)) [
          | none ↦ []
          | some s ↦ 44 ∷ 32 ∷ 105 ∷ 110 ∷ 100 ∷ 101 ∷ 120 ∷ 58 ∷ 32 ∷ 91 ∷ (s ++ 93 ∷ [])
        ])
          ≡ index_list ts
    listed [] = refl
    listed (t ∷ ts) = rw (pop_last-ended t ts) refl

-- The names of the classes that are shown.
abbrev pub shown : List Name → List Name
shown [] = []
shown (name ∷ rest) = if is_shown name then name ∷ shown rest else shown rest

module _ (edges : List (Name × (Name × Name))) (indexes : List Name) where
  -- A group as the statement would have it.
  unfoldable pub group_text : Name → Bytes
  group_text name = elim (lookup name edges) [
    | some (from, to) ↦
        91
        ∷ 39
        ∷ (from ++ (39 ∷ 44 ∷ 32 ∷ 39 ∷ (name ++ (39 ∷ 44 ∷ 32 ∷ 39 ∷ (to ++ (39 ∷ 93 ∷ []))))))
    | none ↦
        123
        ∷ (name
            ++ (58
                ∷ 32
                ∷ 91
                ∷ 93
                ∷ (index_list (own_indexes (name ++ 58 ∷ []) indexes) ++ (125 ∷ []))))
  ]

  class_text-group_text :
      (name : Name)
      → All (IsApart name) indexes
      → class_text edges indexes name ≡ group_text name ++ 44 ∷ []
  unfolding class_text group_text
  class_text-group_text name h = elim (Option-cases (lookup name edges)) [
    | inl e ↦
        rw (e, class_text)
          (rw (e, group_text) (rw (index_part-own_indexes name indexes h) (simp append_assoc)))
    | inr ((from, to), e) ↦ rw (e, class_text) (rw (e, group_text) (simp append_assoc))
  ]

  groups_text-ended :
      (classes : List Name)
      → All (λ name. All (IsApart name) indexes) classes
      → groups_text edges indexes classes ≡ ended (map group_text (shown classes))
  unfolding groups_text
  groups_text-ended [] h = refl
  groups_text-ended (name ∷ rest) (h, hs) = ground (
    arith,
    class_text-group_text name h,
    groups_text-ended rest hs,
    append_assoc (group_text name) (44 ∷ []) (ended (map group_text (shown rest))),
  )

-- Where some class is shown, and the name of a class with a colon is found in the name of an index
-- only at its beginning, the dump prints the statement that creates the graph: its shown classes and
-- relations with commas between them, and in each class the indexes that begin with its name and a
-- colon.
pub create_text_lem :
    (c : Schema) (graph : Name)
    → All (λ name. All (IsApart name) (get_indexes c)) (names c.classes)
    → shown (names c.classes) ≢ []
    → create_text c graph
      ≡ some (
          create_line graph
            (join (map (group_text c.edges (get_indexes c)) (shown (names c.classes)))))
unfolding create_text
create_text_lem c graph h some_shown =
    rw (groups_text-ended c.edges (get_indexes c) (names c.classes) h, create_text)
      (listed (shown (names c.classes)) some_shown)
  where
    listed :
        (ns : List Name)
        → ns ≢ []
        → (elim (pop_last (ended (map (group_text c.edges (get_indexes c)) ns))) [
          | none ↦ none
          | some groups ↦ some (create_line graph groups)
        ])
          ≡ some (create_line graph (join (map (group_text c.edges (get_indexes c)) ns)))
    listed [] ne = absurd (ne refl)
    listed (n ∷ ns) ne =
        rw
          (pop_last-ended (group_text c.edges (get_indexes c) n)
            (map (group_text c.edges (get_indexes c)) ns))
          refl
