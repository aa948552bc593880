-- ===== src/Storage/Groups.antt =====
-- src/StorageEngine/StorageEngine.cpp: the group ids that `addMap` gives to the names of maps.
use gqlite.Prelude.{
  ℕ, suc, ◌+◌, ◌%◌, ◌≤◌, ◌<◌, ◌≡◌, ◌⊎◌, inl, inr, refl, false, none, some, List, [], ◌∷◌, ==_iff,
  arith, length, Option-cases, Bool-cases,
}
use gqlite.Prelude.Eq.{Eq, bytes_beq_iff, bytes_eq, nat_eq}
use gqlite.Prelude.Maps.{
  length-insert_le, lookup, insert, contains, lookup-insert, lookup-insert_self,
}
use gqlite.Storage.Tables.{Name, KeyType}
use gqlite.Storage.Backend.{Kv}
use gqlite.Storage.{Storage, add_map, get_group_name, get_group_id}

length-insert_new {ℓ κ} :
    {K : Type ℓ} {V : Type κ} ⦃e : Eq K⦄ (k : K) (v : V) (m : List (K × V))
    → lookup k m ≡ none
    → length (insert k v m) ≡ suc (length m)
unfolding lookup insert
length-insert_new k v [] h = refl
length-insert_new ⦃e⦄ k v ((j, w) ∷ m) h = ground (arith, length-insert_new k v m)

-- The ids that `addMap` has given to `l` names: from 1 on, in one byte.
abbrev IsGiven : ℕ → ℕ → Type 0
IsGiven l i = ((1 ≤ i) × (i ≤ l) × (i < 256)) ⊎ ((i ≡ 0) × (l ≡ 256))

module _ (ids : List (Name × ℕ)) (groups : List (ℕ × Name)) where
  -- The two tables are inverse to one another, and hold the ids that were given.
  pub record Agree : Type 0 where
    pub forth : (n : Name) (i : ℕ) → lookup n ids ≡ some i → lookup i groups ≡ some n
    pub back : (n : Name) (i : ℕ) → lookup i groups ≡ some n → lookup n ids ≡ some i
    pub given : (n : Name) (i : ℕ) → lookup i groups ≡ some n → IsGiven (length groups) i

  module _ (ok : Agree) (h : length groups < 256) where
    next : ℕ
    next = (length groups + 1) % 256

    not_given : IsGiven (length groups) next → (◌≡◌ {A = ℕ} 0 1)
    unfolding next
    not_given g = ground arith

    fresh : lookup next groups ≡ none
    fresh = elim (Option-cases (lookup next groups)) [
      | inl e ↦ e
      | inr (n, e) ↦ let bad = not_given (ok.given n next e) in ground arith
    ]

    next-IsGiven : IsGiven (suc (length groups)) next
    unfolding next
    next-IsGiven = ground arith

    wider : (i : ℕ) → IsGiven (length groups) i → IsGiven (suc (length groups)) i
    wider i g = ground arith

module _ (ids : List (Name × ℕ)) (groups : List (ℕ × Name)) (ok : Agree ids groups)
    (h : length groups < 256) (n : Name) (new : lookup n ids ≡ none) where
  insert-Agree :
      Agree (insert n ((length groups + 1) % 256) ids) (insert ((length groups + 1) % 256) n groups)
  unfolding next
  insert-Agree =
      let id = (length groups + 1) % 256 in
      let f : lookup id groups ≡ none = fresh ids groups ok h in
      record {
        forth = λ m i e. ground (
          arith,
          lookup-insert n m id ids,
          lookup-insert id i n groups,
          bytes_beq_iff n m,
          ==_iff id i,
          ok.forth m i,
        );
        back = λ m i e. ground (
          arith,
          lookup-insert n m id ids,
          lookup-insert id i n groups,
          bytes_beq_iff n m,
          ==_iff id i,
          ok.back m i,
        );
        given = λ m i e. rw (length-insert_new id n groups f) (
            ground (
              arith,
              lookup-insert id i n groups,
              ==_iff id i,
              ok.given m i,
              wider ids groups ok h i,
              next-IsGiven ids groups ok h,
            ));
      }

abbrev pub GroupsAgree : {K : Kv} → Storage K → Type 0
GroupsAgree s = Agree s.groups_map s.groups_name

missing {ℓ κ} :
    {K : Type ℓ} {V : Type κ} ⦃e : Eq K⦄ (k : K) (m : List (K × V))
    → contains k m ≡ false
    → lookup k m ≡ none
unfolding contains
missing k m h = ground arith

-- Below 256 groups, adding a map keeps the names and ids of groups inverse to one another: each name
-- has one id and each id one name.
pub add_map-GroupsAgree :
    {K : Kv} (s : Storage K) (n : Name) (type : KeyType)
    → length s.groups_name < 256
    → GroupsAgree s
    → GroupsAgree (add_map s n type)
unfolding add_map
add_map-GroupsAgree s n type h ok = elim (Bool-cases (contains n s.groups_map)) [
  | inl e ↦ rw (e, add_map) ok
  | inr e ↦
      rw (e, add_map) (insert-Agree s.groups_map s.groups_name ok h n (missing n s.groups_map e))
]

length-add_map :
    {K : Kv} (s : Storage K) (n : Name) (type : KeyType)
    → length (add_map s n type).groups_name ≤ suc (length s.groups_name)
unfolding add_map
length-add_map s n type =
    ground (arith, length-insert_le ((length s.groups_name + 1) % 256) n s.groups_name)

unfoldable pub add_maps : {K : Kv} → Storage K → List (Name × KeyType) → Storage K
add_maps s [] = s
add_maps s ((n, type) ∷ rest) = add_maps (add_map s n type) rest

-- As long as the groups are at most 256 with the maps that are added, the names and the ids of groups
-- stay inverse to one another.
pub add_maps-GroupsAgree :
    {K : Kv} (s : Storage K) (maps : List (Name × KeyType))
    → length s.groups_name + length maps ≤ 256
    → GroupsAgree s
    → GroupsAgree (add_maps s maps)
unfolding add_maps
add_maps-GroupsAgree s [] h ok = ok
add_maps-GroupsAgree s ((n, type) ∷ maps) h ok =
    add_maps-GroupsAgree (add_map s n type) maps (omega (arith, length-add_map s n type))
      (add_map-GroupsAgree s n type (omega arith) ok)

-- With 256 groups, a map with a new name gets the id 1 and takes the place of the group that has it,
-- whose name keeps the id.
pub add_map_full :
    {K : Kv} (s : Storage K) (n m : Name) (type : KeyType)
    → length s.groups_name ≡ 256
    → contains n s.groups_map ≡ false
    → get_group_id s m ≡ some 1
    → (get_group_name (add_map s n type) 1 ≡ some n)
      × (get_group_id (add_map s n type) n ≡ some 1)
      × (get_group_id (add_map s n type) m ≡ some 1)
unfolding add_map get_group_name get_group_id
add_map_full s n m type full new old =
    rw (new, full, add_map)
      (
        lookup-insert_self 1 n s.groups_name,
        lookup-insert_self n 1 s.groups_map,
        ground (
          arith,
          lookup-insert n m 1 s.groups_map,
          bytes_beq_iff n m,
          missing n s.groups_map new,
        ),
      )
