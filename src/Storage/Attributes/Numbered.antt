-- ===== src/Storage/Attributes/Numbered.antt =====
-- src/StorageEngine/StorageEngine.cpp: the numbers of the attributes of a class under writes of JSON
-- records.
use gqlite.Prelude.{
  ℕ, suc, ◌+◌, ◌%◌, ◌≤◌, ◌≡◌, ◌⊎◌, refl, false, none, some, List, [], ◌∷◌, ◌++◌, length,
  length-append, arith, Option-cases, Bool-cases, inl, inr,
}
use gqlite.Prelude.Eq.{Eq, bytes_eq}
use gqlite.Prelude.Maps.{lookup, insert, contains}
use gqlite.Storage.Tables.{Name, Attributes, AttributeKind}
use gqlite.Storage.Attributes.{
  Json, kind_of, try_init_attribute_type, init_attributes, init_attributes_u64,
}

-- A new key stands at the end.
insert_new {ℓ κ} :
    {K : Type ℓ} {V : Type κ} ⦃e : Eq K⦄ (k : K) (v : V) (m : List (K × V))
    → lookup k m ≡ none
    → insert k v m ≡ m ++ (k, v) ∷ []
unfolding lookup insert
insert_new k v [] h = refl
insert_new ⦃e⦄ k v ((j, w) ∷ m) h = ground (arith, insert_new k v m)

-- Each attribute has its place in the table as its number, from `i` on.
abbrev pub NumberedFrom : ℕ → Attributes → Type 0
NumberedFrom i [] = Unit
NumberedFrom i ((_, (_, x)) ∷ rest) = (x ≡ i) × NumberedFrom (suc i) rest

-- The attributes have the numbers from 0 on, in their order, each of one byte.
pub record IsNumbered (attributes : Attributes) : Type 0 where
  pub from_zero : NumberedFrom 0 attributes
  pub one_byte : length attributes ≤ 256

numbered_snoc :
    (i : ℕ) (a : Attributes) (n : Name) (kind : AttributeKind)
    → NumberedFrom i a
    → NumberedFrom i (a ++ (n, (kind, i + length a)) ∷ [])
numbered_snoc i [] n kind h = (omega arith, tt)
numbered_snoc i ((m, (k, x)) ∷ a) n kind (h, hs) =
    let e : suc i + length a ≡ i + suc (length a) = omega arith in
    (h, rw⁻¹ e (numbered_snoc (suc i) a n kind hs))

absent {ℓ κ} :
    {K : Type ℓ} {V : Type κ} ⦃e : Eq K⦄ (k : K) (m : List (K × V))
    → contains k m ≡ false
    → lookup k m ≡ none
unfolding contains
absent k m h = ground arith

pub added-IsNumbered :
    (a : Attributes) (n : Name) (kind : AttributeKind)
    → contains n a ≡ false
    → length a ≤ 255
    → IsNumbered a
    → IsNumbered (insert n (kind, length a % 256) a)
added-IsNumbered a n kind new room ok =
    let e : length a % 256 ≡ length a = omega arith in
    let z : 0 + length a ≡ length a = omega arith in
    let q = numbered_snoc 0 a n kind ok.from_zero in
    rw (e) (
      rw (insert_new n (kind, length a) a (absent n a new)) (record {
        from_zero = rw z at q;
        one_byte = omega (arith, length-append a ((n, (kind, length a)) ∷ []), room);
      }))

module _ (J : Json) where
  -- What an attribute table is after a value was looked at: itself, or with one more attribute.
  pub try_init_attribute_type-inv :
      (a a' : Attributes) (n : Name) (v : J.Value)
      → try_init_attribute_type J a n v ≡ some a'
      → (a' ≡ a)
        ⊎ ((kind : AttributeKind) × (contains n a ≡ false)
            × (length a ≤ 255)
            × (a' ≡ insert n (kind, length a % 256) a))
  unfolding try_init_attribute_type
  try_init_attribute_type-inv a a' n v h = elim (Bool-cases (contains n a)) [
    | inl e ↦ inl (ground (arith, e))
    | inr e ↦ elim (Option-cases (kind_of (J.type_of v) (J.type_name v))) [
      | inl q ↦ inl (ground (arith, e, q))
      | inr (kind, q) ↦ inr (kind, e, ground (arith, q), ground (arith, q))
    ]
  ]

  -- A property of attribute tables that one more attribute keeps is kept by the writes.
  module _ (P : Attributes → Type 0)
      (step : (a : Attributes) (n : Name) (kind : AttributeKind)
        → contains n a ≡ false
        → length a ≤ 255
        → P a
        → P (insert n (kind, length a % 256) a)) where
    keeps :
        (a a' : Attributes) (n : Name) (v : J.Value)
        → try_init_attribute_type J a n v ≡ some a'
        → P a
        → P a'
    keeps a a' n v h p = elim (try_init_attribute_type-inv a a' n v h) [
      | inl e ↦ rw e p
      | inr (kind, new, room, e) ↦ rw e (step a n kind new room p)
    ]

    pub loop_keeps :
        (a : Attributes) (items : List (Name × J.Value)) → P a → P (init_attributes J a items).1
    unfolding init_attributes
    loop_keeps a [] p = p
    loop_keeps a ((n, v) ∷ items) p = elim (Option-cases (try_init_attribute_type J a n v)) [
      | inl e ↦ rw (e, init_attributes) p
      | inr (a', e) ↦ rw (e, init_attributes) (loop_keeps a' items (keeps a a' n v e p))
    ]

    pub loop_u64_keeps :
        (a : Attributes) (items : List (Name × J.Value)) → P a → P (init_attributes_u64 J a items).1
    unfolding init_attributes_u64
    loop_u64_keeps a [] p = p
    loop_u64_keeps a ((n, v) ∷ items) p = elim (Option-cases (J.dump v)) [
      | inl d ↦ rw (d, init_attributes_u64) p
      | inr (sv, d) ↦ elim (Option-cases (try_init_attribute_type J a n v)) [
        | inl e ↦ rw (d, e, init_attributes_u64) p
        | inr (a', e) ↦
            rw (d, e, init_attributes_u64) (loop_u64_keeps a' items (keeps a a' n v e p))
      ]
    ]
